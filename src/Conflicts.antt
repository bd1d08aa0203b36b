-- ===== src/Conflicts.antt =====
-- `ConflictAnalyzer` of sky_claw/local/xedit/conflict_analyzer.py, from the conflicts that
-- `parse_conflict_lines` has read: their severity, their groups by pairs of plugins, the suggestions
-- and the limits of the load order. Python's `str.upper().strip()` is an argument, and so is the
-- extension of a file name. A suggestion is its case and its numbers in place of its text.
pub mod Pairs
use sky_claw_gravity.Prelude.{
  Bool, Eq, List, String, [], arith, count_if, false, get_or, if◌then◌else◌, leb, length, ltb,
  string_eq, true, ℕ, ◌&&◌, ◌++◌, ◌==◌, ◌||◌, ◌↔◌, ◌∷◌, ◌≡◌, nat_eq,
}
use sky_claw_gravity.Result.{Result, err, ok}
use Prim.Native.Nat.{Ordering}
use Prim.Native.String as Text
use sky_claw_gravity.Dict

pub data Severity : Type 0 where
  critical warning info : Severity

pub record RecordConflict : Type 0 where
  pub form_id : String
  pub editor_id : String
  pub record_type : String
  pub winner : String
  pub losers : List String
  pub severity : Severity

-- two plugins, the one that sorts first in front
abbrev pub PairKey : Type 0
PairKey = String × String

pub pair_beq_iff : (p q : PairKey) → ((p.0 == q.0 && p.1 == q.1) ≡ true) ↔ (p ≡ q)
pair_beq_iff (a, b) (c, d) = ground (arith, string_eq.beq_iff a c, string_eq.beq_iff b d)

instance abbrev pub pair_eq : Eq PairKey
pair_eq = record { beq = λ p q. p.0 == q.0 && p.1 == q.1; beq_iff = pair_beq_iff }

-- `ConflictReport` without its summary; a pair of plugins has its conflicts in `plugin_pairs`
pub record ConflictReport : Type 0 where
  pub total_conflicts : ℕ
  pub critical_conflicts : ℕ
  pub plugin_pairs : Dict.Dict PairKey (List RecordConflict)

-- `<` on texts
unfoldable pub text_lt : String → String → Bool
text_lt a b = elim (Text.compare a b) [ Ordering.lt ↦ true | _ ↦ false ]

-- the normalised key of two plugins
unfoldable pub pair_key : String → String → PairKey
unfolding text_lt
pair_key winner loser = if text_lt winner loser then (winner, loser) else (loser, winner)

-- `pair_map[key].append(c)` of a `defaultdict(list)`
unfoldable pub append_to :
    Dict.Dict PairKey (List RecordConflict)
    → PairKey
    → RecordConflict
    → Dict.Dict PairKey (List RecordConflict)
append_to pair_map key c = Dict.put pair_map key (get_or (Dict.get pair_map key) [] ++ c ∷ [])

-- the loop over the losers of a conflict
unfoldable pub add_losers :
    Dict.Dict PairKey (List RecordConflict)
    → RecordConflict
    → List String
    → Dict.Dict PairKey (List RecordConflict)
unfolding append_to pair_key
add_losers pair_map c [] = pair_map
add_losers pair_map c (loser ∷ losers) =
    add_losers (append_to pair_map (pair_key c.winner loser) c) c losers

-- the loop over the conflicts
unfoldable pub add_conflicts :
    Dict.Dict PairKey (List RecordConflict)
    → List RecordConflict
    → Dict.Dict PairKey (List RecordConflict)
unfolding add_losers
add_conflicts pair_map [] = pair_map
add_conflicts pair_map (c ∷ cs) = add_conflicts (add_losers pair_map c c.losers) cs

-- `sorted(pair_map.items(), key=lambda x: -len(x[1]))`, which is stable
unfoldable pub insert_pair :
    PairKey
    → List RecordConflict
    → Dict.Dict PairKey (List RecordConflict)
    → Dict.Dict PairKey (List RecordConflict)
insert_pair key cs [] = (key, cs) ∷ []
insert_pair key cs ((k, ds) ∷ rest) =
    let rest' = insert_pair key cs rest in
    if leb (length ds) (length cs) then (key, cs) ∷ (k, ds) ∷ rest else (k, ds) ∷ rest'

unfoldable pub sort_pairs :
    Dict.Dict PairKey (List RecordConflict) → Dict.Dict PairKey (List RecordConflict)
unfolding insert_pair
sort_pairs [] = []
sort_pairs ((key, cs) ∷ rest) = insert_pair key cs (sort_pairs rest)

-- `_group_by_pair`
unfoldable pub group_by_pair : List RecordConflict → Dict.Dict PairKey (List RecordConflict)
unfolding add_conflicts sort_pairs
group_by_pair conflicts = sort_pairs (add_conflicts [] conflicts)

abbrev pub is_critical : RecordConflict → Bool
is_critical c = elim c.severity [ critical ↦ true | _ ↦ false ]

-- `sig in types`
unfoldable pub contains : String → List String → Bool
contains sig [] = false
contains sig (t ∷ ts) = t == sig || contains sig ts

module _ (signature : String → String) (critical_types warning_types : List String) where
  -- `_classify`
  unfoldable pub classify : String → Severity
  unfolding contains
  classify record_type =
      if contains (signature record_type) critical_types
      then critical
      else if contains (signature record_type) warning_types
      then warning
      else info

  -- the loop that sets the severities
  unfoldable pub classify_all : List RecordConflict → List RecordConflict
  unfolding classify
  classify_all [] = []
  classify_all (c ∷ cs) = record c { severity = classify c.record_type } ∷ classify_all cs

  -- `analyze`, from the conflicts that the script has printed
  unfoldable pub analyze : List RecordConflict → ConflictReport
  unfolding classify_all group_by_pair
  analyze raw_conflicts =
      let classified = classify_all raw_conflicts in
      record {
        total_conflicts = length classified;
        critical_conflicts = count_if is_critical classified;
        plugin_pairs = group_by_pair classified;
      }

-- the lists of `DEFAULT_CRITICAL_TYPES` and `DEFAULT_WARNING_TYPES`
abbrev pub default_critical_types : List String
default_critical_types =
    "NPC_" ∷ "QUST" ∷ "SCEN" ∷ "INFO" ∷ "PERK" ∷ "SPEL" ∷ "MGEF" ∷ "FACT" ∷ "DIAL" ∷ "PACK" ∷ []

abbrev pub default_warning_types : List String
default_warning_types =
    "CELL" ∷ "WRLD" ∷ "REFR" ∷ "ACHR" ∷ "NAVM" ∷ "LAND" ∷ "WEAP" ∷ "ARMO" ∷ "AMMO" ∷ "BOOK" ∷ "INGR"
    ∷ "ALCH" ∷ "MISC" ∷ "CONT" ∷ "DOOR" ∷ "LIGH" ∷ "STAT" ∷ "FLOR" ∷ "FURN" ∷ "LVLI" ∷ "LVLN"
    ∷ "LVSP" ∷ "ENCH" ∷ "OTFT" ∷ "RACE" ∷ "COBJ" ∷ "KYWD" ∷ []

-- what the end of a plugin's name says, in lower case
pub data Extension : Type 0 where
  esp esm esl no_plugin : Extension

abbrev pub is_full : Extension → Bool
is_full esp = true
is_full esm = true
is_full _ = false

abbrev pub is_light : Extension → Bool
is_light esl = true
is_light _ = false

abbrev pub full_plugin_limit : ℕ
full_plugin_limit = 254

abbrev pub light_plugin_limit : ℕ
light_plugin_limit = 4096

pub data LimitError : Type 0 where
  full_limit light_limit : ℕ → LimitError

-- `validate_load_order_limit`
unfoldable pub validate_load_order_limit :
    (String → Extension) → List String → Result LimitError (Unit {0})
validate_load_order_limit extension plugins =
    let full = count_if (λ p. is_full (extension p)) plugins in
    let light = count_if (λ p. is_light (extension p)) plugins in
    if ltb full_plugin_limit full
    then err (full_limit full)
    else if ltb light_plugin_limit light
    then err (light_limit light)
    else ok tt
