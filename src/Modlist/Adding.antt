-- ===== src/Modlist/Adding.antt =====
-- What `add_mod_to_modlist` appends.
use sky_claw_gravity.Modlist.Names.{assert_safe_component-IsBare, check_names-name}
use sky_claw_gravity.Result.{ok}
use sky_claw_gravity.Prelude.{
  Bool, Bool-cases, List, Option, [], ap, append-nil, arith, false, inl, inr, keep, none, refl,
  some, subst, true, ℕ, ◌++◌, ◌==◌, ◌||◌, ◌∙◌, ◌∷◌, ◌≡◌, ◌≢◌, ◌⊎◌, nat_eq, string_eq,
}
use sky_claw_gravity.Text.{
  codes_beq_refl, ends_line, is_space, lines_of, newline, rstrip, strip, codes_eq,
}
use sky_claw_gravity.Text.Strip.{rstrip-strip}
use sky_claw_gravity.Text.Lines.{IsLine, lines_of-append, lines_of-line}
use sky_claw_gravity.Modlist.{
  ModlistFile, add_mod, check_names, collect, entries, is_mark, is_present, mod_line, name_of,
  parse_line, remove_mod, yielded,
}
use sky_claw_gravity.Modlist.Entries.{IsBare, IsBare-snoc}
use sky_claw_gravity.Modlist.Edits.{mark_of-IsMark, parse_line-mod_line}
use sky_claw_gravity.Modlist.Removal.{is_other, remove_mod-entries}

yielded-append :
    (o : Option (List ℕ × Bool)) (xs ys : List (List ℕ × Bool))
    → yielded o (xs ++ ys) ≡ yielded o xs ++ ys
unfolding yielded
yielded-append none xs ys = refl
yielded-append (some e) xs ys = refl

collect-append : (ls ms : List (List ℕ)) → collect (ls ++ ms) ≡ collect ls ++ collect ms
unfolding collect
collect-append [] ms = refl
collect-append (raw ∷ ls) ms =
    ap (yielded (parse_line (strip raw))) (collect-append ls ms)
    ∙ yielded-append (parse_line (strip raw)) (collect ls) (collect ms)

-- the name has no spaces at its ends
abbrev pub IsTrimmed : List ℕ → Type 0
IsTrimmed name = strip name ≡ name

pub trimmed-rstrip : (name : List ℕ) → IsTrimmed name → rstrip is_space name ≡ name
trimmed-rstrip name h = subst (λ t. rstrip is_space t ≡ t) h (rstrip-strip name)

pub one_line : (l : List ℕ) → IsLine l → ends_line l ≡ true → lines_of l ≡ l ∷ []
unfolding lines_of
one_line l i e = subst (λ t. lines_of t ≡ l ∷ []) (append-nil l) (lines_of-line l [] i e)

pub mod_line-ends : (mark : ℕ) (name : List ℕ) → ends_line (mod_line mark name) ≡ true
unfolding ends_line
mod_line-ends mark [] = refl
mod_line-ends mark (c ∷ cs) = mod_line-ends c cs

-- the line of a mod is the one entry of itself
pub entries-marked :
    (mark : ℕ) (name : List ℕ)
    → is_mark mark ≡ true
    → mark ≢ newline
    → name ≢ []
    → IsBare name
    → IsTrimmed name
    → collect (lines_of (mod_line mark name)) ≡ (name, mark == b'+') ∷ []
unfolding collect yielded
entries-marked mark name m k n b t =
    ap collect
      (one_line (mod_line mark name) (IsBare-snoc (mark ∷ name) (k, b)) (mod_line-ends mark name))
    ∙ ap (λ o. yielded o []) (parse_line-mod_line mark name m n t (trimmed-rstrip name t))

-- a mod that has an entry is present
entry_present :
    (name : List ℕ) (s : List ℕ) (rest : List (List ℕ × Bool)) (later : Bool)
    → (elim (name_of s) as (λ _. Bool) [ none ↦ later | some other ↦ other == name || later ])
      ≡ false
    → (later ≡ false)
      × (keep (is_other name) rest ≡ rest
          → keep (is_other name) (yielded (parse_line s) rest) ≡ yielded (parse_line s) rest)
unfolding name_of parse_line yielded
entry_present name [] rest later h = (h, λ k. k)
entry_present name (c ∷ cs) rest later h = (ground (arith, h), λ k. ground (arith, h, k))

absent_kept :
    (name : List ℕ) (lines : List (List ℕ))
    → is_present name lines ≡ false
    → keep (is_other name) (collect lines) ≡ collect lines
unfolding is_present collect
absent_kept name [] h = refl
absent_kept name (raw ∷ lines) h =
    let (later, step) = entry_present name (strip raw) (collect lines) (is_present name lines) h in
    step (absent_kept name lines later)

-- the text is empty or ends with a newline
abbrev pub IsEnded : List ℕ → Type 0
IsEnded text = (text ≡ []) ⊎ (ends_line text ≡ true)

pub entries-ended :
    (text l : List ℕ) (entry : List ℕ × Bool)
    → IsEnded text
    → collect (lines_of l) ≡ entry ∷ []
    → entries (text ++ l) ≡ entries text ++ entry ∷ []
unfolding entries lines_of collect
entries-ended text l entry (inl p) h = rw p h
entries-ended text l entry (inr p) h =
    ap collect (lines_of-append text l p)
    ∙ collect-append (lines_of text) (lines_of l)
    ∙ ap (λ es. collect (lines_of text) ++ es) h

keep-append :
    (p : List ℕ × Bool → Bool) (xs ys : List (List ℕ × Bool))
    → keep p (xs ++ ys) ≡ keep p xs ++ keep p ys
keep-append p [] ys = refl
keep-append p (x ∷ xs) ys = elim (Bool-cases (p x)) [
  | inl h ↦ rw h (ap (◌∷◌ x) (keep-append p xs ys))
  | inr h ↦ rw h (keep-append p xs ys)
]

-- For a list whose text is empty or ends with a newline, a permitted path, safe names and a mod whose
-- name has no spaces at its ends and which has no line in the list: `add_mod` succeeds, the new list
-- is read as the old one and then the mod, enabled; and when `remove_mod` takes the mod out of that
-- list and its write succeeds, the entries are the old ones again.
pub remove_mod-add_mod :
    (f : ModlistFile) (name profile : List ℕ) (is_inside : Bool)
    → check_names name profile is_inside ≡ none
    → IsEnded f.text
    → IsTrimmed name
    → is_present name (lines_of f.text) ≡ false
    → let (file, answer) = add_mod (some f) name profile is_inside in
      (answer ≡ ok tt)
      × ((g : ModlistFile) × (file ≡ some g)
          × (entries g.text ≡ entries f.text ++ (name, true) ∷ []))
      × ((g : ModlistFile) × ((remove_mod file name profile is_inside false).0 ≡ some g)
          × (entries g.text ≡ entries f.text))
unfolding add_mod entries
remove_mod-add_mod f name profile is_inside h e t a =
    let (nonempty, bare) =
      assert_safe_component-IsBare name (check_names-name name profile is_inside h) in
    let added : ModlistFile = record f { text = f.text ++ mod_line b'+' name } in
    let read =
      entries-ended f.text (mod_line b'+' name) (name, true) e
        (entries-marked b'+' name (mark_of-IsMark true) (λ p. ground (arith, p)) nonempty bare t) in
    let (_, (g, r, k)) = remove_mod-entries added name profile is_inside h in
    let old = absent_kept name (lines_of f.text) a in
    rw (h, a, add_mod)
      (
        refl,
        (added, refl, read),
        (
          g,
          r,
          k
              ∙ ap (keep (is_other name)) read
              ∙ keep-append (is_other name) (entries f.text) ((name, true) ∷ [])
              ∙ rw (codes_beq_refl name) (append-nil _ ∙ old),
        ),
      )
