-- ===== src/Conflicts/Pairs.antt =====
-- What the groups of conflicts hold.
use sky_claw_gravity.Prelude.{
  ==-eq, All, Bool-cases, List, String, [], ap, append-nil, append_assoc, arith, get_or,
  if◌then◌else◌, inl, inr, leb, leb→le, length, none, refl, some, suc, sym, ℕ, ◌++◌, ◌==◌, ◌∙◌, ◌∷◌,
  ◌≡◌, ◌≤◌, nat_eq, string_eq,
}
use sky_claw_gravity.Conflicts.{
  PairKey, RecordConflict, add_conflicts, add_losers, analyze, append_to, classify_all,
  group_by_pair, insert_pair, pair_eq, pair_key, sort_pairs,
}
use sky_claw_gravity.Conflicts.{
  PairKey, RecordConflict, add_conflicts, add_losers, analyze, append_to, classify_all,
  group_by_pair, insert_pair, pair_eq, pair_key, sort_pairs,
}
use sky_claw_gravity.Conflicts.{
  PairKey, RecordConflict, add_conflicts, add_losers, analyze, append_to, classify_all,
  group_by_pair, insert_pair, pair_eq, pair_key, sort_pairs,
}
use sky_claw_gravity.Conflicts.{
  PairKey, RecordConflict, add_conflicts, add_losers, analyze, append_to, classify_all,
  group_by_pair, insert_pair, pair_eq, pair_key, sort_pairs,
}
use sky_claw_gravity.Dict
use sky_claw_gravity.Dict.{Unique, get-put, put-Unique}

-- the conflict once for each loser that makes the pair with its winner
abbrev pub shared_one : PairKey → RecordConflict → List String → List RecordConflict
shared_one key c [] = []
shared_one key c (loser ∷ losers) =
    let rest = shared_one key c losers in if pair_key c.winner loser == key then c ∷ rest else rest

-- the conflicts between the two plugins of a pair, in their order
abbrev pub shared : PairKey → List RecordConflict → List RecordConflict
shared key [] = []
shared key (c ∷ cs) = shared_one key c c.losers ++ shared key cs

-- the conflicts that a report has for a pair
abbrev pub conflicts_of : Dict.Dict PairKey (List RecordConflict) → PairKey → List RecordConflict
conflicts_of pairs key = get_or (Dict.get pairs key) []

-- the pairs with most conflicts come first
abbrev pub AtMost : ℕ → Dict.Dict PairKey (List RecordConflict) → Type 0
AtMost n = All (λ p. length p.1 ≤ n)

abbrev pub HeavyFirst : Dict.Dict PairKey (List RecordConflict) → Type 0
HeavyFirst [] = Unit
HeavyFirst ((key, cs) ∷ rest) = AtMost (length cs) rest × HeavyFirst rest

append_to_lem :
    (m : Dict.Dict PairKey (List RecordConflict)) (k j : PairKey) (c : RecordConflict)
    → conflicts_of (append_to m k c) j
      ≡ (if k == j then conflicts_of m k ++ c ∷ [] else conflicts_of m j)
unfolding append_to
append_to_lem m k j c = elim (Bool-cases (k == j)) [
  | inl p ↦ rw (get-put m k j (conflicts_of m k ++ c ∷ [])) (rw p refl)
  | inr p ↦ rw (get-put m k j (conflicts_of m k ++ c ∷ [])) (rw p refl)
]

add_losers_lem :
    (m : Dict.Dict PairKey (List RecordConflict)) (key : PairKey) (c : RecordConflict)
    (losers : List String)
    → conflicts_of (add_losers m c losers) key ≡ conflicts_of m key ++ shared_one key c losers
unfolding add_losers
add_losers_lem m key c [] = sym (append-nil _)
add_losers_lem m key c (loser ∷ losers) = elim (Bool-cases (pair_key c.winner loser == key)) [
  | inl p ↦
      let k = pair_key c.winner loser in
      let one : conflicts_of (append_to m k c) key ≡ conflicts_of m key ++ c ∷ [] =
        append_to_lem m k key c ∙ rw p (ap (λ x. conflicts_of m x ++ c ∷ []) (==-eq k key p)) in
      add_losers_lem (append_to m k c) key c losers
      ∙ ap (λ l. l ++ shared_one key c losers) one
      ∙ rw p (append_assoc (conflicts_of m key) (c ∷ []) (shared_one key c losers))
  | inr p ↦
      let k = pair_key c.winner loser in
      let one : conflicts_of (append_to m k c) key ≡ conflicts_of m key =
        append_to_lem m k key c ∙ rw p refl in
      add_losers_lem (append_to m k c) key c losers
      ∙ ap (λ l. l ++ shared_one key c losers) one
      ∙ rw p refl
]

add_conflicts_lem :
    (m : Dict.Dict PairKey (List RecordConflict)) (key : PairKey) (cs : List RecordConflict)
    → conflicts_of (add_conflicts m cs) key ≡ conflicts_of m key ++ shared key cs
unfolding add_conflicts
add_conflicts_lem m key [] = sym (append-nil _)
add_conflicts_lem m key (c ∷ cs) =
    add_conflicts_lem (add_losers m c c.losers) key cs
    ∙ ap (λ l. l ++ shared key cs) (add_losers_lem m key c c.losers)
    ∙ append_assoc (conflicts_of m key) (shared_one key c c.losers) (shared key cs)

get-insert_pair :
    (k j : PairKey) (cs : List RecordConflict) (m : Dict.Dict PairKey (List RecordConflict))
    → Dict.get m k ≡ none
    → Dict.get (insert_pair k cs m) j ≡ (if k == j then some cs else Dict.get m j)
unfolding insert_pair Dict.get
get-insert_pair k j cs [] e = refl
get-insert_pair k j cs ((i, ds) ∷ m) e = elim (Bool-cases (i == k)) [
  | inl p ↦ absurd (ground (arith, e, p))
  | inr p ↦ elim (Bool-cases (leb (length ds) (length cs))) [
    | inl q ↦ rw q refl
    | inr q ↦ rw q (
        ground (
          arith,
          get-insert_pair k j cs m (ground (arith, e, p)),
          pair_eq.beq_iff i k,
          pair_eq.beq_iff i j,
          pair_eq.beq_iff k j,
          p,
        ))
  ]
]

get-sort_pairs :
    (m : Dict.Dict PairKey (List RecordConflict)) (j : PairKey)
    → Unique m
    → Dict.get (sort_pairs m) j ≡ Dict.get m j
unfolding sort_pairs Dict.get
get-sort_pairs [] j u = refl
get-sort_pairs ((k, cs) ∷ m) j (f, u) =
    get-insert_pair k j cs (sort_pairs m) (get-sort_pairs m k u ∙ f)
    ∙ rw (get-sort_pairs m j u) refl

AtMost-insert_pair :
    (n : ℕ) (k : PairKey) (cs : List RecordConflict) (m : Dict.Dict PairKey (List RecordConflict))
    → length cs ≤ n
    → AtMost n m
    → AtMost n (insert_pair k cs m)
unfolding insert_pair
AtMost-insert_pair n k cs [] h a = (h, tt)
AtMost-insert_pair n k cs ((i, ds) ∷ m) h (b, a) = elim (Bool-cases (leb (length ds) (length cs))) [
  | inl p ↦ rw p (h, (b, a))
  | inr p ↦ rw p (b, AtMost-insert_pair n k cs m h a)
]

AtMost-weaken :
    (n o : ℕ) (m : Dict.Dict PairKey (List RecordConflict)) → n ≤ o → AtMost n m → AtMost o m
AtMost-weaken n o [] h a = tt
AtMost-weaken n o (p ∷ m) h (b, a) = (omega (arith, h, b), AtMost-weaken n o m h a)

insert_pair-HeavyFirst :
    (k : PairKey) (cs : List RecordConflict) (m : Dict.Dict PairKey (List RecordConflict))
    → HeavyFirst m
    → HeavyFirst (insert_pair k cs m)
unfolding insert_pair
insert_pair-HeavyFirst k cs [] h = (tt, tt)
insert_pair-HeavyFirst k cs ((i, ds) ∷ m) (a, h) = elim (Bool-cases (leb (length ds) (length cs))) [
  | inl p ↦ rw p ((leb→le _ _ p, AtMost-weaken (length ds) (length cs) m (leb→le _ _ p) a), (a, h))
  | inr p ↦
      rw p (
        AtMost-insert_pair (length ds) k cs m (ground (arith, p)) a,
        insert_pair-HeavyFirst k cs m h,
      )
]

sort_pairs-HeavyFirst : (m : Dict.Dict PairKey (List RecordConflict)) → HeavyFirst (sort_pairs m)
unfolding sort_pairs
sort_pairs-HeavyFirst [] = tt
sort_pairs-HeavyFirst ((k, cs) ∷ m) =
    insert_pair-HeavyFirst k cs (sort_pairs m) (sort_pairs-HeavyFirst m)

add_losers-Unique :
    (m : Dict.Dict PairKey (List RecordConflict)) (c : RecordConflict) (losers : List String)
    → Unique m
    → Unique (add_losers m c losers)
unfolding add_losers append_to
add_losers-Unique m c [] u = u
add_losers-Unique m c (loser ∷ losers) u =
    add_losers-Unique (append_to m (pair_key c.winner loser) c) c losers (put-Unique m _ _ u)

add_conflicts-Unique :
    (m : Dict.Dict PairKey (List RecordConflict)) (cs : List RecordConflict)
    → Unique m
    → Unique (add_conflicts m cs)
unfolding add_conflicts
add_conflicts-Unique m [] u = u
add_conflicts-Unique m (c ∷ cs) u =
    add_conflicts-Unique (add_losers m c c.losers) cs (add_losers-Unique m c c.losers u)

module _ (signature : String → String) (critical_types warning_types : List String) where
  length-classify_all :
      (raw : List RecordConflict)
      → length (classify_all signature critical_types warning_types raw) ≡ length raw
  unfolding classify_all
  length-classify_all [] = refl
  length-classify_all (c ∷ cs) = ap suc (length-classify_all cs)

  -- The report has for each pair of plugins exactly the conflicts between the two, classified and in
  -- their order, one for each loser; the pairs with most conflicts come first; and the total counts
  -- each conflict once.
  pub analyze_lem :
      (raw : List RecordConflict)
      → let report = analyze signature critical_types warning_types raw in
        ((key : PairKey)
          → conflicts_of report.plugin_pairs key
            ≡ shared key (classify_all signature critical_types warning_types raw))
        × HeavyFirst report.plugin_pairs
        × (report.total_conflicts ≡ length raw)
  unfolding analyze group_by_pair Dict.get
  analyze_lem raw =
      let classified = classify_all signature critical_types warning_types raw in
      let pair_map = add_conflicts [] classified in
      (
        λ key.
            ap (λ o. get_or o [])
              (get-sort_pairs pair_map key (add_conflicts-Unique [] classified tt))
            ∙ add_conflicts_lem [] key classified,
        sort_pairs-HeavyFirst pair_map,
        length-classify_all raw,
      )
