-- ===== src/Journal/Latest.antt =====
-- Which entry `get_last_operation` takes, and what an undo leaves.
use sky_claw_gravity.Prelude.{
  All, Bool, Bool-cases, List, Option, String, [], arith, false, inl, inr, none, refl, some, subst,
  sym, true, ◌∷◌, ◌≡◌, ◌≤◌,
}
use sky_claw_gravity.Journal.{JournalEntry}
use sky_claw_gravity.Journal.Undo.{comes_first, first_of, get_last_operation, is_candidate}
use mathlib.Core.List.{Memᴰ}

-- no undoable entry of the agent among the rest is later
abbrev pub IsLast : String → JournalEntry → List JournalEntry → Type 0
IsLast agent_id e = All (λ f. is_candidate agent_id f ≡ true → f.timestamp ≤ e.timestamp)

-- what `get_last_operation` answers
abbrev pub Latest : String → List JournalEntry → Option JournalEntry → Type 0
Latest agent_id es none = All (λ f. is_candidate agent_id f ≡ false) es
Latest agent_id es (some e) = Memᴰ e es × (is_candidate agent_id e ≡ true) × IsLast agent_id e es

module _ (tie : JournalEntry → JournalEntry → Bool) (agent_id : String) where
  IsLast-le :
      (e f : JournalEntry) (es : List JournalEntry)
      → f.timestamp ≤ e.timestamp
      → IsLast agent_id f es
      → IsLast agent_id e es
  IsLast-le e f [] h l = tt
  IsLast-le e f (x ∷ es) h l = (λ c. omega (arith, h, l.0 c), IsLast-le e f es h l.1)

  none-IsLast :
      (e : JournalEntry) (es : List JournalEntry) → Latest agent_id es none → IsLast agent_id e es
  none-IsLast e [] l = tt
  none-IsLast e (x ∷ es) l = (λ c. ground (arith, c, l.0), none-IsLast e es l.1)

  comes_first-le : (e f : JournalEntry) → comes_first tie e f ≡ true → f.timestamp ≤ e.timestamp
  unfolding comes_first
  comes_first-le e f h = ground (arith, h)

  comes_first-ge : (e f : JournalEntry) → comes_first tie e f ≡ false → e.timestamp ≤ f.timestamp
  unfolding comes_first
  comes_first-ge e f h = ground (arith, h)

  skip :
      (e : JournalEntry) (es : List JournalEntry) (rest : Option JournalEntry)
      → is_candidate agent_id e ≡ false
      → Latest agent_id es rest
      → Latest agent_id (e ∷ es) rest
  skip e es none p l = (p, l)
  skip e es (some f) p (m, d, l) = (Memᴰ.tail m, d, (λ c. ground (arith, c, p), l))

  first : (e f : JournalEntry) → comes_first tie e f ≡ true → first_of tie e (some f) ≡ e
  unfolding first_of
  first e f p = rw p refl

  second : (e f : JournalEntry) → comes_first tie e f ≡ false → first_of tie e (some f) ≡ f
  unfolding first_of
  second e f p = rw p refl

  first_of_lem :
      (e : JournalEntry) (es : List JournalEntry) (rest : Option JournalEntry)
      → is_candidate agent_id e ≡ true
      → Latest agent_id es rest
      → Latest agent_id (e ∷ es) (some (first_of tie e rest))
  unfolding first_of
  first_of_lem e es none c l = (Memᴰ.head refl, c, (λ _. omega arith, none-IsLast e es l))
  first_of_lem e es (some f) c (m, d, l) = elim (Bool-cases (comes_first tie e f)) [
    | inl p ↦
        subst (λ x. Latest agent_id (e ∷ es) (some x)) (sym (first e f p))
          (Memᴰ.head refl, c, (λ _. omega arith, IsLast-le e f es (comes_first-le e f p) l))
    | inr p ↦
        subst (λ x. Latest agent_id (e ∷ es) (some x)) (sym (second e f p))
          (Memᴰ.tail m, d, (λ _. comes_first-ge e f p, l))
  ]

  pub get_last_operation_lem :
      (es : List JournalEntry) → Latest agent_id es (get_last_operation tie agent_id es)
  unfolding get_last_operation
  get_last_operation_lem [] = tt
  get_last_operation_lem (e ∷ es) = elim (Bool-cases (is_candidate agent_id e)) [
    | inl p ↦ rw p (first_of_lem e es _ p (get_last_operation_lem es))
    | inr p ↦ rw p (skip e es _ p (get_last_operation_lem es))
  ]
