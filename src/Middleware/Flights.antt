-- ===== src/Middleware/Flights.antt =====
-- The list of the calls in flight: membership, removal, and items that differ pairwise.
use sky_claw_gravity.Prelude.{
  ==-eq, All, Bool, Bool-cases, List, [], arith, false, inl, inr, keep, nat_beq_iff, not, subst,
  true, ℕ, ◌==◌, ◌||◌, ◌∷◌, ◌≡◌, ◌≢◌, nat_eq, string_eq,
}

abbrev pub flies : List ℕ → ℕ → Bool
flies [] t = false
flies (i ∷ is) t = i == t || flies is t

abbrev pub without : ℕ → List ℕ → List ℕ
without t is = keep (λ i. not (i == t)) is

abbrev pub Distinct : List ℕ → Type 0
Distinct [] = Unit
Distinct (t ∷ ts) = All (λ t'. t ≢ t') ts × Distinct ts

pub All-without :
    {P : ℕ → Type 0} {Q : ℕ → Type 0} (t : ℕ) (ts : List ℕ)
    → ((i : ℕ) → i ≢ t → P i → Q i)
    → All P ts
    → All Q (without t ts)
All-without t [] f a = tt
All-without t (i ∷ ts) f a = elim (Bool-cases (i == t)) [
  | inl p ↦ rw p (All-without t ts f a.1)
  | inr p ↦ rw p (f i (ground (arith, nat_beq_iff i t)) a.0, All-without t ts f a.1)
]

pub All-map :
    (P : ℕ → Type 0) (Q : ℕ → Type 0) → ((i : ℕ) → P i → Q i) → (ts : List ℕ) → All P ts → All Q ts
All-map P Q f [] a = tt
All-map P Q f (i ∷ ts) a = (f i a.0, All-map P Q f ts a.1)

pub Distinct-without : (t : ℕ) (ts : List ℕ) → Distinct ts → Distinct (without t ts)
Distinct-without t [] d = tt
Distinct-without t (i ∷ ts) d = elim (Bool-cases (i == t)) [
  | inl p ↦ rw p (Distinct-without t ts d.1)
  | inr p ↦ rw p (All-without t ts (λ j ne q. q) d.0, Distinct-without t ts d.1)
]

pub All-flies : (Q : ℕ → Type 0) (t : ℕ) (ts : List ℕ) → All Q ts → flies ts t ≡ true → Q t
All-flies Q t (i ∷ ts) a f = elim (Bool-cases (i == t)) [
  | inl p ↦ subst Q (==-eq i t p) a.0
  | inr p ↦ All-flies Q t ts a.1 (ground arith)
]
All-flies Q t [] a f = cc
