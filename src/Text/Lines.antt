-- ===== src/Text/Lines.antt =====
-- A text is cut into lines and joined again.
use sky_claw_gravity.Prelude.{
  ==-ne, ==-refl, All, Bool-cases, List, [], ap, arith, inl, inr, refl, true, ℕ, ◌++◌, ◌==◌, ◌∙◌,
  ◌∷◌, ◌≡◌, ◌≢◌, nat_eq, string_eq,
}
use sky_claw_gravity.Text.{ends_line, joined, lines_of, newline, onto_first}

-- no newline before the last character
abbrev pub IsLine : List ℕ → Type 0
IsLine [] = Unit
IsLine (c ∷ []) = Unit
IsLine (c ∷ d ∷ cs) = (c ≢ newline) × IsLine (d ∷ cs)

pub lines_of-line :
    (l rest : List ℕ) → IsLine l → ends_line l ≡ true → lines_of (l ++ rest) ≡ l ∷ lines_of rest
unfolding lines_of ends_line
lines_of-line [] rest i e = cc
lines_of-line (c ∷ []) rest i e = rw e refl
lines_of-line (c ∷ d ∷ cs) rest i e =
    rw (==-ne c newline i.0) (rw (lines_of-line (d ∷ cs) rest i.1 e) refl)

-- lines that end with their newline come back
pub lines_of-joined :
    (ls : List (List ℕ))
    → All IsLine ls
    → All (λ l. ends_line l ≡ true) ls
    → lines_of (joined ls) ≡ ls
unfolding joined lines_of
lines_of-joined [] i e = refl
lines_of-joined (l ∷ ls) i e =
    lines_of-line l (joined ls) i.0 e.0 ∙ ap (◌∷◌ l) (lines_of-joined ls i.1 e.1)

onto_first-append :
    (c : ℕ) (ls ms : List (List ℕ)) → ls ≢ [] → onto_first c (ls ++ ms) ≡ onto_first c ls ++ ms
unfolding onto_first
onto_first-append c [] ms h = absurd (h refl)
onto_first-append c (l ∷ ls) ms h = refl

lines_of-ne-nil : (c : ℕ) (cs : List ℕ) → lines_of (c ∷ cs) ≢ []
unfolding lines_of
lines_of-ne-nil c cs h = elim (Bool-cases (c == newline)) [
  | inl p ↦ ground (arith, rw (p, lines_of) at h)
  | inr p ↦ go (lines_of cs) (rw (p, lines_of) at h)
]
  where
    go : (ls : List (List ℕ)) → onto_first c ls ≡ [] → ⊥
    go [] q = ground (arith, q)
    go (l ∷ ls) q = ground (arith, q)

-- what is appended to a text that ends with a newline is more lines
pub lines_of-append :
    (t u : List ℕ) → ends_line t ≡ true → lines_of (t ++ u) ≡ lines_of t ++ lines_of u
unfolding lines_of ends_line
lines_of-append [] u e = cc
lines_of-append (c ∷ []) u e = rw e refl
lines_of-append (c ∷ d ∷ cs) u e = elim (Bool-cases (c == newline)) [
  | inl p ↦ rw p (ap (◌∷◌ (c ∷ [])) (lines_of-append (d ∷ cs) u e))
  | inr p ↦ rw p (
      ap (onto_first c) (lines_of-append (d ∷ cs) u e)
      ∙ onto_first-append c (lines_of (d ∷ cs)) (lines_of u) (lines_of-ne-nil d cs))
]

onto_first-IsLine :
    (c : ℕ) (ls : List (List ℕ)) → c ≢ newline → All IsLine ls → All IsLine (onto_first c ls)
unfolding onto_first
onto_first-IsLine c [] h i = (tt, tt)
onto_first-IsLine c ([] ∷ ls) h i = (tt, i.1)
onto_first-IsLine c ((d ∷ l) ∷ ls) h i = ((h, i.0), i.1)

pub lines_of-IsLine : (t : List ℕ) → All IsLine (lines_of t)
unfolding lines_of
lines_of-IsLine [] = tt
lines_of-IsLine (c ∷ cs) = elim (Bool-cases (c == newline)) [
  | inl p ↦ rw p (tt, lines_of-IsLine cs)
  | inr p ↦
      rw p
        (onto_first-IsLine c (lines_of cs) (λ q. cc (q, p, ==-refl newline)) (lines_of-IsLine cs))
]
