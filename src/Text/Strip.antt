-- ===== src/Text/Strip.antt =====
-- `strip` takes every space at the ends, and no more.
use sky_claw_gravity.Prelude.{
  Bool, Bool-cases, List, [], ap, arith, false, inl, inr, refl, true, ℕ, ◌++◌, ◌∙◌, ◌∷◌, ◌≡◌,
}
use sky_claw_gravity.Text.{before, is_space, lstrip, newline, rstrip, strip}

before-fixed : (drops : ℕ → Bool) (c : ℕ) (r cs : List ℕ) → before drops c r ≡ c ∷ cs → r ≡ cs
unfolding before
before-fixed drops c [] cs h = ground (arith, h)
before-fixed drops c (d ∷ ds) cs h = ground (arith, h)

before-rstrip :
    (drops : ℕ → Bool) (c : ℕ) (r : List ℕ)
    → rstrip drops r ≡ r
    → rstrip drops (before drops c r) ≡ before drops c r
unfolding rstrip
before-rstrip drops c [] h = elim (Bool-cases (drops c)) [
  | inl p ↦ rw (p, before) refl
  | inr p ↦ rw (p, before) (rw (p, before) refl)
]
before-rstrip drops c (d ∷ ds) h = ap (before drops c) h

pub rstrip_idem : (drops : ℕ → Bool) (t : List ℕ) → rstrip drops (rstrip drops t) ≡ rstrip drops t
unfolding rstrip
rstrip_idem drops [] = refl
rstrip_idem drops (c ∷ cs) = before-rstrip drops c (rstrip drops cs) (rstrip_idem drops cs)

-- a space at the end is taken
pub rstrip-snoc :
    (drops : ℕ → Bool) (t : List ℕ) (c : ℕ)
    → drops c ≡ true
    → rstrip drops (t ++ c ∷ []) ≡ rstrip drops t
unfolding rstrip
rstrip-snoc drops [] c h = rw (h, before) refl
rstrip-snoc drops (d ∷ ds) c h = ap (before drops d) (rstrip-snoc drops ds c h)

lstrip_idem : (t : List ℕ) → lstrip (lstrip t) ≡ lstrip t
unfolding lstrip
lstrip_idem [] = refl
lstrip_idem (c ∷ cs) = elim (Bool-cases (is_space c)) [
  | inl p ↦ rw (p, lstrip) (lstrip_idem cs)
  | inr p ↦ rw (p, lstrip) (rw (p, lstrip) refl)
]

lstrip-rstrip : (t : List ℕ) → rstrip is_space t ≡ t → rstrip is_space (lstrip t) ≡ lstrip t
unfolding lstrip rstrip
lstrip-rstrip [] h = refl
lstrip-rstrip (c ∷ cs) h = elim (Bool-cases (is_space c)) [
  | inl p ↦ rw (p, lstrip) (lstrip-rstrip cs (before-fixed is_space c _ cs h))
  | inr p ↦ rw (p, lstrip) h
]

pub rstrip-strip : (t : List ℕ) → rstrip is_space (strip t) ≡ strip t
unfolding strip
rstrip-strip t = lstrip-rstrip (rstrip is_space t) (rstrip_idem is_space t)

pub strip_idem : (t : List ℕ) → strip (strip t) ≡ strip t
unfolding strip
strip_idem t = ap lstrip (rstrip-strip t) ∙ lstrip_idem (rstrip is_space t)

lstrip-before : (c : ℕ) (r : List ℕ) → is_space c ≡ false → lstrip (before is_space c r) ≡ c ∷ r
unfolding lstrip before
lstrip-before c [] h = rw (h, before) (rw (h, lstrip) refl)
lstrip-before c (d ∷ ds) h = rw (h, lstrip) refl

-- a first character that is no space, and a newline at the end
pub strip-line :
    (c : ℕ) (t : List ℕ)
    → is_space c ≡ false
    → strip (c ∷ (t ++ newline ∷ [])) ≡ c ∷ rstrip is_space t
unfolding strip rstrip
strip-line c t h =
    ap (λ r. lstrip (before is_space c r)) (rstrip-snoc is_space t newline refl)
    ∙ lstrip-before c (rstrip is_space t) h
