-- ===== src/LoopGuardrail/Streak.antt =====
-- The test on the last n actions, read as the length of the run that the history begins with.
use sky_claw_gravity.Prelude.{
  ==-eq, ==-refl, Bool, Bool-cases, List, String, [], all_of, ap, arith, if◌then◌else◌, inl, inr,
  leb, length, refl, suc, sym, take, true, zero, ℕ, ◌&&◌, ◌+◌, ◌<◌, ◌==◌, ◌∙◌, ◌∷◌, ◌≡◌, ◌≤◌,
  nat_eq, string_eq,
}
use sky_claw_gravity.LoopGuardrail.{all_same, last_or}

-- how many actions at the near end are `a`
unfoldable pub streak : String → List String → ℕ
streak a [] = 0
streak a (x ∷ xs) = let rest = streak a xs in if x == a then suc rest else 0

unfoldable pub equal_to : String → List String → Bool
equal_to a xs = all_of (λ x. x == a) xs

take-take-le : (n w : ℕ) (xs : List String) → n ≤ w → take n (take w xs) ≡ take n xs
take-take-le zero w xs h = refl
take-take-le (suc n) zero xs h = absurd (omega arith)
take-take-le (suc n) (suc w) [] h = refl
take-take-le (suc n) (suc w) (x ∷ xs) h = ap (◌∷◌ x) (take-take-le n w xs (omega arith))

leb-length-take :
    (n w : ℕ) (xs : List String) → n ≤ w → leb n (length (take w xs)) ≡ leb n (length xs)
leb-length-take n zero xs h = ground arith
leb-length-take n (suc w) [] h = refl
leb-length-take zero (suc w) (x ∷ xs) h = ground arith
leb-length-take (suc n) (suc w) (x ∷ xs) h = ground (arith, leb-length-take n w xs (omega arith))

-- all are the same as the furthest exactly when all are the same as the nearest
last-equal : (a : String) (xs : List String) → equal_to a xs ≡ true → last_or a xs ≡ a
unfolding last_or equal_to
last-equal a [] h = refl
last-equal a (x ∷ xs) h =
    let e : x ≡ a = ==-eq x a (ground arith) in rw e (last-equal a xs (ground arith))

all_same_unfolded :
    (a : String) (xs : List String) → all_same (a ∷ xs) ≡ equal_to (last_or a xs) (a ∷ xs)
unfolding all_same equal_to
all_same_unfolded a xs = refl

pub all_same-equal_to : (a : String) (xs : List String) → all_same (a ∷ xs) ≡ equal_to a (a ∷ xs)
unfolding equal_to
all_same-equal_to a xs =
    let same = λ (e : last_or a xs ≡ a).
      all_same_unfolded a xs ∙ ap (λ (b : String). equal_to b (a ∷ xs)) e in
    elim (Bool-cases (equal_to a (a ∷ xs))) [
      | inl p ↦ same (last-equal a xs (ground arith))
      | inr p ↦ elim (Bool-cases (equal_to (last_or a xs) (a ∷ xs))) [
        | inl q ↦ same (sym (==-eq a (last_or a xs) (ground arith)))
        | inr q ↦ all_same_unfolded a xs ∙ q ∙ sym p
      ]
    ]

pub equal_to-take :
    (n : ℕ) (a : String) (xs : List String)
    → (leb n (length xs) && equal_to a (take n xs)) ≡ leb n (streak a xs)
unfolding equal_to streak
equal_to-take zero a xs = ground arith
equal_to-take (suc n) a [] = ground arith
equal_to-take (suc n) a (x ∷ xs) = ground (arith, equal_to-take n a xs)

-- The condition of `register_and_check`: the run of the new action is long enough.
pub loop_test :
    (n w : ℕ) (a : String) (xs : List String)
    → 0 < n
    → n ≤ w
    → (leb n (length (take w (a ∷ xs))) && all_same (take n (take w (a ∷ xs))))
      ≡ leb n (streak a xs + 1)
unfolding streak
loop_test zero w a xs pos h = elim pos [ ]
loop_test (suc n) w a xs pos h =
    rw
      (
        leb-length-take (suc n) w (a ∷ xs) h,
        take-take-le (suc n) w (a ∷ xs) h,
        all_same-equal_to a (take n xs),
      )
      (equal_to-take (suc n) a (a ∷ xs) ∙ ground (arith, ==-refl a))

pub streak-take :
    (w : ℕ) (a : String) (xs : List String) → streak a xs < w → streak a (take w xs) ≡ streak a xs
unfolding streak
streak-take zero a xs h = absurd (omega arith)
streak-take (suc w) a [] h = refl
streak-take (suc w) a (x ∷ xs) h = elim (Bool-cases (x == a)) [
  | inl p ↦ rw p (ap suc (streak-take w a xs (ground arith)))
  | inr p ↦ rw p
]
