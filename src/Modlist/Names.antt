-- ===== src/Modlist/Names.antt =====
-- The names that a modlist can hold.
use sky_claw_gravity.Prelude.{
  Bool, List, Option, [], arith, false, none, refl, some, ℕ, ◌∷◌, ◌≡◌, ◌≢◌,
}
use sky_claw_gravity.Paths.{PathViolation, assert_safe_component, has_control}
use sky_claw_gravity.Modlist.{check_names, checked}
use sky_claw_gravity.Modlist.Entries.{IsBare}

has_control-IsBare : (l : List ℕ) → has_control l ≡ false → IsBare l
unfolding has_control
has_control-IsBare [] h = tt
has_control-IsBare (c ∷ cs) h =
    (λ p. ground (arith, h, p), has_control-IsBare cs (ground (arith, h)))

-- a safe name has a character and no newline
pub assert_safe_component-IsBare :
    (name : List ℕ) → assert_safe_component name ≡ none → (name ≢ []) × IsBare name
unfolding assert_safe_component
assert_safe_component-IsBare [] h = ground (arith, h)
assert_safe_component-IsBare (c ∷ cs) h =
    (λ p. ground (arith, p), has_control-IsBare (c ∷ cs) (ground (arith, h)))

pub check_names-name :
    (name profile : List ℕ) (is_inside : Bool)
    → check_names name profile is_inside ≡ none
    → assert_safe_component name ≡ none
unfolding check_names
check_names-name name profile is_inside h = go (assert_safe_component name) _ h
  where
    go : (a b : Option PathViolation) → checked a b ≡ none → a ≡ none
    go none b q = refl
    go (some v) b q = ground (arith, q)
