-- ===== src/Paths.antt =====
-- The test of a path component of sky_claw/antigravity/security/path_validator.py.
use sky_claw_gravity.Text.{codes_eq}
use sky_claw_gravity.Prelude.{
  Bool, List, Option, [], false, if◌then◌else◌, ltb, none, some, ℕ, ◌==◌, ◌||◌, ◌∷◌, nat_eq,
  string_eq,
}

-- `PathViolationError`, by its cause
pub data PathViolation : Type 0 where
  empty traversal_segment separator nul_byte control_character outside_sandbox : PathViolation

-- `c in name`
unfoldable pub has_char : ℕ → List ℕ → Bool
has_char c [] = false
has_char c (d ∷ ds) = d == c || has_char c ds

-- the loop over the characters
unfoldable pub has_control : List ℕ → Bool
has_control [] = false
has_control (c ∷ cs) = ltb c 32 || has_control cs

-- `assert_safe_component`: none where it returns the name
unfoldable pub assert_safe_component : List ℕ → Option PathViolation
unfolding has_char has_control
assert_safe_component [] = some empty
assert_safe_component (c ∷ cs) =
    let name = c ∷ cs in
    if name == b'.' ∷ [] || name == b'.' ∷ b'.' ∷ []
    then some traversal_segment
    else if has_char b'/' name || has_char 92 name
    then some separator
    else if has_char 0 name
    then some nul_byte
    else if has_control name
    then some control_character
    else none
