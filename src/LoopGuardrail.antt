-- ===== src/LoopGuardrail.antt =====
-- sky_claw/antigravity/security/loop_guardrail.py: the detector of an agent that repeats one call. The
-- deque `_history` is a list with the newest action first: `append` on a full deque is `take` of
-- the longer list, and its last n items are the first n here, `last_n[0]` the furthest of them.
pub mod Streak
pub mod Counter
use Prim.Native.String.{◌++◌}
use sky_claw_gravity.Prelude.{
  Bool, List, Option, String, [], all_of, if◌then◌else◌, leb, length, ltb, none, some, take, ℕ,
  ◌&&◌, ◌==◌, ◌∷◌, nat_eq, string_eq,
}
use sky_claw_gravity.Result.{Result, err, ok}
use sky_claw_gravity.Hashing.{Hashing}

pub data ConfigError : Type 0 where
  max_repeats_below_two : ConfigError
  window_below_max_repeats : ConfigError

pub record Guardrail : Type 0 where
  pub max_repeats : ℕ
  pub window_size : ℕ
  pub history : List String

-- `CircuitBreakerTrippedError`, with its two attributes
pub record Tripped : Type 0 where
  pub tool_name : String
  pub occurrences : ℕ

-- `__init__`
unfoldable pub new : ℕ → ℕ → Result ConfigError Guardrail
new max_repeats window_size =
    if ltb max_repeats 2
    then err max_repeats_below_two
    else if ltb window_size max_repeats
    then err window_below_max_repeats
    else ok (record { max_repeats = max_repeats; window_size = window_size; history = [] })

-- `all(h == last_n[0] for h in last_n)`
unfoldable pub last_or : String → List String → String
last_or d [] = d
last_or d (x ∷ xs) = last_or x xs

unfoldable pub all_same : List String → Bool
unfolding last_or
all_same last_n = all_of (λ h. h == last_or "" last_n) last_n

-- `register_and_check` on the hash of the action; `some` is the raise
unfoldable pub register : Guardrail → String → String → Guardrail × Option Tripped
unfolding all_same
register g tool_name action_hash =
    let longer = take g.window_size (action_hash ∷ g.history) in
    if leb g.max_repeats (length longer) && all_same (take g.max_repeats longer)
    then (
      record g { history = [] },
      some (record { tool_name = tool_name; occurrences = g.max_repeats }),
    )
    else (record g { history = longer }, none)

module _ {P : Type 0} (h : Hashing P) where
  unfoldable pub hash_action : String → P → String
  hash_action tool_name tool_args = h.sha256_hex (tool_name ++ "|" ++ h.dumps tool_args)

  unfoldable pub register_and_check : Guardrail → String → P → Guardrail × Option Tripped
  unfolding hash_action
  register_and_check g tool_name tool_args = register g tool_name (hash_action tool_name tool_args)

-- `reset`
unfoldable pub reset : Guardrail → Guardrail
reset g = record g { history = [] }
