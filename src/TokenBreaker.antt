-- ===== src/TokenBreaker.antt =====
-- sky_claw/antigravity/agent/token_circuit_breaker.py: the breaker that stops runaway token use. The
-- clock is an argument, in seconds; one reading serves one call. Token counts are not negative.
pub mod Rejection
pub mod Recovery
use sky_claw_gravity.Prelude.{Bool, false, if◌then◌else◌, leb, ltb, true, ℕ, ◌+◌}

pub record Config : Type 0 where
  pub spike_threshold_tokens : ℕ
  pub window_budget_tokens : ℕ
  pub window_duration_seconds : ℕ
  pub recovery_timeout_seconds : ℕ

pub data State : Type 0 where
  closed opened half_open : State

pub record Breaker : Type 0 where
  pub state : State
  pub opened_at : ℕ
  pub window_start : ℕ
  pub window_consumed : ℕ
  pub half_open_used : Bool

-- `__init__`
unfoldable pub new : ℕ → Breaker
new now = record {
  state = closed;
  opened_at = 0;
  window_start = now;
  window_consumed = 0;
  half_open_used = false;
}

unfoldable pub trip : ℕ → Breaker → Breaker
trip now b = record b { state = opened; opened_at = now }

unfoldable pub maybe_reset_window : Config → ℕ → Breaker → Breaker
maybe_reset_window c now b =
    if leb (b.window_start + c.window_duration_seconds) now
    then record b { window_consumed = 0; window_start = now }
    else b

-- what reading the property `state` does: it moves OPEN to HALF_OPEN after the timeout
unfoldable pub observe_from : State → Config → ℕ → Breaker → Breaker
observe_from opened c now b =
    if leb (b.opened_at + c.recovery_timeout_seconds) now
    then record b { state = half_open; half_open_used = false }
    else b
observe_from _ c now b = b

unfoldable pub observe : Config → ℕ → Breaker → Breaker
unfolding observe_from
observe c now b = observe_from b.state c now b

-- `check_request` once the state is read
unfoldable pub check_from : State → Config → ℕ → Breaker → ℕ → Breaker × Bool
unfolding trip maybe_reset_window
check_from closed c now b estimated =
    if ltb c.spike_threshold_tokens estimated
    then (trip now b, false)
    else (let b' = maybe_reset_window c now b in
        if ltb c.window_budget_tokens (b'.window_consumed + estimated)
        then (trip now b', false)
        else (b', true))
check_from half_open c now b estimated =
    if b.half_open_used then (b, false) else (record b { half_open_used = true }, true)
check_from opened c now b estimated = (b, false)

unfoldable pub check_request : Config → ℕ → Breaker → ℕ → Breaker × Bool
unfolding observe check_from
check_request c now b estimated = let b' = observe c now b in check_from b'.state c now b' estimated

-- `record_response` after the count is added
unfoldable pub record_from : State → Config → ℕ → Breaker → ℕ → Breaker
unfolding trip
record_from half_open c now b used =
    if leb used c.spike_threshold_tokens
    then record b { state = closed; half_open_used = false }
    else trip now b
record_from _ c now b used = b

unfoldable pub record_response : Config → ℕ → Breaker → ℕ → Breaker
unfolding record_from
record_response c now b used =
    record_from b.state c now (record b { window_consumed = b.window_consumed + used }) used

unfoldable pub reset : ℕ → Breaker → Breaker
reset now b = record b {
  state = closed;
  half_open_used = false;
  window_consumed = 0;
  window_start = now;
}
