-- ===== src/FetchBreaker.antt =====
-- `_CircuitBreaker` of sky_claw/antigravity/scraper/masterlist.py: the breaker around the requests for
-- mod metadata. The monotonic clock is an argument, in seconds.
pub mod Tally
use sky_claw_gravity.Prelude.{Bool, false, if◌then◌else◌, leb, not, true, ℕ, ◌+◌}

pub data State : Type 0 where
  closed opened half_open : State

pub record CircuitBreaker : Type 0 where
  pub failure_threshold : ℕ
  pub recovery_timeout : ℕ
  pub failure_count : ℕ
  pub last_failure_time : ℕ
  pub state : State

-- `__init__`
unfoldable pub new : ℕ → ℕ → CircuitBreaker
new failure_threshold recovery_timeout = record {
  failure_threshold = failure_threshold;
  recovery_timeout = recovery_timeout;
  failure_count = 0;
  last_failure_time = 0;
  state = closed;
}

unfoldable pub reset : CircuitBreaker → CircuitBreaker
reset b = record b { failure_count = 0; last_failure_time = 0; state = closed }

-- reading the property `state`, by the state that is stored
unfoldable pub promote : ℕ → CircuitBreaker → State → CircuitBreaker
promote now b opened =
    if leb (b.last_failure_time + b.recovery_timeout) now then record b { state = half_open } else b
promote now b closed = b
promote now b half_open = b

unfoldable pub record_success : CircuitBreaker → CircuitBreaker
record_success b = record b { failure_count = 0; state = closed }

unfoldable pub record_failure : ℕ → CircuitBreaker → CircuitBreaker
record_failure now b =
    let failed = record b { failure_count = b.failure_count + 1; last_failure_time = now } in
    if leb b.failure_threshold (b.failure_count + 1)
    then record failed { state = opened }
    else failed

abbrev pub is_opened : State → Bool
is_opened opened = true
is_opened closed = false
is_opened half_open = false

-- `state in ("closed", "half-open")`
unfoldable pub allow_request : ℕ → CircuitBreaker → CircuitBreaker × Bool
unfolding promote
allow_request now b = let b' = promote now b b.state in (b', not (is_opened b'.state))
