-- ===== src/TokenBreaker/Recovery.antt =====
-- How a breaker that has opened comes back.
use sky_claw_gravity.Prelude.{arith, if◌then◌else◌, true, ℕ, ◌+◌, ◌<◌, ◌≡◌, ◌≤◌}
use sky_claw_gravity.TokenBreaker.{
  Breaker, Config, check_request, closed, opened, record_response, reset,
}

-- After the recovery time an open breaker lets a request of any size pass as its probe. A response
-- within the spike threshold then closes it, with the tokens of the probe added to the window; a
-- larger one opens it again at that moment, and the full recovery time runs anew.
recovery :
    (c : Config) (now later : ℕ) (b : Breaker) (estimated used : ℕ)
    → b.state ≡ opened
    → b.opened_at + c.recovery_timeout_seconds ≤ now
    → let (probing, passed) = check_request c now b estimated in
      let b' = record_response c later probing used in
      (passed ≡ true)
      × (used ≤ c.spike_threshold_tokens
          → (b'.state ≡ closed) × (b'.window_consumed ≡ b.window_consumed + used))
      × (c.spike_threshold_tokens < used → (b'.state ≡ opened) × (b'.opened_at ≡ later))
unfolding check_request record_response
recovery c now later b estimated used e h = ground arith

-- A reset closes the breaker from any state, with an empty window: the next request passes if it is
-- within both limits.
pub reset_allows :
    (c : Config) (now later : ℕ) (b : Breaker) (estimated : ℕ)
    → estimated ≤ c.spike_threshold_tokens
    → estimated ≤ c.window_budget_tokens
    → (check_request c later (reset now b) estimated).1 ≡ true
unfolding check_request reset
reset_allows c now later b estimated h k = ground arith

-- one request whose response, if it passes, uses no more than was estimated
unfoldable pub exchange : Config → ℕ → Breaker → ℕ → ℕ → Breaker
exchange c now b estimated used =
    let (b', passed) = check_request c now b estimated in
    if passed then record_response c now b' used else b'

-- A closed breaker whose window is within its budget keeps it so over a request and its response,
-- when the response uses no more than the estimate.
exchange_budget :
    (c : Config) (now : ℕ) (b : Breaker) (estimated used : ℕ)
    → b.state ≡ closed
    → b.window_consumed ≤ c.window_budget_tokens
    → used ≤ estimated
    → (exchange c now b estimated used).window_consumed ≤ c.window_budget_tokens
unfolding exchange check_request record_response
exchange_budget c now b estimated used e h k = ground arith
