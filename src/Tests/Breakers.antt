-- ===== src/Tests/Breakers.antt =====
-- The token breaker.
use sky_claw_gravity.Prelude.{List, [], arith, false, refl, true, ℕ, ◌∷◌, ◌≡◌}
use sky_claw_gravity.TokenBreaker.{Breaker, Config, closed, half_open, opened}
use sky_claw_gravity.TokenBreaker.Rejection.{Call, open_rejects, request, response, run}

abbrev limits : Config
limits = record {
  spike_threshold_tokens = 100;
  window_budget_tokens = 300;
  window_duration_seconds = 60;
  recovery_timeout_seconds = 30;
}

abbrev fresh : Breaker
fresh = record {
  state = closed;
  opened_at = 0;
  window_start = 0;
  window_consumed = 250;
  half_open_used = false;
}

abbrev tripped : Breaker
tripped = record fresh { state = opened; opened_at = 10 }

abbrev probing : Breaker
probing = record fresh { state = half_open; opened_at = 10; half_open_used = true }

abbrev early_calls : List Call
early_calls = request 20 5 ∷ response 25 40 ∷ request 39 5 ∷ []

open_rejects_example :
    ((run limits tripped early_calls).1 ≡ 0) × ((run limits tripped early_calls).0.state ≡ opened)
open_rejects_example =
    open_rejects limits tripped early_calls refl (omega arith, (omega arith, (omega arith, tt)))

abbrev late_requests : List (ℕ × ℕ)
late_requests = (50, 5) ∷ (900, 5) ∷ []
