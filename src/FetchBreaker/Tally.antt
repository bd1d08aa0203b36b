-- ===== src/FetchBreaker/Tally.antt =====
-- The breaker refines a tally of the failures since the last success.
use sky_claw_gravity.Prelude.{
  All, List, [], arith, leb, ltb, refl, ℕ, ◌+◌, ◌<◌, ◌||◌, ◌∷◌, ◌≡◌, ◌≤◌,
}
use sky_claw_gravity.FetchBreaker.{
  CircuitBreaker, allow_request, closed, half_open, new, opened, promote, record_failure,
  record_success,
}

-- what a client tells or asks the breaker, with the time
pub data Report : Type 0 where
  success : Report
  failure : ℕ → Report
  asks : ℕ → Report

unfoldable pub report : CircuitBreaker → Report → CircuitBreaker
report b success = record_success b
report b (failure now) = record_failure now b
report b (asks now) = (allow_request now b).0

unfoldable pub reports : CircuitBreaker → List Report → CircuitBreaker
reports b [] = b
reports b (x ∷ xs) = reports (report b x) xs

-- The specification: the failures since the last success, and the time of the last failure.
abbrev pub tally : ℕ × ℕ → Report → ℕ × ℕ
tally (n, last) success = (0, last)
tally (n, last) (failure now) = (n + 1, now)
tally (n, last) (asks now) = (n, last)

unfoldable pub tallied : ℕ × ℕ → List Report → ℕ × ℕ
tallied nl [] = nl
tallied nl (x ∷ xs) = tallied (tally nl x) xs

abbrev pub Before : ℕ → Report → Type 0
Before now success = Unit
Before now (failure t) = t ≤ now
Before now (asks t) = t ≤ now

-- how the breaker follows from the tally
record Tallies (now threshold timeout : ℕ) (nl : ℕ × ℕ) (b : CircuitBreaker) : Type 0 where
  threshold_kept : b.failure_threshold ≡ threshold
  timeout_kept : b.recovery_timeout ≡ timeout
  counted : b.failure_count ≡ nl.0
  timed : b.last_failure_time ≡ nl.1
  is_closed : b.state ≡ closed → nl.0 < threshold
  is_open : b.state ≡ opened → threshold ≤ nl.0
  is_half_open : b.state ≡ half_open → (threshold ≤ nl.0) × (nl.1 + timeout ≤ now)

promote-Tallies :
    (now at threshold timeout : ℕ) (nl : ℕ × ℕ) (b : CircuitBreaker)
    → at ≤ now
    → Tallies now threshold timeout nl b
    → Tallies now threshold timeout nl (promote at b b.state)
unfolding promote
promote-Tallies now at threshold timeout nl b t h = record {
  threshold_kept = ground (arith, h.threshold_kept);
  timeout_kept = ground (arith, h.timeout_kept);
  counted = ground (arith, h.counted);
  timed = ground (arith, h.timed);
  is_closed = λ e. ground (arith, h.is_closed);
  is_open = λ e. ground (arith, h.is_open);
  is_half_open = λ e. ground (arith, h.is_open, h.is_half_open, h.timed, h.timeout_kept);
}

report-Tallies :
    (now threshold timeout : ℕ) (nl : ℕ × ℕ) (b : CircuitBreaker) (x : Report)
    → 0 < threshold
    → Before now x
    → Tallies now threshold timeout nl b
    → Tallies now threshold timeout (tally nl x) (report b x)
unfolding report record_success record_failure allow_request
report-Tallies now threshold timeout nl b success above t h = record {
  threshold_kept = h.threshold_kept;
  timeout_kept = h.timeout_kept;
  counted = refl;
  timed = h.timed;
  is_closed = λ e. above;
  is_open = λ e. ground (arith, e);
  is_half_open = λ e. ground (arith, e);
}
report-Tallies now threshold timeout nl b (failure at) above t h = record {
  threshold_kept = ground (arith, h.threshold_kept);
  timeout_kept = ground (arith, h.timeout_kept);
  counted = ground (arith, h.counted);
  timed = ground arith;
  is_closed = λ e. ground (arith, e, h.is_closed, h.counted, h.threshold_kept);
  is_open = λ e. ground (arith, e, h.is_open, h.counted, h.threshold_kept);
  is_half_open = λ e. ground (arith, e, h.is_half_open, h.counted, h.threshold_kept);
}
report-Tallies now threshold timeout nl b (asks at) above t h =
    promote-Tallies now at threshold timeout nl b t h

reports-Tallies :
    (now threshold timeout : ℕ) (nl : ℕ × ℕ) (b : CircuitBreaker) (xs : List Report)
    → 0 < threshold
    → All (Before now) xs
    → Tallies now threshold timeout nl b
    → Tallies now threshold timeout (tallied nl xs) (reports b xs)
unfolding tallied reports
reports-Tallies now threshold timeout nl b [] above t h = h
reports-Tallies now threshold timeout nl b (x ∷ xs) above t h =
    reports-Tallies now threshold timeout (tally nl x) (report b x) xs above t.1
      (report-Tallies now threshold timeout nl b x above t.0 h)

new-Tallies :
    (now threshold timeout : ℕ)
    → 0 < threshold
    → Tallies now threshold timeout (0, 0) (new threshold timeout)
unfolding new
new-Tallies now threshold timeout above = record {
  threshold_kept = refl;
  timeout_kept = refl;
  counted = refl;
  timed = refl;
  is_closed = λ e. above;
  is_open = λ e. ground (arith, e);
  is_half_open = λ e. ground (arith, e);
}

allow_request-Tallies :
    (now threshold timeout : ℕ) (nl : ℕ × ℕ) (b : CircuitBreaker)
    → Tallies now threshold timeout nl b
    → (allow_request now b).1 ≡ (ltb nl.0 threshold || leb (nl.1 + timeout) now)
unfolding allow_request promote
allow_request-Tallies now threshold timeout nl b h =
    ground (arith, h.is_closed, h.is_open, h.is_half_open, h.timed, h.timeout_kept)

-- A new breaker with a positive threshold, whatever has been reported and asked up to now, allows a
-- request exactly when the failures since the last success are fewer than the threshold or the
-- recovery time has passed since the last failure.
pub allows-eq-tallied :
    (now threshold timeout : ℕ) (xs : List Report)
    → 0 < threshold
    → All (Before now) xs
    → let (failures, last) = tallied (0, 0) xs in
      (allow_request now (reports (new threshold timeout) xs)).1
      ≡ (ltb failures threshold || leb (last + timeout) now)
allows-eq-tallied now threshold timeout xs above t =
    allow_request-Tallies now threshold timeout (tallied (0, 0) xs)
      (reports (new threshold timeout) xs)
      (reports-Tallies now threshold timeout (0, 0) (new threshold timeout) xs above t
        (new-Tallies now threshold timeout above))
