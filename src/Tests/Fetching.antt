-- ===== src/Tests/Fetching.antt =====
-- The breaker of the metadata client.
use sky_claw_gravity.Prelude.{List, [], arith, leb, ltb, ◌+◌, ◌||◌, ◌∷◌, ◌≡◌}
use sky_claw_gravity.FetchBreaker.{allow_request, new}
use sky_claw_gravity.FetchBreaker.Tally.{
  Report, allows-eq-tallied, asks, failure, reports, success, tallied,
}

-- two failures, a question and a third failure
abbrev outage : List Report
outage = success ∷ failure 10 ∷ failure 12 ∷ asks 13 ∷ failure 15 ∷ []

allows-eq-tallied_example :
    (allow_request 40 (reports (new 3 60) outage)).1 ≡ (ltb 3 3 || leb (15 + 60) 40)
unfolding tallied
allows-eq-tallied_example =
    allows-eq-tallied 40 3 60 outage (omega arith)
      (tt, (omega arith, (omega arith, (omega arith, (omega arith, tt)))))
