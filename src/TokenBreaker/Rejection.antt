-- ===== src/TokenBreaker/Rejection.antt =====
-- Which requests pass.
use sky_claw_gravity.Prelude.{
  All, Bool, List, [], arith, false, if◌then◌else◌, inl, inr, leb, refl, suc, true, ℕ, ◌+◌, ◌<◌,
  ◌↔◌, ◌∷◌, ◌≡◌, ◌≤◌, ◌⊎◌,
}
use sky_claw_gravity.TokenBreaker.{
  Breaker, Config, check_request, closed, half_open, opened, record_response,
}

-- A closed breaker lets a request pass exactly when its estimate is within the spike threshold and,
-- with what the current window has consumed, within the window's budget, the count being zero when
-- the window has lasted its time; otherwise it opens at that moment.
check_closed :
    (c : Config) (now : ℕ) (b : Breaker) (estimated : ℕ)
    → b.state ≡ closed
    → let consumed =
        if leb (b.window_start + c.window_duration_seconds) now then 0 else b.window_consumed in
      let (b', passed) = check_request c now b estimated in
      ((passed ≡ true) ↔ (
        (estimated ≤ c.spike_threshold_tokens) × (consumed + estimated ≤ c.window_budget_tokens)))
      × (passed ≡ true → (b'.state ≡ closed) × (b'.window_consumed ≡ consumed))
      × (passed ≡ false → (b'.state ≡ opened) × (b'.opened_at ≡ now))
unfolding check_request
check_closed c now b estimated e = ground arith

-- calls of `check_request` and of `record_response`, each with its time
pub data Call : Type 0 where
  request : ℕ → ℕ → Call
  response : ℕ → ℕ → Call

unfoldable pub call : Config → Breaker → Call → Breaker × Bool
call c b (request now estimated) = check_request c now b estimated
call c b (response now used) = (record_response c now b used, false)

-- the requests that pass, and the breaker at the end
unfoldable pub run : Config → Breaker → List Call → Breaker × ℕ
run c b [] = (b, 0)
run c b (x ∷ xs) =
    let (b', passed) = call c b x in
    let (b'', n) = run c b' xs in (b'', if passed then suc n else n)

abbrev time : Call → ℕ
time (request now _) = now
time (response now _) = now

opened_call :
    (c : Config) (b : Breaker) (x : Call)
    → b.state ≡ opened
    → time x < b.opened_at + c.recovery_timeout_seconds
    → ((call c b x).1 ≡ false)
      × ((call c b x).0.state ≡ opened)
      × ((call c b x).0.opened_at ≡ b.opened_at)
unfolding call check_request record_response
opened_call c b (request now estimated) e h = ground arith
opened_call c b (response now used) e h = ground arith

-- While an open breaker's recovery time has not passed, no request passes and it stays open, also
-- over responses of earlier requests.
pub open_rejects :
    (c : Config) (b : Breaker) (xs : List Call)
    → b.state ≡ opened
    → All (λ x. time x < b.opened_at + c.recovery_timeout_seconds) xs
    → ((run c b xs).1 ≡ 0) × ((run c b xs).0.state ≡ opened)
unfolding run
open_rejects c b [] e h = (refl, e)
open_rejects c b (x ∷ xs) e h =
    let o = opened_call c b x e h.0 in
    let rest = open_rejects c (call c b x).0 xs o.1 (rw o.2 h.1) in (rw o.0 rest.0, rest.1)

abbrev pub requests : List (ℕ × ℕ) → List Call
requests [] = []
requests ((now, estimated) ∷ xs) = request now estimated ∷ requests xs

check_half_open_used :
    (c : Config) (now : ℕ) (b : Breaker) (estimated : ℕ)
    → b.state ≡ half_open
    → b.half_open_used ≡ true
    → check_request c now b estimated ≡ (b, false)
unfolding check_request
check_half_open_used c now b estimated e u = ground arith

-- A breaker that is half open and has let its probe pass rejects every later request, at any time,
-- and does not change: without a response or a reset it never recovers.
probe_lost :
    (c : Config) (b : Breaker) (xs : List (ℕ × ℕ))
    → b.state ≡ half_open
    → b.half_open_used ≡ true
    → run c b (requests xs) ≡ (b, 0)
unfolding run call
probe_lost c b [] e u = refl
probe_lost c b ((now, estimated) ∷ xs) e u =
    rw (check_half_open_used c now b estimated e u, probe_lost c b xs e u)

check_opened :
    (c : Config) (now : ℕ) (b : Breaker) (estimated : ℕ)
    → b.state ≡ opened
    → let (b', passed) = check_request c now b estimated in
      ((passed ≡ false) × (b'.state ≡ opened))
      ⊎ ((passed ≡ true) × (b'.state ≡ half_open) × (b'.half_open_used ≡ true))
unfolding check_request
check_opened c now b estimated e = ground arith

-- Until a response is recorded, a breaker that has opened lets at most one request pass.
one_probe :
    (c : Config) (b : Breaker) (xs : List (ℕ × ℕ))
    → b.state ≡ opened
    → (run c b (requests xs)).1 ≤ 1
unfolding run call
one_probe c b [] e = omega arith
one_probe c b ((now, estimated) ∷ xs) e = elim (check_opened c now b estimated e) [
  | inl s ↦ rw s.0 (one_probe c (check_request c now b estimated).0 xs s.1)
  | inr s ↦ rw (s.0, probe_lost c (check_request c now b estimated).0 xs s.1 s.2) (omega arith)
]
