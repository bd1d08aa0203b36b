-- ===== src/StateGraph/Retries.antt =====
-- How often a run comes to the error node, and what its retries do.
use sky_claw_gravity.Prelude.{
  All, Bool, Bool-cases, List, [], arith, count_if, false, inl, inr, max, refl, suc, true, ℕ, ◌-◌,
  ◌||◌, ◌∷◌, ◌≡◌, ◌≤◌,
}
use sky_claw_gravity.StateGraph.{SupervisorState, Workflow, error, error_fatal, rolling_back}
use sky_claw_gravity.StateGraph.Nodes.{node}
use sky_claw_gravity.StateGraph.Edges.{Route, edge, invalid, route_from_error, to_end, to_node}
use sky_claw_gravity.StateGraph.Graph.{Tick, round, visits}

abbrev pub is_error : SupervisorState → Bool
is_error error = true
is_error _ = false

abbrev is_rolling_back : SupervisorState → Bool
is_rolling_back rolling_back = true
is_rolling_back _ = false

-- how many visits of the error node are left, by the errors counted and whether the rollback is spent
abbrev potential : ℕ → Bool → ℕ
potential errors true = max 1 (3 - errors)
potential errors false = suc (max 1 (3 - errors))

abbrev allowance : {P : Type 0} → SupervisorState → Workflow P → ℕ
allowance n s = potential s.error_count (s.rollback_triggered || is_rolling_back n)

-- what happens outside the nodes leaves the count of errors alone and does not re-arm the rollback
pub record CountsErrors {P : Type 0} (t : Tick P) : Type 0 where
  pub count_kept : (s : Workflow P) → (t.world s).error_count ≡ s.error_count
  pub spent_kept :
      (s : Workflow P) → s.rollback_triggered ≡ true → (t.world s).rollback_triggered ≡ true

potential_mono :
    (c c' : ℕ) (b b' : Bool) → c' ≡ c → (b ≡ true → b' ≡ true) → potential c' b' ≤ potential c b
potential_mono c c' true b' e h = ground (arith, h refl)
potential_mono c c' false b' e h = ground arith

module _ {P : Type 0} (t : Tick P) (keeps : CountsErrors t) (s : Workflow P) where
  error-allowance :
      (m : SupervisorState)
      → (round t error s).1 ≡ to_node m
      → suc (allowance m (round t error s).0) ≤ allowance error s
  unfolding round node edge route_from_error
  error-allowance m e = ground (arith, e, keeps.count_kept s, keeps.spent_kept s)

  error-route :
      (n m : SupervisorState)
      → is_error n ≡ true
      → (round t n s).1 ≡ to_node m
      → suc (allowance m (round t n s).0) ≤ allowance n s
  error-route error m x e = error-allowance m e
  error-route n m x e = absurd (ground (arith, x))

  round-allowance :
      (n m : SupervisorState)
      → is_error n ≡ false
      → (round t n s).1 ≡ to_node m
      → allowance m (round t n s).0 ≤ allowance n s
  unfolding round node edge
  round-allowance error m x e = absurd (ground (arith, x))
  round-allowance error_fatal m x e = absurd (ground (arith, e))
  round-allowance n m x e =
      potential_mono s.error_count (round t n s).0.error_count
        (s.rollback_triggered || is_rolling_back n)
        ((round t n s).0.rollback_triggered || is_rolling_back m)
        (ground (arith, e, keeps.count_kept s)) (λ q. ground (arith, e, q, keeps.spent_kept s))

  -- the visits of a run, by the route out of its first node
  route-allowance :
      (n : SupervisorState) (r : Route) (rest : SupervisorState → List SupervisorState)
      → (round t n s).1 ≡ r
      → ((m : SupervisorState) → count_if is_error (rest m) ≤ allowance m (round t n s).0)
      → count_if is_error (n ∷ elim r [ to_node m ↦ rest m | to_end ↦ [] | invalid _ _ ↦ [] ])
        ≤ allowance n s
  route-allowance n (to_node m) rest e h = elim (Bool-cases (is_error n)) [
    | inl p ↦ rw p (omega (arith, h m, error-route n m p e))
    | inr p ↦ rw p (omega (arith, h m, round-allowance n m p e))
  ]
  route-allowance n to_end rest e h = ground arith
  route-allowance n (invalid _ _) rest e h = ground arith

module _ {P : Type 0} where
  visits-allowance :
      (ts : List (Tick P))
      → All CountsErrors ts
      → (n : SupervisorState) (s : Workflow P) → count_if is_error (visits ts n s) ≤ allowance n s
  unfolding visits
  visits-allowance [] k n s = omega arith
  visits-allowance (t ∷ ts) k n s =
      route-allowance t k.0 s n (round t n s).1 (λ m. visits ts m (round t n s).0) refl
        (λ m. visits-allowance ts k.1 m (round t n s).0)

  -- However long a run is, whatever tools and operators do, it visits the error node at most four
  -- times, when it starts with no error counted and nothing outside the nodes changes the count of
  -- errors or re-arms the rollback.
  pub errors_bounded :
      (ts : List (Tick P)) (n : SupervisorState) (s : Workflow P)
      → All CountsErrors ts
      → s.error_count ≡ 0
      → count_if is_error (visits ts n s) ≤ 4
  errors_bounded ts n s k e = ground (arith, visits-allowance ts k n s)
