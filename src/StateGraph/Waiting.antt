-- ===== src/StateGraph/Waiting.antt =====
-- The wait for the operator, and its timeout.
use sky_claw_gravity.Prelude.{
  All, List, [], arith, inl, inr, none, refl, some, true, ℕ, ◌++◌, ◌+◌, ◌<◌, ◌∙◌, ◌∷◌, ◌≡◌, ◌≤◌,
  ◌⊎◌,
}
use sky_claw_gravity.StateGraph.{SupervisorState, Workflow, error, hitl_wait, is_set}
use sky_claw_gravity.StateGraph.Nodes.{node}
use sky_claw_gravity.StateGraph.Edges.{
  Route, edge, hitl_timeout_seconds, invalid, route_from_hitl_wait, to_end, to_node,
}
use sky_claw_gravity.StateGraph.Graph.{Tick, arrives, round}

-- no answer comes, and nothing but the node writes the time at which the wait began
pub record Unanswered {P : Type 0} (t : Tick P) : Type 0 where
  pub no_answer : (s : Workflow P) → s.hitl_response ≡ none → (t.world s).hitl_response ≡ none
  pub start_kept : (s : Workflow P) → (t.world s).hitl_started_at ≡ s.hitl_started_at

-- nothing but the node writes the time at which the wait began
abbrev pub StartKept : {P : Type 0} → Tick P → Type 0
StartKept t = (s : Workflow _) → (t.world s).hitl_started_at ≡ s.hitl_started_at

Route-cases :
    (r : Route)
    → ((m : SupervisorState) × (r ≡ to_node m))
      ⊎ ((r ≡ to_end) ⊎ ((a : SupervisorState) × (b : SupervisorState) × (r ≡ invalid a b)))
Route-cases (to_node m) = inl (m, refl)
Route-cases to_end = inr (inl refl)
Route-cases (invalid a b) = inr (inr (a, b, refl))

module _ {P : Type 0} where
  -- the state of a wait that began at a time
  abbrev IsWaiting : ℕ → Workflow P → Type 0
  IsWaiting started s = (s.hitl_response ≡ none) × (s.hitl_started_at ≡ some started)

  first_round :
      (t : Tick P) (s : Workflow P)
      → Unanswered t
      → s.hitl_response ≡ none
      → s.hitl_started_at ≡ none
      → ((round t hitl_wait s).1 ≡ to_node hitl_wait) × (IsWaiting t.now (round t hitl_wait s).0)
  unfolding round node edge route_from_hitl_wait
  first_round t s u e n = (
    ground (arith, u.no_answer s e, u.start_kept s, n),
    (
      ground (arith, u.no_answer s e, u.start_kept s, n),
      ground (arith, u.no_answer s e, u.start_kept s, n),
    ),
  )

  IsWaiting-round :
      (t : Tick P) (started : ℕ) (s : Workflow P)
      → Unanswered t
      → IsWaiting started s
      → t.now < started + hitl_timeout_seconds
      → ((round t hitl_wait s).1 ≡ to_node hitl_wait) × (IsWaiting started (round t hitl_wait s).0)
  unfolding round node edge route_from_hitl_wait
  IsWaiting-round t started s u w h = (
    ground (arith, u.no_answer s w.0, u.start_kept s, w.1),
    (
      ground (arith, u.no_answer s w.0, u.start_kept s, w.1),
      ground (arith, u.no_answer s w.0, u.start_kept s, w.1),
    ),
  )

  late_round :
      (t : Tick P) (started : ℕ) (s : Workflow P)
      → (t.world s).hitl_response ≡ none
      → (t.world s).hitl_started_at ≡ some started
      → started + hitl_timeout_seconds ≤ t.now
      → ((round t hitl_wait s).1 ≡ to_node error)
        × (is_set (round t hitl_wait s).0.last_error ≡ true)
  unfolding round node edge route_from_hitl_wait is_set
  late_round t started s a e h = (ground arith, ground arith)

  -- the end of a wait whose time is up
  abbrev pub Expires : Workflow P × Route → Type 0
  Expires (s, r) = (r ≡ to_node error) × (is_set s.last_error ≡ true)

  waiting_run :
      (ts : List (Tick P)) (last : Tick P) (started : ℕ) (s : Workflow P)
      → All Unanswered ts
      → Unanswered last
      → IsWaiting started s
      → All (λ t. t.now < started + hitl_timeout_seconds) ts
      → started + hitl_timeout_seconds ≤ last.now
      → ((arrives ts hitl_wait s).1 ≡ to_node hitl_wait)
        × Expires (arrives (ts ++ last ∷ []) hitl_wait s)
  unfolding arrives
  waiting_run [] last started s u v w b h =
      let l = late_round last started s (v.no_answer s w.0) (v.start_kept s ∙ w.1) h in
      (refl, rw (l.0, arrives) (refl, l.1))
  waiting_run (t ∷ ts) last started s u v w b h =
      let r = IsWaiting-round t started s u.0 w b.0 in
      rw (r.0, arrives) (waiting_run ts last started (round t hitl_wait s).0 u.1 v r.1 b.1 h)

  -- A wait for the operator that begins with no answer and gets none stays at its node in every round
  -- of the 300 seconds after its first one, and goes to the error node, with an error set, in the
  -- first round at or after their end.
  pub wait-Expires :
      (first last : Tick P) (ts : List (Tick P)) (s : Workflow P)
      → All Unanswered (first ∷ ts)
      → Unanswered last
      → s.hitl_response ≡ none
      → s.hitl_started_at ≡ none
      → All (λ t. t.now < first.now + hitl_timeout_seconds) ts
      → first.now + hitl_timeout_seconds ≤ last.now
      → ((arrives (first ∷ ts) hitl_wait s).1 ≡ to_node hitl_wait)
        × Expires (arrives (first ∷ ts ++ last ∷ []) hitl_wait s)
  unfolding arrives
  wait-Expires first last ts s u v e n b h =
      let r = first_round first s u.0 e n in
      rw (r.0, arrives) (waiting_run ts last first.now (round first hitl_wait s).0 u.1 v r.1 b h)

  round-start :
      (t : Tick P) (n : SupervisorState) (started : ℕ) (s : Workflow P)
      → (t.world s).hitl_started_at ≡ some started
      → (round t n s).0.hitl_started_at ≡ some started
  unfolding round node edge route_from_hitl_wait
  round-start t n started s e = ground (arith, e)

  arrives-next :
      (t : Tick P) (ts : List (Tick P)) (n : SupervisorState) (s : Workflow P)
      (Q : Workflow P → Type 0)
      → Q (round t n s).0
      → ((m : SupervisorState) → Q (arrives ts m (round t n s).0).0)
      → Q (arrives (t ∷ ts) n s).0
  unfolding arrives
  arrives-next t ts n s Q stopped moved = elim (Route-cases (round t n s).1) [
    | inl (m, e) ↦ rw (e, arrives) (moved m)
    | inr (inl e) ↦ rw (e, arrives) stopped
    | inr (inr (a, b, e)) ↦ rw (e, arrives) stopped
  ]

  arrives-start :
      (ts : List (Tick P)) (n : SupervisorState) (started : ℕ) (s : Workflow P)
      → All StartKept ts
      → s.hitl_started_at ≡ some started
      → (arrives ts n s).0.hitl_started_at ≡ some started
  unfolding arrives
  arrives-start [] n started s u e = e
  arrives-start (t ∷ ts) n started s u e =
      let e' = round-start t n started s (u.0 s ∙ e) in
      arrives-next t ts n s (λ x. x.hitl_started_at ≡ some started) e'
        (λ m. arrives-start ts m started (round t n s).0 u.1 e')

  -- Nothing in the graph clears the time at which a wait began: a run that has waited once and comes
  -- to the wait again when the time of the first wait is up goes to the error node in its first
  -- round there, as long as nothing outside the nodes writes that time.
  second_wait-Expires :
      (ts : List (Tick P)) (last : Tick P) (n : SupervisorState) (started : ℕ) (s : Workflow P)
      → All StartKept ts
      → StartKept last
      → ((x : Workflow P) → (last.world x).hitl_response ≡ none)
      → s.hitl_started_at ≡ some started
      → started + hitl_timeout_seconds ≤ last.now
      → (arrives ts n s).1 ≡ to_node hitl_wait
      → Expires (round last hitl_wait (arrives ts n s).0)
  second_wait-Expires ts last n started s u k a e h r =
      late_round last started (arrives ts n s).0 (a _) (k _ ∙ arrives-start ts n started s u e) h
