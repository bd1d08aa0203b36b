-- ===== src/StateGraph/Ending.antt =====
-- What a run comes to after an error and after its work is done.
use sky_claw_gravity.Prelude.{
  All, Bool, List, Option, [], ap, arith, count_if, false, length, none, refl, replicate, some,
  true, ◌∙◌, ◌∷◌, ◌≡◌,
}
use sky_claw_gravity.StateGraph.{
  SupervisorState, Workflow, WorkflowEventType, analyzing, completed, dispatching, error,
  error_fatal, idle, is_set, modlist_changed, rolling_back, user_command, watching,
}
use sky_claw_gravity.StateGraph.Nodes.{node}
use sky_claw_gravity.StateGraph.Edges.{
  Route, edge, invalid, route_from_analyzing, route_from_error, route_from_idle,
  route_from_rolling_back, route_from_watching, to_end, to_node,
}
use sky_claw_gravity.StateGraph.Graph.{Tick, round, visits}

-- the world leaves the last error and the event where they are
pub record LeavesEvent {P : Type 0} (t : Tick P) : Type 0 where
  pub error_left : (s : Workflow P) → (t.world s).last_error ≡ s.last_error
  pub event_left : (s : Workflow P) → (t.world s).pending_event ≡ s.pending_event

abbrev pub is_dispatching : SupervisorState → Bool
is_dispatching dispatching = true
is_dispatching _ = false

-- the nodes to which an error that stays leads
abbrev is_retry : SupervisorState → Bool
is_retry idle = true
is_retry watching = true
is_retry analyzing = true
is_retry error = true
is_retry rolling_back = true
is_retry error_fatal = true
is_retry _ = false

-- the events that lead to an analysis
abbrev pub is_analysis : Option WorkflowEventType → Bool
is_analysis (some modlist_changed) = true
is_analysis (some user_command) = true
is_analysis _ = false

module _ {P : Type 0} where
  -- an error that stays, with the event that led to it
  abbrev IsStuck : SupervisorState → Workflow P → Type 0
  IsStuck n s =
      (is_retry n ≡ true) × (is_set s.last_error ≡ true) × (is_analysis s.pending_event ≡ true)

  round-IsStuck :
      (t : Tick P)
      → LeavesEvent t
      → (n m : SupervisorState) (s : Workflow P) → IsStuck n s
      → (round t n s).1 ≡ to_node m
      → IsStuck m (round t n s).0
  unfolding round node edge route_from_idle route_from_watching route_from_analyzing
      route_from_error route_from_rolling_back
  round-IsStuck t l n m s h e = ground (arith, e, h, l.error_left s, l.event_left s)

  route-no_dispatch :
      (t : Tick P)
      → LeavesEvent t
      → (n : SupervisorState) (s : Workflow P) (r : Route)
      → (rest : SupervisorState → List SupervisorState) → IsStuck n s
      → (round t n s).1 ≡ r
      → ((m : SupervisorState) → IsStuck m (round t n s).0 → count_if is_dispatching (rest m) ≡ 0)
      → count_if is_dispatching (n ∷ elim r [ to_node m ↦ rest m | to_end ↦ [] | invalid _ _ ↦ [] ])
        ≡ 0
  route-no_dispatch t l n s (to_node m) rest k e h =
      ground (arith, k.0, h m (round-IsStuck t l n m s k e))
  route-no_dispatch t l n s to_end rest k e h = ground (arith, k.0)
  route-no_dispatch t l n s (invalid _ _) rest k e h = ground (arith, k.0)

  stuck_visits :
      (ts : List (Tick P))
      → All LeavesEvent ts
      → (n : SupervisorState) (s : Workflow P) → IsStuck n s
      → count_if is_dispatching (visits ts n s) ≡ 0
  unfolding visits
  stuck_visits [] l n s k = refl
  stuck_visits (t ∷ ts) l n s k =
      route-no_dispatch t l.0 n s (round t n s).1 (λ m. visits ts m (round t n s).0) k refl
        (λ m. stuck_visits ts l.1 m (round t n s).0)

  -- No node clears the last error: from the error node, with an error that is set and the event of a
  -- user or of a modlist still pending, no run ever comes to dispatch a tool, however often it
  -- retries, as long as nothing outside the nodes clears the error or changes the event.
  pub retry_never_dispatches :
      (ts : List (Tick P)) (s : Workflow P)
      → All LeavesEvent ts
      → is_set s.last_error ≡ true
      → is_analysis s.pending_event ≡ true
      → count_if is_dispatching (visits ts error s) ≡ 0
  retry_never_dispatches ts s l e a = stuck_visits ts l error s (refl, e, a)

  idles :
      (ts : List (Tick P))
      → All LeavesEvent ts
      → (s : Workflow P) → s.pending_event ≡ none
      → visits ts idle s ≡ replicate (length ts) idle
  unfolding visits round node edge route_from_idle
  idles [] l s e = refl
  idles (t ∷ ts) l s e =
      let still : (t.world s).pending_event ≡ none = l.0.event_left s ∙ e in
      rw still (ap (◌∷◌ idle) (idles ts l.1 (node idle t.now (t.world s)) still))

  -- A run that has completed goes to the idle node and stays there for as many rounds as it is given:
  -- it never ends by itself, as long as nothing outside the nodes sets an event.
  completed_idles :
      (t : Tick P) (ts : List (Tick P)) (s : Workflow P)
      → All LeavesEvent ts
      → visits (t ∷ ts) completed s ≡ completed ∷ replicate (length ts) idle
  unfolding visits round node edge
  completed_idles t ts s l = ap (◌∷◌ completed) (idles ts l _ refl)
