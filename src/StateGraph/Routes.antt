-- ===== src/StateGraph/Routes.antt =====
-- The edges of the graph against the table `_VALID_TRANSITIONS`.
use sky_claw_gravity.Prelude.{Bool, Option, arith, false, none, refl, some, true, ℕ, ◌||◌, ◌≡◌}
use sky_claw_gravity.StateGraph.{
  SupervisorState, Workflow, WorkflowEventType, analyzing, completed, dispatching, error,
  error_fatal, error_occurred, generating_lods, hitl_response_event, hitl_wait, idle, init,
  is_valid_transition, modlist_changed, patching, rolling_back, shutdown, timeout, tool_request,
  user_command, watching,
}
use sky_claw_gravity.StateGraph.Edges.{
  Route, edge, invalid, route_from_analyzing, route_from_dispatching, route_from_error,
  route_from_hitl_wait, route_from_idle, route_from_pipeline, route_from_rolling_back,
  route_from_watching, to_end, to_node,
}

-- the nodes that may wait for themselves
abbrev pub waits_for_itself : SupervisorState → SupervisorState → Bool
waits_for_itself idle idle = true
waits_for_itself hitl_wait hitl_wait = true
waits_for_itself _ _ = false

-- the nodes out of which a run may end
abbrev pub may_end : SupervisorState → Bool
may_end idle = true
may_end error = true
may_end error_fatal = true
may_end _ = false

-- what a route may be: an entry of the table or one of the two waits, or an end where one is allowed
abbrev pub is_legal : SupervisorState → Route → Bool
is_legal n (to_node m) = is_valid_transition n m || waits_for_itself n m
is_legal n to_end = may_end n
is_legal n (invalid a b) = false

idle_legal : (e : Option WorkflowEventType) → is_legal idle (route_from_idle e) ≡ true
unfolding route_from_idle
idle_legal none = refl
idle_legal (some modlist_changed) = refl
idle_legal (some user_command) = refl
idle_legal (some tool_request) = refl
idle_legal (some hitl_response_event) = refl
idle_legal (some error_occurred) = refl
idle_legal (some timeout) = refl
idle_legal (some shutdown) = refl

watching_legal : (e : Option WorkflowEventType) → is_legal watching (route_from_watching e) ≡ true
unfolding route_from_watching
watching_legal none = refl
watching_legal (some modlist_changed) = refl
watching_legal (some user_command) = refl
watching_legal (some tool_request) = refl
watching_legal (some hitl_response_event) = refl
watching_legal (some error_occurred) = refl
watching_legal (some timeout) = refl
watching_legal (some shutdown) = refl

module _ {P : Type 0} where
  -- Every edge of the graph, whatever the state and the time, goes along the table or waits at its
  -- own node, which only the idle node and the wait for the operator do, or ends, which only three
  -- nodes do: the `ValueError` of an invalid transition is never raised.
  pub edge_legal :
      (n : SupervisorState) (now : ℕ) (s : Workflow P) → is_legal n (edge n now s).1 ≡ true
  unfolding edge
  edge_legal init now s = refl
  edge_legal idle now s = idle_legal s.pending_event
  edge_legal watching now s = watching_legal s.pending_event
  edge_legal analyzing now s = unfold route_from_analyzing in ground arith
  edge_legal dispatching now s = unfold route_from_dispatching in ground arith
  edge_legal hitl_wait now s = unfold route_from_hitl_wait in ground arith
  edge_legal error now s = unfold route_from_error in ground arith
  edge_legal rolling_back now s = unfold route_from_rolling_back in ground arith
  edge_legal patching now s = unfold route_from_pipeline in ground arith
  edge_legal generating_lods now s = unfold route_from_pipeline in ground arith
  edge_legal completed now s = refl
  edge_legal error_fatal now s = refl
