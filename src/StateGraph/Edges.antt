-- ===== src/StateGraph/Edges.antt =====
-- `StateGraphEdges` and the edges of `_build_graph`: where the workflow goes from each node. An edge
-- also writes `last_error` in two cases, so it returns the state with the route.
use sky_claw_gravity.Prelude.{
  Bool, Option, String, false, get_or, if◌then◌else◌, leb, none, not, some, ℕ, ◌&&◌, ◌-◌, ◌==◌,
  ◌||◌, nat_eq, string_eq,
}
use sky_claw_gravity.StateGraph.{
  SupervisorState, ToolResult, Workflow, WorkflowEventType, analyzing, completed, dispatching,
  error, error_fatal, error_occurred, generating_lods, hitl_wait, idle, init, is_set, is_set_id,
  is_valid_transition, modlist_changed, patching, rolling_back, shutdown, tool_request,
  user_command, watching,
}

-- a node's name, END, or the `ValueError` of an invalid transition
pub data Route : Type 0 where
  to_node : SupervisorState → Route
  to_end : Route
  invalid : SupervisorState → SupervisorState → Route

unfoldable pub validate_and_route : SupervisorState → SupervisorState → Route
unfolding is_valid_transition
validate_and_route from_state to_state =
    if is_valid_transition from_state to_state
    then to_node to_state
    else invalid from_state to_state

abbrev pub hitl_timeout_seconds : ℕ
hitl_timeout_seconds = 300

abbrev pub max_retries : ℕ
max_retries = 3

unfoldable pub route_from_idle : Option WorkflowEventType → Route
unfolding validate_and_route
route_from_idle (some modlist_changed) = validate_and_route idle watching
route_from_idle (some user_command) = validate_and_route idle analyzing
route_from_idle (some tool_request) = validate_and_route idle dispatching
route_from_idle (some shutdown) = to_end
route_from_idle (some error_occurred) = validate_and_route idle error
route_from_idle _ = to_node idle

unfoldable pub route_from_watching : Option WorkflowEventType → Route
unfolding validate_and_route
route_from_watching (some modlist_changed) = validate_and_route watching analyzing
route_from_watching (some error_occurred) = validate_and_route watching error
route_from_watching _ = validate_and_route watching idle

-- `tool_result.get("status") == status`, of a result that is there
unfoldable pub has_status : String → Option ToolResult → Bool
has_status status none = false
has_status status (some r) = elim r.status [ none ↦ false | some t ↦ t == status ]

-- the two edges out of a node that ran a pipeline
unfoldable pub route_from_pipeline : SupervisorState → Option String → Bool → Route
unfolding validate_and_route is_set
route_from_pipeline from_state last_error rollback_triggered =
    if is_set last_error
    then (if not rollback_triggered
        then validate_and_route from_state rolling_back
        else validate_and_route from_state error)
    else validate_and_route from_state completed

-- the answer of the operator
unfoldable pub route_response : String → Route
unfolding validate_and_route
route_response response =
    if response == "approved"
    then validate_and_route hitl_wait dispatching
    else if response == "denied"
    then validate_and_route hitl_wait completed
    else if response == "timeout"
    then validate_and_route hitl_wait error
    else validate_and_route hitl_wait completed

unfoldable pub route_from_rolling_back : Option Bool → Route
unfolding validate_and_route
route_from_rolling_back rollback_result =
    if get_or rollback_result false
    then validate_and_route rolling_back idle
    else validate_and_route rolling_back error_fatal

module _ {P : Type 0} where
  unfoldable pub route_from_analyzing : Workflow P → Route
  unfolding validate_and_route is_set
  route_from_analyzing s =
      if is_set s.last_error
      then validate_and_route analyzing error
      else if is_set s.tool_name
      then (if s.event_data.requires_patch
          then validate_and_route analyzing patching
          else if s.event_data.requires_hitl
          then validate_and_route analyzing hitl_wait
          else validate_and_route analyzing dispatching)
      else validate_and_route analyzing completed

  unfoldable pub route_from_dispatching : Workflow P → Route
  unfolding validate_and_route is_set has_status
  route_from_dispatching s =
      if s.loop_detected
      then validate_and_route dispatching hitl_wait
      else if is_set s.last_error
      then validate_and_route dispatching error
      else if has_status "success" s.tool_result || has_status "aborted" s.tool_result
      then (if get_or s.tool_name "" == "generate_lods"
          then validate_and_route dispatching generating_lods
          else validate_and_route dispatching completed)
      else validate_and_route dispatching completed

  -- the wait without an answer, by the time at which it began
  unfoldable pub route_unanswered : Option ℕ → ℕ → Workflow P → Workflow P × Route
  unfolding validate_and_route
  route_unanswered none now s = (
    record s { last_error = some "Estado HITL inconsistente: hitl_started_at ausente" },
    validate_and_route hitl_wait error,
  )
  route_unanswered (some started) now s =
      if leb hitl_timeout_seconds (now - started)
      then (
        record s { last_error = some "Timeout esperando aprobación humana después de 300s" },
        validate_and_route hitl_wait error,
      )
      else (s, to_node hitl_wait)

  unfoldable pub route_from_hitl_wait : Option String → ℕ → Workflow P → Workflow P × Route
  unfolding route_response route_unanswered
  route_from_hitl_wait (some response) now s = (s, route_response response)
  route_from_hitl_wait none now s = route_unanswered s.hitl_started_at now s

  unfoldable pub route_from_error : Workflow P → Route
  unfolding validate_and_route is_set_id
  route_from_error s =
      if is_set_id s.rollback_transaction_id && not s.rollback_triggered
      then validate_and_route error rolling_back
      else if leb max_retries s.error_count
      then to_end
      else validate_and_route error idle

  -- the edges as `_build_graph` adds them
  unfoldable pub edge : SupervisorState → ℕ → Workflow P → Workflow P × Route
  unfolding route_from_idle route_from_watching route_from_analyzing route_from_dispatching
      route_from_hitl_wait route_from_error route_from_rolling_back route_from_pipeline
  edge init now s = (s, to_node idle)
  edge idle now s = (s, route_from_idle s.pending_event)
  edge watching now s = (s, route_from_watching s.pending_event)
  edge analyzing now s = (s, route_from_analyzing s)
  edge dispatching now s = (s, route_from_dispatching s)
  edge hitl_wait now s = route_from_hitl_wait s.hitl_response now s
  edge error now s = (s, route_from_error s)
  edge rolling_back now s = (s, route_from_rolling_back s.rollback_result)
  edge patching now s = (s, route_from_pipeline patching s.last_error s.rollback_triggered)
  edge generating_lods now s =
      (s, route_from_pipeline generating_lods s.last_error s.rollback_triggered)
  edge completed now s = (s, to_node idle)
  edge error_fatal now s = (s, to_end)
