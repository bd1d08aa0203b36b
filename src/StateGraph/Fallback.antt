-- ===== src/StateGraph/Fallback.antt =====
-- `_execute_fallback` and `submit_event`: the workflow without LangGraph.
use sky_claw_gravity.Prelude.{Option, String, get_or, if◌then◌else◌, some}
use sky_claw_gravity.StateGraph.{
  EventData, SupervisorState, Workflow, WorkflowEventType, analyzing, completed, dispatching, error,
  get_initial_state, idle, init, is_set, modlist_changed, user_command,
}

module _ {P : Type 0} where
  -- the state after a move
  abbrev pub move_to : SupervisorState → SupervisorState → Workflow P → Workflow P
  move_to from to s = record s { current_state = to; previous_state = some from }

  -- the event of a modlist or of a user
  unfoldable pub analyze_fallback : Workflow P → Workflow P
  unfolding is_set
  analyze_fallback s =
      if is_set s.tool_name
      then (if is_set s.last_error
          then move_to dispatching error s
          else move_to dispatching completed s)
      else move_to analyzing completed s

  unfoldable pub fallback_event : Option WorkflowEventType → Workflow P → Workflow P
  unfolding analyze_fallback
  fallback_event (some modlist_changed) s = analyze_fallback s
  fallback_event (some user_command) s = analyze_fallback s
  fallback_event _ s = s

  unfoldable pub execute_fallback : Workflow P → Workflow P
  unfolding fallback_event
  execute_fallback s = fallback_event s.pending_event (move_to init idle s)

  -- the state that `submit_event` executes
  unfoldable pub submitted :
      String → String → WorkflowEventType → EventData → Option String → Workflow P
  unfolding get_initial_state is_set
  submitted workflow_id profile_name event_type event_data thread_id =
      let s = get_initial_state workflow_id profile_name in
      let s' = record s { pending_event = some event_type; event_data = event_data } in
      if is_set thread_id then record s' { workflow_id = get_or thread_id "" } else s'
