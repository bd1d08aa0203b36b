-- ===== src/StateGraph/Nodes.antt =====
-- `StateGraphNodes`: what each node writes into the state.
use sky_claw_gravity.Prelude.{Option, false, if◌then◌else◌, none, some, true, ℕ, ◌+◌}
use sky_claw_gravity.StateGraph.{
  SupervisorState, Workflow, analyzing, completed, dispatching, error, error_fatal, generating_lods,
  hitl_wait, idle, init, patching, rolling_back, watching,
}

-- `hitl_started_at` after the node that waits
unfoldable pub started_at : ℕ → Option ℕ → Option ℕ
started_at now none = some now
started_at now (some t) = some t

module _ {P : Type 0} where
  -- `patching_node`
  unfoldable pub patching_node : Workflow P → Workflow P
  patching_node s =
      if s.event_data.conflict_report
      then record s { current_state = patching; previous_state = some analyzing }
      else record s { current_state = idle; previous_state = some patching }

  -- the nodes of the graph, with the state that the returned updates make
  unfoldable pub node : SupervisorState → ℕ → Workflow P → Workflow P
  unfolding patching_node started_at
  node init now s = record s { current_state = idle; previous_state = some init }
  node idle now s = record s { current_state = idle }
  node watching now s = record s { current_state = watching }
  node analyzing now s = record s { current_state = analyzing; previous_state = some watching }
  node dispatching now s = record s { current_state = dispatching; previous_state = some analyzing }
  node hitl_wait now s = record s {
    current_state = hitl_wait;
    previous_state = some dispatching;
    hitl_started_at = started_at now s.hitl_started_at;
  }
  node completed now s = record s {
    current_state = completed;
    previous_state = some dispatching;
    pending_event = none;
  }
  node error now s = record s { current_state = error; error_count = s.error_count + 1 }
  node rolling_back now s = record s {
    current_state = rolling_back;
    previous_state = some error;
    rollback_triggered = true;
  }
  node error_fatal now s = record s {
    current_state = error_fatal;
    previous_state = some rolling_back;
    rollback_triggered = false;
    rollback_result = some false;
  }
  node patching now s = patching_node s
  node generating_lods now s = record s {
    current_state = generating_lods;
    previous_state = some dispatching;
  }
