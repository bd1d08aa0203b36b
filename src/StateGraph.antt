-- ===== src/StateGraph.antt =====
-- sky_claw/antigravity/orchestrator/state_graph.py: the workflow of the supervisor as a graph of
-- nodes and conditional edges, and the state that flows through it. The engine that runs the graph,
-- LangGraph, is not part of the repository. The clock is an argument, in seconds; a text that Python
-- tests for truth is unset when it is none or empty.
pub mod Nodes
pub mod Edges
pub mod Graph
pub mod Callbacks
pub mod Fallback
pub mod Threads
pub mod History
pub mod Routes
pub mod Retries
pub mod Waiting
pub mod Ending
pub mod Loops
use sky_claw_gravity.Prelude.{
  Bool, Option, String, false, none, not, some, true, ℕ, ◌==◌, nat_eq, string_eq,
}

pub data SupervisorState : Type 0 where
  init idle watching analyzing dispatching hitl_wait : SupervisorState
  completed error rolling_back error_fatal patching generating_lods : SupervisorState

pub data WorkflowEventType : Type 0 where
  modlist_changed user_command tool_request hitl_response_event : WorkflowEventType
  error_occurred timeout shutdown : WorkflowEventType

-- `to_state in _VALID_TRANSITIONS.get(from_state, set())`
unfoldable pub is_valid_transition : SupervisorState → SupervisorState → Bool
is_valid_transition init idle = true
is_valid_transition init error = true
is_valid_transition idle watching = true
is_valid_transition idle analyzing = true
is_valid_transition idle dispatching = true
is_valid_transition idle error = true
is_valid_transition watching analyzing = true
is_valid_transition watching idle = true
is_valid_transition watching error = true
is_valid_transition analyzing dispatching = true
is_valid_transition analyzing hitl_wait = true
is_valid_transition analyzing completed = true
is_valid_transition analyzing idle = true
is_valid_transition analyzing error = true
is_valid_transition analyzing patching = true
is_valid_transition dispatching completed = true
is_valid_transition dispatching idle = true
is_valid_transition dispatching error = true
is_valid_transition dispatching generating_lods = true
is_valid_transition dispatching hitl_wait = true
is_valid_transition hitl_wait dispatching = true
is_valid_transition hitl_wait completed = true
is_valid_transition hitl_wait error = true
is_valid_transition completed idle = true
is_valid_transition error idle = true
is_valid_transition error init = true
is_valid_transition error rolling_back = true
is_valid_transition rolling_back idle = true
is_valid_transition rolling_back error_fatal = true
is_valid_transition patching completed = true
is_valid_transition patching error = true
is_valid_transition patching rolling_back = true
is_valid_transition generating_lods completed = true
is_valid_transition generating_lods error = true
is_valid_transition generating_lods rolling_back = true
is_valid_transition _ _ = false

-- what the edges and nodes read of `event_data`: three keys, with the truth of their values
pub record EventData : Type 0 where
  pub requires_hitl : Bool
  pub requires_patch : Bool
  pub conflict_report : Bool

-- `tool_result`, by its key `status`
pub record ToolResult : Type 0 where
  pub status : Option String

-- `loop_context`
pub record LoopContext : Type 0 where
  pub tool_name : String
  pub occurrences : ℕ

-- `hitl_request`: its `action_type`, and the context of a detected loop
pub record HitlRequest : Type 0 where
  pub action_type : String
  pub context_data : Option LoopContext

-- `StateGraphState`; `P` is the type of the tools' payloads. `rollback_result` is by its key
-- `success`.
pub record Workflow (P : Type 0) : Type 0 where
  pub workflow_id : String
  pub current_state : SupervisorState
  pub previous_state : Option SupervisorState
  pub profile_name : String
  pub pending_event : Option WorkflowEventType
  pub event_data : EventData
  pub tool_name : Option String
  pub tool_payload : Option P
  pub tool_result : Option ToolResult
  pub hitl_request : Option HitlRequest
  pub hitl_response : Option String
  pub last_error : Option String
  pub error_count : ℕ
  pub rollback_triggered : Bool
  pub rollback_result : Option Bool
  pub rollback_transaction_id : Option ℕ
  pub hitl_started_at : Option ℕ
  pub loop_detected : Bool
  pub loop_context : Option LoopContext

-- the truth of a text or of a number that may be missing
unfoldable pub is_set : Option String → Bool
is_set none = false
is_set (some s) = not (s == "")

unfoldable pub is_set_id : Option ℕ → Bool
is_set_id none = false
is_set_id (some n) = not (n == 0)

-- `get_initial_state`
unfoldable pub get_initial_state : {P : Type 0} → String → String → Workflow P
get_initial_state workflow_id profile_name = record {
  workflow_id = workflow_id;
  current_state = init;
  previous_state = none;
  profile_name = profile_name;
  pending_event = none;
  event_data = record { requires_hitl = false; requires_patch = false; conflict_report = false };
  tool_name = none;
  tool_payload = none;
  tool_result = none;
  hitl_request = none;
  hitl_response = none;
  last_error = none;
  error_count = 0;
  rollback_triggered = false;
  rollback_result = none;
  rollback_transaction_id = none;
  hitl_started_at = none;
  loop_detected = false;
  loop_context = none;
}
