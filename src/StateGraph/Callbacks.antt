-- ===== src/StateGraph/Callbacks.antt =====
-- `StateGraphIntegration`: what the callbacks of a connected supervisor do around the nodes. The
-- supervisor's tools are an argument: a tool returns its result, or raises.
use sky_claw_gravity.Prelude.{
  Bool, Option, String, false, get_or, if◌then◌else◌, none, some, true, ◌&&◌, ◌==◌, nat_eq,
  string_eq,
}
use sky_claw_gravity.Hashing.{Hashing}
use sky_claw_gravity.LoopGuardrail.{Guardrail, Tripped, register_and_check, reset}
use sky_claw_gravity.StateGraph.{HitlRequest, LoopContext, ToolResult, Workflow, is_set}

-- what `_on_dispatching` leaves: the guardrail, the state, whether the tool was called, and whether
-- it raised
pub record Dispatched (P : Type 0) : Type 0 where
  pub guardrail : Guardrail
  pub workflow : Workflow P
  pub called : Bool
  pub raised : Bool

abbrev pub no_tool_result : ToolResult
no_tool_result = record { status = some "error" }

-- the request that a tripped guardrail makes
abbrev pub halt_request : LoopContext → HitlRequest
halt_request context = record { action_type = "circuit_breaker_halt"; context_data = some context }

module _ {P : Type 0} where
  -- the call of the tool
  unfoldable pub call_tool : Guardrail → Workflow P → Option ToolResult → Dispatched P
  call_tool g s none = record { guardrail = g; workflow = s; called = true; raised = true }
  call_tool g s (some result) = record {
    guardrail = g;
    workflow = record s { tool_result = some result };
    called = true;
    raised = false;
  }

  -- `_on_dispatching` after the guardrail's answer
  unfoldable pub dispatch_checked :
      (String → P → Option ToolResult)
      → Workflow P
      → String
      → P
      → Guardrail × Option Tripped
      → Dispatched P
  unfolding call_tool
  dispatch_checked dispatch_tool s tool payload (g, some trip) =
      let context : LoopContext = record {
        tool_name = trip.tool_name;
        occurrences = trip.occurrences;
      } in
      record {
        guardrail = g;
        workflow = record s {
          loop_detected = true;
          loop_context = some context;
          hitl_request = some (halt_request context);
        };
        called = false;
        raised = false;
      }
  dispatch_checked dispatch_tool s tool payload (g, none) =
      call_tool g s (dispatch_tool tool payload)

  -- `_on_dispatching`; `empty` is the payload `{}`
  unfoldable pub on_dispatching :
      Hashing P → P → (String → P → Option ToolResult) → Guardrail → Workflow P → Dispatched P
  unfolding dispatch_checked is_set
  on_dispatching h empty dispatch_tool g s =
      if is_set s.tool_name
      then (let tool = get_or s.tool_name "" in
          let payload = get_or s.tool_payload empty in
          dispatch_checked dispatch_tool s tool payload (register_and_check h g tool payload))
      else record {
        guardrail = g;
        workflow = record s {
          last_error = some "tool_name is None or invalid";
          tool_result = some no_tool_result;
        };
        called = false;
        raised = false;
      }

  -- `_on_hitl_wait`, with the operator's response
  unfoldable pub on_hitl_wait : String → Guardrail → Workflow P → Guardrail × Workflow P
  unfolding reset
  on_hitl_wait response g s =
      if response == "approved" && s.loop_detected
      then (
        reset g,
        record s { hitl_response = some response; loop_detected = false; loop_context = none },
      )
      else (g, record s { hitl_response = some response })
