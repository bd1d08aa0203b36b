-- ===== src/Tests/Graphs.antt =====
-- The workflow of the supervisor.
use sky_claw_gravity.Prelude.{
  List, Option, String, [], arith, count_if, none, refl, some, true, ℕ, ◌∷◌, ◌≡◌, ◌≤◌,
}
use sky_claw_gravity.Hashing.{Hashing}
use sky_claw_gravity.LoopGuardrail.{Guardrail, new}
use sky_claw_gravity.StateGraph.{
  ToolResult, Workflow, analyzing, error, get_initial_state, hitl_wait, is_set, user_command,
}
use sky_claw_gravity.StateGraph.Edges.{edge, to_node}
use sky_claw_gravity.StateGraph.Graph.{Tick, arrives, visits}
use sky_claw_gravity.StateGraph.Routes.{edge_legal, is_legal}
use sky_claw_gravity.StateGraph.Retries.{CountsErrors, errors_bounded, is_error}
use sky_claw_gravity.StateGraph.Waiting.{Expires, Unanswered, wait-Expires}
use sky_claw_gravity.StateGraph.Ending.{LeavesEvent, is_dispatching, retry_never_dispatches}
use sky_claw_gravity.StateGraph.Loops.{
  Callback, at_dispatching, at_hitl_wait, calls, calls-eq-counted, counted_calls,
}

abbrev blank : Workflow String
blank = get_initial_state "wf_1" "Default"

-- the user asks for a tool
abbrev command : Workflow String
command = record blank { pending_event = some user_command; tool_name = some "sort_load_order" }

abbrev failed_command : Workflow String
failed_command = record command { last_error = some "LOOT failed" }

-- a round in which nothing happens outside the nodes
abbrev quiet : ℕ → Tick String
quiet now = record { now = now; world = λ s. s }

quiet-CountsErrors : (now : ℕ) → CountsErrors (quiet now)
quiet-CountsErrors now = record { count_kept = λ s. refl; spent_kept = λ s h. h }

quiet-LeavesEvent : (now : ℕ) → LeavesEvent (quiet now)
quiet-LeavesEvent now = record { error_left = λ s. refl; event_left = λ s. refl }

quiet-Unanswered : (now : ℕ) → Unanswered (quiet now)
quiet-Unanswered now = record { no_answer = λ s h. h; start_kept = λ s. refl }

edge_legal_example : is_legal analyzing (edge analyzing 5 command).1 ≡ true
edge_legal_example = edge_legal analyzing 5 command

errors_bounded_example :
    count_if is_error (visits (quiet 1 ∷ quiet 2 ∷ quiet 3 ∷ []) error failed_command) ≤ 4
unfolding get_initial_state
errors_bounded_example =
    errors_bounded (quiet 1 ∷ quiet 2 ∷ quiet 3 ∷ []) error failed_command
      (quiet-CountsErrors 1, (quiet-CountsErrors 2, (quiet-CountsErrors 3, tt))) refl

wait-Expires_example :
    ((arrives (quiet 0 ∷ quiet 299 ∷ []) hitl_wait command).1 ≡ to_node hitl_wait)
    × Expires (arrives (quiet 0 ∷ quiet 299 ∷ quiet 300 ∷ []) hitl_wait command)
unfolding get_initial_state
wait-Expires_example =
    wait-Expires (quiet 0) (quiet 300) (quiet 299 ∷ []) command
      (quiet-Unanswered 0, (quiet-Unanswered 299, tt)) (quiet-Unanswered 300) refl refl
      (omega arith, tt) (omega arith)

retry_never_dispatches_example :
    count_if is_dispatching (visits (quiet 1 ∷ quiet 2 ∷ quiet 3 ∷ []) error failed_command) ≡ 0
unfolding get_initial_state is_set
retry_never_dispatches_example =
    retry_never_dispatches (quiet 1 ∷ quiet 2 ∷ quiet 3 ∷ []) failed_command
      (quiet-LeavesEvent 1, (quiet-LeavesEvent 2, (quiet-LeavesEvent 3, tt))) refl refl

abbrev plain_text : Hashing String
plain_text = record { dumps = λ p. p; sha256_hex = λ s. s }

abbrev no_tool : String → String → Option ToolResult
no_tool tool payload = none

abbrev fresh : Guardrail
fresh = record { max_repeats = 3; window_size = 5; history = [] }

-- the third call is halted, and the approval lets the tool be called again
abbrev callbacks : List (Callback String)
callbacks =
    at_dispatching command
    ∷ at_dispatching command
    ∷ at_dispatching command
    ∷ at_hitl_wait "approved" (record command { loop_detected = true })
    ∷ at_dispatching command
    ∷ []

calls-eq-counted_example :
    calls plain_text "" no_tool fresh callbacks ≡ counted_calls plain_text "" none callbacks
unfolding new
calls-eq-counted_example = calls-eq-counted plain_text "" no_tool fresh callbacks refl
