-- ===== src/Middleware.antt =====
-- `IdempotencyMiddleware` of sky_claw/antigravity/orchestrator/tool_strategies/middleware.py, over
-- the machine of `ToolTask`. A call runs in two parts, before and after the wait for the tool; on one
-- event loop nothing comes between the statements of a part, and other calls run during the wait.
pub mod Flights
pub mod Begin
pub mod Holding
pub mod Exclusion
use sky_claw_gravity.Prelude.{Option, String, if◌then◌else◌, none, some, ℕ}
use sky_claw_gravity.Dict
use sky_claw_gravity.Result.{Result, err, ok}
use sky_claw_gravity.Hashing.{Hashing}
use sky_claw_gravity.ToolTask.{
  TaskError, TaskRecord, ToolStateMachine, acquire_idempotency, completed, create_task, failed,
  is_active, make_key, pending, running, transition,
}

-- How the wait for the tool ends: with a value, with an `Exception`, or with a `BaseException` that
-- `except Exception` does not catch, such as `asyncio.CancelledError`.
pub data Ending (R : Type 0) : Type 0 where
  returned : R → Ending R
  raised : String → Ending R
  cancelled : Ending R

module _ {R P : Type 0} (h : Hashing P) where
  -- from the creation of the task to the wait
  unfoldable pub start_task :
      ℕ
      → ToolStateMachine R
      → Result TaskError (TaskRecord R)
      → ToolStateMachine R × Result TaskError (Option ℕ)
  start_task now sm (err e) = (sm, err e)
  start_task now sm (ok task) =
      let (sm', got) = acquire_idempotency sm task.task_id in
      let (sm'', went) = transition now sm' task.task_id running none none in
      elim got [
        | err e ↦ (sm', err e)
        | ok _ ↦ elim went [ err e ↦ (sm'', err e) | ok _ ↦ (sm'', ok (some task.task_id)) ]
      ]

  -- `__call__` up to the wait; `ok none` is the reply `DuplicateExecution`
  unfoldable pub begin_call :
      ℕ → ToolStateMachine R → String → P → ToolStateMachine R × Result TaskError (Option ℕ)
  unfolding start_task
  begin_call now sm tool_name payload =
      if is_active sm.active (make_key h tool_name payload)
      then (sm, ok none)
      else (let (sm', created) = create_task h now sm tool_name payload pending in
          start_task now sm' created)

-- `__call__` after the wait
unfoldable pub end_call : {R : Type 0} → ℕ → ToolStateMachine R → ℕ → Ending R → ToolStateMachine R
end_call now sm task_id (returned result) =
    (transition now sm task_id completed (some result) none).0
end_call now sm task_id (raised message) = (transition now sm task_id failed none (some message)).0
end_call now sm task_id cancelled = sm
