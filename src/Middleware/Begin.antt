-- ===== src/Middleware/Begin.antt =====
-- What the part of a call before the wait does to the machine.
use sky_claw_gravity.Prelude.{String, arith, none, some, ℕ, ◌+◌, ◌≡◌, nat_eq, string_eq}
use sky_claw_gravity.Dict
use sky_claw_gravity.Dict.{get-put}
use sky_claw_gravity.Result.{ok}
use sky_claw_gravity.Hashing.{Hashing}
use sky_claw_gravity.ToolTask.{
  TaskRecord, ToolStateMachine, acquire_idempotency, create_task, is_active, is_allowed,
  is_terminal, make_key, moved, new_record, pending, running, transition,
}
use sky_claw_gravity.Middleware.{begin_call}

module _ {R P : Type 0} (h : Hashing P) (now : ℕ) (sm : ToolStateMachine R) (tool : String)
    (payload : P) where
  abbrev pub first : TaskRecord R
  first = new_record (sm.task_counter + 1) tool pending (make_key h tool payload) now

  -- the machine when the wait for the tool begins
  abbrev pub begun : ToolStateMachine R
  begun =
      let t = sm.task_counter + 1 in
      record {
        tasks = Dict.put (Dict.put sm.tasks t first) t (moved first t running none none now);
        active = Dict.put sm.active (make_key h tool payload) t;
        task_counter = t;
      }

  pub begin_free :
      Dict.get sm.active (make_key h tool payload) ≡ none
      → begin_call h now sm tool payload ≡ (begun, ok (some (sm.task_counter + 1)))
  unfolding begin_call is_active create_task acquire_idempotency transition is_allowed is_terminal
  begin_free free =
      ground (arith, get-put sm.tasks (sm.task_counter + 1) (sm.task_counter + 1) first)

  pub begin_busy :
      (t : ℕ)
      → Dict.get sm.active (make_key h tool payload) ≡ some t
      → begin_call h now sm tool payload ≡ (sm, ok none)
  unfolding begin_call is_active
  begin_busy t busy = ground arith
