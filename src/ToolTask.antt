-- ===== src/ToolTask.antt =====
-- sky_claw/antigravity/orchestrator/tool_state_machine.py: the life of a tool execution and the
-- guard against two executions of one call. A task id "task_<n>" is the number n; the clock
-- `time.monotonic()` is an argument, in ticks. A method that mutates `self` returns the new
-- machine; an exception is the result `err`, with the machine that the raise left.
pub mod Transitions
pub mod Idempotency
pub mod Cleanup
pub mod Lifecycle
use Prim.Native.String.{◌++◌}
use sky_claw_gravity.Prelude.{
  ℕ, suc, ◌+◌, String, Bool, true, false, ◌&&◌, not, Option, none, some, List, [], ◌∷◌, leb, nat_eq,
  string_eq, if◌then◌else◌, count_if,
}
use sky_claw_gravity.Dict
use sky_claw_gravity.Dict.{Dict}
use sky_claw_gravity.Result.{Result, ok, err}
use sky_claw_gravity.Hashing.{Hashing}

-- The field is a `str`: a text that is none of the five states is `other`.
pub data TaskState : Type 0 where
  pending running completed failed awaiting_approval : TaskState
  other : String → TaskState

pub data TaskError : Type 0 where
  invalid_transition : TaskError
  key_error : TaskError

pub record TaskRecord (R : Type 0) : Type 0 where
  pub task_id : ℕ
  pub tool_name : String
  pub state : TaskState
  pub idempotency_key : String
  pub created_at : ℕ
  pub updated_at : ℕ
  pub error_message : Option String
  pub result : Option R

pub record ToolStateMachine (R : Type 0) : Type 0 where
  pub tasks : Dict ℕ (TaskRecord R)
  pub active : Dict String ℕ  -- the guard's `_active`: idempotency key to task id
  pub task_counter : ℕ

-- `IdempotencyGuard.make_key`
unfoldable pub make_key : {P : Type 0} → Hashing P → String → P → String
make_key h tool_name payload = h.sha256_hex (tool_name ++ ":" ++ h.dumps payload)

-- `IdempotencyGuard.acquire`, on the guard's table
unfoldable pub acquire : Dict String ℕ → String → ℕ → Dict String ℕ × Bool
acquire active key task_id = elim (Dict.get active key) [
  | some existing ↦ (active, false)
  | none ↦ (Dict.put active key task_id, true)
]

-- `IdempotencyGuard.is_active`
unfoldable pub is_active : Dict String ℕ → String → Bool
is_active active key = elim (Dict.get active key) [ some existing ↦ true | none ↦ false ]

-- `new_state in _VALID_TRANSITIONS.get(state, set())`
unfoldable pub is_allowed : TaskState → TaskState → Bool
is_allowed pending running = true
is_allowed pending awaiting_approval = true
is_allowed awaiting_approval running = true
is_allowed awaiting_approval failed = true
is_allowed running completed = true
is_allowed running failed = true
is_allowed _ _ = false

-- `state in ("COMPLETED", "FAILED")`
unfoldable pub is_terminal : TaskState → Bool
is_terminal completed = true
is_terminal failed = true
is_terminal _ = false

-- `state in _valid_initial_states`
unfoldable pub is_initial : TaskState → Bool
is_initial pending = true
is_initial awaiting_approval = true
is_initial _ = false

module _ {R : Type 0} where
  -- the record that `create_task` writes
  abbrev pub new_record : ℕ → String → TaskState → String → ℕ → TaskRecord R
  new_record task_id tool_name state key now = record {
    task_id = task_id;
    tool_name = tool_name;
    state = state;
    idempotency_key = key;
    created_at = now;
    updated_at = now;
    error_message = none;
    result = none;
  }

  unfoldable pub create_task :
      {P : Type 0}
      → Hashing P
      → ℕ
      → ToolStateMachine R
      → String
      → P
      → TaskState
      → ToolStateMachine R × Result TaskError (TaskRecord R)
  unfolding is_initial make_key
  create_task h now sm tool_name payload initial_state =
      if is_initial initial_state
      then (let task_id = sm.task_counter + 1 in
          let r = new_record task_id tool_name initial_state (make_key h tool_name payload) now in
          (record sm { task_counter = task_id; tasks = Dict.put sm.tasks task_id r }, ok r))
      else (sm, err invalid_transition)

  -- the record that `transition` writes
  abbrev pub moved : TaskRecord R → ℕ → TaskState → Option R → Option String → ℕ → TaskRecord R
  moved current task_id new_state result error_message now = record current {
    task_id = task_id;
    state = new_state;
    updated_at = now;
    error_message = error_message;
    result = result;
  }

  -- the machine after an allowed `transition`
  abbrev pub apply_move :
      TaskRecord R
      → ℕ
      → ToolStateMachine R
      → ℕ
      → TaskState
      → Option R
      → Option String
      → ToolStateMachine R
  apply_move current now sm task_id new_state result error_message = record sm {
    active =
        if is_terminal new_state then Dict.remove sm.active current.idempotency_key else sm.active;
    tasks = Dict.put sm.tasks task_id (moved current task_id new_state result error_message now);
  }

  -- `transition` once the task is found
  unfoldable pub transition_from :
      TaskRecord R
      → ℕ
      → ToolStateMachine R
      → ℕ
      → TaskState
      → Option R
      → Option String
      → ToolStateMachine R × Result TaskError (TaskRecord R)
  transition_from current now sm task_id new_state result error_message =
      if is_allowed current.state new_state
      then (
        apply_move current now sm task_id new_state result error_message,
        ok (moved current task_id new_state result error_message now),
      )
      else (sm, err invalid_transition)

  unfoldable pub transition :
      ℕ
      → ToolStateMachine R
      → ℕ
      → TaskState
      → Option R
      → Option String
      → ToolStateMachine R × Result TaskError (TaskRecord R)
  unfolding transition_from
  transition now sm task_id new_state result error_message = elim (Dict.get sm.tasks task_id) [
    | none ↦ (sm, err key_error)
    | some current ↦ transition_from current now sm task_id new_state result error_message
  ]

  unfoldable pub acquire_idempotency :
      ToolStateMachine R → ℕ → ToolStateMachine R × Result TaskError Bool
  unfolding acquire
  acquire_idempotency sm task_id = elim (Dict.get sm.tasks task_id) [
    | none ↦ (sm, err key_error)
    | some task ↦
        (let (active', got) = acquire sm.active task.idempotency_key task_id in
          (record sm { active = active' }, ok got))
  ]

  -- the test of `cleanup_terminal` on one task
  unfoldable pub is_stale : ℕ → ℕ → TaskRecord R → Bool
  unfolding is_terminal
  is_stale now max_age task = is_terminal task.state && leb (task.updated_at + max_age) now

  -- `[tid for tid, task in tasks.items() if is_stale(task)]`
  unfoldable pub stale_ids : ℕ → ℕ → Dict ℕ (TaskRecord R) → List ℕ
  stale_ids now max_age [] = []
  stale_ids now max_age ((tid, task) ∷ d) =
      let rest = stale_ids now max_age d in if is_stale now max_age task then tid ∷ rest else rest

  -- `for tid in to_remove: del tasks[tid]`
  unfoldable pub delete_all : Dict ℕ (TaskRecord R) → List ℕ → Dict ℕ (TaskRecord R)
  delete_all d [] = d
  delete_all d (tid ∷ tids) = delete_all (Dict.remove d tid) tids

  unfoldable pub cleanup_terminal : ℕ → ToolStateMachine R → ℕ → ToolStateMachine R × List ℕ
  unfolding stale_ids delete_all is_stale
  cleanup_terminal now sm max_age =
      let to_remove = stale_ids now max_age sm.tasks in
      (record sm { tasks = delete_all sm.tasks to_remove }, to_remove)

  unfoldable pub active_task_count : ToolStateMachine R → ℕ
  unfolding is_terminal
  active_task_count sm = count_if (λ e. not (is_terminal e.1.state)) sm.tasks
