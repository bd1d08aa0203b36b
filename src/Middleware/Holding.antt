-- ===== src/Middleware/Holding.antt =====
-- A task in flight holds its key, and no other call takes it away.
use sky_claw_gravity.Prelude.{
  ==-eq, ==-ne, ==-refl, Bool-cases, Option, String, arith, if◌then◌else◌, inl, inr, leb,
  nat_beq_iff, none, refl, some, sym, ℕ, ◌+◌, ◌==◌, ◌∙◌, ◌≡◌, ◌≢◌, ◌≤◌, nat_eq, string_eq,
}
use sky_claw_gravity.Dict
use sky_claw_gravity.Dict.{Dict, get-put, get-remove, put-Unique}
use sky_claw_gravity.Hashing.{Hashing}
use sky_claw_gravity.ToolTask.{
  TaskRecord, TaskState, ToolStateMachine, completed, failed, is_allowed, is_terminal, make_key,
  moved, running, transition,
}
use sky_claw_gravity.ToolTask.Transitions.{done, missing, refused, transition_outcome}
use sky_claw_gravity.ToolTask.Lifecycle.{IsValid}
use sky_claw_gravity.Middleware.{Ending, cancelled, end_call, raised, returned}
use sky_claw_gravity.Middleware.Begin.{begun, first}

module _ {R : Type 0} where
  -- a task in flight is running and holds the key that it was created with
  pub record Holds (sm : ToolStateMachine R) (t : ℕ) : Type 0 where
    pub task : TaskRecord R
    pub stored : Dict.get sm.tasks t ≡ some task
    pub runs : task.state ≡ running
    pub held : Dict.get sm.active task.idempotency_key ≡ some t

  -- two tasks that hold one key are one task
  pub Holds-same :
      (sm : ToolStateMachine R) (t t' : ℕ) (a : Holds sm t) (b : Holds sm t')
      → a.task.idempotency_key ≡ b.task.idempotency_key
      → t ≡ t'
  Holds-same sm t t' a b k =
      let e : Dict.get sm.active b.task.idempotency_key ≡ some t = rw (← k) a.held in
      ground (arith, b.held)

  pub Holds-below :
      (sm : ToolStateMachine R) (t : ℕ) → IsValid sm → Holds sm t → t ≤ sm.task_counter
  Holds-below sm t i a = elim (Bool-cases (leb t sm.task_counter)) [
    | inl q ↦ ground arith
    | inr q ↦ ground (arith, i.fresh t, a.stored)
  ]

module _ {R P : Type 0} (h : Hashing P) (now : ℕ) (sm : ToolStateMachine R) (tool : String)
    (payload : P) where
  pub begun-IsValid : IsValid sm → IsValid (begun h now sm tool payload)
  begun-IsValid i =
      let t = sm.task_counter + 1 in
      let d = Dict.put sm.tasks t (first h now sm tool payload) in
      record {
        unique = put-Unique d t _ (put-Unique sm.tasks t _ i.unique);
        fresh = λ j above.
            get-put d t j _
            ∙ rw (get-put sm.tasks t j (first h now sm tool payload))
                (ground (arith, i.fresh j (omega arith)));
      }

  -- a new call leaves the tasks in flight as they are, because its key was free
  pub begun-Holds :
      Dict.get sm.active (make_key h tool payload) ≡ none
      → IsValid sm
      → (i : ℕ) → Holds sm i
      → Holds (begun h now sm tool payload) i
  begun-Holds free v i a =
      let t = sm.task_counter + 1 in
      let d = Dict.put sm.tasks t (first h now sm tool payload) in
      let below = Holds-below sm i v a in
      record {
        task = a.task;
        stored =
            get-put d t i _
            ∙ rw (get-put sm.tasks t i (first h now sm tool payload)) (ground (arith, a.stored));
        runs = a.runs;
        held =
            get-put sm.active (make_key h tool payload) a.task.idempotency_key t
            ∙ elim (Bool-cases (make_key h tool payload == a.task.idempotency_key)) [
              | inl p ↦
                  let e : make_key h tool payload ≡ a.task.idempotency_key = ==-eq _ _ p in
                  let gone : Dict.get sm.active a.task.idempotency_key ≡ none = rw (← e) free in
                  absurd (ground (arith, a.held))
              | inr p ↦ rw p a.held
            ];
      }

  pub begun-new : Holds (begun h now sm tool payload) (sm.task_counter + 1)
  begun-new =
      let t = sm.task_counter + 1 in
      let r = first h now sm tool payload in
      record {
        task = moved r t running none none now;
        stored = get-put (Dict.put sm.tasks t r) t t _ ∙ ground arith;
        runs = refl;
        held = get-put sm.active (make_key h tool payload) (make_key h tool payload) t ∙ rw ==-refl;
      }

-- a key that another task frees, or nobody
get-freed :
    (active : Dict String ℕ) (s : TaskState) (k k' : String)
    → k ≢ k'
    → Dict.get (if is_terminal s then Dict.remove active k else active) k' ≡ Dict.get active k'
get-freed active s k k' ne = elim (Bool-cases (is_terminal s)) [
  | inl p ↦ rw p (get-remove active k k' ∙ rw (==-ne k k' ne))
  | inr p ↦ rw p
]

module _ {R : Type 0} where
  transition-Holds :
      (now : ℕ) (sm : ToolStateMachine R) (t : ℕ) (s : TaskState) (res : Option R)
      (e : Option String)
      → Holds sm t
      → (i : ℕ) → i ≢ t
      → Holds sm i
      → Holds (transition now sm t s res e).0 i
  transition-Holds now sm t s res e b i ne a = elim (transition_outcome now sm t s res e) [
    | missing p q ↦ rw q a
    | refused r' p n q ↦ rw q a
    | done r' p edge q ↦ rw q (record {
      task = a.task;
      stored = get-put sm.tasks t i _ ∙ ground (arith, a.stored, nat_beq_iff t i);
      runs = a.runs;
      held =
          get-freed sm.active s r'.idempotency_key a.task.idempotency_key
            (λ k. ne (Holds-same sm i t a b (sym k ∙ ground (arith, b.stored))))
          ∙ a.held;
    })
  ]

  pub end_call-Holds :
      (now : ℕ) (sm : ToolStateMachine R) (t : ℕ) (ending : Ending R)
      → Holds sm t
      → (i : ℕ) → i ≢ t
      → Holds sm i
      → Holds (end_call now sm t ending) i
  unfolding end_call
  end_call-Holds now sm t (returned r) = transition-Holds now sm t completed (some r) none
  end_call-Holds now sm t (raised e) = transition-Holds now sm t failed none (some e)
  end_call-Holds now sm t cancelled = λ b i ne a. a

module _ {R : Type 0} where
  pub end_cancelled : (now : ℕ) (sm : ToolStateMachine R) (t : ℕ) → end_call now sm t cancelled ≡ sm
  unfolding end_call
  end_cancelled now sm t = refl

  -- the key of a running task is free after the call returned or raised
  pub end_frees :
      (now : ℕ) (sm : ToolStateMachine R) (t : ℕ) (r : TaskRecord R) (key : String) (value : R)
      (message : String)
      → Dict.get sm.tasks t ≡ some r
      → r.state ≡ running
      → r.idempotency_key ≡ key
      → (Dict.get (end_call now sm t (returned value)).active key ≡ none)
        × ((end_call now sm t (returned value)).task_counter ≡ sm.task_counter)
        × (Dict.get (end_call now sm t (raised message)).active key ≡ none)
        × ((end_call now sm t (raised message)).task_counter ≡ sm.task_counter)
  unfolding end_call transition is_allowed is_terminal
  end_frees now sm t r key value message p runs k =
      let g = get-remove sm.active r.idempotency_key key in
      (ground (arith, g, ==-refl key), ground arith, ground (arith, g, ==-refl key), ground arith)
