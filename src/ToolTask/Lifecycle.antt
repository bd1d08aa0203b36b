-- ===== src/ToolTask/Lifecycle.antt =====
-- The history of one task, over any sequence of calls on the machine.
use sky_claw_gravity.Prelude.{
  ==-eq, Bool, Bool-cases, Option, String, arith, false, if◌then◌else◌, inl, inr, leb, nat_beq_iff,
  none, refl, some, true, ℕ, ◌+◌, ◌<◌, ◌==◌, ◌∙◌, ◌≡◌, ◌≤◌, nat_eq, string_eq,
}
use sky_claw_gravity.Dict
use sky_claw_gravity.Dict.{Unique, get-put, put-Unique}
use sky_claw_gravity.Hashing.{Hashing}
use sky_claw_gravity.ToolTask.{
  TaskRecord, TaskState, ToolStateMachine, acquire_idempotency, cleanup_terminal, create_task,
  is_initial, is_stale, is_terminal, moved, transition,
}
use sky_claw_gravity.ToolTask.Transitions.{
  done, missing, onward, refused, stay, transition_outcome, ◌⟶*◌, ◌⟶◌,
}
use sky_claw_gravity.ToolTask.Cleanup.{cleanup_terminal-Unique, get-cleanup_terminal, kept}

module _ {R P : Type 0} (h : Hashing P) where
  -- one call of a method that changes the machine, whatever its arguments
  pub data Step (sm sm' : ToolStateMachine R) : Type 0 where
    create_step :
        (now : ℕ) (tool_name : String) (payload : P) (initial : TaskState)
        → sm' ≡ (create_task h now sm tool_name payload initial).0
        → Step sm sm'
    transition_step :
        (now t : ℕ) (s : TaskState) (res : Option R) (e : Option String)
        → sm' ≡ (transition now sm t s res e).0
        → Step sm sm'
    acquire_step : (t : ℕ) → sm' ≡ (acquire_idempotency sm t).0 → Step sm sm'
    cleanup_step : (now max_age : ℕ) → sm' ≡ (cleanup_terminal now sm max_age).0 → Step sm sm'

  pub data Reach (sm : ToolStateMachine R) : ToolStateMachine R → Type 0 where
    here : Reach sm sm
    next : {u v : ToolStateMachine R} → Reach sm u → Step u v → Reach sm v

module _ {R : Type 0} where
  -- each id is stored once, and no id above the counter is stored
  pub record IsValid (sm : ToolStateMachine R) : Type 0 where
    pub unique : Unique sm.tasks
    pub fresh : (j : ℕ) → sm.task_counter < j → Dict.get sm.tasks j ≡ none

  -- what a task may have become: it went along the diagram with its identity kept, or a cleanup
  -- took it after it had ended
  pub data Continues (r : TaskRecord R) : Option (TaskRecord R) → Type 0 where
    gone : (s : TaskState) → r.state ⟶* s → is_terminal s ≡ true → Continues r none
    went :
        (r' : TaskRecord R)
        → r.state ⟶* r'.state
        → r'.idempotency_key ≡ r.idempotency_key
        → r'.tool_name ≡ r.tool_name
        → r'.created_at ≡ r.created_at
        → Continues r (some r')

  -- a task, now stored as `o`, after one more write of its state
  went_on :
      (r : TaskRecord R) (now t : ℕ) {o : Option (TaskRecord R)} (r' : TaskRecord R) (s : TaskState)
      (res : Option R) (e : Option String)
      → Continues r o
      → o ≡ some r'
      → r'.state ⟶ s
      → Continues r (some (moved r' t s res e now))
  went_on r now t r' s res e (gone s' p q) eq edge = cc
  went_on r now t r' s res e (went r'' p k n c) eq edge =
      let same : r'' ≡ r' = ground arith in
      went (moved r' t s res e now) (onward (rw (← same) p) edge) (rw (← same) k) (rw (← same) n)
        (rw (← same) c)

  Continues-if :
      {r : TaskRecord R} (b : Bool) {x y : Option (TaskRecord R)}
      → (b ≡ true → Continues r x)
      → Continues r y
      → Continues r (if b then x else y)
  Continues-if true cx cy = cx refl
  Continues-if false cx cy = cy

  transition-Continues :
      (r : TaskRecord R) (j now : ℕ) (sm : ToolStateMachine R) (t : ℕ) (s : TaskState)
      (res : Option R) (e : Option String)
      → Continues r (Dict.get sm.tasks j)
      → Continues r (Dict.get (transition now sm t s res e).0.tasks j)
  transition-Continues r j now sm t s res e c = elim (transition_outcome now sm t s res e) [
    | missing p q ↦ rw q c
    | refused r' p a q ↦ rw q c
    | done r' p edge q ↦
        rw (q, get-put sm.tasks t j (moved r' t s res e now))
          (Continues-if (t == j)
            (λ same. went_on r now t r' s res e c (rw (← ==-eq t j same) p) edge) c)
  ]

  Continues-kept :
      (r : TaskRecord R) (now max_age : ℕ) {o : Option (TaskRecord R)}
      → Continues r o
      → Continues r (kept now max_age o)
  unfolding is_stale
  Continues-kept r now max_age (gone s p q) = gone s p q
  Continues-kept r now max_age (went r' p k n c) =
      Continues-if (is_stale now max_age r') (λ stale. gone r'.state p (ground arith))
        (went r' p k n c)

  stored_below :
      (sm : ToolStateMachine R) (j : ℕ) {r : TaskRecord R}
      → IsValid sm
      → Dict.get sm.tasks j ≡ some r
      → j ≤ sm.task_counter
  stored_below sm j i p = elim (Bool-cases (leb j sm.task_counter)) [
    | inl q ↦ ground arith
    | inr q ↦ ground (arith, i.fresh j)
  ]

  acquire-tasks : (sm : ToolStateMachine R) (t : ℕ) → (acquire_idempotency sm t).0.tasks ≡ sm.tasks
  unfolding acquire_idempotency
  acquire-tasks sm t = ground arith

  acquire-counter :
      (sm : ToolStateMachine R) (t : ℕ)
      → (acquire_idempotency sm t).0.task_counter ≡ sm.task_counter
  unfolding acquire_idempotency
  acquire-counter sm t = ground arith

  transition-counter :
      (now : ℕ) (sm : ToolStateMachine R) (t : ℕ) (s : TaskState) (res : Option R)
      (e : Option String)
      → (transition now sm t s res e).0.task_counter ≡ sm.task_counter
  unfolding transition
  transition-counter now sm t s res e = ground arith

module _ {R P : Type 0} (h : Hashing P) where
  create-tasks :
      (now : ℕ) (sm : ToolStateMachine R) (tool : String) (payload : P) (s : TaskState) (j : ℕ)
      → j ≤ sm.task_counter
      → Dict.get (create_task h now sm tool payload s).0.tasks j ≡ Dict.get sm.tasks j
  unfolding create_task
  create-tasks now sm tool payload s j below = elim (Bool-cases (is_initial s)) [
    | inl p ↦ rw (p, create_task) (get-put sm.tasks (sm.task_counter + 1) j _ ∙ ground arith)
    | inr p ↦ rw (p, create_task)
  ]

  create-counter :
      (now : ℕ) (sm : ToolStateMachine R) (tool : String) (payload : P) (s : TaskState)
      → sm.task_counter ≤ (create_task h now sm tool payload s).0.task_counter
  unfolding create_task
  create-counter now sm tool payload s = ground arith

  Step-counter : {u v : ToolStateMachine R} → Step h u v → u.task_counter ≤ v.task_counter
  Step-counter {u} (create_step now tool payload s e) = rw e (create-counter now u tool payload s)
  Step-counter {u} (transition_step now t s res x e) =
      rw e (omega (arith, transition-counter now u t s res x))
  Step-counter {u} (acquire_step t e) = rw e (omega (arith, acquire-counter u t))
  Step-counter {u} (cleanup_step now max_age e) = rw e (unfold cleanup_terminal in omega arith)

  Step-Continues :
      (r : TaskRecord R) (j : ℕ) {u v : ToolStateMachine R}
      → Step h u v
      → IsValid u
      → j ≤ u.task_counter
      → Continues r (Dict.get u.tasks j)
      → Continues r (Dict.get v.tasks j)
  Step-Continues r j {u} (create_step now tool payload s e) i below c =
      rw (e, create-tasks now u tool payload s j below) c
  Step-Continues r j {u} (transition_step now t s res x e) i below c =
      rw e (transition-Continues r j now u t s res x c)
  Step-Continues r j {u} (acquire_step t e) i below c = rw (e, acquire-tasks u t) c
  Step-Continues r j {u} (cleanup_step now max_age e) i below c =
      rw (e, get-cleanup_terminal now max_age u j i.unique) (Continues-kept r now max_age c)

  create-IsValid :
      (now : ℕ) (sm : ToolStateMachine R) (tool : String) (payload : P) (s : TaskState)
      → IsValid sm
      → IsValid (create_task h now sm tool payload s).0
  unfolding create_task
  create-IsValid now sm tool payload s i = elim (Bool-cases (is_initial s)) [
    | inl p ↦ rw p (record {
      unique = put-Unique sm.tasks (sm.task_counter + 1) _ i.unique;
      fresh = λ j above.
          get-put sm.tasks (sm.task_counter + 1) j _ ∙ ground (arith, i.fresh j (omega arith));
    })
    | inr p ↦ rw p i
  ]

  pub transition-IsValid :
      (now : ℕ) (sm : ToolStateMachine R) (t : ℕ) (s : TaskState) (res : Option R)
      (e : Option String)
      → IsValid sm
      → IsValid (transition now sm t s res e).0
  transition-IsValid now sm t s res e i = elim (transition_outcome now sm t s res e) [
    | missing p q ↦ rw q i
    | refused r' p a q ↦ rw q i
    | done r' p edge q ↦ rw q (record {
      unique = put-Unique sm.tasks t (moved r' t s res e now) i.unique;
      fresh = λ j above.
          get-put sm.tasks t j (moved r' t s res e now)
          ∙ ground (arith, i.fresh j above, nat_beq_iff t j);
    })
  ]

  Step-IsValid : {u v : ToolStateMachine R} → Step h u v → IsValid u → IsValid v
  Step-IsValid {u} (create_step now tool payload s e) i =
      rw e (create-IsValid now u tool payload s i)
  Step-IsValid {u} (transition_step now t s res x e) i = rw e (transition-IsValid now u t s res x i)
  Step-IsValid {u} {v} (acquire_step t e) i =
      let same : v.tasks ≡ u.tasks = rw e (acquire-tasks u t) in
      let count : v.task_counter ≡ u.task_counter = rw e (acquire-counter u t) in
      record { unique = rw same i.unique; fresh = λ j above. rw same (i.fresh j (omega arith)) }
  Step-IsValid {u} (cleanup_step now max_age e) i = rw e (record {
    unique = cleanup_terminal-Unique now max_age u i.unique;
    fresh = λ j above.
        get-cleanup_terminal now max_age u j i.unique
        ∙ rw (i.fresh j (unfold cleanup_terminal in omega arith));
  })

  Reach-IsValid : {u v : ToolStateMachine R} → Reach h u v → IsValid u → IsValid v
  Reach-IsValid here i = i
  Reach-IsValid (next r st) i = Step-IsValid st (Reach-IsValid r i)

  Reach-counter : {u v : ToolStateMachine R} → Reach h u v → u.task_counter ≤ v.task_counter
  Reach-counter here = omega arith
  Reach-counter (next r st) = omega (arith, Reach-counter r, Step-counter st)

  history :
      (r : TaskRecord R) (j : ℕ) {u v : ToolStateMachine R}
      → IsValid u
      → j ≤ u.task_counter
      → Continues r (Dict.get u.tasks j)
      → Reach h u v
      → Continues r (Dict.get v.tasks j)
  history r j i below c here = c
  history r j i below c (next p st) =
      Step-Continues r j st (Reach-IsValid p i) (omega (arith, Reach-counter p))
        (history r j i below c p)

  -- Whatever calls follow, a task that a valid machine stores only moves along the diagram, with
  -- its key, its tool and its creation time kept, and it disappears only after it has completed
  -- or failed.
  pub task_history :
      (u v : ToolStateMachine R) (j : ℕ) (r : TaskRecord R)
      → IsValid u
      → Dict.get u.tasks j ≡ some r
      → Reach h u v
      → Continues r (Dict.get v.tasks j)
  task_history u v j r i p =
      history r j i (stored_below u j i p) (rw p (went r stay refl refl refl))
