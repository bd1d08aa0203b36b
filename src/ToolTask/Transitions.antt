-- ===== src/ToolTask/Transitions.antt =====
-- Which calls of `transition` succeed, and what they change.
use sky_claw_gravity.Prelude.{
  Bool-cases, Option, Option-cases, String, arith, false, inl, inr, none, refl, some, true, ℕ, ◌≡◌,
  nat_eq, string_eq,
}
use sky_claw_gravity.Dict
use sky_claw_gravity.Result.{err, ok}
use sky_claw_gravity.ToolTask.{
  TaskRecord, TaskState, ToolStateMachine, apply_move, awaiting_approval, completed, failed,
  invalid_transition, is_allowed, key_error, moved, pending, running, transition,
}

-- The arrows of the diagram in the file's docstring.
infix 40 ◌⟶◌ ◌⟶*◌
pub data ◌⟶◌ : TaskState → TaskState → Type 0 where
  begin : pending ⟶ running
  suspend : pending ⟶ awaiting_approval
  approve : awaiting_approval ⟶ running
  deny : awaiting_approval ⟶ failed
  succeed : running ⟶ completed
  break : running ⟶ failed

pub data ◌⟶*◌ : TaskState → TaskState → Type 0 where
  stay : {s : TaskState} → s ⟶* s
  onward : {s t u : TaskState} → s ⟶* t → t ⟶ u → s ⟶* u

pub allowed-⟶ : (s t : TaskState) → is_allowed s t ≡ true → s ⟶ t
unfolding is_allowed
allowed-⟶ s t h = grind (arith, begin, suspend, approve, deny, succeed, break)

pub ⟶-allowed : {s t : TaskState} → s ⟶ t → is_allowed s t ≡ true
unfolding is_allowed
⟶-allowed begin = refl
⟶-allowed suspend = refl
⟶-allowed approve = refl
⟶-allowed deny = refl
⟶-allowed succeed = refl
⟶-allowed break = refl

module _ {R : Type 0} (now : ℕ) (sm : ToolStateMachine R) (t : ℕ) (s : TaskState) (res : Option R)
    (e : Option String) where
  -- A call of `transition` has one of three outcomes; only the third changes the machine.
  pub data Outcome : Type 0 where
    missing :
        Dict.get sm.tasks t ≡ none → transition now sm t s res e ≡ (sm, err key_error) → Outcome
    refused :
        (r : TaskRecord R)
        → Dict.get sm.tasks t ≡ some r
        → is_allowed r.state s ≡ false
        → transition now sm t s res e ≡ (sm, err invalid_transition)
        → Outcome
    done :
        (r : TaskRecord R)
        → Dict.get sm.tasks t ≡ some r
        → r.state ⟶ s
        → transition now sm t s res e ≡ (apply_move r now sm t s res e, ok (moved r t s res e now))
        → Outcome

  pub transition_outcome : Outcome
  unfolding transition
  transition_outcome = elim (Option-cases (Dict.get sm.tasks t)) [
    | inl p ↦ missing p (ground arith)
    | inr (r, p) ↦ elim (Bool-cases (is_allowed r.state s)) [
      | inl q ↦ done r p (allowed-⟶ r.state s q) (ground arith)
      | inr q ↦ refused r p q (ground arith)
    ]
  ]
