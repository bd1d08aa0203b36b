-- ===== src/ToolTask/Idempotency.antt =====
-- Who frees an idempotency key.
use sky_claw_gravity.Prelude.{
  ==-refl, Option, String, arith, nat_beq_iff, none, some, true, ℕ, ◌∙◌, ◌≡◌, ◌≢◌, nat_eq,
  string_eq,
}
use sky_claw_gravity.Dict
use sky_claw_gravity.Dict.{get-put, get-remove}
use sky_claw_gravity.Result.{ok}
use sky_claw_gravity.ToolTask.{
  TaskRecord, ToolStateMachine, acquire_idempotency, apply_move, awaiting_approval, failed,
  is_allowed, is_terminal, moved, running, transition,
}

module _ {R : Type 0} where
  -- The key of a running task is freed by the failure of another task that was created for the
  -- same call and waits for approval: a third task for that call then acquires the key while the
  -- first still runs and still is the task that it was.
  foreign_release :
      (now : ℕ) (sm : ToolStateMachine R) (t t' t'' : ℕ) (r r' r'' : TaskRecord R)
      (e : Option String)
      → Dict.get sm.tasks t ≡ some r
      → Dict.get sm.tasks t' ≡ some r'
      → Dict.get sm.tasks t'' ≡ some r''
      → t ≢ t'
      → t' ≢ t''
      → r.state ≡ running
      → r'.state ≡ awaiting_approval
      → r'.idempotency_key ≡ r.idempotency_key
      → r''.idempotency_key ≡ r.idempotency_key
      → Dict.get sm.active r.idempotency_key ≡ some t
      → let sm' = (transition now sm t' failed none e).0 in
        (Dict.get sm'.tasks t ≡ some r) × ((acquire_idempotency sm' t'').1 ≡ ok true)
  unfolding transition acquire_idempotency is_allowed is_terminal
  foreign_release now sm t t' t'' r r' r'' e p p' p'' n n' run wait k k' held =
      let freed : transition now sm t' failed none e
          ≡ (apply_move r' now sm t' failed none e, ok (moved r' t' failed none e now)) =
        ground arith in
      rw freed (
        get-put sm.tasks t' t (moved r' t' failed none e now) ∙ ground (arith, nat_beq_iff t' t),
        ground (
          arith,
          get-put sm.tasks t' t'' (moved r' t' failed none e now),
          get-remove sm.active r'.idempotency_key r''.idempotency_key,
          ==-refl r.idempotency_key,
          nat_beq_iff t' t'',
        ),
      )
