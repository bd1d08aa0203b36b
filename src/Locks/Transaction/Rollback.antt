-- ===== src/Locks/Transaction/Rollback.antt =====
-- What the entry of `SnapshotTransactionLock` leaves of the lease.
use sky_claw_gravity.Locks.Retries.{acquire_lock-lease}
use sky_claw_gravity.Prelude.{
  List, Option, String, [], ap, arith, false, refl, some, ℕ, ◌∷◌, ◌≡◌, nat_eq, string_eq,
}
use sky_claw_gravity.Result.{Result, err, ok}
use sky_claw_gravity.Dict
use sky_claw_gravity.Locks.{
  Attempt, LockError, LockInfo, Manager, Table, acquire_lock, acquire_loop, acquisition_error,
  try_acquire,
}
use sky_claw_gravity.Locks.Leases.{release_lem}
use sky_claw_gravity.Locks.Transaction.{
  Ending, Entry, Snapshots, cancelled, create_all, enter, enter_held, enter_locked, entered, raised,
  refused, returned, snapshot_cancelled, snapshot_raised,
}

abbrev pub HasLease : Table → String → String → Type 0
HasLease t r agent = (l : LockInfo) × (Dict.get t r ≡ some l) × (l.agent_id ≡ agent)

-- what each way out of `__aenter__` leaves of the lease
abbrev pub Leaves :
    {F S : Type 0} → (sm : Snapshots F S) → Table → String → String → Entry sm → Type 0
Leaves sm t r agent (entered l snapshots) = (Dict.get t r ≡ some l) × (l.agent_id ≡ agent)
Leaves sm t r agent (refused e) = e ≡ acquisition_error r agent
Leaves sm t r agent snapshot_raised = ¬ (HasLease t r agent)
Leaves sm t r agent snapshot_cancelled = HasLease t r agent

acquire_loop-refused :
    (t : Table) (as' : List Attempt) (r agent : String) (ttl : ℕ) (e : LockError)
    → (acquire_loop t as' r agent ttl).1 ≡ err e
    → e ≡ acquisition_error r agent
unfolding acquire_loop
acquire_loop-refused t [] r agent ttl e h = ground (arith, h)
acquire_loop-refused t (a ∷ as') r agent ttl e h =
    ground (arith, h, acquire_loop-refused (try_acquire t a r agent ttl).0 as' r agent ttl e)

acquire_lock-refused :
    (m : Manager) (t : Table) (environment : ℕ → Attempt) (r agent : String) (ttl : Option ℕ)
    (e : LockError)
    → (acquire_lock m t environment r agent ttl).1 ≡ err e
    → e ≡ acquisition_error r agent
unfolding acquire_lock
acquire_lock-refused m t environment r agent ttl e h = acquire_loop-refused t _ r agent _ e h

module _ {F S : Type 0} (sm : Snapshots F S) where
  held-Leaves :
      (t : Table) (r agent : String) (l : LockInfo) (made : F × Ending (List S))
      → Dict.get t r ≡ some l
      → l.agent_id ≡ agent
      → let (t', _, entry) = enter_held sm t false r agent l made in Leaves sm t' r agent entry
  unfolding enter_held
  held-Leaves t r agent l (files, returned ss) e a = (e, a)
  held-Leaves t r agent l (files, raised) e a = λ (l', e', a'). (release_lem t r agent).2 l' e' a'
  held-Leaves t r agent l (files, cancelled) e a = (l, e, a)

  locked-Leaves :
      (t : Table) (r agent : String) (answer : Result LockError LockInfo) (files : F)
      (paths : List String)
      → ((l : LockInfo) → answer ≡ ok l → (Dict.get t r ≡ some l) × (l.agent_id ≡ agent))
      → ((e : LockError) → answer ≡ err e → e ≡ acquisition_error r agent)
      → let (t', _, entry) = enter_locked sm t false r agent answer files paths in
        Leaves sm t' r agent entry
  unfolding enter_locked
  locked-Leaves t r agent (ok l) files paths f g =
      held-Leaves t r agent l (create_all sm files paths []) (f l refl).0 (f l refl).1
  locked-Leaves t r agent (err e) files paths f g = g e refl

  -- When the database carries out each release: `__aenter__` that returns holds a lease of the
  -- agent on the resource, one that cannot get the lock raises the acquisition error, and one
  -- whose snapshot raises leaves the agent no lease there. A cancellation while the snapshots
  -- are made leaves the agent's lease in the table.
  enter_lem :
      (m : Manager) (t : Table) (environment : ℕ → Attempt) (files : F) (r agent : String)
      (paths : List String) (ttl : Option ℕ)
      → let (t', _, entry) = enter sm m t environment files r agent paths ttl false in
        Leaves sm t' r agent entry
  unfolding enter
  enter_lem m t environment files r agent paths ttl =
      locked-Leaves (acquire_lock m t environment r agent ttl).0 r agent
        (acquire_lock m t environment r agent ttl).1 files paths
        (λ l e.
          let got = acquire_lock-lease m t environment r agent ttl l e in
          (got.4, ap (λ x. x.agent_id) got.3))
        (λ e p. acquire_lock-refused m t environment r agent ttl e p)
