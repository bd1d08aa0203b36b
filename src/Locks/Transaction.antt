-- ===== src/Locks/Transaction.antt =====
-- `SnapshotTransactionLock` of sky_claw/antigravity/db/locks.py: a lease held while snapshots of the
-- target files are there to roll back to. The snapshot manager is an
-- interface, which `Files` fills by the one of the snapshots. A lock object is
-- entered once, so that its list of snapshots is empty before.
pub mod Rollback
pub mod Files
pub mod Restoring
use sky_claw_gravity.Prelude.{Bool, List, Option, String, [], if◌then◌else◌, ℕ, ◌++◌, ◌∷◌}
use sky_claw_gravity.Result.{Result, err, ok}
use sky_claw_gravity.Locks.{
  Attempt, LockError, LockInfo, Manager, Table, acquire_lock, release_lock,
}

-- how a call of the snapshot manager ends: a value, an `Exception`, or a cancellation
pub data Ending {ℓ} (A : Type ℓ) : Type ℓ where
  returned : A → Ending A
  raised : Ending A
  cancelled : Ending A

-- the file system and the operations on it that the lock uses; `restore_snapshot` tells whether it
-- returned
pub record Snapshots (F S : Type 0) : Type 0 where
  pub is_file : F → String → Bool
  pub create_snapshot : F → String → F × Ending S
  pub restore_snapshot : F → S → F × Bool

module _ {F S : Type 0} (sm : Snapshots F S) where
  -- the loop over the target files, with the snapshots that it has appended
  unfoldable pub create_all : F → List String → List S → F × Ending (List S)
  create_all files [] snapshots = (files, returned snapshots)
  create_all files (path ∷ paths) snapshots =
      let skipped = create_all files paths snapshots in
      let (files', made) = sm.create_snapshot files path in
      let next : F × Ending (List S) = elim made [
        | returned s ↦ create_all files' paths (snapshots ++ s ∷ [])
        | raised ↦ (files', raised)
        | cancelled ↦ (files', cancelled)
      ] in
      if sm.is_file files path then next else skipped

  -- `_safe_release`
  abbrev pub safe_release : Table → Bool → String → String → Table
  safe_release t db_error resource_id agent_id = (release_lock t db_error resource_id agent_id).0

  -- how `__aenter__` ends
  pub data Entry : Type 0 where
    entered : LockInfo → List S → Entry
    refused : LockError → Entry
    snapshot_raised : Entry
    snapshot_cancelled : Entry

  -- `__aenter__` after the lock is got
  unfoldable pub enter_held :
      Table → Bool → String → String → LockInfo → F × Ending (List S) → Table × F × Entry
  enter_held t db_error resource_id agent_id l (files, returned snapshots) =
      (t, files, entered l snapshots)
  enter_held t db_error resource_id agent_id l (files, raised) =
      (safe_release t db_error resource_id agent_id, files, snapshot_raised)
  enter_held t db_error resource_id agent_id l (files, cancelled) = (t, files, snapshot_cancelled)

  -- `__aenter__` after `acquire_lock`
  unfoldable pub enter_locked :
      Table
      → Bool
      → String
      → String
      → Result LockError LockInfo
      → F
      → List String
      → Table × F × Entry
  unfolding create_all enter_held
  enter_locked t db_error resource_id agent_id (ok l) files target_files =
      enter_held t db_error resource_id agent_id l (create_all files target_files [])
  enter_locked t db_error resource_id agent_id (err e) files target_files = (t, files, refused e)

  -- `__aenter__`; `db_error` is for the release
  unfoldable pub enter :
      Manager
      → Table
      → (ℕ → Attempt)
      → F
      → String
      → String
      → List String
      → Option ℕ
      → Bool
      → Table × F × Entry
  unfolding acquire_lock enter_locked
  enter m t environment files resource_id agent_id target_files ttl db_error =
      let (t', answer) = acquire_lock m t environment resource_id agent_id ttl in
      enter_locked t' db_error resource_id agent_id answer files target_files

  -- the rollback of `__aexit__`, over the snapshots in reverse; one that raises is passed over, and a
  -- cancellation does not come during the rollback
  unfoldable pub restore_all : F → List S → F
  restore_all files [] = files
  restore_all files (s ∷ snapshots) =
      let later = restore_all files snapshots in (sm.restore_snapshot later s).0

  -- `__aexit__`; `failing` says that the body raised
  unfoldable pub exit : Table → F → List S → Bool → Bool → String → String → Table × F
  unfolding restore_all release_lock
  exit t files snapshots failing db_error resource_id agent_id = (
    safe_release t db_error resource_id agent_id,
    if failing then restore_all files snapshots else files,
  )
