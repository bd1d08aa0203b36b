-- ===== src/SyncEngine.antt =====
-- The file operations of `SyncEngine` in sky_claw/antigravity/orchestrator/sync_engine.py: a unit of
-- work over the journal and the snapshots of its rollback manager. The operation is an argument: what
-- it makes of the files, and how it ends. While one runs, nothing else uses the journal and the
-- disk, and its calls of the journal fall into one second.
pub mod Updates
pub mod Pipeline
pub mod Completed
pub mod Failures
use sky_claw_gravity.Prelude.{
  Bool, Option, String, false, if◌then◌else◌, ltb, none, some, ℕ, ◌*◌, nat_eq, string_eq,
}
use sky_claw_gravity.Result.{Result, err, ok}
use sky_claw_gravity.Dict.{Dict}
use sky_claw_gravity.Snapshots.{
  Codec, Disk, SnapshotError, SnapshotInfo, cleanup_old_snapshots, create_snapshot, total_size,
}
use sky_claw_gravity.Journal.{
  JournalEntry, JournalError, OperationJournal, OperationType, begin_operation, begin_transaction,
  commit_transaction, complete_operation, fail_operation,
}
use sky_claw_gravity.Journal.Undo.{RollbackResult, undo_last_operation}
use sky_claw_gravity.Dict
use sky_claw_gravity.Dict.{Dict}

-- how the coroutine of an operation ends: by a value, an `Exception`, or a cancellation
pub data OperationEnd : Type 0 where
  done raised cancelled : OperationEnd

-- how `execute_file_operation` ends
pub data Ended : Type 0 where
  returned : Ended
  operation_raised : Ended
  operation_cancelled : Ended
  snapshot_failed : SnapshotError → Ended
  journal_failed : JournalError → Ended
  undo_failed : SnapshotError → Ended

-- `self._agent_id`
abbrev pub agent : String
agent = "sync_engine"

-- `_get_max_backup_size_bytes`, from `rollback_max_size_mb`
unfoldable pub max_backup_size_bytes : ℕ → ℕ
max_backup_size_bytes mb = mb * 1024 * 1024

-- the end of the `except` clause, from the answer of the undo
unfoldable pub after_undo :
    Ended
    → OperationJournal × Disk × Result SnapshotError RollbackResult
    → OperationJournal × Disk × Ended
after_undo reason (j, disk, ok _) = (j, disk, reason)
after_undo reason (j, disk, err x) = (j, disk, undo_failed x)

-- `snapshot_info.snapshot_path`
unfoldable pub snapshot_path :
    Disk × Result SnapshotError SnapshotInfo → Disk × Result SnapshotError (Option (ℕ × String))
snapshot_path (disk, ok info) = (disk, ok (some (info.snapshot_date, info.snapshot_name)))
snapshot_path (disk, err x) = (disk, err x)

module _ (tie : JournalEntry → JournalEntry → Bool) (c : Codec) where
  -- `_passive_pruning`; the cutoff is the date that lies `max_pruning_age_days` back
  unfoldable pub passive_pruning : ℕ → ℕ → Disk → Disk
  unfolding max_backup_size_bytes
  passive_pruning max_size_mb cutoff disk =
      if ltb (max_backup_size_bytes max_size_mb) (total_size c disk.dirs)
      then record disk { dirs = (cleanup_old_snapshots cutoff false disk.dirs).0 }
      else disk

  -- the `except` clause: `fail_operation` and the undo
  unfoldable pub roll_back : OperationJournal → Disk → ℕ → Ended → OperationJournal × Disk × Ended
  unfolding after_undo
  roll_back j disk entry_id reason =
      after_undo reason (undo_last_operation tie c (fail_operation j entry_id) disk agent)

  -- what follows the commit
  unfoldable pub after_commit :
      Disk → ℕ → OperationJournal × Result JournalError (Unit {0}) → OperationJournal × Disk × Ended
  unfolding roll_back
  after_commit disk entry_id (j, ok _) = (j, disk, returned)
  after_commit disk entry_id (j, err e) = roll_back j disk entry_id (journal_failed e)

  -- what follows the operation, whose effect is on the disk
  unfoldable pub after_operation :
      ℕ → OperationJournal → Disk → ℕ → ℕ → OperationEnd → OperationJournal × Disk × Ended
  unfolding after_commit
  after_operation now j disk transaction_id entry_id done =
      after_commit disk entry_id
        (commit_transaction now (complete_operation j entry_id) transaction_id)
  after_operation now j disk transaction_id entry_id raised =
      roll_back j disk entry_id operation_raised
  after_operation now j disk transaction_id entry_id cancelled = (j, disk, operation_cancelled)

  -- the operation, once its entry is begun
  unfoldable pub run_operation :
      ℕ
      → Disk
      → ℕ
      → (Dict String String → Dict String String)
      → OperationEnd
      → OperationJournal × Result JournalError ℕ
      → OperationJournal × Disk × Ended
  unfolding after_operation
  run_operation now disk transaction_id operation end (j, err e) = (j, disk, journal_failed e)
  run_operation now disk transaction_id operation end (j, ok entry_id) =
      after_operation now j (record disk { files = operation disk.files }) transaction_id entry_id
        end

  -- the snapshot of the target, if it is a file; the flag is an `OSError`
  unfoldable pub snapshot_target :
      ℕ → Disk → ℕ → String → String → Bool → Disk × Result SnapshotError (Option (ℕ × String))
  unfolding snapshot_path
  snapshot_target max_size disk date name path os_error = elim (Dict.get disk.files path) [
    | none ↦ (disk, ok none)
    | some _ ↦ snapshot_path (create_snapshot c max_size disk date name path os_error)
  ]

  -- the entry and the operation, from the answer of the snapshot
  unfoldable pub after_snapshot :
      ℕ
      → OperationJournal
      → ℕ
      → OperationType
      → String
      → (Dict String String → Dict String String)
      → OperationEnd
      → Disk × Result SnapshotError (Option (ℕ × String))
      → OperationJournal × Disk × Ended
  unfolding run_operation
  after_snapshot now j transaction_id type path operation end (disk, err x) =
      (j, disk, snapshot_failed x)
  after_snapshot now j transaction_id type path operation end (disk, ok snapshot) =
      run_operation now disk transaction_id operation end
        (begin_operation now j agent type path (some transaction_id) snapshot none)

  -- the `try` block of `execute_file_operation` with a rollback manager
  unfoldable pub unit_of_work :
      ℕ
      → ℕ
      → ℕ
      → String
      → OperationJournal
      → Disk
      → OperationType
      → String
      → String
      → (Dict String String → Dict String String)
      → OperationEnd
      → Bool
      → OperationJournal × Disk × Ended
  unfolding snapshot_target after_snapshot
  unit_of_work now max_size date name j disk type path description operation end os_error =
      let (j', transaction_id) = begin_transaction now j description none in
      after_snapshot now j' transaction_id type path operation end
        (snapshot_target max_size disk date name path os_error)

  -- `execute_file_operation`
  unfoldable pub execute_file_operation :
      ℕ
      → ℕ
      → ℕ
      → ℕ
      → ℕ
      → String
      → OperationJournal
      → Disk
      → OperationType
      → String
      → String
      → (Dict String String → Dict String String)
      → OperationEnd
      → Bool
      → OperationJournal × Disk × Ended
  unfolding unit_of_work passive_pruning
  execute_file_operation max_size_mb cutoff now max_size date name j disk type path description
        operation end os_error =
      let (j', disk', ended) =
        unit_of_work now max_size date name j disk type path description operation end os_error in
      (j', passive_pruning max_size_mb cutoff disk', ended)
