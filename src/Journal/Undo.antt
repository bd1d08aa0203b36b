-- ===== src/Journal/Undo.antt =====
-- `RollbackManager.undo_last_operation` of sky_claw/antigravity/db/rollback_manager.py, over
-- `get_last_operation` of sky_claw/antigravity/db/journal.py and the snapshots.
use sky_claw_gravity.Prelude.{
  Bool, List, Option, String, [], false, if◌then◌else◌, ltb, none, some, true, ℕ, ◌&&◌, ◌==◌, ◌∷◌,
  nat_eq, string_eq,
}
use sky_claw_gravity.Result.{Result, err, ok}
use sky_claw_gravity.Journal.{
  JournalEntry, OperationJournal, OperationStatus, OperationType, completed, failed, file_create,
  mark_rolled_back, mod_install,
}
use sky_claw_gravity.Snapshots.{Codec, Disk, SnapshotError, restore_snapshot}

-- `status IN ('completed', 'failed')`
unfoldable pub is_undoable : OperationStatus → Bool
is_undoable completed = true
is_undoable failed = true
is_undoable _ = false

unfoldable pub is_candidate : String → JournalEntry → Bool
unfolding is_undoable
is_candidate agent_id e = e.agent_id == agent_id && is_undoable e.status

-- Which of two entries `ORDER BY timestamp DESC` puts first: SQLite leaves open in what order it
-- gives the rows of one second.
unfoldable pub comes_first :
    (JournalEntry → JournalEntry → Bool) → JournalEntry → JournalEntry → Bool
comes_first tie e f = if e.timestamp == f.timestamp then tie e f else ltb f.timestamp e.timestamp

unfoldable pub first_of :
    (JournalEntry → JournalEntry → Bool) → JournalEntry → Option JournalEntry → JournalEntry
unfolding comes_first
first_of tie e none = e
first_of tie e (some f) = if comes_first tie e f then e else f

-- `get_last_operation`
unfoldable pub get_last_operation :
    (JournalEntry → JournalEntry → Bool) → String → List JournalEntry → Option JournalEntry
unfolding is_candidate first_of
get_last_operation tie agent_id [] = none
get_last_operation tie agent_id (e ∷ es) =
    let rest = get_last_operation tie agent_id es in
    if is_candidate agent_id e then some (first_of tie e rest) else rest

-- the result of a rollback, without its timestamp
pub record RollbackResult : Type 0 where
  pub success : Bool
  pub transaction_id : Option ℕ
  pub entries_restored : ℕ
  pub files_deleted : ℕ
  pub errors : List String

-- `files_deleted=1 if ... else 0`
unfoldable pub deleted_files : OperationType → ℕ
deleted_files file_create = 1
deleted_files mod_install = 1
deleted_files _ = 0

-- the answer of a restore, as the count `entries_restored`
unfoldable pub counted : Disk × Result SnapshotError (Unit {0}) → Disk × Result SnapshotError ℕ
counted (disk, ok _) = (disk, ok 1)
counted (disk, err x) = (disk, err x)

-- the restore of an entry's target, if it has a snapshot; the checksum is verified
unfoldable pub restore_target :
    Codec → Disk → String → Option (ℕ × String) → Disk × Result SnapshotError ℕ
unfolding counted
restore_target c disk target none = (disk, ok 0)
restore_target c disk target (some (date, name)) =
    counted (restore_snapshot c disk date name target true)

-- what follows the restore of an entry
unfoldable pub finish_undo :
    OperationJournal
    → JournalEntry
    → Disk × Result SnapshotError ℕ
    → OperationJournal × Disk × Result SnapshotError RollbackResult
unfolding deleted_files
finish_undo j e (disk, err x) = (j, disk, err x)
finish_undo j e (disk, ok n) = (
  mark_rolled_back j e.id,
  disk,
  ok (record {
    success = true;
    transaction_id = some e.id;
    entries_restored = n;
    files_deleted = deleted_files e.operation_type;
    errors = [];
  }),
)

-- `undo_last_operation`, from the entry that the query has found
unfoldable pub undo_entry :
    Codec
    → OperationJournal
    → Disk
    → Option JournalEntry
    → OperationJournal × Disk × Result SnapshotError RollbackResult
unfolding finish_undo restore_target
undo_entry c j disk none = (
  j,
  disk,
  ok (record {
    success = false;
    transaction_id = none;
    entries_restored = 0;
    files_deleted = 0;
    errors = "No completed or failed operation found for agent" ∷ [];
  }),
)
undo_entry c j disk (some e) = finish_undo j e (restore_target c disk e.target_path e.snapshot_path)

-- `undo_last_operation`
unfoldable pub undo_last_operation :
    (JournalEntry → JournalEntry → Bool)
    → Codec
    → OperationJournal
    → Disk
    → String
    → OperationJournal × Disk × Result SnapshotError RollbackResult
unfolding get_last_operation undo_entry
undo_last_operation tie c j disk agent_id =
    undo_entry c j disk (get_last_operation tie agent_id j.entries)
