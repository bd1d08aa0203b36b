-- ===== src/Journal.antt =====
-- `OperationJournal` of sky_claw/antigravity/db/journal.py: the transactions and the entries of the
-- operations, in the order of their ids. SQLite's `AUTOINCREMENT` counts up, its `datetime('now')`
-- is an argument in seconds, and its foreign key asks that an entry's transaction exists. The JSON
-- metadata of an entry and its flag `rolled_back`, which no operation reads, are left out. A snapshot
-- is named by its date and name in place of its path.
pub mod Undo
pub mod Rows
pub mod Logging
pub mod Consistency
pub mod Recorded
pub mod Counting
pub mod Undoing
pub mod Latest
use sky_claw_gravity.Prelude.{
  Bool, List, Option, String, [], false, if◌then◌else◌, none, some, true, ℕ, ◌&&◌, ◌++◌, ◌+◌, ◌==◌,
  ◌∷◌, nat_eq, string_eq,
}
use sky_claw_gravity.Result.{Result, err, ok}

pub data OperationType : Type 0 where
  mod_install mod_uninstall mod_update plugin_clean : OperationType
  file_create file_modify file_delete file_rename : OperationType

pub data OperationStatus : Type 0 where
  started completed failed rolled_back : OperationStatus

pub data TransactionStatus : Type 0 where
  pending committed reverted : TransactionStatus

pub record JournalEntry : Type 0 where
  pub id : ℕ
  pub transaction_id : ℕ
  pub timestamp : ℕ
  pub agent_id : String
  pub operation_type : OperationType
  pub target_path : String
  pub status : OperationStatus
  pub snapshot_path : Option (ℕ × String)
  pub checksum : Option String

pub record Transaction : Type 0 where
  pub transaction_id : ℕ
  pub mod_id : Option ℕ
  pub description : String
  pub status : TransactionStatus
  pub created_at : ℕ
  pub committed_at : Option ℕ
  pub rolled_back_at : Option ℕ

pub record OperationJournal : Type 0 where
  pub transactions : List Transaction
  pub entries : List JournalEntry
  pub last_transaction : ℕ
  pub last_entry : ℕ
  pub current_transaction : Option ℕ

-- `JournalTransactionError`, by its cause
pub data JournalError : Type 0 where
  not_pending no_transaction foreign_key : JournalError

-- `begin_transaction`
unfoldable pub begin_transaction : ℕ → OperationJournal → String → Option ℕ → OperationJournal × ℕ
begin_transaction now j description mod_id =
    let id = 1 + j.last_transaction in
    (
      record j {
        transactions =
            j.transactions
            ++ record {
              transaction_id = id;
              mod_id = mod_id;
              description = description;
              status = pending;
              created_at = now;
              committed_at = none;
              rolled_back_at = none;
            }
              ∷ [];
        last_transaction = id;
        current_transaction = some id;
      },
      id,
    )

-- `get_transaction`
unfoldable pub get_transaction : List Transaction → ℕ → Option Transaction
get_transaction [] id = none
get_transaction (t ∷ ts) id =
    let rest = get_transaction ts id in if t.transaction_id == id then some t else rest

unfoldable pub is_pending : TransactionStatus → Bool
is_pending pending = true
is_pending _ = false

-- the `UPDATE` of `commit_transaction`, and its `rowcount`
unfoldable pub set_committed : ℕ → ℕ → List Transaction → List Transaction × ℕ
unfolding is_pending
set_committed now id [] = ([], 0)
set_committed now id (t ∷ ts) =
    let (ts', n) = set_committed now id ts in
    if t.transaction_id == id && is_pending t.status
    then (record t { status = committed; committed_at = some now } ∷ ts', 1 + n)
    else (t ∷ ts', n)

-- `self._current_transaction = None` if it is this one
unfoldable pub leave_transaction : Option ℕ → ℕ → Option ℕ
leave_transaction none id = none
leave_transaction (some current) id = if current == id then none else some current

-- `commit_transaction`
unfoldable pub commit_transaction :
    ℕ → OperationJournal → ℕ → OperationJournal × Result JournalError (Unit {0})
unfolding set_committed leave_transaction
commit_transaction now j id =
    let (transactions, rowcount) = set_committed now id j.transactions in
    if rowcount == 0 then (j, err not_pending) else (
      record j {
        transactions = transactions;
        current_transaction = leave_transaction j.current_transaction id;
      },
      ok tt,
    )

-- the `UPDATE` of `mark_transaction_rolled_back`
unfoldable pub set_reverted : ℕ → ℕ → List Transaction → List Transaction
set_reverted now id [] = []
set_reverted now id (t ∷ ts) =
    let ts' = set_reverted now id ts in
    if t.transaction_id == id
    then record t { status = reverted; rolled_back_at = some now } ∷ ts'
    else t ∷ ts'

-- `mark_transaction_rolled_back`
unfoldable pub mark_transaction_rolled_back : ℕ → OperationJournal → ℕ → OperationJournal
unfolding set_reverted
mark_transaction_rolled_back now j id = record j {
  transactions = set_reverted now id j.transactions;
}

-- `transaction_id or self._current_transaction`
unfoldable pub chosen_transaction : Option ℕ → Option ℕ → Option ℕ
chosen_transaction none current = current
chosen_transaction (some id) current = if id == 0 then current else some id

-- `begin_operation`
unfoldable pub begin_operation :
    ℕ
    → OperationJournal
    → String
    → OperationType
    → String
    → Option ℕ
    → Option (ℕ × String)
    → Option String
    → OperationJournal × Result JournalError ℕ
unfolding chosen_transaction get_transaction
begin_operation now j agent_id operation_type target_path transaction_id snapshot_path checksum =
    elim (chosen_transaction transaction_id j.current_transaction) [
      | none ↦ (j, err no_transaction)
      | some tx_id ↦ elim (get_transaction j.transactions tx_id) [
        | none ↦ (j, err foreign_key)
        | some _ ↦ (
          record j {
            entries =
                j.entries
                ++ record {
                  id = 1 + j.last_entry;
                  transaction_id = tx_id;
                  timestamp = now;
                  agent_id = agent_id;
                  operation_type = operation_type;
                  target_path = target_path;
                  status = started;
                  snapshot_path = snapshot_path;
                  checksum = checksum;
                }
                  ∷ [];
            last_entry = 1 + j.last_entry;
          },
          ok (1 + j.last_entry),
        )
      ]
    ]

-- the `UPDATE` of `_update_status` and of `mark_rolled_back`
unfoldable pub set_status : ℕ → OperationStatus → List JournalEntry → List JournalEntry
set_status id status [] = []
set_status id status (e ∷ es) =
    let es' = set_status id status es in
    if e.id == id then record e { status = status } ∷ es' else e ∷ es'

-- `_update_status`, and `mark_rolled_back` with the status `rolled_back`
unfoldable pub update_status : OperationJournal → ℕ → OperationStatus → OperationJournal
unfolding set_status
update_status j id status = record j { entries = set_status id status j.entries }

-- `complete_operation`, `fail_operation` and `mark_rolled_back`
abbrev pub complete_operation : OperationJournal → ℕ → OperationJournal
complete_operation j id = update_status j id completed

abbrev pub fail_operation : OperationJournal → ℕ → OperationJournal
fail_operation j id = update_status j id failed

abbrev pub mark_rolled_back : OperationJournal → ℕ → OperationJournal
mark_rolled_back j id = update_status j id rolled_back

-- the legacy name of an operation: `OperationType(...)`, or `FILE_MODIFY` where that fails
unfoldable pub legacy_type : Option OperationType → OperationType
legacy_type none = file_modify
legacy_type (some type) = type

-- the end of `log_operation`, from the answer of the commit
unfoldable pub finish_log :
    ℕ
    → ℕ
    → ℕ
    → OperationJournal × Result JournalError (Unit {0})
    → OperationJournal × Result JournalError ℕ
finish_log now tx_id op_id (j, ok _) = (j, ok op_id)
finish_log now tx_id op_id (j, err e) = (mark_transaction_rolled_back now j tx_id, err e)

-- `log_operation` from the answer of `begin_operation`
unfoldable pub log_begun :
    ℕ → ℕ → OperationJournal × Result JournalError ℕ → OperationJournal × Result JournalError ℕ
unfolding finish_log
log_begun now tx_id (j, ok op_id) =
    finish_log now tx_id op_id (commit_transaction now (complete_operation j op_id) tx_id)
log_begun now tx_id (j, err e) = (mark_transaction_rolled_back now j tx_id, err e)

-- `log_operation`; the type is that of the legacy name, if it has one
unfoldable pub log_operation :
    ℕ
    → OperationJournal
    → String
    → Option OperationType
    → String
    → String
    → OperationJournal × Result JournalError ℕ
unfolding log_begun legacy_type
log_operation now j agent_id type description file_path =
    let (j1, tx_id) = begin_transaction now j description none in
    log_begun now tx_id
      (begin_operation now j1 agent_id (legacy_type type) file_path (some tx_id) none none)
