-- ===== src/Journal/Recorded.antt =====
-- An operation that is recorded with a snapshot of its target, and its undo.
use sky_claw_gravity.Snapshots.Restore.{Fits, restore_snapshot-create_snapshot, with_snapshot}
use sky_claw_gravity.Snapshots.{Codec, Disk, SnapshotError, create_snapshot, restore_snapshot}
use sky_claw_gravity.Prelude.{
  ==-refl, All, Bool, List, Option, Option-cases, String, [], ap, arith, false, inl, inr, refl,
  some, subst, true, ℕ, ◌++◌, ◌+◌, ◌<◌, ◌∙◌, ◌∷◌, ◌≡◌, ◌≤◌, nat_eq, string_eq,
}
use sky_claw_gravity.Result.{Result, err, ok}
use sky_claw_gravity.Journal.{
  JournalEntry, JournalError, OperationJournal, OperationStatus, OperationType, begin_operation,
  chosen_transaction, get_transaction, mark_rolled_back, rolled_back, set_status, started,
  update_status,
}
use sky_claw_gravity.Journal.Undo.{
  comes_first, counted, deleted_files, finish_undo, first_of, get_last_operation, is_candidate,
  is_undoable, restore_target, undo_entry, undo_last_operation,
}
use sky_claw_gravity.Dict

-- the ids that `AUTOINCREMENT` has given
abbrev pub IdsBelow : ℕ → List JournalEntry → Type 0
IdsBelow last = All (λ e. e.id ≤ last)

-- every entry is from an earlier second
abbrev pub Earlier : ℕ → List JournalEntry → Type 0
Earlier now = All (λ e. e.timestamp < now)

-- the row that `begin_operation` adds
abbrev pub started_entry :
    ℕ → ℕ → ℕ → String → OperationType → String → Option (ℕ × String) → Option String → JournalEntry
started_entry id tx_id now agent_id operation_type target_path snapshot_path checksum = record {
  id = id;
  transaction_id = tx_id;
  timestamp = now;
  agent_id = agent_id;
  operation_type = operation_type;
  target_path = target_path;
  status = started;
  snapshot_path = snapshot_path;
  checksum = checksum;
}

pub set_status-append :
    (last : ℕ) (status : OperationStatus) (es : List JournalEntry) (e : JournalEntry)
    → IdsBelow last es
    → e.id ≡ 1 + last
    → set_status (1 + last) status (es ++ e ∷ []) ≡ es ++ record e { status = status } ∷ []
unfolding set_status
set_status-append last status [] e b i = ground (arith, i)
set_status-append last status (x ∷ es) e b i =
    rw (set_status-append last status es e b.1 i) (ground (arith, b.0))

set_status-new :
    (last id : ℕ) (status : OperationStatus) (es : List JournalEntry) (e : JournalEntry)
    → IdsBelow last es
    → id ≡ 1 + last
    → e.id ≡ 1 + last
    → set_status id status (es ++ e ∷ []) ≡ es ++ record e { status = status } ∷ []
set_status-new last id status es e b h i =
    ap (λ n. set_status n status (es ++ e ∷ [])) h ∙ set_status-append last status es e b i

comes_first-later :
    (tie : JournalEntry → JournalEntry → Bool) (e f : JournalEntry)
    → e.timestamp < f.timestamp
    → comes_first tie e f ≡ false
unfolding comes_first
comes_first-later tie e f h = ground (arith, h)

get_last_operation-append :
    (tie : JournalEntry → JournalEntry → Bool) (agent_id : String) (es : List JournalEntry)
    (e : JournalEntry)
    → Earlier e.timestamp es
    → is_candidate agent_id e ≡ true
    → get_last_operation tie agent_id (es ++ e ∷ []) ≡ some e
unfolding get_last_operation first_of comes_first
get_last_operation-append tie agent_id [] e b c = rw c refl
get_last_operation-append tie agent_id (x ∷ es) e b c =
    rw (get_last_operation-append tie agent_id es e b.1 c)
      (rw (comes_first-later tie x e b.0) (ground arith))

-- what `begin_operation` answers, and the rows that it leaves
abbrev pub Begun :
    ℕ
    → OperationJournal
    → String
    → OperationType
    → String
    → Option (ℕ × String)
    → Option String
    → List JournalEntry
    → Result JournalError ℕ
    → Type 0
Begun now j agent_id type path snap checksum entries (ok id) =
    (id ≡ 1 + j.last_entry)
    × ((tx_id : ℕ) × (entries
          ≡ j.entries ++ started_entry id tx_id now agent_id type path snap checksum ∷ []))
Begun now j agent_id type path snap checksum entries (err _) = entries ≡ j.entries

begin_operation_lem :
    (now : ℕ) (j : OperationJournal) (agent_id : String) (type : OperationType) (path : String)
    (tx : Option ℕ) (snap : Option (ℕ × String)) (checksum : Option String)
    → let (j', begun) = begin_operation now j agent_id type path tx snap checksum in
      Begun now j agent_id type path snap checksum j'.entries begun
unfolding begin_operation
begin_operation_lem now j agent_id type path tx snap checksum =
    elim (Option-cases (chosen_transaction tx j.current_transaction)) [
      | inl p ↦ rw (p, begin_operation) refl
      | inr (tx_id, p) ↦ elim (Option-cases (get_transaction j.transactions tx_id)) [
        | inl q ↦ rw (p, begin_operation) (rw (q, begin_operation) refl)
        | inr (t, q) ↦ rw (p, begin_operation) (rw (q, begin_operation) (refl, (tx_id, refl)))
      ]
    ]

module _ (tie : JournalEntry → JournalEntry → Bool) (c : Codec) (agent_id : String) where
  finish_undo-ok :
      (j : OperationJournal) (e : JournalEntry) (disk : Disk)
      (answer : Result SnapshotError (Unit {0}))
      → answer ≡ ok tt
      → finish_undo j e (counted (disk, answer)) ≡ (
        mark_rolled_back j e.id,
        disk,
        ok (record {
          success = true;
          transaction_id = some e.id;
          entries_restored = 1;
          files_deleted = deleted_files e.operation_type;
          errors = [];
        }),
      )
  unfolding finish_undo counted
  finish_undo-ok j e disk answer h = rw h refl

  undo-of :
      (j : OperationJournal) (disk : Disk) (e : JournalEntry) (date : ℕ) (name : String)
      → get_last_operation tie agent_id j.entries ≡ some e
      → e.snapshot_path ≡ some (date, name)
      → (restore_snapshot c disk date name e.target_path true).1 ≡ ok tt
      → undo_last_operation tie c j disk agent_id ≡ (
        mark_rolled_back j e.id,
        (restore_snapshot c disk date name e.target_path true).0,
        ok (record {
          success = true;
          transaction_id = some e.id;
          entries_restored = 1;
          files_deleted = deleted_files e.operation_type;
          errors = [];
        }),
      )
  unfolding undo_last_operation undo_entry restore_target finish_undo
  undo-of j disk e date name p q r =
      rw (p, undo_last_operation)
        (rw (q, undo_entry)
          (finish_undo-ok j (record e { snapshot_path = some (date, name) }) _ _ r))

  -- An operation that was recorded with a snapshot of its target, in a later second than every entry
  -- before it, is undone once it has completed or failed, whatever was done to the files meanwhile,
  -- when all the snapshots fit: the undo names its entry, the target has again the content that it
  -- had at the snapshot, and the journal has that entry more, marked as rolled back.
  pub undo_last_operation-begin_operation :
      (max_size now date id : ℕ) (j : OperationJournal) (disk : Disk) (name path content : String)
      (type : OperationType) (tx : Option ℕ) (checksum : Option String) (status : OperationStatus)
      (files : Dict.Dict String String)
      → IdsBelow j.last_entry j.entries
      → Earlier now j.entries
      → Dict.get disk.files path ≡ some content
      → Fits c max_size (with_snapshot c disk date name content).dirs
      → is_undoable status ≡ true
      → (begin_operation now j agent_id type path tx (some (date, name)) checksum).1 ≡ ok id
      → let j1 = (begin_operation now j agent_id type path tx (some (date, name)) checksum).0 in
        let (disk1, created) = create_snapshot c max_size disk date name path false in
        let (j2, disk2, answer) =
          undo_last_operation tie c
            (update_status j1 id status)
            (record disk1 { files = files })
            agent_id in
        (answer
          ≡ ok (record {
            success = true;
            transaction_id = some id;
            entries_restored = 1;
            files_deleted = deleted_files type;
            errors = [];
          }))
        × (Dict.get disk2.files path ≡ some content)
        × ((tx_id : ℕ) × (j2.entries
              ≡ j.entries
                ++ record (started_entry id tx_id now agent_id type path
                    (some (date, name))
                    checksum) { status = rolled_back }
                  ∷ []))
  unfolding update_status is_candidate
  undo_last_operation-begin_operation max_size now date id j disk name path content type tx checksum
        status files b l f s u h =
      let (i, (tx_id, g)) =
        subst (Begun now j agent_id type path (some (date, name)) checksum _) h
          (begin_operation_lem now j agent_id type path tx (some (date, name)) checksum) in
      let e : JournalEntry =
        record (started_entry id tx_id now agent_id type path (some (date, name)) checksum) {
          status = status;
        } in
      let updated =
        ap (set_status id status) g
        ∙ (set_status-new j.last_entry id status j.entries
            (started_entry id tx_id now agent_id type path (some (date, name)) checksum) b i i) in
      let (x, r, k) =
        restore_snapshot-create_snapshot c max_size disk date name path content files true f s in
      let v =
        undo-of
          (update_status
            (begin_operation now j agent_id type path tx (some (date, name)) checksum).0 id status)
          (record (create_snapshot c max_size disk date name path false).0 { files = files }) e date
          name
          (ap (get_last_operation tie agent_id) updated
            ∙ get_last_operation-append tie agent_id j.entries e l (rw (==-refl agent_id) u))
          refl r in
      (
        ap (λ t. t.2) v,
        ap (λ t. Dict.get t.1.files path) v ∙ k,
        (
          tx_id,
          ap (λ t. t.0.entries) v
              ∙ ap (set_status id rolled_back) updated
              ∙ (set_status-new j.last_entry id rolled_back j.entries e b i i),
        ),
      )
