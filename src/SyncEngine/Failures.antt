-- ===== src/SyncEngine/Failures.antt =====
-- What a file operation that raises leaves.
use sky_claw_gravity.Journal.Logging.{begin_operation-ok, chosen_transaction-suc, transaction_row}
use sky_claw_gravity.Journal.Rows.{Known-new}
use sky_claw_gravity.Journal.Recorded.{
  Earlier, IdsBelow, started_entry, undo_last_operation-begin_operation,
}
use sky_claw_gravity.Snapshots.Restore.{Fits, with_snapshot}
use sky_claw_gravity.Prelude.{
  Bool, Bool-cases, Option, String, [], ap, false, inl, inr, ltb, none, refl, some, ℕ, ◌++◌, ◌+◌,
  ◌∙◌, ◌∷◌, ◌≡◌, nat_eq, string_eq,
}
use sky_claw_gravity.Result.{Result, err, ok}
use sky_claw_gravity.Dict.{Dict}
use sky_claw_gravity.Snapshots.{Codec, Disk, SnapshotError, create_snapshot, total_size}
use sky_claw_gravity.Journal.{
  JournalEntry, JournalError, OperationJournal, OperationType, begin_operation, begin_transaction,
  failed, pending, rolled_back, update_status,
}
use sky_claw_gravity.Journal.Undo.{
  RollbackResult, finish_undo, is_undoable, undo_entry, undo_last_operation,
}
use sky_claw_gravity.SyncEngine.{
  Ended, OperationEnd, after_operation, after_snapshot, after_undo, agent, execute_file_operation,
  max_backup_size_bytes, operation_raised, passive_pruning, raised, roll_back, run_operation,
  snapshot_path, snapshot_target, unit_of_work,
}
use sky_claw_gravity.Dict
use sky_claw_gravity.Dict.{Dict}

module _ (tie : JournalEntry → JournalEntry → Bool) (c : Codec) where
  finish_undo-transactions :
      (j : OperationJournal) (e : JournalEntry) (answer : Disk × Result SnapshotError ℕ)
      → (finish_undo j e answer).0.transactions ≡ j.transactions
  unfolding finish_undo update_status
  finish_undo-transactions j e (disk, ok n) = refl
  finish_undo-transactions j e (disk, err x) = refl

  undo_entry-transactions :
      (j : OperationJournal) (disk : Disk) (last : Option JournalEntry)
      → (undo_entry c j disk last).0.transactions ≡ j.transactions
  unfolding undo_entry
  undo_entry-transactions j disk none = refl
  undo_entry-transactions j disk (some e) = finish_undo-transactions j e _

  -- an undo changes no transaction
  undo_last_operation-transactions :
      (j : OperationJournal) (disk : Disk)
      → (undo_last_operation tie c j disk agent).0.transactions ≡ j.transactions
  unfolding undo_last_operation
  undo_last_operation-transactions j disk = undo_entry-transactions j disk _

  after_undo-ok :
      (reason : Ended) (r : OperationJournal × Disk × Result SnapshotError RollbackResult)
      (v : RollbackResult)
      → r.2 ≡ ok v
      → after_undo reason r ≡ (r.0, r.1, reason)
  unfolding after_undo
  after_undo-ok reason (j, disk, answer) v h = rw h refl

  pub run_operation-ok :
      (now : ℕ) (disk : Disk) (tx_id id : ℕ) (operation : Dict String String → Dict String String)
      (end : OperationEnd) (b : OperationJournal × Result JournalError ℕ)
      → b.1 ≡ ok id
      → run_operation tie c now disk tx_id operation end b
        ≡ after_operation tie c now b.0 (record disk { files = operation disk.files }) tx_id id end
  unfolding run_operation
  run_operation-ok now disk tx_id id operation end (j, answer) h = rw h refl

  -- the snapshot of a target that is a file
  pub snapshot_target-ok :
      (max_size : ℕ) (disk : Disk) (date : ℕ) (name path content : String)
      → Dict.get disk.files path ≡ some content
      → snapshot_target tie c max_size disk date name path false
        ≡ ((create_snapshot c max_size disk date name path false).0, ok (some (date, name)))
  unfolding snapshot_target create_snapshot snapshot_path
  snapshot_target-ok max_size disk date name path content h =
      rw (h, snapshot_target) (rw (h, create_snapshot) refl)

  pub passive_pruning-files :
      (mb cutoff : ℕ) (disk : Disk) → (passive_pruning tie c mb cutoff disk).files ≡ disk.files
  unfolding passive_pruning
  passive_pruning-files mb cutoff disk =
      elim (Bool-cases (ltb (max_backup_size_bytes mb) (total_size c disk.dirs))) [
        | inl p ↦ rw (p, passive_pruning) refl
        | inr p ↦ rw (p, passive_pruning) refl
      ]

  -- the journal once the transaction is begun
  abbrev pub begun_journal : ℕ → OperationJournal → String → OperationJournal
  begun_journal now j description = (begin_transaction now j description none).0

  -- the work over a target that is a file, from its snapshot on
  unit_of_work-raised :
      (now max_size date : ℕ) (name : String) (j : OperationJournal) (disk : Disk)
      (type : OperationType) (path description content : String)
      (operation : Dict String String → Dict String String)
      → Dict.get disk.files path ≡ some content
      → let id = 1 + j.last_entry in
        let tx_id = 1 + j.last_transaction in
        let disk1 = (create_snapshot c max_size disk date name path false).0 in
        let begun =
          begin_operation now
            (begun_journal now j description)
            agent
            type
            path
            (some tx_id)
            (some (date, name))
            none in
        (begun.1 ≡ ok id)
        × (begun.0.transactions
            ≡ j.transactions ++ transaction_row tx_id now description none pending none ∷ [])
        × (unit_of_work tie c now max_size date name j disk type path description operation raised
              false
            ≡ roll_back tie c begun.0
                (record disk1 { files = operation disk1.files })
                id
                operation_raised)
  unfolding unit_of_work after_snapshot after_operation begin_transaction
  unit_of_work-raised now max_size date name j disk type path description content operation g =
      let begun =
        begin_operation-ok now (begun_journal now j description) agent type path
          (some (1 + j.last_transaction)) (some (date, name)) none (1 + j.last_transaction)
          (chosen_transaction-suc j.last_transaction _) (Known-new j.transactions _) in
      (
        ap (λ b. b.1) begun,
        ap (λ b. b.0.transactions) begun,
        ap
              (after_snapshot tie c now (begun_journal now j description) (1 + j.last_transaction)
                type path operation raised)
              (snapshot_target-ok max_size disk date name path content g)
            ∙ run_operation-ok now (create_snapshot c max_size disk date name path false).0
                (1 + j.last_transaction) (1 + j.last_entry) operation raised _
                (ap (λ b. b.1) begun),
      )

  -- When the ids so far are below the counters, every earlier entry is from an earlier second, the
  -- target is a file and its snapshot fits: an operation that raises, whatever it made of the files,
  -- ends `execute_file_operation` with its exception, and the target has again the content that it
  -- had before. The journal has one entry more, which is rolled back, and one transaction more, which
  -- is still pending.
  pub execute_file_operation-raised :
      (max_size_mb cutoff now max_size date : ℕ) (name : String) (j : OperationJournal)
      (disk : Disk) (type : OperationType) (path description content : String)
      (operation : Dict String String → Dict String String)
      → IdsBelow j.last_entry j.entries
      → Earlier now j.entries
      → Dict.get disk.files path ≡ some content
      → Fits c max_size (with_snapshot c disk date name content).dirs
      → let (j', disk', ended) =
          execute_file_operation tie c max_size_mb cutoff now max_size date name j disk type path
            description operation raised false in
        (ended ≡ operation_raised)
        × (Dict.get disk'.files path ≡ some content)
        × ((tx_id : ℕ) × (j'.entries
              ≡ j.entries
                ++ record (started_entry
                    (1 + j.last_entry)
                    tx_id
                    now
                    agent
                    type
                    path
                    (some (date, name))
                    none) { status = rolled_back }
                  ∷ []))
        × (j'.transactions
            ≡ j.transactions
              ++ transaction_row (1 + j.last_transaction) now description none pending none ∷ [])
  unfolding execute_file_operation roll_back begin_transaction is_undoable update_status
  execute_file_operation-raised max_size_mb cutoff now max_size date name j disk type path
        description content operation b e g f =
      let (i, t, work) =
        unit_of_work-raised now max_size date name j disk type path description content operation
          g in
      let disk1 = (create_snapshot c max_size disk date name path false).0 in
      let begun =
        begin_operation now (begun_journal now j description) agent type path
          (some (1 + j.last_transaction)) (some (date, name)) none in
      let (v, k, entries) =
        undo_last_operation-begin_operation tie c agent max_size now date (1 + j.last_entry)
          (begun_journal now j description) disk name path content type
          (some (1 + j.last_transaction)) none failed (operation disk1.files) b e g f refl i in
      let done = work ∙ after_undo-ok operation_raised _ _ v in
      (
        ap (λ w. w.2) done,
        ap (λ fs. Dict.get fs path) (passive_pruning-files max_size_mb cutoff _)
            ∙ ap (λ w. Dict.get w.1.files path) done
            ∙ k,
        (entries.0, ap (λ w. w.0.entries) done ∙ entries.1),
        ap (λ w. w.0.transactions) done ∙ undo_last_operation-transactions _ _ ∙ t,
      )
