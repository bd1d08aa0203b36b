-- ===== src/SyncEngine/Completed.antt =====
-- What a file operation that returns leaves.
use sky_claw_gravity.Prelude.{
  Bool, Option, Option-cases, String, [], ap, false, inl, inr, none, refl, some, ℕ, ◌++◌, ◌+◌, ◌∙◌,
  ◌∷◌, ◌≡◌, nat_eq, string_eq,
}
use sky_claw_gravity.Result.{Result, ok}
use sky_claw_gravity.Dict.{Dict}
use sky_claw_gravity.Snapshots.{Codec, Disk, create_snapshot}
use sky_claw_gravity.Journal.{
  JournalEntry, JournalError, OperationJournal, OperationType, begin_transaction, committed,
  completed, update_status,
}
use sky_claw_gravity.Journal.Recorded.{IdsBelow, set_status-append, started_entry}
use sky_claw_gravity.Journal.Rows.{Known-new}
use sky_claw_gravity.Journal.Logging.{
  TransactionsBelow, begin_operation-ok, chosen_transaction-suc, commit_transaction-ok,
  leave_transaction-same, set_committed-append, transaction_row,
}
use sky_claw_gravity.SyncEngine.{
  after_commit, after_operation, after_snapshot, agent, done, execute_file_operation, returned,
  run_operation, snapshot_target, unit_of_work,
}
use sky_claw_gravity.SyncEngine.Failures.{begun_journal, passive_pruning-files, snapshot_target-ok}
use sky_claw_gravity.Dict
use sky_claw_gravity.Dict.{Dict}

module _ (tie : JournalEntry → JournalEntry → Bool) (c : Codec) where
  -- without an `OSError` the target has a snapshot exactly if it is a file, and no file changes
  abbrev pub Captured : ℕ → Disk → ℕ → String → String → Option (ℕ × String) → Disk → Type 0
  Captured max_size disk date name path snapshot disk' =
      (snapshot_target tie c max_size disk date name path false ≡ (disk', ok snapshot))
      × (disk'.files ≡ disk.files)

  captured :
      (max_size : ℕ) (disk : Disk) (date : ℕ) (name path : String)
      → (snapshot : Option (ℕ × String)) × (disk' : Disk) × Captured max_size disk date name path
          snapshot disk'
  unfolding snapshot_target create_snapshot
  captured max_size disk date name path = elim (Option-cases (Dict.get disk.files path)) [
    | inl p ↦ (none, disk, (rw (p, snapshot_target) refl, refl))
    | inr (content, p) ↦ (
      some (date, name),
      (create_snapshot c max_size disk date name path false).0,
      (
        snapshot_target-ok tie c max_size disk date name path content p,
        rw (p, create_snapshot) refl,
      ),
    )
  ]

  after_commit-ok :
      (disk : Disk) (id : ℕ) (j : OperationJournal)
      (answer : OperationJournal × Result JournalError (Unit {0}))
      → answer ≡ (j, ok tt)
      → after_commit tie c disk id answer ≡ (j, disk, returned)
  unfolding after_commit
  after_commit-ok disk id j answer h = ap (after_commit tie c disk id) h

  -- the journal after a unit of work that succeeds
  abbrev pub worked :
      ℕ
      → OperationJournal
      → OperationType
      → String
      → String
      → Option (ℕ × String)
      → OperationJournal
  worked now j type path description snapshot = record {
    transactions =
        j.transactions
        ++ transaction_row (1 + j.last_transaction) now description none committed (some now) ∷ [];
    entries =
        j.entries
        ++ record (started_entry (1 + j.last_entry) (1 + j.last_transaction) now agent type path
            snapshot none) { status = completed }
          ∷ [];
    last_transaction = 1 + j.last_transaction;
    last_entry = 1 + j.last_entry;
    current_transaction = none;
  }

  -- When the ids so far are below the counters and the snapshot raises no error: an operation that
  -- returns is kept, whether its target was a file or not. The files are what the operation made of
  -- them; the journal has one entry more, completed, with a snapshot if there was a file, and one
  -- transaction more, committed; and no transaction is current.
  pub execute_file_operation-done :
      (max_size_mb cutoff now max_size date : ℕ) (name : String) (j : OperationJournal)
      (disk : Disk) (type : OperationType) (path description : String)
      (operation : Dict String String → Dict String String)
      → IdsBelow j.last_entry j.entries
      → TransactionsBelow j.last_transaction j.transactions
      → let (j', disk', ended) =
          execute_file_operation tie c max_size_mb cutoff now max_size date name j disk type path
            description operation done false in
        (ended ≡ returned)
        × (disk'.files ≡ operation disk.files)
        × ((snapshot : Option (ℕ × String)) × (disk1 : Disk) × Captured max_size disk date name path
              snapshot disk1
            × (j' ≡ worked now j type path description snapshot))
  unfolding execute_file_operation unit_of_work after_snapshot run_operation after_operation
      begin_transaction update_status
  execute_file_operation-done max_size_mb cutoff now max_size date name j disk type path description
        operation b t =
      let (snapshot, disk1, (made, same)) = captured max_size disk date name path in
      let tx_id = 1 + j.last_transaction in
      let begun =
        begin_operation-ok now (begun_journal tie c now j description) agent type path (some tx_id)
          snapshot none tx_id (chosen_transaction-suc j.last_transaction _)
          (Known-new j.transactions _) in
      let disk2 : Disk = record disk1 { files = operation disk1.files } in
      let committed_lem =
        commit_transaction-ok now tx_id 0 _ _
          (set_committed-append now j.last_transaction j.transactions _ t refl refl)
        ∙ rw
            (
              leave_transaction-same tx_id,
              set_status-append j.last_entry completed j.entries
                  (started_entry (1 + j.last_entry) tx_id now agent type path snapshot none) b refl,
            )
            refl in
      let work =
        ap
          (after_snapshot tie c now (begun_journal tie c now j description) tx_id type path
            operation done)
          made
        ∙ ap (run_operation tie c now disk1 tx_id operation done) begun
        ∙ after_commit-ok disk2 (1 + j.last_entry) (worked now j type path description snapshot) _
            committed_lem in
      (
        ap (λ w. w.2) work,
        passive_pruning-files tie c max_size_mb cutoff _
            ∙ ap (λ w. w.1.files) work
            ∙ ap operation same,
        (snapshot, disk1, (made, same), ap (λ w. w.0) work),
      )
