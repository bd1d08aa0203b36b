-- ===== src/Tests/Syncing.antt =====
-- The file operations and the updates of the synchronisation.
use sky_claw_gravity.Tests.Disks.{changed, disk, journal, last_row, simple}
use sky_claw_gravity.Prelude.{
  Option, String, [], arith, false, if◌then◌else◌, none, refl, some, true, ℕ, ◌++◌, ◌-◌, ◌==◌, ◌∷◌,
  ◌≡◌, ◌≤◌, nat_eq, string_eq,
}
use sky_claw_gravity.HitlGuard.{approved}
use sky_claw_gravity.Snapshots.{Disk, total_size}
use sky_claw_gravity.Journal.{
  OperationJournal, begin_transaction, file_modify, get_transaction, pending, reverted, rolled_back,
}
use sky_claw_gravity.Journal.Logging.{transaction_row}
use sky_claw_gravity.Journal.Recorded.{started_entry}
use sky_claw_gravity.SyncEngine.{
  agent, done, execute_file_operation, operation_raised, raised, returned,
}
use sky_claw_gravity.SyncEngine.Updates.{
  CallEnd, World, answered, close_update, fails_other, fetch_error, fetch_from, max_attempts,
  raises, safe_fetch_info, update_work,
}
use sky_claw_gravity.SyncEngine.Updates.Closing.{Closed, close_update_lem}
use sky_claw_gravity.SyncEngine.Updates.Reports.{Approves, Installs, IsNews, update_work-updated}
use sky_claw_gravity.SyncEngine.Completed.{Captured, execute_file_operation-done, worked}
use sky_claw_gravity.SyncEngine.Failures.{execute_file_operation-raised}
use sky_claw_gravity.Dict

-- the operation leaves other files
abbrev break_files : Dict.Dict String String → Dict.Dict String String
break_files files = changed

execute_file_operation-raised_example :
    let (j', disk', ended) =
      execute_file_operation last_row simple 1 0 101 100 3 "s" journal disk file_modify
        "plugins.txt" "sort" break_files raised false in
    (ended ≡ operation_raised)
    × (Dict.get disk'.files "plugins.txt" ≡ some "Skyrim.esm")
    × ((tx_id : ℕ) × (j'.entries
          ≡ []
            ++ record (started_entry 1 tx_id 101 agent file_modify "plugins.txt"
                (some (3, "s"))
                none) { status = rolled_back }
              ∷ []))
    × (j'.transactions
        ≡ journal.transactions ++ transaction_row 2 101 "sort" none pending none ∷ [])
unfolding Dict.get total_size sky_claw_gravity.Snapshots.store_saved begin_transaction
execute_file_operation-raised_example =
    execute_file_operation-raised last_row simple 1 0 101 100 3 "s" journal disk file_modify
      "plugins.txt" "sort" "Skyrim.esm" break_files tt tt refl (omega arith)

execute_file_operation-done_example :
    let (j', disk', ended) =
      execute_file_operation last_row simple 1 0 101 100 3 "s" journal disk file_modify
        "plugins.txt" "sort" break_files done false in
    (ended ≡ returned)
    × (disk'.files ≡ changed)
    × ((snapshot : Option (ℕ × String)) × (disk1 : Disk) × Captured last_row simple 100 disk 3 "s"
          "plugins.txt" snapshot disk1
        × (j' ≡ worked last_row simple 101 journal file_modify "plugins.txt" "sort" snapshot))
unfolding begin_transaction
execute_file_operation-done_example =
    execute_file_operation-done last_row simple 1 0 101 100 3 "s" journal disk file_modify
      "plugins.txt" "sort" break_files tt (omega arith, tt)

-- a second update has begun while the first one ran
abbrev two_updates : OperationJournal
two_updates = (begin_transaction 101 journal "update" none).0

close_update_lem_example :
    let (j', outcome) = close_update 102 two_updates 1 false fails_other in
    (outcome ≡ raises) × Closed two_updates 1 2 reverted j'
unfolding begin_transaction get_transaction
close_update_lem_example =
    close_update_lem 102 two_updates 1 2 (transaction_row 1 100 "sort" none pending none)
      fails_other refl refl (λ p. omega (arith, p))

-- the metadata come at the second attempt
abbrev fetch : ℕ → CallEnd (Option String)
fetch attempt = if attempt == 0 then fetch_error else answered (some "2.0")

abbrev world : World
world = record {
  fetch_mod_info = fetch;
  has_downloader = true;
  get_file_info = answered tt;
  request_approval = some (answered approved);
  download = answered tt;
  upsert_mod = answered tt;
  log_tasks_batch = answered tt;
}

update_work-updated_example :
    ((version : String) × (safe_fetch_info fetch ≡ answered (some version))
      × IsNews "1.0" version
      × Approves world.request_approval
      × Installs world)
    × ((fetch_from (max_attempts - 1) 0 fetch).1 ≤ max_attempts)
unfolding update_work
update_work-updated_example = update_work-updated world "1.0" refl
