-- ===== src/Tests/Disks.antt =====
-- The snapshots, the journal and the undo.
use sky_claw_gravity.Prelude.{
  Bool, List, String, [], arith, false, ltb, none, refl, some, true, ℕ, ◌++◌, ◌+◌, ◌<◌, ◌∷◌, ◌≡◌,
  ◌≤◌, ◌⊎◌, nat_eq, string_eq,
}
use sky_claw_gravity.Result.{ok}
use sky_claw_gravity.Snapshots.{
  Codec, DateDir, Disk, create_snapshot, enforce_size_limit, total_size,
}
use sky_claw_gravity.Snapshots.Eviction.{Cut, enforce_size_limit_lem}
use sky_claw_gravity.Journal.{
  JournalEntry, OperationJournal, begin_operation, begin_transaction, completed, failed,
  file_modify, mod_install, rolled_back, update_status,
}
use sky_claw_gravity.Journal.Undo.{deleted_files, is_undoable, undo_last_operation}
use sky_claw_gravity.Journal.Undoing.{Undone, undo_last_operation_lem}
use sky_claw_gravity.Journal.Counting.{Undos-bounded, done, undo, undoable_count}
use sky_claw_gravity.Journal.Recorded.{started_entry, undo_last_operation-begin_operation}
use sky_claw_gravity.Journal.Consistency.{Call-Consistent, Consistent, begins}
use sky_claw_gravity.Dict

-- a digest that is the text itself, and a byte for each snapshot
abbrev pub simple : Codec
simple = record { sha256_hex = λ s. s; size_bytes = λ name s. 10; is_hex = λ s. false }

-- of two entries of one second the later row
abbrev pub last_row : JournalEntry → JournalEntry → Bool
last_row e f = ltb f.id e.id

abbrev pub disk : Disk
disk = record { files = ("plugins.txt", "Skyrim.esm") ∷ []; dirs = [] }

abbrev old_dirs : List DateDir
old_dirs =
    record { date = 2; saved = ("a", record { content = "x"; meta = none }) ∷ [] }
    ∷ record { date = 1; saved = ("b", record { content = "y"; meta = none }) ∷ [] }
    ∷ []

abbrev pub changed : Dict.Dict String String
changed = ("plugins.txt", "broken") ∷ []

enforce_size_limit_lem_example :
    let kept = enforce_size_limit simple 15 old_dirs in
    ((total_size simple old_dirs ≤ 15) × (kept ≡ old_dirs))
    ⊎ ((15 < total_size simple old_dirs) × Cut simple 15 old_dirs kept)
enforce_size_limit_lem_example = enforce_size_limit_lem simple 15 old_dirs

abbrev pub empty_journal : OperationJournal
empty_journal = record {
  transactions = [];
  entries = [];
  last_transaction = 0;
  last_entry = 0;
  current_transaction = none;
}

-- a journal with one transaction
abbrev pub journal : OperationJournal
journal = (begin_transaction 100 empty_journal "sort" none).0

undo_last_operation-begin_operation_example :
    let j1 =
      (begin_operation 101 journal "loot" file_modify "plugins.txt" none (some (3, "s")) none).0 in
    let (disk1, created) = create_snapshot simple 100 disk 3 "s" "plugins.txt" false in
    let (j2, disk2, answer) =
      undo_last_operation last_row simple
        (update_status j1 1 failed)
        (record disk1 { files = changed })
        "loot" in
    (answer
      ≡ ok (record {
        success = true;
        transaction_id = some 1;
        entries_restored = 1;
        files_deleted = deleted_files file_modify;
        errors = [];
      }))
    × (Dict.get disk2.files "plugins.txt" ≡ some "Skyrim.esm")
    × ((tx_id : ℕ) × (j2.entries
          ≡ []
            ++ record (started_entry 1 tx_id 101 "loot" file_modify "plugins.txt"
                (some (3, "s"))
                none) { status = rolled_back }
              ∷ []))
unfolding begin_transaction Dict.get total_size sky_claw_gravity.Snapshots.store_saved
    sky_claw_gravity.Journal.Undo.is_undoable begin_operation
undo_last_operation-begin_operation_example =
    undo_last_operation-begin_operation last_row simple "loot" 100 101 3 1 journal disk "s"
      "plugins.txt" "Skyrim.esm" file_modify none none failed changed tt tt refl (omega arith) refl
      refl

-- an operation without a snapshot that has completed
abbrev completed_once : OperationJournal
completed_once = record empty_journal {
  entries =
      record (started_entry 1 1 101 "loot" mod_install "a.esp" none none) { status = completed }
      ∷ [];
}

undo_last_operation_lem_example :
    let (j', disk', answer) = undo_last_operation last_row simple completed_once disk "loot" in
    Undone simple "loot" completed_once disk j' disk' answer
undo_last_operation_lem_example = undo_last_operation_lem last_row simple "loot" completed_once disk

abbrev undone_once : OperationJournal
undone_once = (undo_last_operation last_row simple completed_once disk "loot").0

Undos-bounded_example :
    1 + undoable_count "loot" undone_once.entries ≤ undoable_count "loot" completed_once.entries
unfolding undo_last_operation
Undos-bounded_example =
    Undos-bounded simple "loot" {n = 1} {j = completed_once} {j' = undone_once}
      (undo last_row disk refl done)

empty-Consistent : Consistent empty_journal
empty-Consistent = record { ids_below = tt; ids_rise = tt; owned = tt; current_known = tt }

Call-Consistent_example : Consistent journal
Call-Consistent_example = Call-Consistent (begins 100 "sort" none) empty-Consistent
