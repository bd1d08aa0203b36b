-- ===== src/Journal/Undoing.antt =====
-- What an undo leaves.
use sky_claw_gravity.Prelude.{
  Bool, Option, String, false, none, refl, some, true, ℕ, ◌≡◌, nat_eq, string_eq,
}
use sky_claw_gravity.Result.{Result, err, ok}
use sky_claw_gravity.Journal.{JournalEntry, OperationJournal, mark_rolled_back}
use sky_claw_gravity.Journal.Undo.{
  RollbackResult, counted, finish_undo, restore_target, undo_entry, undo_last_operation,
}
use sky_claw_gravity.Journal.Latest.{Latest, get_last_operation_lem}
use sky_claw_gravity.Snapshots.{Codec, Disk, Saved, SnapshotError, find_saved}
use sky_claw_gravity.Snapshots.Restore.{Restores, Swapped, restore_snapshot_lem}

-- the files after the undo of an entry: the target has the content of the snapshot, if there is one
abbrev pub Restored : Disk → String → Option (ℕ × String) → ℕ → Disk → Type 0
Restored disk target none n disk' = (disk' ≡ disk) × (n ≡ 0)
Restored disk target (some (date, name)) n disk' =
    (n ≡ 1)
    × ((s : Saved) × (find_saved disk.dirs date name ≡ some s)
        × Swapped disk.files target (some s.content) disk'.files)

-- what an undo that returns leaves, by the entry that it names
abbrev pub Returned :
    String → OperationJournal → Disk → OperationJournal → Disk → RollbackResult → Option ℕ → Type 0
Returned agent_id j disk j' disk' r none =
    (r.success ≡ false) × (j' ≡ j) × (disk' ≡ disk) × Latest agent_id j.entries none
Returned agent_id j disk j' disk' r (some id) =
    (r.success ≡ true)
    × ((e : JournalEntry) × (e.id ≡ id)
        × Latest agent_id j.entries (some e)
        × (j' ≡ mark_rolled_back j id)
        × Restored disk e.target_path e.snapshot_path r.entries_restored disk')

module _ (c : Codec) where
  -- the files after an undo whose restore fails: the snapshot is missing, or it is corrupt
  abbrev pub NotRestored : Disk → String → Option (ℕ × String) → SnapshotError → Disk → Type 0
  NotRestored disk target none x disk' = ⊥
  NotRestored disk target (some (date, name)) x disk' =
      Restores c disk date name target true disk' (err x)

  -- what `undo_last_operation` leaves, by its answer
  abbrev pub Undone :
      String
      → OperationJournal
      → Disk
      → OperationJournal
      → Disk
      → Result SnapshotError RollbackResult
      → Type 0
  Undone agent_id j disk j' disk' (ok r) = Returned agent_id j disk j' disk' r r.transaction_id
  Undone agent_id j disk j' disk' (err x) =
      (j' ≡ j)
      × ((e : JournalEntry) × Latest agent_id j.entries (some e)
          × NotRestored disk e.target_path e.snapshot_path x disk')

module _ (tie : JournalEntry → JournalEntry → Bool) (c : Codec) (agent_id : String) where
  finish_undo-counted :
      (j : OperationJournal) (disk : Disk) (e : JournalEntry) (date : ℕ) (name : String)
      (disk' : Disk) (answer : Result SnapshotError (Unit {0}))
      → e.snapshot_path ≡ some (date, name)
      → Latest agent_id j.entries (some e)
      → Restores c disk date name e.target_path true disk' answer
      → let (j', disk2, r) = finish_undo j e (counted (disk', answer)) in
        Undone c agent_id j disk j' disk2 r
  unfolding finish_undo counted
  finish_undo-counted j disk e date name disk' (ok _) p l (s, f, g, v) =
      (refl, (e, refl, l, refl, rw p (refl, (s, f, g))))
  finish_undo-counted j disk e date name disk' (err x) p l r = (refl, (e, l, rw p r))

  undo_entry_lem :
      (j : OperationJournal) (disk : Disk) (e : JournalEntry) (snap : Option (ℕ × String))
      → e.snapshot_path ≡ snap
      → Latest agent_id j.entries (some e)
      → let (j', disk', answer) = finish_undo j e (restore_target c disk e.target_path snap) in
        Undone c agent_id j disk j' disk' answer
  unfolding finish_undo restore_target
  undo_entry_lem j disk e none p l = (refl, (e, refl, l, refl, rw p (refl, refl)))
  undo_entry_lem j disk e (some (date, name)) p l =
      finish_undo-counted j disk e date name _ _ p l
        (restore_snapshot_lem c disk date name e.target_path true)

  from_entry :
      (j : OperationJournal) (disk : Disk) (last : Option JournalEntry)
      → Latest agent_id j.entries last
      → let (j', disk', answer) = undo_entry c j disk last in
        Undone c agent_id j disk j' disk' answer
  unfolding undo_entry
  from_entry j disk none l = (refl, refl, refl, l)
  from_entry j disk (some e) l = undo_entry_lem j disk e e.snapshot_path refl l

  -- An undo that finds no completed or failed operation of the agent changes nothing and says so.
  -- Otherwise it takes one such operation that no other is later than. If that has no snapshot, it is
  -- marked as rolled back and no file changes. If its snapshot is restored, it is marked too and the
  -- target has the content of the snapshot. If the snapshot is corrupt, the journal is as it was, and
  -- the target keeps its content or, where there was none, has the corrupt copy. In these two cases a
  -- file at the path of the target's backup is lost if the target was there, and every other file is
  -- as it was. If the snapshot is missing, nothing changes at all.
  pub undo_last_operation_lem :
      (j : OperationJournal) (disk : Disk)
      → let (j', disk', answer) = undo_last_operation tie c j disk agent_id in
        Undone c agent_id j disk j' disk' answer
  unfolding undo_last_operation
  undo_last_operation_lem j disk =
      from_entry j disk _ (get_last_operation_lem tie agent_id j.entries)
