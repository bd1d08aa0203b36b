-- ===== src/Snapshots.antt =====
-- `FileSnapshotManager` of sky_claw/antigravity/db/snapshot_manager.py. A disk holds the files by
-- path, and the snapshots by date directory; the two do not overlap. The name of a snapshot, which
-- the code makes from a hash of the path and the time, is an argument. What an `OSError` leaves is
-- not modelled, save that a creation which raises one leaves the disk as it was.
pub mod Restore
pub mod Eviction
use sky_claw_gravity.Prelude.{
  Bool, List, Option, String, [], false, if◌then◌else◌, leb, ltb, none, not, some, ℕ, ◌&&◌, ◌*◌,
  ◌+◌, ◌-◌, ◌==◌, ◌∷◌, nat_eq, string_eq,
}
use sky_claw_gravity.Result.{Result, err, ok}
use sky_claw_gravity.TokenBudget.Text.{chars, concat}
use sky_claw_gravity.Dict
use sky_claw_gravity.Dict.{Dict}

-- a snapshot file, with the checksum of its sidecar `.meta.json` if that is there
pub record Saved : Type 0 where
  pub content : String
  pub meta : Option String

-- What the manager takes from `hashlib`, the file system and `int(s, 16)`: the hex digest of a
-- content, the bytes that a snapshot of a name takes with its sidecar, and whether a text is a
-- number in base 16.
pub record Codec : Type 0 where
  pub sha256_hex : String → String
  pub size_bytes : String → Saved → ℕ
  pub is_hex : String → Bool

-- a directory named by its date
pub record DateDir : Type 0 where
  pub date : ℕ
  pub saved : Dict String Saved

pub record Disk : Type 0 where
  pub files : Dict String String
  pub dirs : List DateDir

pub record SnapshotInfo : Type 0 where
  pub original_path : String
  pub snapshot_date : ℕ
  pub snapshot_name : String
  pub checksum : String

-- `JournalSnapshotError`, by its cause
pub data SnapshotError : Type 0 where
  missing_file copy_failed missing_snapshot checksum_mismatch : SnapshotError

-- the snapshot of a directory and name
unfoldable pub find_saved : List DateDir → ℕ → String → Option Saved
find_saved [] date name = none
find_saved (d ∷ ds) date name =
    let rest = find_saved ds date name in if d.date == date then Dict.get d.saved name else rest

-- `mkdir` of the date directory and the copy into it
unfoldable pub store_saved : List DateDir → ℕ → String → Saved → List DateDir
store_saved [] date name s = record { date = date; saved = (name, s) ∷ [] } ∷ []
store_saved (d ∷ ds) date name s =
    let rest = store_saved ds date name s in
    if d.date == date then record d { saved = Dict.put d.saved name s } ∷ ds else d ∷ rest

-- `date_dirs.sort(key=...)`
unfoldable pub insert_dir : DateDir → List DateDir → List DateDir
insert_dir d [] = d ∷ []
insert_dir d (e ∷ es) =
    let rest = insert_dir d es in if leb d.date e.date then d ∷ e ∷ es else e ∷ rest

unfoldable pub sort_dirs : List DateDir → List DateDir
unfolding insert_dir
sort_dirs [] = []
sort_dirs (d ∷ ds) = insert_dir d (sort_dirs ds)

-- `target.with_suffix(target.suffix + ".restore_backup")`
unfoldable pub backup_path : String → String
unfolding concat
backup_path target = concat target ".restore_backup"

module _ (c : Codec) where
  -- the bytes of a directory
  unfoldable pub dir_size : Dict String Saved → ℕ
  dir_size [] = 0
  dir_size ((name, s) ∷ rest) = c.size_bytes name s + dir_size rest

  -- `_calculate_total_size`
  unfoldable pub total_size : List DateDir → ℕ
  unfolding dir_size
  total_size [] = 0
  total_size (d ∷ ds) = dir_size d.saved + total_size ds

  -- the loop of `_enforce_size_limit` over the directories by rising date: `break` at nine tenths
  unfoldable pub evict : ℕ → ℕ → List DateDir → List DateDir
  unfolding dir_size
  evict max_size current [] = []
  evict max_size current (d ∷ ds) =
      let rest = evict max_size (current - dir_size d.saved) ds in
      if leb (10 * current) (9 * max_size) then d ∷ ds else rest

  -- `_enforce_size_limit`
  unfoldable pub enforce_size_limit : ℕ → List DateDir → List DateDir
  unfolding total_size evict sort_dirs
  enforce_size_limit max_size dirs =
      if leb (total_size dirs) max_size
      then dirs
      else evict max_size (total_size dirs) (sort_dirs dirs)

  -- `create_snapshot`; the flag is an `OSError`
  unfoldable pub create_snapshot :
      ℕ → Disk → ℕ → String → String → Bool → Disk × Result SnapshotError SnapshotInfo
  unfolding enforce_size_limit store_saved
  create_snapshot max_size disk date name path os_error = elim (Dict.get disk.files path) [
    | none ↦ (disk, err missing_file)
    | some content ↦ if os_error then (disk, err copy_failed) else (
      record disk {
        dirs = enforce_size_limit max_size (
            store_saved disk.dirs date name
              (record { content = content; meta = some (c.sha256_hex content) }));
      },
      ok (record {
        original_path = path;
        snapshot_date = date;
        snapshot_name = name;
        checksum = c.sha256_hex content;
      }),
    )
  ]

  -- `validate_checksum_format`
  unfoldable pub validate_checksum_format : String → Bool
  validate_checksum_format checksum = chars checksum == 64 && c.is_hex checksum

  -- `_extract_checksum_from_meta`
  unfoldable pub expected_checksum : Option String → Option String
  unfolding validate_checksum_format
  expected_checksum none = none
  expected_checksum (some checksum) =
      if validate_checksum_format checksum then some checksum else none

  -- does the copy fail its verification?
  unfoldable pub is_corrupt : Saved → Bool
  unfolding expected_checksum
  is_corrupt s = elim (expected_checksum s.meta) [
    | none ↦ false
    | some checksum ↦ not (c.sha256_hex s.content == checksum)
  ]

  -- the files with a copy at the target, in place of an earlier target that the backup keeps
  unfoldable pub copied : Dict String String → String → String → Dict String String
  unfolding backup_path
  copied files target content = elim (Dict.get files target) [
    | none ↦ Dict.put files target content
    | some old ↦ Dict.put (Dict.put files (backup_path target) old) target content
  ]

  -- the files after a copy that failed its verification: a backup is copied back and deleted
  unfoldable pub put_back : Dict String String → String → String → Dict String String
  unfolding copied backup_path
  put_back files target content = elim (Dict.get files target) [
    | none ↦ copied files target content
    | some old ↦
        Dict.remove (Dict.put (copied files target content) target old) (backup_path target)
  ]

  -- the files after a copy that is kept: a backup is deleted
  unfoldable pub without_backup : Dict String String → String → String → Dict String String
  unfolding copied backup_path
  without_backup files target content = elim (Dict.get files target) [
    | none ↦ copied files target content
    | some old ↦ Dict.remove (copied files target content) (backup_path target)
  ]

  -- `restore_snapshot`
  unfoldable pub restore_snapshot :
      Disk → ℕ → String → String → Bool → Disk × Result SnapshotError (Unit {0})
  unfolding find_saved is_corrupt put_back without_backup
  restore_snapshot disk date name target verify_checksum = elim (find_saved disk.dirs date name) [
    | none ↦ (disk, err missing_snapshot)
    | some s ↦
        if verify_checksum && is_corrupt s
        then (record disk { files = put_back disk.files target s.content }, err checksum_mismatch)
        else (record disk { files = without_backup disk.files target s.content }, ok tt)
  ]

-- the files of a directory, with the sidecars
unfoldable pub file_count : Dict String Saved → ℕ
file_count [] = 0
file_count ((name, s) ∷ rest) = elim s.meta [
  | none ↦ 1 + file_count rest
  | some _ ↦ 2 + file_count rest
]

-- `cleanup_old_snapshots`: the directories that stay, and the count of files deleted
unfoldable pub cleanup_old_snapshots : ℕ → Bool → List DateDir → List DateDir × ℕ
unfolding file_count
cleanup_old_snapshots cutoff dry_run [] = ([], 0)
cleanup_old_snapshots cutoff dry_run (d ∷ ds) =
    let (ds', n) = cleanup_old_snapshots cutoff dry_run ds in
    if ltb d.date cutoff
    then (if dry_run then d ∷ ds' else ds', file_count d.saved + n)
    else (d ∷ ds', n)
