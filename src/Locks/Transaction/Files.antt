-- ===== src/Locks/Transaction/Files.antt =====
-- `SnapshotTransactionLock` with the `FileSnapshotManager`, and the snapshots that its entry makes. The
-- snapshots of one entry are made on one date, and their names are a function of the path.
use sky_claw_gravity.Prelude.{
  ==-eq, All, Bool, Bool-cases, List, Option, Option-cases, String, [], ap, append-nil,
  append_assoc, arith, false, inl, inr, le→leb, none, refl, some, subst, sym, true, ℕ, ◌++◌, ◌==◌,
  ◌∙◌, ◌∷◌, ◌≡◌, nat_eq, string_eq,
}
use sky_claw_gravity.Snapshots.{
  Codec, DateDir, Disk, Saved, SnapshotError, SnapshotInfo, create_snapshot, enforce_size_limit,
  find_saved, restore_snapshot, store_saved,
}
use sky_claw_gravity.Snapshots.Restore.{Fits, find-store_saved, is_there, with_snapshot}
use sky_claw_gravity.Snapshots.Restore.{Fits, find-store_saved, is_there, with_snapshot}
use sky_claw_gravity.Dict.{Dict, get-put}
use sky_claw_gravity.Locks.Transaction.{Ending, Snapshots, create_all, raised, returned}
use sky_claw_gravity.Prelude.{
  ==-eq, All, Bool, Bool-cases, List, Option, Option-cases, String, [], ap, append-nil,
  append_assoc, arith, false, inl, inr, le→leb, none, refl, some, subst, sym, true, ℕ, ◌++◌, ◌==◌,
  ◌∙◌, ◌∷◌, ◌≡◌, nat_eq, string_eq,
}
use sky_claw_gravity.Result.{Result, err, ok}
use sky_claw_gravity.Dict.{Dict, get-put}
use sky_claw_gravity.Dict
use sky_claw_gravity.Snapshots.{
  Codec, DateDir, Disk, Saved, SnapshotError, SnapshotInfo, create_snapshot, enforce_size_limit,
  find_saved, restore_snapshot, store_saved,
}
use sky_claw_gravity.Snapshots.Restore.{Fits, find-store_saved, is_there, with_snapshot}
use sky_claw_gravity.Locks.Transaction.{Ending, Snapshots, create_all, raised, returned}

-- a creation as the lock sees it
unfoldable pub created : Disk × Result SnapshotError SnapshotInfo → Disk × Ending SnapshotInfo
created (disk, ok info) = (disk, returned info)
created (disk, err x) = (disk, raised)

-- a restore as the lock sees it, and whether it returned
unfoldable pub restored : Disk × Result SnapshotError (Unit {0}) → Disk × Bool
restored (disk, ok _) = (disk, true)
restored (disk, err x) = (disk, false)

module _ (c : Codec) (max_size date : ℕ) (name_of : String → String) where
  -- the snapshot manager of the lock
  abbrev pub file_snapshots : Snapshots Disk SnapshotInfo
  file_snapshots = record {
    is_file = λ disk path. is_there (Dict.get disk.files path);
    create_snapshot =
        λ disk path. created (create_snapshot c max_size disk date (name_of path) path false);
    restore_snapshot = λ disk s.
        restored (restore_snapshot c disk s.snapshot_date s.snapshot_name s.original_path false);
  }

  abbrev pub info : String → String → SnapshotInfo
  info path content = record {
    original_path = path;
    snapshot_date = date;
    snapshot_name = name_of path;
    checksum = c.sha256_hex content;
  }

  -- the snapshots of those paths that are files
  abbrev pub add_info : Option String → String → List SnapshotInfo → List SnapshotInfo
  add_info none path rest = rest
  add_info (some content) path rest = info path content ∷ rest

  abbrev pub infos : Dict String String → List String → List SnapshotInfo
  infos files [] = []
  infos files (path ∷ paths) = add_info (Dict.get files path) path (infos files paths)

  abbrev pub with_file : Option String → Disk → String → Disk
  with_file none disk path = disk
  with_file (some content) disk path = with_snapshot c disk date (name_of path) content

  -- the disk with all of them
  abbrev pub with_files : Disk → List String → Disk
  with_files disk [] = disk
  with_files disk (path ∷ paths) = with_files (with_file (Dict.get disk.files path) disk path) paths

  -- every snapshot fits when it is made
  abbrev pub FitAll : Disk → List String → Type 0
  FitAll disk [] = Unit
  FitAll disk (path ∷ paths) =
      Fits c max_size (with_file (Dict.get disk.files path) disk path).dirs
      × FitAll (with_file (Dict.get disk.files path) disk path) paths

  one_created :
      (disk : Disk) (path content : String)
      → Dict.get disk.files path ≡ some content
      → Fits c max_size (with_snapshot c disk date (name_of path) content).dirs
      → created (create_snapshot c max_size disk date (name_of path) path false)
        ≡ (with_snapshot c disk date (name_of path) content, returned (info path content))
  unfolding created create_snapshot enforce_size_limit
  one_created disk path content e f = rw (e, create_snapshot) (rw (le→leb _ _ f) refl)

  pub all_created :
      (disk : Disk) (paths : List String) (acc : List SnapshotInfo)
      → FitAll disk paths
      → create_all file_snapshots disk paths acc
        ≡ (with_files disk paths, returned (acc ++ infos disk.files paths))
  unfolding create_all
  all_created disk [] acc f = simp append-nil
  all_created disk (path ∷ paths) acc f = elim (Option-cases (Dict.get disk.files path)) [
    | inl e ↦ rw e (all_created disk paths acc (rw e at f.1))
    | inr (content, e) ↦
        let fits : Fits c max_size (with_snapshot c disk date (name_of path) content).dirs =
          rw e at f.0 in
        let one = one_created disk path content e fits in
        let now = acc ++ info path content ∷ [] in
        rw e (
          rw one (
            ap (λ m. create_all file_snapshots m.0 paths now) one
            ∙ all_created (with_snapshot c disk date (name_of path) content) paths now (rw e at f.1)
            ∙ simp append_assoc))
  ]

  -- a snapshot with the sidecar of its checksum
  abbrev pub kept_copy : String → Saved
  kept_copy content = record { content = content; meta = some (c.sha256_hex content) }

  find-store_other :
      (dirs : List DateDir) (name other : String) (s : Saved)
      → (other == name) ≡ false
      → find_saved (store_saved dirs date other s) date name ≡ find_saved dirs date name
  unfolding find_saved store_saved Dict.get
  find-store_other [] name other s n = ground (arith, n)
  find-store_other (d ∷ ds) name other s n = elim (Bool-cases (d.date == date)) [
    | inl p ↦ rw (p, store_saved) (rw (p, find_saved) (get-put d.saved other name s ∙ rw n refl))
    | inr p ↦ rw (p, store_saved) (rw (p, find_saved) (find-store_other ds name other s n))
  ]

  -- the copy of a path is there, if the path was a file
  abbrev pub Found : List DateDir → Option String → String → Type 0
  Found dirs none path = Unit
  Found dirs (some content) path = find_saved dirs date (name_of path) ≡ some (kept_copy content)

  abbrev pub AllFound : Disk → Dict String String → List String → Type 0
  AllFound disk files = All (λ path. Found disk.dirs (Dict.get files path) path)

  -- a path that was a file has its content again
  abbrev pub Kept : Option String → Option String → Type 0
  Kept none now = Unit
  Kept (some content) now = now ≡ some content

  own_file-Found :
      (new : Option String) (disk : Disk) (path : String)
      → Found (with_file new disk path).dirs new path
  own_file-Found none disk path = tt
  own_file-Found (some content) disk path =
      find-store_saved disk.dirs date (name_of path) (kept_copy content)

  with_file-files :
      (new : Option String) (disk : Disk) (path : String)
      → (with_file new disk path).files ≡ disk.files
  with_file-files none disk path = refl
  with_file-files (some content) disk path = refl

  module _ (apart : (p q : String) → name_of p ≡ name_of q → p ≡ q) where
    -- another snapshot leaves those that are there, and its own path has its own content
    with_file-Found :
        (old new : Option String) (disk : Disk) (path other : String)
        → (other ≡ path → new ≡ old)
        → Found disk.dirs old path
        → Found (with_file new disk other).dirs old path
    with_file-Found none new disk path other h f = tt
    with_file-Found (some content) none disk path other h f = f
    with_file-Found (some content) (some content') disk path other h f =
        elim (Bool-cases (name_of other == name_of path)) [
          | inr p ↦
              find-store_other disk.dirs (name_of path) (name_of other) (kept_copy content') p ∙ f
          | inl p ↦
              let q : name_of other ≡ name_of path = ==-eq (name_of other) (name_of path) p in
              let same : some content' ≡ some content = h (apart other path q) in
              let v : content' ≡ content = ground (arith, same) in
              subst
                (λ n.
                  find_saved (with_snapshot c disk date n content').dirs date (name_of path)
                  ≡ some (kept_copy content))
                (sym q)
                (find-store_saved disk.dirs date (name_of path) (kept_copy content')
                  ∙ ap (λ x. some (kept_copy x)) v)
        ]

    with_files-Found :
        (files : Dict String String) (disk : Disk) (path : String) (paths : List String)
        → disk.files ≡ files
        → Found disk.dirs (Dict.get files path) path
        → Found (with_files disk paths).dirs (Dict.get files path) path
    with_files-Found files disk path [] s f = f
    with_files-Found files disk path (other ∷ paths) s f =
        with_files-Found files (with_file (Dict.get disk.files other) disk other) path paths
          (with_file-files (Dict.get disk.files other) disk other ∙ s)
          (with_file-Found (Dict.get files path) (Dict.get disk.files other) disk path other
            (λ e. ap (λ fs. Dict.get fs other) s ∙ ap (Dict.get files) e) f)

    pub with_files-AllFound :
        (files : Dict String String) (disk : Disk) (paths : List String)
        → disk.files ≡ files
        → AllFound (with_files disk paths) files paths
    with_files-AllFound files disk [] s = tt
    with_files-AllFound files disk (path ∷ paths) s =
        let next = with_file (Dict.get disk.files path) disk path in
        let same = with_file-files (Dict.get disk.files path) disk path ∙ s in
        (
          with_files-Found files next path paths same (
              subst (λ fs. Found next.dirs (Dict.get fs path) path) s
                (own_file-Found (Dict.get disk.files path) disk path)),
          with_files-AllFound files next paths same,
        )
