-- ===== src/Locks/Transaction/Restoring.antt =====
-- What the rollback of `SnapshotTransactionLock` leaves of the files, with the `FileSnapshotManager`.
use sky_claw_gravity.Prelude.{
  ==-eq, ==-refl, All, Bool-cases, List, Option, String, [], ap, arith, false, inl, inr, none, refl,
  some, string_eq, subst, sym, true, ℕ, ◌==◌, ◌∙◌, ◌∷◌, ◌≡◌, ◌≢◌, nat_eq,
}
use sky_claw_gravity.Snapshots.{
  Codec, Disk, SnapshotInfo, backup_path, find_saved, restore_snapshot,
}
use sky_claw_gravity.Snapshots.Restore.{Swapped, without_backup-Swapped}
use sky_claw_gravity.Snapshots.Restore.{Swapped, without_backup-Swapped}
use sky_claw_gravity.Dict.{Dict}
use sky_claw_gravity.Locks.Transaction.{create_all, exit, restore_all, returned}
use sky_claw_gravity.Locks.Transaction.Rollback.{HasLease}
use sky_claw_gravity.Locks.Leases.{release_lem}
use sky_claw_gravity.Locks.{Table}
use sky_claw_gravity.Prelude.{
  ==-eq, ==-refl, All, Bool-cases, List, Option, String, [], ap, arith, false, inl, inr, none, refl,
  some, string_eq, subst, sym, true, ℕ, ◌==◌, ◌∙◌, ◌∷◌, ◌≡◌, ◌≢◌, nat_eq,
}
use sky_claw_gravity.Dict.{Dict}
use sky_claw_gravity.Dict
use sky_claw_gravity.Snapshots.{
  Codec, Disk, SnapshotInfo, backup_path, find_saved, restore_snapshot,
}
use sky_claw_gravity.Snapshots.Restore.{Swapped, without_backup-Swapped}
use sky_claw_gravity.Locks.Transaction.{create_all, exit, restore_all, returned}
use sky_claw_gravity.Locks.Transaction.Files.{
  AllFound, FitAll, Found, Kept, add_info, all_created, file_snapshots, info, infos, kept_copy,
  restored, with_files-AllFound,
}

module _ (c : Codec) (max_size date : ℕ) (name_of : String → String) where
  -- no path is that of the backup of an earlier one
  abbrev pub NoBackup : List String → Type 0
  NoBackup [] = Unit
  NoBackup (path ∷ paths) = All (λ q. backup_path path ≢ q) paths × NoBackup paths

  -- one restore, of a copy that is there
  one_restored :
      (disk : Disk) (path content : String)
      → find_saved disk.dirs date (name_of path) ≡ some (kept_copy c max_size date name_of content)
      → let disk' =
          ((file_snapshots c max_size date name_of).restore_snapshot disk
            (info c max_size date name_of path content)).0 in
        (disk'.dirs ≡ disk.dirs) × Swapped disk.files path (some content) disk'.files
  unfolding restored restore_snapshot
  one_restored disk path content f =
      rw (f, restore_snapshot) (refl, without_backup-Swapped c disk.files path content)

  Swapped-Kept :
      (path content q : String) (old : Option String) (files files' : Dict String String)
      → Swapped files path (some content) files'
      → (path ≡ q → old ≡ some content)
      → backup_path path ≢ q
      → Kept c max_size date name_of old (Dict.get files q)
      → Kept c max_size date name_of old (Dict.get files' q)
  Swapped-Kept path content q none files files' w h n k = tt
  Swapped-Kept path content q (some before) files files' w h n k =
      w q ∙ elim (Bool-cases (path == q)) [
        | inl p ↦ rw p (sym (h (==-eq path q p)))
        | inr p ↦ rw p (ground (arith, k, n, string_eq.beq_iff (backup_path path) q))
      ]

  All-map :
      {P Q R : String → Type 0} (ps : List String)
      → ((p : String) → P p → Q p → R p)
      → All P ps
      → All Q ps
      → All R ps
  All-map [] f a b = tt
  All-map (p ∷ ps) f a b = (f p a.0 b.0, All-map ps f a.1 b.1)

  -- what a rollback of the paths leaves
  abbrev RolledBack : Dict String String → Disk → List String → Disk → Type 0
  RolledBack files disk paths disk' =
      (disk'.dirs ≡ disk.dirs)
      × All (λ p. Kept c max_size date name_of (Dict.get files p) (Dict.get disk'.files p)) paths

  one_more :
      (files : Dict String String) (disk : Disk) (path : String) (paths : List String)
      (old : Option String)
      → Dict.get files path ≡ old
      → Found c max_size date name_of disk.dirs old path
      → All (λ q. backup_path path ≢ q) paths
      → RolledBack files disk paths (
          restore_all
            (file_snapshots c max_size date name_of)
            disk
            (infos c max_size date name_of files paths))
      → let disk' =
          restore_all (file_snapshots c max_size date name_of) disk (
            add_info c max_size date name_of old path
              (infos c max_size date name_of files paths)) in
        Kept c max_size date name_of old (Dict.get disk'.files path)
        × RolledBack files disk paths disk'
  unfolding restore_all
  one_more files disk path paths none e f n (d, k) = (tt, (d, k))
  one_more files disk path paths (some content) e f n (d, k) =
      let rest =
        restore_all (file_snapshots c max_size date name_of) disk
          (infos c max_size date name_of files paths) in
      let (d', w) =
        one_restored rest path content (ap (λ dirs. find_saved dirs date (name_of path)) d ∙ f) in
      (
        w path ∙ rw (==-refl path) refl,
        (
          d' ∙ d,
          All-map paths
              (λ q.
                Swapped-Kept path content q (Dict.get files q) rest.files _ w
                  (λ p. ap (Dict.get files) (sym p) ∙ e))
              n k,
        ),
      )

  all_restored :
      (files : Dict String String) (disk : Disk) (paths : List String)
      → AllFound c max_size date name_of disk files paths
      → NoBackup paths
      → RolledBack files disk paths (
          restore_all
            (file_snapshots c max_size date name_of)
            disk
            (infos c max_size date name_of files paths))
  unfolding restore_all
  all_restored files disk [] f n = (refl, tt)
  all_restored files disk (path ∷ paths) f n =
      let (k, (d, ks)) =
        one_more files disk path paths (Dict.get files path) refl f.0 n.0
          (all_restored files disk paths f.1 n.1) in
      (d, (k, ks))

  -- When the names of the snapshots tell the paths apart, every snapshot fits the limit and no target
  -- is at the path of the backup of an earlier one: `__aenter__` makes the snapshots, and when the
  -- body raises, whatever it made of the files, and the database carries out the release, `__aexit__`
  -- gives each target that was a file the content that it had at the entry, and leaves the agent no
  -- lease on the resource.
  pub exit-create_all :
      (t : Table) (disk : Disk) (paths : List String)
      (body : Dict String String → Dict String String) (r agent : String)
      → ((p q : String) → name_of p ≡ name_of q → p ≡ q)
      → FitAll c max_size date name_of disk paths
      → NoBackup paths
      → let (disk1, made) = create_all (file_snapshots c max_size date name_of) disk paths [] in
        (ss : List SnapshotInfo) × (made ≡ returned ss)
        × (let (t', disk2) =
              exit
                (file_snapshots c max_size date name_of)
                t
                (record disk1 { files = body disk1.files })
                ss
                true
                false
                r
                agent in
            All
              (λ p. Kept c max_size date name_of (Dict.get disk.files p) (Dict.get disk2.files p))
              paths
            × ¬ (HasLease t' r agent))
  unfolding exit
  exit-create_all t disk paths body r agent a f n =
      let made = all_created c max_size date name_of disk paths [] f in
      let found = with_files-AllFound c max_size date name_of a disk.files disk paths refl in
      let body_files =
        body (create_all (file_snapshots c max_size date name_of) disk paths []).0.files in
      let start : Disk =
        record ((create_all (file_snapshots c max_size date name_of) disk paths []).0) {
          files = body_files;
        } in
      (
        infos c max_size date name_of disk.files paths,
        ap (λ m. m.1) made,
        (
          (all_restored disk.files start paths
              (subst
                (λ ds.
                  AllFound c max_size date name_of (record { files = body_files; dirs = ds })
                    disk.files paths)
                (sym (ap (λ m. m.0.dirs) made)) found)
              n).1,
          λ (l', e', h'). (release_lem t r agent).2 l' e' h',
        ),
      )
