-- ===== src/Snapshots/Restore.antt =====
-- What a restore leaves, and that it takes back what happened to a file since its snapshot.
use sky_claw_gravity.Prelude.{
  ==-ne, ==-refl, Bool, Bool-cases, List, Option, Option-cases, String, [], ap, arith, false,
  if◌then◌else◌, inl, inr, le→leb, nat_eq, none, refl, some, string_eq, true, ℕ, ◌&&◌, ◌==◌, ◌∙◌,
  ◌∷◌, ◌≡◌, ◌≤◌,
}
use sky_claw_gravity.Result.{Result, err, ok}
use sky_claw_gravity.Dict
use sky_claw_gravity.Dict.{Dict, get-put, get-remove}
use sky_claw_gravity.TokenBudget.Text.{concat}
use Prim.Native.String.{count}
use text.Mathlib.TextLemmas
use sky_claw_gravity.Prelude.{
  ==-ne, ==-refl, Bool, Bool-cases, List, Option, Option-cases, String, [], ap, arith, false,
  if◌then◌else◌, inl, inr, le→leb, nat_eq, none, refl, some, string_eq, true, ℕ, ◌&&◌, ◌==◌, ◌∙◌,
  ◌∷◌, ◌≡◌, ◌≤◌,
}
use sky_claw_gravity.Snapshots.{
  Codec, DateDir, Disk, Saved, SnapshotError, backup_path, checksum_mismatch, copied,
  create_snapshot, enforce_size_limit, expected_checksum, find_saved, is_corrupt, missing_snapshot,
  put_back, restore_snapshot, store_saved, total_size, validate_checksum_format, without_backup,
}

-- is there a value?
abbrev pub is_there {ℓ} : {A : Type ℓ} → Option A → Bool
is_there none = false
is_there (some a) = true

-- the files after a restore: the target has this content, a file at the path of its backup is gone if
-- the target was there, and every other file is as it was
abbrev pub Swapped : Dict String String → String → Option String → Dict String String → Type 0
Swapped files target new files' =
    (path : String)
    → Dict.get files' path ≡ (
        if target == path
        then new
        else if is_there (Dict.get files target) && backup_path target == path
        then none
        else Dict.get files path)

-- what the target has after a failed verification
abbrev pub kept_content : Option String → String → Option String
kept_content none content = some content
kept_content (some old) content = some old

backup_elsewhere : (target : String) → (target == backup_path target) ≡ false
unfolding backup_path concat
backup_elsewhere target =
    ==-ne target (concat target ".restore_backup")
      (λ e. omega (arith, ap count e, TextLemmas.length-append target ".restore_backup"))

module _ (c : Codec) where
  -- what `restore_snapshot` leaves, by its answer
  abbrev pub Restores :
      Disk → ℕ → String → String → Bool → Disk → Result SnapshotError (Unit {0}) → Type 0
  Restores disk date name target verify disk' (ok _) =
      (s : Saved) × (find_saved disk.dirs date name ≡ some s)
      × Swapped disk.files target (some s.content) disk'.files
      × (verify ≡ true → is_corrupt c s ≡ false)
  Restores disk date name target verify disk' (err missing_snapshot) =
      (find_saved disk.dirs date name ≡ none) × (disk' ≡ disk)
  Restores disk date name target verify disk' (err checksum_mismatch) =
      (s : Saved) × (find_saved disk.dirs date name ≡ some s)
      × Swapped disk.files target (kept_content (Dict.get disk.files target) s.content) disk'.files
      × (verify ≡ true)
      × (is_corrupt c s ≡ true)
  Restores disk date name target verify disk' (err _) = ⊥

  put_back-Swapped :
      (files : Dict String String) (target content : String)
      → Swapped files target
          (kept_content (Dict.get files target) content)
          (put_back c files target content)
  unfolding put_back copied
  put_back-Swapped files target content path = elim (Option-cases (Dict.get files target)) [
    | inl e ↦ rw (e, put_back) (rw (e, copied) (get-put files target path content))
    | inr (old, e) ↦
        rw (e, put_back)
          (rw (e, copied)
            (simp (get-put, get-remove)
              (ground (
                arith,
                backup_elsewhere target,
                string_eq.beq_iff target path,
                string_eq.beq_iff (backup_path target) path,
              ))))
  ]

  pub without_backup-Swapped :
      (files : Dict String String) (target content : String)
      → Swapped files target (some content) (without_backup c files target content)
  unfolding without_backup copied
  without_backup-Swapped files target content path = elim (Option-cases (Dict.get files target)) [
    | inl e ↦ rw (e, without_backup) (rw (e, copied) (get-put files target path content))
    | inr (old, e) ↦
        rw (e, without_backup)
          (rw (e, copied)
            (simp (get-put, get-remove)
              (ground (
                arith,
                backup_elsewhere target,
                string_eq.beq_iff target path,
                string_eq.beq_iff (backup_path target) path,
              ))))
  ]

  -- A restore that returns gives the target the content of the snapshot, which has passed its
  -- verification if one was asked for. One whose verification fails leaves the target its content, or
  -- the corrupt copy where there was none. In both, a file at the path of the backup is lost if the
  -- target was there, and no other file changes. One that finds no snapshot changes nothing. There
  -- is no other answer.
  pub restore_snapshot_lem :
      (disk : Disk) (date : ℕ) (name target : String) (verify : Bool)
      → let (disk', answer) = restore_snapshot c disk date name target verify in
        Restores disk date name target verify disk' answer
  unfolding restore_snapshot
  restore_snapshot_lem disk date name target verify =
      elim (Option-cases (find_saved disk.dirs date name)) [
        | inl e ↦ rw (e, restore_snapshot) (e, refl)
        | inr (s, e) ↦ elim (Bool-cases (verify && is_corrupt c s)) [
          | inl p ↦
              rw (e, p, restore_snapshot)
                (
                  s,
                  e,
                  put_back-Swapped disk.files target s.content,
                  ground (arith, p),
                  ground (arith, p),
                )
          | inr p ↦
              rw (e, p, restore_snapshot)
                (
                  s,
                  e,
                  without_backup-Swapped disk.files target s.content,
                  λ v. ground (arith, p, v),
                )
        ]
      ]

pub find-store_saved :
    (dirs : List DateDir) (date : ℕ) (name : String) (s : Saved)
    → find_saved (store_saved dirs date name s) date name ≡ some s
unfolding find_saved store_saved Dict.get
find-store_saved [] date name s =
    ground (arith, nat_eq.beq_iff date date, string_eq.beq_iff name name)
find-store_saved (d ∷ ds) date name s = elim (Bool-cases (d.date == date)) [
  | inl p ↦
      rw (p, find_saved, store_saved) (rw p (get-put d.saved name name s ∙ rw (==-refl name) refl))
  | inr p ↦ rw (p, store_saved) (rw (p, find_saved) (find-store_saved ds date name s))
]

-- the limit leaves the new snapshot, when all of them fit
abbrev pub Fits : Codec → ℕ → List DateDir → Type 0
Fits c max_size dirs = total_size c dirs ≤ max_size

module _ (c : Codec) where
  intact :
      (content : String)
      → is_corrupt c (record { content = content; meta = some (c.sha256_hex content) }) ≡ false
  unfolding is_corrupt expected_checksum
  intact content = elim (Bool-cases (validate_checksum_format c (c.sha256_hex content))) [
    | inl p ↦ rw (p, is_corrupt, expected_checksum) (rw (==-refl (c.sha256_hex content)) refl)
    | inr p ↦ rw (p, is_corrupt, expected_checksum) refl
  ]

  unchecked :
      (content : String) (verify : Bool)
      → (verify && is_corrupt c (record { content = content; meta = some (c.sha256_hex content) }))
        ≡ false
  unchecked content true = intact content
  unchecked content false = refl

  -- the disk with the new snapshot
  abbrev pub with_snapshot : Disk → ℕ → String → String → Disk
  with_snapshot disk date name content = record disk {
    dirs =
        store_saved disk.dirs date name
          (record { content = content; meta = some (c.sha256_hex content) });
  }

  -- A file's snapshot, when all of them fit, is restored by its date and name whatever was done to
  -- the files meanwhile: the restore passes its verification, and the file has again the content
  -- that it had at the snapshot.
  pub restore_snapshot-create_snapshot :
      (max_size : ℕ) (disk : Disk) (date : ℕ) (name path content : String)
      (files : Dict String String) (verify : Bool)
      → Dict.get disk.files path ≡ some content
      → Fits c max_size (with_snapshot disk date name content).dirs
      → let (disk1, created) = create_snapshot c max_size disk date name path false in
        let (disk2, restored) =
          restore_snapshot c (record disk1 { files = files }) date name path verify in
        (created
          ≡ ok (record {
            original_path = path;
            snapshot_date = date;
            snapshot_name = name;
            checksum = c.sha256_hex content;
          }))
        × (restored ≡ ok tt)
        × (Dict.get disk2.files path ≡ some content)
  unfolding create_snapshot enforce_size_limit restore_snapshot
  restore_snapshot-create_snapshot max_size disk date name path content files verify e f =
      rw (e, le→leb _ _ f, create_snapshot)
        (rw
          (
            find-store_saved disk.dirs date name
                (record { content = content; meta = some (c.sha256_hex content) }),
            unchecked content verify,
            restore_snapshot,
          )
          (refl, refl, without_backup-Swapped c files path content path ∙ rw (==-refl path) refl))
