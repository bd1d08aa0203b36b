-- ===== src/Snapshots/Eviction.antt =====
-- Which snapshots the size limit takes.
use sky_claw_gravity.Prelude.{
  All, Bool-cases, List, [], ap, arith, inl, inr, leb, leb→le, refl, subst, sym, ℕ, ◌*◌, ◌++◌, ◌<◌,
  ◌∙◌, ◌∷◌, ◌≡◌, ◌≤◌, ◌⊎◌, nat_eq, string_eq,
}
use sky_claw_gravity.Prelude.{
  All, Bool-cases, List, [], ap, arith, inl, inr, leb, leb→le, refl, subst, sym, ℕ, ◌*◌, ◌++◌, ◌<◌,
  ◌∙◌, ◌∷◌, ◌≡◌, ◌≤◌, ◌⊎◌, nat_eq, string_eq,
}
use sky_claw_gravity.Prelude.{
  All, Bool-cases, List, [], ap, arith, inl, inr, leb, leb→le, refl, subst, sym, ℕ, ◌*◌, ◌++◌, ◌<◌,
  ◌∙◌, ◌∷◌, ◌≡◌, ◌≤◌, ◌⊎◌, nat_eq, string_eq,
}
use mathlib.Core.List.{Perm}
use mathlib.Core.List.Perm
use sky_claw_gravity.Snapshots.{
  Codec, DateDir, enforce_size_limit, evict, insert_dir, sort_dirs, total_size,
}
use sky_claw_gravity.Snapshots.{
  Codec, DateDir, enforce_size_limit, evict, insert_dir, sort_dirs, total_size,
}

module _ (c : Codec) (max_size : ℕ) where
  -- each directory that went was one too many at the time
  abbrev pub Needed : List DateDir → List DateDir → Type 0
  Needed [] kept = Unit
  Needed (d ∷ gone) kept = (9 * max_size < 10 * total_size c (d ∷ gone ++ kept)) × Needed gone kept

  -- the loop takes a front of the list, and no directory that it could have left
  evict_lem :
      (ds : List DateDir)
      → (gone : List DateDir) × (kept : List DateDir) × (ds ≡ gone ++ kept)
        × (evict c max_size (total_size c ds) ds ≡ kept)
        × (10 * total_size c kept ≤ 9 * max_size)
        × Needed gone kept
  unfolding evict total_size
  evict_lem [] = ([], [], refl, refl, omega arith, tt)
  evict_lem (d ∷ ds) = elim (Bool-cases (leb (10 * total_size c (d ∷ ds)) (9 * max_size))) [
    | inl p ↦ ([], d ∷ ds, refl, rw (p, evict) refl, leb→le _ _ p, tt)
    | inr p ↦
        let (gone, kept, e, k, b, n) = evict_lem ds in
        (
          d ∷ gone,
          kept,
          ap (◌∷◌ d) e,
          rw (p, evict) (ap (λ n. evict c max_size n ds) (omega arith) ∙ k),
          b,
          (subst (λ l. 9 * max_size < 10 * total_size c (d ∷ l)) e (ground (arith, p)), n),
        )
  ]

  -- no directory is from a later date than one behind it
  abbrev pub IsSorted : List DateDir → Type 0
  IsSorted [] = Unit
  IsSorted (d ∷ ds) = All (λ e. d.date ≤ e.date) ds × IsSorted ds

  All-insert_dir :
      (n : ℕ) (d : DateDir) (ds : List DateDir)
      → n ≤ d.date
      → All (λ e. n ≤ e.date) ds
      → All (λ e. n ≤ e.date) (insert_dir d ds)
  unfolding insert_dir
  All-insert_dir n d [] h a = (h, tt)
  All-insert_dir n d (e ∷ es) h a = elim (Bool-cases (leb d.date e.date)) [
    | inl p ↦ rw p (h, a)
    | inr p ↦ rw p (a.0, All-insert_dir n d es h a.1)
  ]

  rising :
      (n m : ℕ) (ds : List DateDir) → n ≤ m → All (λ e. m ≤ e.date) ds → All (λ e. n ≤ e.date) ds
  rising n m [] h a = tt
  rising n m (d ∷ ds) h a = (omega (arith, h, a.0), rising n m ds h a.1)

  insert_dir-IsSorted : (d : DateDir) (ds : List DateDir) → IsSorted ds → IsSorted (insert_dir d ds)
  unfolding insert_dir
  insert_dir-IsSorted d [] s = (tt, tt)
  insert_dir-IsSorted d (e ∷ es) s = elim (Bool-cases (leb d.date e.date)) [
    | inl p ↦ rw p ((leb→le _ _ p, rising d.date e.date es (leb→le _ _ p) s.0), s)
    | inr p ↦
        rw p (All-insert_dir e.date d es (ground (arith, p)) s.0, insert_dir-IsSorted d es s.1)
  ]

  sort_dirs-IsSorted : (ds : List DateDir) → IsSorted (sort_dirs ds)
  unfolding sort_dirs
  sort_dirs-IsSorted [] = tt
  sort_dirs-IsSorted (d ∷ ds) = insert_dir-IsSorted d (sort_dirs ds) (sort_dirs-IsSorted ds)

  insert_dir-Perm : (d : DateDir) (ds : List DateDir) → Perm (insert_dir d ds) (d ∷ ds)
  unfolding insert_dir
  insert_dir-Perm d [] = Perm.rfl
  insert_dir-Perm d (e ∷ es) = elim (Bool-cases (leb d.date e.date)) [
    | inl p ↦ rw p Perm.rfl
    | inr p ↦ rw p (Perm.trans (Perm.cons e (insert_dir-Perm d es)) (Perm.swap d e es))
  ]

  total_size-insert_dir :
      (d : DateDir) (ds : List DateDir) → total_size c (insert_dir d ds) ≡ total_size c (d ∷ ds)
  unfolding insert_dir total_size
  total_size-insert_dir d [] = refl
  total_size-insert_dir d (e ∷ es) = elim (Bool-cases (leb d.date e.date)) [
    | inl p ↦ rw p refl
    | inr p ↦ rw p (omega (arith, total_size-insert_dir d es))
  ]

  total_size-sort_dirs : (ds : List DateDir) → total_size c (sort_dirs ds) ≡ total_size c ds
  unfolding sort_dirs total_size
  total_size-sort_dirs [] = refl
  total_size-sort_dirs (d ∷ ds) =
      omega (arith, total_size-insert_dir d (sort_dirs ds), total_size-sort_dirs ds)

  sort_dirs-Perm : (ds : List DateDir) → Perm (sort_dirs ds) ds
  unfolding sort_dirs
  sort_dirs-Perm [] = Perm.rfl
  sort_dirs-Perm (d ∷ ds) =
      Perm.trans (insert_dir-Perm d (sort_dirs ds)) (Perm.cons d (sort_dirs-Perm ds))

  -- what the limit leaves when it was exceeded: some directories are gone, none from a later date
  -- than one that is kept
  abbrev pub Cut : List DateDir → List DateDir → Type 0
  Cut ds kept =
      (gone : List DateDir) × Perm (gone ++ kept) ds
      × IsSorted (gone ++ kept)
      × (10 * total_size c kept ≤ 9 * max_size)
      × Needed gone kept

  -- If the snapshots fit, `_enforce_size_limit` takes none. Otherwise it takes whole directories, of
  -- the oldest dates, and leaves at most nine tenths of the limit; it takes no directory that it could
  -- have left, and keeps all others.
  pub enforce_size_limit_lem :
      (ds : List DateDir)
      → let kept = enforce_size_limit c max_size ds in
        ((total_size c ds ≤ max_size) × (kept ≡ ds)) ⊎ ((max_size < total_size c ds) × Cut ds kept)
  unfolding enforce_size_limit
  enforce_size_limit_lem ds = elim (Bool-cases (leb (total_size c ds) max_size)) [
    | inl p ↦ inl (leb→le _ _ p, rw (p, enforce_size_limit) refl)
    | inr p ↦
        let (gone, kept, e, k, b, n) = evict_lem (sort_dirs ds) in
        let left : enforce_size_limit c max_size ds ≡ kept =
          rw (p, enforce_size_limit)
            (ap (λ t. evict c max_size t (sort_dirs ds)) (sym (total_size-sort_dirs ds)) ∙ k) in
        inr (
          ground (arith, p),
          subst (Cut ds) (sym left) (
            gone,
            subst (λ l. Perm l ds) e (sort_dirs-Perm ds),
            subst IsSorted e (sort_dirs-IsSorted ds),
            b,
            n,
          ),
        )
  ]
