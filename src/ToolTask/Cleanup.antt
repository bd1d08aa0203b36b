-- ===== src/ToolTask/Cleanup.antt =====
-- `cleanup_terminal` deletes the stale tasks and no other.
use sky_claw_gravity.Prelude.{
  Bool, List, Option, [], arith, false, if◌then◌else◌, nat_beq_iff, none, refl, some, ℕ, ◌==◌, ◌||◌,
  ◌∙◌, ◌∷◌, ◌≡◌, nat_eq, string_eq,
}
use sky_claw_gravity.Dict
use sky_claw_gravity.Dict.{Dict, Unique, get-remove, remove-Unique}
use sky_claw_gravity.ToolTask.{
  TaskRecord, ToolStateMachine, cleanup_terminal, delete_all, is_stale, stale_ids,
}

contains : List ℕ → ℕ → Bool
contains [] j = false
contains (i ∷ is) j = i == j || contains is j

module _ {R : Type 0} where
  get-delete_all :
      (d : Dict ℕ (TaskRecord R)) (ids : List ℕ) (j : ℕ)
      → Dict.get (delete_all d ids) j ≡ (if contains ids j then none else Dict.get d j)
  unfolding delete_all contains
  get-delete_all d [] j = refl
  get-delete_all d (i ∷ is) j =
      get-delete_all (Dict.remove d i) is j ∙ rw (get-remove d i j) (ground arith)

  delete_all-Unique :
      (d : Dict ℕ (TaskRecord R)) (ids : List ℕ) → Unique d → Unique (delete_all d ids)
  unfolding delete_all
  delete_all-Unique d [] h = h
  delete_all-Unique d (i ∷ is) h = delete_all-Unique (Dict.remove d i) is (remove-Unique d i h)

  -- is the task stored under a key, if any, stale?
  stale_at : ℕ → ℕ → Option (TaskRecord R) → Bool
  stale_at now max_age none = false
  stale_at now max_age (some r) = is_stale now max_age r

  contains-stale_ids :
      (now max_age : ℕ) (d : Dict ℕ (TaskRecord R)) (j : ℕ)
      → Unique d
      → contains (stale_ids now max_age d) j ≡ stale_at now max_age (Dict.get d j)
  unfolding contains stale_ids stale_at Dict.get
  contains-stale_ids now max_age [] j h = refl
  contains-stale_ids now max_age ((i, w) ∷ d) j h =
      ground (arith, contains-stale_ids now max_age d j h.1, h.0, nat_beq_iff i j)

  -- what `cleanup_terminal` leaves of one task
  abbrev pub kept : ℕ → ℕ → Option (TaskRecord R) → Option (TaskRecord R)
  kept now max_age none = none
  kept now max_age (some r) = if is_stale now max_age r then none else some r

  -- With each id stored once, after a cleanup every id has the task that it had, except that the
  -- tasks that are completed or failed and have not changed for `max_age` are gone.
  pub get-cleanup_terminal :
      (now max_age : ℕ) (sm : ToolStateMachine R) (j : ℕ)
      → Unique sm.tasks
      → Dict.get (cleanup_terminal now sm max_age).0.tasks j
        ≡ kept now max_age (Dict.get sm.tasks j)
  unfolding cleanup_terminal stale_at
  get-cleanup_terminal now max_age sm j h =
      get-delete_all sm.tasks (stale_ids now max_age sm.tasks) j
      ∙ rw (contains-stale_ids now max_age sm.tasks j h) (ground arith)

  pub cleanup_terminal-Unique :
      (now max_age : ℕ) (sm : ToolStateMachine R)
      → Unique sm.tasks
      → Unique (cleanup_terminal now sm max_age).0.tasks
  unfolding cleanup_terminal
  cleanup_terminal-Unique now max_age sm h =
      delete_all-Unique sm.tasks (stale_ids now max_age sm.tasks) h
