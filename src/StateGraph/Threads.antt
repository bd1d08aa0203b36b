-- ===== src/StateGraph/Threads.antt =====
-- `cleanup_old_threads`: the checkpoints of threads that nobody used for long. The checkpointer's
-- store is the dict that the code finds in it, if it finds one.
use sky_claw_gravity.Prelude.{
  Bool, List, Option, String, [], if◌then◌else◌, leb, ltb, none, some, ℕ, ◌+◌, ◌-◌, ◌∷◌, nat_eq,
  string_eq,
}
use sky_claw_gravity.Dict
use sky_claw_gravity.Dict.{Dict}

-- `_thread_timestamps`, and the checkpoints of the store
pub record Threads (C : Type 0) : Type 0 where
  pub thread_timestamps : Dict String ℕ
  pub storage : Option (Dict String C)

-- `(now - ts) > max_age_seconds`
abbrev pub is_stale : ℕ → ℕ → ℕ → Bool
is_stale now max_age_seconds ts = ltb max_age_seconds (now - ts)

-- `stale_thread_ids`
unfoldable pub stale_thread_ids : ℕ → ℕ → Dict String ℕ → List String
stale_thread_ids now max_age_seconds [] = []
stale_thread_ids now max_age_seconds ((tid, ts) ∷ d) =
    let rest = stale_thread_ids now max_age_seconds d in
    if is_stale now max_age_seconds ts then tid ∷ rest else rest

module _ {C : Type 0} where
  -- one round of the loop, on the store
  unfoldable pub forget : Option (Dict String C) → String → Option (Dict String C) × ℕ
  forget none tid = (none, 0)
  forget (some storage) tid = elim (Dict.get storage tid) [
    | none ↦ (some storage, 0)
    | some c ↦ (some (Dict.remove storage tid), 1)
  ]

  -- `for tid in stale_thread_ids`, with the count `removed`
  unfoldable pub forget_all : Threads C → List String → Threads C × ℕ
  unfolding forget
  forget_all t [] = (t, 0)
  forget_all t (tid ∷ tids) =
      let (storage, found) = forget t.storage tid in
      let (t', removed) =
        forget_all
          (record { thread_timestamps = Dict.remove t.thread_timestamps tid; storage = storage })
          tids in
      (t', found + removed)

  -- `cleanup_old_threads` of a graph that has a checkpointer
  unfoldable pub cleanup_old_threads : ℕ → Threads C → ℕ → Threads C × ℕ
  unfolding forget_all stale_thread_ids
  cleanup_old_threads now t max_age_seconds =
      if leb max_age_seconds 0
      then (t, 0)
      else forget_all t (stale_thread_ids now max_age_seconds t.thread_timestamps)
