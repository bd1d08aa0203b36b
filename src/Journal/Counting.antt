-- ===== src/Journal/Counting.antt =====
-- How often an agent can undo.
use sky_claw_gravity.Snapshots.{Codec, Disk, SnapshotError}
use sky_claw_gravity.Journal.Undoing.{Returned, Undone, undo_last_operation_lem}
use sky_claw_gravity.Result.{Result, err, ok}
use sky_claw_gravity.Prelude.{
  ==-refl, Bool, List, Option, String, [], arith, count_if, none, some, subst, suc, sym, true, ℕ,
  ◌+◌, ◌<◌, ◌==◌, ◌∷◌, ◌≡◌, ◌≤◌, nat_eq, string_eq,
}
use sky_claw_gravity.Journal.{
  JournalEntry, OperationJournal, rolled_back, set_status, update_status,
}
use sky_claw_gravity.Journal.Undo.{RollbackResult, is_candidate, is_undoable, undo_last_operation}
use mathlib.Core.List.{Memᴰ}
use mathlib.Core.List.Memᴰ

-- the undo says that it was a success
abbrev pub Succeeded : Result SnapshotError RollbackResult → Type 0
Succeeded (ok r) = r.success ≡ true
Succeeded (err _) = ⊥

module _ (agent_id : String) where
  -- the operations of the agent that an undo may take
  abbrev pub undoable_count : List JournalEntry → ℕ
  undoable_count = count_if (is_candidate agent_id)

  rolled_back-le :
      (id : ℕ) (es : List JournalEntry)
      → undoable_count (set_status id rolled_back es) ≤ undoable_count es
  unfolding set_status is_candidate is_undoable
  rolled_back-le id [] = omega arith
  rolled_back-le id (e ∷ es) = ground (arith, rolled_back-le id es)

  rolled_back-lt :
      (e : JournalEntry) (es : List JournalEntry)
      → Memᴰ e es
      → is_candidate agent_id e ≡ true
      → undoable_count (set_status e.id rolled_back es) < undoable_count es
  unfolding set_status is_candidate is_undoable
  rolled_back-lt e [] m c = absurd (Memᴰ.not-nil m)
  rolled_back-lt e (x ∷ es) (Memᴰ.head p) c = ground (
    arith,
    rolled_back-le e.id es,
    subst (λ y. is_candidate agent_id y ≡ true) p c,
    subst (λ y. (y.id == e.id) ≡ true) p (==-refl e.id),
  )
  rolled_back-lt e (x ∷ es) (Memᴰ.tail m) c = ground (arith, rolled_back-lt e es m c)

-- A run of that many undos of an agent that all succeeded, with anything done to the files between
-- them.
pub data Undos (c : Codec) (agent_id : String)
    : ℕ → OperationJournal → OperationJournal → Type 0 where
  done : {j : OperationJournal} → Undos c agent_id 0 j j
  undo :
      {n : ℕ} {j j' : OperationJournal} (tie : JournalEntry → JournalEntry → Bool) (disk : Disk)
      → Succeeded (undo_last_operation tie c j disk agent_id).2
      → Undos c agent_id n (undo_last_operation tie c j disk agent_id).0 j'
      → Undos c agent_id (suc n) j j'

module _ (c : Codec) (agent_id : String) where
  Returned-count :
      (j j' : OperationJournal) (disk disk' : Disk) (r : RollbackResult) (named : Option ℕ)
      → r.success ≡ true
      → Returned agent_id j disk j' disk' r named
      → undoable_count agent_id j'.entries < undoable_count agent_id j.entries
  unfolding update_status
  Returned-count j j' disk disk' r none s (f, _, _, _) = ground (arith, s, f)
  Returned-count j j' disk disk' r (some id) s (f, (e, i, (m, d, l), g, h)) =
      rw (g, sym i) (rolled_back-lt agent_id e j.entries m d)

  Undone-count :
      (j j' : OperationJournal) (disk disk' : Disk) (answer : Result SnapshotError RollbackResult)
      → Succeeded answer
      → Undone c agent_id j disk j' disk' answer
      → undoable_count agent_id j'.entries < undoable_count agent_id j.entries
  Undone-count j j' disk disk' (ok r) s u = Returned-count j j' disk disk' r r.transaction_id s u
  Undone-count j j' disk disk' (err _) s u = elim s [ ]

  -- An agent can undo at most as often as it has completed or failed operations, whatever happens to
  -- the files meanwhile: each undo that succeeds uses one of them up.
  pub Undos-bounded :
      {n : ℕ} {j j' : OperationJournal}
      → Undos c agent_id n j j'
      → n + undoable_count agent_id j'.entries ≤ undoable_count agent_id j.entries
  Undos-bounded done = omega arith
  Undos-bounded (undo tie disk s u) = omega (
    arith,
    Undos-bounded u,
    Undone-count _ _ disk _ _ s (undo_last_operation_lem tie c agent_id _ disk),
  )
