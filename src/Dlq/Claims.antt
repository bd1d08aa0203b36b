-- ===== src/Dlq/Claims.antt =====
-- Who may process a row of `DLQManager`.
use sky_claw_gravity.Prelude.{
  Bool, Bool-cases, List, [], ap, arith, false, inl, inr, refl, ℕ, ◌∷◌, ◌≡◌,
}
use sky_claw_gravity.Dlq.{
  Config, DlqRow, Handling, claim, claimable, in_progress, process_row, some_row, update_where,
}

claimed-once :
    (now id : ℕ) (rows : List DlqRow)
    → some_row (claimable id) (
        update_where (claimable id) (λ r. record r { status = in_progress; updated_at = now }) rows)
      ≡ false
unfolding update_where
claimed-once now id [] = refl
claimed-once now id (r ∷ rs) = elim (Bool-cases (claimable id r)) [
  | inl e ↦ rw e (rw (claimed-once now id rs) (ground arith))
  | inr e ↦ rw (e, e) (claimed-once now id rs)
]

update_where-none :
    (test : DlqRow → Bool) (f : DlqRow → DlqRow) (rows : List DlqRow)
    → some_row test rows ≡ false
    → update_where test f rows ≡ rows
unfolding update_where
update_where-none test f [] h = refl
update_where-none test f (r ∷ rs) h = elim (Bool-cases (test r)) [
  | inl e ↦ absurd (ground (arith, h, e))
  | inr e ↦ rw e (ap (λ xs. r ∷ xs) (update_where-none test f rs (ground (arith, h, e))))
]

process_row-unclaimed :
    (c : Config) (now later : ℕ) (row : DlqRow) (handling : Handling) (rows : List DlqRow)
    → some_row (claimable row.id) rows ≡ false
    → process_row c now later row handling rows ≡ rows
unfolding process_row claim
process_row-unclaimed c now later row handling rows h =
    rw h (update_where-none (claimable row.id) _ rows h)

-- Of two workers that fetched the same row one claims it: after a first claim a second one that
-- comes before the row is given back fails, and its `_process_row` changes nothing, whatever its
-- handler would have done.
claim_exclusive :
    (c : Config) (now now' later : ℕ) (row : DlqRow) (handling : Handling) (rows : List DlqRow)
    → let claimed = (claim now row.id rows).0 in
      ((claim now' row.id claimed).1 ≡ false)
      × (process_row c now' later row handling claimed ≡ claimed)
unfolding claim
claim_exclusive c now now' later row handling rows = (
  claimed-once now row.id rows,
  process_row-unclaimed c now' later row handling
      (update_where (claimable row.id) (λ r. record r { status = in_progress; updated_at = now })
        rows)
      (claimed-once now row.id rows),
)
