-- ===== src/Dlq/Attempts.antt =====
-- What `_process_row` of `DLQManager` does with a row that it claims, and with the others.
use sky_claw_gravity.Prelude.{
  Bool, Bool-cases, List, Option, [], ap, arith, false, if◌then◌else◌, inl, inr, keep, leb, none,
  not, refl, some, true, ℕ, ◌*◌, ◌+◌, ◌<◌, ◌==◌, ◌^◌, ◌∙◌, ◌∷◌, ◌≡◌, ◌≤◌, nat_eq, string_eq,
}
use sky_claw_gravity.Dlq.{
  Config, DlqRow, Failure, Handling, claim, claimable, compute_next_retry_at, dead, failed,
  finish_row, in_progress, interrupted, is_pending, mark_dead, pending, process_row, some_row,
  succeeded, unregistered, update_where,
}

-- `SELECT ... WHERE id = ?`
unfoldable pub find : List DlqRow → ℕ → Option DlqRow
find [] j = none
find (r ∷ rs) j = let rest = find rs j in if r.id == j then some r else rest

abbrev map_row : (DlqRow → DlqRow) → Option DlqRow → Option DlqRow
map_row f none = none
map_row f (some r) = some (f r)

find-update_where :
    (id : ℕ) (f : DlqRow → DlqRow)
    → ((r : DlqRow) → (f r).id ≡ r.id)
    → (rows : List DlqRow)
    → find (update_where (λ r. r.id == id) f rows) id ≡ map_row f (find rows id)
unfolding find update_where
find-update_where id f h [] = refl
find-update_where id f h (r ∷ rs) = elim (Bool-cases (r.id == id)) [
  | inl e ↦ rw e (ground (arith, find-update_where id f h rs, h r, e))
  | inr e ↦ rw (e, e) (find-update_where id f h rs)
]

find-update_where-other :
    (test : DlqRow → Bool) (f : DlqRow → DlqRow)
    → ((r : DlqRow) → (f r).id ≡ r.id)
    → (j : ℕ) → ((r : DlqRow) → r.id ≡ j → test r ≡ false)
    → (rows : List DlqRow) → find (update_where test f rows) j ≡ find rows j
unfolding find update_where
find-update_where-other test f h j miss [] = refl
find-update_where-other test f h j miss (r ∷ rs) = elim (Bool-cases (test r)) [
  | inl e ↦ rw e (ground (arith, find-update_where-other test f h j miss rs, h r, e, miss r))
  | inr e ↦ rw e (ground (arith, find-update_where-other test f h j miss rs))
]

find-keep : (id : ℕ) (rows : List DlqRow) → find (keep (λ r. not (r.id == id)) rows) id ≡ none
unfolding find
find-keep id [] = refl
find-keep id (r ∷ rs) = elim (Bool-cases (r.id == id)) [
  | inl e ↦ rw e (find-keep id rs)
  | inr e ↦ rw (e, e) (find-keep id rs)
]

find-keep-other :
    (id j : ℕ)
    → ¬ (j ≡ id)
    → (rows : List DlqRow) → find (keep (λ r. not (r.id == id)) rows) j ≡ find rows j
unfolding find
find-keep-other id j n [] = refl
find-keep-other id j n (r ∷ rs) = elim (Bool-cases (r.id == id)) [
  | inl e ↦ rw e (ground (arith, find-keep-other id j n rs))
  | inr e ↦ rw e (ground (arith, find-keep-other id j n rs))
]

-- the row after a claim
abbrev as_claimed : ℕ → DlqRow → DlqRow
as_claimed now r = record r { status = in_progress; updated_at = now }

head-found : (s : DlqRow) (rs : List DlqRow) (r : DlqRow) → find (s ∷ rs) s.id ≡ some r → s ≡ r
unfolding find
head-found s rs r e = ground (arith, e)

find-claim :
    (now : ℕ) (rows : List DlqRow) (id : ℕ) (r : DlqRow)
    → find rows id ≡ some r
    → is_pending r.status ≡ true
    → (find (update_where (claimable id) (as_claimed now) rows) id ≡ some (as_claimed now r))
      × (some_row (claimable id) rows ≡ true)
unfolding find update_where
find-claim now [] id r e p = absurd (ground (arith, e))
find-claim now (s ∷ rs) id r e p = elim (Bool-cases (s.id == id)) [
  | inl q ↦
      let same : s ≡ r = ground (arith, e, q) in
      let on : is_pending s.status ≡ true = ap (λ x. is_pending x.status) same ∙ p in
      rw (q, on) (rw q (ap (λ x. some (as_claimed now x)) same), refl)
  | inr q ↦
      let e' : find rs id ≡ some r = ground (arith, e, q) in
      let rest = find-claim now rs id r e' p in rw q (rw q rest.0, rest.1)
]

-- the row that `_process_row` leaves under the id, by how the claimed row ended
pub data After (c : Config) (later : ℕ) (row r : DlqRow) : Handling → Option DlqRow → Type 0 where
  retried_later :
      (r' : DlqRow)
      → r'.status ≡ pending
      → r'.attempts ≡ r.attempts
      → r'.next_retry_at ≡ later + 60000
      → After c later row r unregistered (some r')
  deleted : After c later row r succeeded none
  buried :
      (f : Failure) (r' : DlqRow)
      → r'.status ≡ dead
      → r'.attempts ≡ row.attempts + 1
      → c.max_attempts ≤ r'.attempts
      → After c later row r (failed f) (some r')
  postponed :
      (f : Failure) (r' : DlqRow)
      → r'.status ≡ pending
      → r'.attempts ≡ row.attempts + 1
      → r'.attempts < c.max_attempts
      → r'.next_retry_at ≡ later + c.base_backoff_s ^ r'.attempts * 1000
      → After c later row r (failed f) (some r')
  stranded :
      (r' : DlqRow)
      → r'.status ≡ in_progress
      → r'.attempts ≡ r.attempts
      → After c later row r interrupted (some r')

-- what a predicate says of the changed row it says of what the changed table holds
updated :
    (P : Option DlqRow → Type 0) (id : ℕ) (f : DlqRow → DlqRow)
    → ((r : DlqRow) → (f r).id ≡ r.id)
    → (rows : List DlqRow) (r : DlqRow) → find rows id ≡ some r
    → P (some (f r))
    → P (find (update_where (λ r. r.id == id) f rows) id)
updated P id f h rows r e p = rw (find-update_where id f h rows, e) p

finish_row-After :
    (c : Config) (now later : ℕ) (row r : DlqRow) (handling : Handling) (rows : List DlqRow)
    → find rows row.id ≡ some (as_claimed now r)
    → After c later row r handling (find (finish_row c later row handling rows) row.id)
unfolding finish_row mark_dead compute_next_retry_at
finish_row-After c now later row r unregistered rows e =
    updated (After c later row r unregistered) row.id _ (λ s. refl) rows _ e
      (retried_later _ refl refl refl)
finish_row-After c now later row r succeeded rows e = rw (find-keep row.id rows) deleted
finish_row-After c now later row r (failed f) rows e =
    elim (Bool-cases (leb c.max_attempts (row.attempts + 1))) [
      | inl q ↦ rw q (
          updated (After c later row r (failed f)) row.id _ (λ s. refl) rows _ e
            (buried f _ refl refl (ground (arith, q))))
      | inr q ↦ rw q (
          updated (After c later row r (failed f)) row.id _ (λ s. refl) rows _ e
            (postponed f _ refl refl (ground (arith, q)) refl))
    ]
finish_row-After c now later row r interrupted rows e = rw e (stranded _ refl refl)

finish_row-other :
    (c : Config) (later : ℕ) (row : DlqRow) (handling : Handling) (rows : List DlqRow) (j : ℕ)
    → ¬ (j ≡ row.id)
    → find (finish_row c later row handling rows) j ≡ find rows j
unfolding finish_row mark_dead
finish_row-other c later row unregistered rows j n =
    find-update_where-other _ _ (λ s. refl) j (λ s e. ground (arith, n, e)) rows
finish_row-other c later row succeeded rows j n = find-keep-other row.id j n rows
finish_row-other c later row (failed f) rows j n =
    elim (Bool-cases (leb c.max_attempts (row.attempts + 1))) [
      | inl q ↦ rw q (find-update_where-other _ _ (λ s. refl) j (λ s e. ground (arith, n, e)) rows)
      | inr q ↦ rw q (find-update_where-other _ _ (λ s. refl) j (λ s e. ground (arith, n, e)) rows)
    ]
finish_row-other c later row interrupted rows j n = refl

-- A pending row that `_process_row` finds is deleted exactly when its handler returns. A failure
-- counts one attempt and either buries the row, when it has used `max_attempts`, or postpones it by
-- `base ** attempts` seconds with attempts left. An unregistered handler postpones it by a minute
-- with its attempts unchanged, and an interrupted worker leaves it in progress. No row of another
-- id is touched.
pub process_row_outcome :
    (c : Config) (now later : ℕ) (row r : DlqRow) (handling : Handling) (rows : List DlqRow)
    → find rows row.id ≡ some r
    → is_pending r.status ≡ true
    → After c later row r handling (find (process_row c now later row handling rows) row.id)
      × ((j : ℕ)
          → ¬ (j ≡ row.id)
          → find (process_row c now later row handling rows) j ≡ find rows j)
unfolding process_row claim
process_row_outcome c now later row r handling rows e p =
    let taken = find-claim now rows row.id r e p in
    rw taken.1 (
      finish_row-After c now later row r handling _ taken.0,
      λ j n.
          finish_row-other c later row handling _ j n
          ∙ find-update_where-other _ _ (λ s. refl) j (λ s q. ground (arith, n, q)) rows,
    )
