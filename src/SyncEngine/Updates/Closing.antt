-- ===== src/SyncEngine/Updates/Closing.antt =====
-- The transaction of an update is closed, and an update that is reported was approved.
use sky_claw_gravity.SyncEngine.Updates.{
  Outcome, Update, WorkEnd, cancels, close_update, commits, fails_network, fails_other,
  is_cancelled, mark, network_failure, raises, result, reverts,
}
use sky_claw_gravity.Journal.Logging.{commit_transaction-ok}
use mathlib.Core.Option
use sky_claw_gravity.Prelude.{
  ==-ne, ==-refl, Bool-cases, List, [], ap, arith, false, if◌then◌else◌, inl, inr, refl, some, suc,
  sym, true, ℕ, ◌==◌, ◌∙◌, ◌∷◌, ◌≡◌, ◌≢◌, nat_eq, string_eq,
}
use sky_claw_gravity.Journal.{
  OperationJournal, Transaction, TransactionStatus, committed, get_transaction, is_pending,
  mark_transaction_rolled_back, pending, reverted, set_committed, set_reverted,
}

abbrev committed_row : ℕ → Transaction → Transaction
committed_row now t =
    if is_pending t.status then record t { status = committed; committed_at = some now } else t

abbrev reverted_row : ℕ → Transaction → Transaction
reverted_row now t = record t { status = reverted; rolled_back_at = some now }

get-set_committed :
    (now id j : ℕ) (ts : List Transaction)
    → get_transaction (set_committed now id ts).0 j ≡ (
        if id == j
        then Option.map (committed_row now) (get_transaction ts j)
        else get_transaction ts j)
unfolding get_transaction set_committed
get-set_committed now id j [] = ground arith
get-set_committed now id j (t ∷ ts) = ground (arith, get-set_committed now id j ts)

get-set_reverted :
    (now id j : ℕ) (ts : List Transaction)
    → get_transaction (set_reverted now id ts) j ≡ (
        if id == j
        then Option.map (reverted_row now) (get_transaction ts j)
        else get_transaction ts j)
unfolding get_transaction set_reverted
get-set_reverted now id j [] = ground arith
get-set_reverted now id j (t ∷ ts) = ground (arith, get-set_reverted now id j ts)

-- a pending transaction can be committed
set_committed-count :
    (now id : ℕ) (ts : List Transaction) (t : Transaction)
    → get_transaction ts id ≡ some t
    → is_pending t.status ≡ true
    → (n : ℕ) × ((set_committed now id ts).1 ≡ suc n)
unfolding get_transaction set_committed
set_committed-count now id [] t g p = ground (arith, g)
set_committed-count now id (x ∷ ts) t g p = elim (Bool-cases (x.transaction_id == id)) [
  | inl q ↦
      let same : some x ≡ some t = rw q at g in
      let pending : is_pending x.status ≡ true = ground (arith, same, p) in
      ((set_committed now id ts).1, rw q (rw pending (omega arith)))
  | inr q ↦ let (n, r) = set_committed-count now id ts t (rw q at g) p in (n, rw q r)
]

-- the status that the end of the work gives to its transaction, and the outcome
abbrev pub final_status : WorkEnd → TransactionStatus
final_status (commits u) = committed
final_status is_cancelled = pending
final_status _ = reverted

abbrev pub final_outcome : WorkEnd → Outcome
final_outcome (commits u) = result u
final_outcome (reverts u) = result u
final_outcome fails_network = result network_failure
final_outcome fails_other = raises
final_outcome is_cancelled = cancels

-- the transaction has this status, another one is as it was, and so are the entries
abbrev pub Closed : OperationJournal → ℕ → ℕ → TransactionStatus → OperationJournal → Type 0
Closed j tx_id other status j' =
    ((t : Transaction) × (get_transaction j'.transactions tx_id ≡ some t) × (t.status ≡ status))
    × (get_transaction j'.transactions other ≡ get_transaction j.transactions other)
    × (j'.entries ≡ j.entries)

mark-Closed :
    (now : ℕ) (j : OperationJournal) (tx_id other : ℕ) (t : Transaction)
    → get_transaction j.transactions tx_id ≡ some t
    → other ≢ tx_id
    → Closed j tx_id other reverted (mark now j tx_id false)
unfolding mark mark_transaction_rolled_back
mark-Closed now j tx_id other t g o = (
  (
    reverted_row now t,
    get-set_reverted now tx_id tx_id j.transactions ∙ rw (==-refl tx_id) (rw g refl),
    refl,
  ),
  get-set_reverted now tx_id other j.transactions ∙ rw (==-ne tx_id other (λ p. o (sym p))) refl,
  refl,
)

commit-Closed :
    (now : ℕ) (j : OperationJournal) (tx_id other : ℕ) (t : Transaction) (u : Update)
    → get_transaction j.transactions tx_id ≡ some t
    → t.status ≡ pending
    → other ≢ tx_id
    → let (j', outcome) = close_update now j tx_id false (commits u) in
      (outcome ≡ result u) × Closed j tx_id other committed j'
unfolding close_update is_pending
commit-Closed now j tx_id other t u g p o =
    let (n, e) = set_committed-count now tx_id j.transactions t g (ap is_pending p) in
    let done =
      commit_transaction-ok now tx_id n j (set_committed now tx_id j.transactions).0
        (ap (λ k. ((set_committed now tx_id j.transactions).0, k)) e) in
    rw done (
      refl,
      (
        (
          record t { status = committed; committed_at = some now },
          get-set_committed now tx_id tx_id j.transactions
              ∙ rw (==-refl tx_id) (rw g (rw (ap is_pending p) refl)),
          refl,
        ),
        get-set_committed now tx_id other j.transactions
            ∙ rw (==-ne tx_id other (λ q. o (sym q))) refl,
        refl,
      ),
    )

-- For an update whose transaction is pending, whatever other updates did to the journal in between,
-- and when the marking does not fail: the end of the update closes its transaction. It is committed
-- where the work says so, rolled back where the operator refused or an error was raised, and stays
-- pending only if the update is cancelled; the outcome is that of the work, with an error of the
-- network turned into a result. No other transaction and no entry changes.
pub close_update_lem :
    (now : ℕ) (j : OperationJournal) (tx_id other : ℕ) (t : Transaction) (w : WorkEnd)
    → get_transaction j.transactions tx_id ≡ some t
    → t.status ≡ pending
    → other ≢ tx_id
    → let (j', outcome) = close_update now j tx_id false w in
      (outcome ≡ final_outcome w) × Closed j tx_id other (final_status w) j'
unfolding close_update
close_update_lem now j tx_id other t (commits u) g p o = commit-Closed now j tx_id other t u g p o
close_update_lem now j tx_id other t (reverts u) g p o = (refl, mark-Closed now j tx_id other t g o)
close_update_lem now j tx_id other t fails_network g p o =
    (refl, mark-Closed now j tx_id other t g o)
close_update_lem now j tx_id other t fails_other g p o = (refl, mark-Closed now j tx_id other t g o)
close_update_lem now j tx_id other t is_cancelled g p o = (refl, ((t, g, p), refl, refl))
