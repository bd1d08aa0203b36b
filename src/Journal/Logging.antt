-- ===== src/Journal/Logging.antt =====
-- `log_operation`, and what is recorded once a transaction was rolled back.
use sky_claw_gravity.Prelude.{
  ==-refl, All, List, Option, Option-cases, String, [], ap, arith, inl, inr, none, refl, some,
  subst, suc, ℕ, ◌++◌, ◌+◌, ◌∙◌, ◌∷◌, ◌≡◌, ◌≤◌,
}
use sky_claw_gravity.Result.{ok}
use sky_claw_gravity.Journal.{
  OperationJournal, OperationType, Transaction, TransactionStatus, begin_operation,
  begin_transaction, chosen_transaction, commit_transaction, committed, completed, finish_log,
  get_transaction, is_pending, leave_transaction, legacy_type, log_begun, log_operation,
  mark_transaction_rolled_back, pending, set_committed, update_status,
}
use sky_claw_gravity.Journal.Recorded.{IdsBelow, set_status-append, started_entry}
use sky_claw_gravity.Journal.Consistency.{Consistent, CurrentKnown}
use sky_claw_gravity.Journal.Rows.{Known, Known-new, Known-set_reverted}

-- the ids that `AUTOINCREMENT` has given to the transactions
abbrev pub TransactionsBelow : ℕ → List Transaction → Type 0
TransactionsBelow last = All (λ t. t.transaction_id ≤ last)

-- the row of a transaction
abbrev pub transaction_row : ℕ → ℕ → String → Option ℕ → TransactionStatus → Option ℕ → Transaction
transaction_row id now description mod_id status committed_at = record {
  transaction_id = id;
  mod_id = mod_id;
  description = description;
  status = status;
  created_at = now;
  committed_at = committed_at;
  rolled_back_at = none;
}

pub set_committed-append :
    (now last : ℕ) (ts : List Transaction) (t : Transaction)
    → TransactionsBelow last ts
    → t.transaction_id ≡ 1 + last
    → t.status ≡ pending
    → set_committed now (1 + last) (ts ++ t ∷ [])
      ≡ (ts ++ record t { status = committed; committed_at = some now } ∷ [], 1)
unfolding set_committed is_pending
set_committed-append now last [] t b i s = ground (arith, i, s)
set_committed-append now last (x ∷ ts) t b i s =
    rw (set_committed-append now last ts t b.1 i s) (ground (arith, b.0))

pub begin_operation-ok :
    (now : ℕ) (j : OperationJournal) (agent_id : String) (type : OperationType) (path : String)
    (tx : Option ℕ) (snap : Option (ℕ × String)) (checksum : Option String) (tx_id : ℕ)
    → chosen_transaction tx j.current_transaction ≡ some tx_id
    → Known j.transactions tx_id
    → begin_operation now j agent_id type path tx snap checksum ≡ (
      record j {
        entries =
            j.entries
            ++ started_entry (1 + j.last_entry) tx_id now agent_id type path snap checksum ∷ [];
        last_entry = 1 + j.last_entry;
      },
      ok (1 + j.last_entry),
    )
unfolding begin_operation
begin_operation-ok now j agent_id type path tx snap checksum tx_id p k =
    elim (Option-cases (get_transaction j.transactions tx_id)) [
      | inl q ↦ absurd (k q)
      | inr (t, q) ↦ rw (p, begin_operation) (rw (q, begin_operation) refl)
    ]

pub chosen_transaction-suc :
    (n : ℕ) (current : Option ℕ) → chosen_transaction (some (1 + n)) current ≡ some (1 + n)
unfolding chosen_transaction
chosen_transaction-suc n current = ground arith

pub commit_transaction-ok :
    (now id n : ℕ) (j : OperationJournal) (ts : List Transaction)
    → set_committed now id j.transactions ≡ (ts, suc n)
    → commit_transaction now j id ≡ (
      record j {
        transactions = ts;
        current_transaction = leave_transaction j.current_transaction id;
      },
      ok tt,
    )
unfolding commit_transaction
commit_transaction-ok now id n j ts h = rw (h, commit_transaction) (ground arith)

pub leave_transaction-same : (id : ℕ) → leave_transaction (some id) id ≡ none
unfolding leave_transaction
leave_transaction-same id = rw (==-refl id) refl

-- Logging an operation by the older call, when the ids so far are below the counters, always
-- succeeds: the journal has one transaction more, which is committed, and one entry of it more,
-- which is completed. No transaction is current afterwards, even if one was before.
log_operation_lem :
    (now : ℕ) (j : OperationJournal) (agent_id : String) (type : Option OperationType)
    (description path : String)
    → IdsBelow j.last_entry j.entries
    → TransactionsBelow j.last_transaction j.transactions
    → log_operation now j agent_id type description path ≡ (
      record {
        transactions =
            j.transactions
            ++ transaction_row (1 + j.last_transaction) now description none committed (some now)
              ∷ [];
        entries =
            j.entries
            ++ record (started_entry
                (1 + j.last_entry)
                (1 + j.last_transaction)
                now
                agent_id
                (legacy_type type)
                path
                none
                none) { status = completed }
              ∷ [];
        last_transaction = 1 + j.last_transaction;
        last_entry = 1 + j.last_entry;
        current_transaction = none;
      },
      ok (1 + j.last_entry),
    )
unfolding log_operation begin_transaction update_status
log_operation_lem now j agent_id type description path b t =
    let begun =
      begin_operation-ok now (begin_transaction now j description none).0 agent_id
        (legacy_type type) path (some (1 + j.last_transaction)) none none (1 + j.last_transaction)
        (chosen_transaction-suc j.last_transaction _) (Known-new j.transactions _) in
    ap (log_begun now (1 + j.last_transaction)) begun
    ∙ ap (finish_log now (1 + j.last_transaction) (1 + j.last_entry)) (
        commit_transaction-ok now (1 + j.last_transaction) 0 _ _
          (set_committed-append now j.last_transaction j.transactions _ t refl refl))
    ∙ rw
        (
          leave_transaction-same (1 + j.last_transaction),
          set_status-append j.last_entry completed j.entries
              (started_entry (1 + j.last_entry) (1 + j.last_transaction) now agent_id
                (legacy_type type) path none none)
              b refl,
        )
        refl

-- Once the current transaction was marked as rolled back, it is still the current one: an operation
-- that names no transaction is recorded under it, with the next id, as if it were open.
begin_operation-mark_transaction_rolled_back :
    (now later id : ℕ) (j : OperationJournal) (agent_id : String) (type : OperationType)
    (path : String) (snap : Option (ℕ × String)) (checksum : Option String)
    → Consistent j
    → j.current_transaction ≡ some id
    → let j1 = mark_transaction_rolled_back now j id in
      let (j2, begun) = begin_operation later j1 agent_id type path none snap checksum in
      (begun ≡ ok (1 + j.last_entry))
      × (j2.entries
          ≡ j.entries
            ++ started_entry (1 + j.last_entry) id later agent_id type path snap checksum ∷ [])
unfolding mark_transaction_rolled_back chosen_transaction
begin_operation-mark_transaction_rolled_back now later id j agent_id type path snap checksum h e =
    rw
      (begin_operation-ok later (mark_transaction_rolled_back now j id) agent_id type path none snap
        checksum id e
        (Known-set_reverted now id j.transactions id
          (subst (CurrentKnown j.transactions) e h.current_known)))
      (refl, refl)
