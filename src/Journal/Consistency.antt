-- ===== src/Journal/Consistency.antt =====
-- The tables of the journal stay consistent.
use sky_claw_gravity.Prelude.{
  All, Bool-cases, List, Option, Option-cases, String, arith, inl, inr, none, some, ℕ, ◌+◌, ◌==◌,
  ◌≤◌, nat_eq, string_eq,
}
use sky_claw_gravity.Journal.{
  OperationJournal, OperationStatus, OperationType, Transaction, begin_operation, begin_transaction,
  chosen_transaction, commit_transaction, get_transaction, leave_transaction,
  mark_transaction_rolled_back, set_committed, update_status,
}
use sky_claw_gravity.Journal.Recorded.{IdsBelow}
use sky_claw_gravity.Journal.Rows.{
  All-append, All-map, Known, Known-append, Known-new, Known-set_committed, Known-set_reverted,
  Rising, Rising-append, set_status-All, set_status-Rising,
}

-- the current transaction is there, if one is current
abbrev pub CurrentKnown : List Transaction → Option ℕ → Type 0
CurrentKnown ts none = Unit
CurrentKnown ts (some id) = Known ts id

-- The ids of the entries rise and are below the counter, and the transactions of the entries are
-- there.
pub record Consistent (j : OperationJournal) : Type 0 where
  pub ids_below : IdsBelow j.last_entry j.entries
  pub ids_rise : Rising j.entries
  pub owned : All (λ e. Known j.transactions e.transaction_id) j.entries
  pub current_known : CurrentKnown j.transactions j.current_transaction

-- a call of the journal
pub data Call : OperationJournal → OperationJournal → Type 0 where
  begins :
      {j : OperationJournal} (now : ℕ) (description : String) (mod_id : Option ℕ)
      → Call j (begin_transaction now j description mod_id).0
  commits : {j : OperationJournal} (now id : ℕ) → Call j (commit_transaction now j id).0
  reverts : {j : OperationJournal} (now id : ℕ) → Call j (mark_transaction_rolled_back now j id)
  records :
      {j : OperationJournal} (now : ℕ) (agent_id : String) (type : OperationType) (path : String)
      (tx : Option ℕ) (snap : Option (ℕ × String)) (checksum : Option String)
      → Call j (begin_operation now j agent_id type path tx snap checksum).0
  updates :
      {j : OperationJournal} (id : ℕ) (status : OperationStatus)
      → Call j (update_status j id status)

CurrentKnown-map :
    (ts ts' : List Transaction) (current : Option ℕ)
    → ((id : ℕ) → Known ts id → Known ts' id)
    → CurrentKnown ts current
    → CurrentKnown ts' current
CurrentKnown-map ts ts' none f h = tt
CurrentKnown-map ts ts' (some id) f h = f id h

CurrentKnown-leave :
    (ts : List Transaction) (current : Option ℕ) (id : ℕ)
    → CurrentKnown ts current
    → CurrentKnown ts (leave_transaction current id)
unfolding leave_transaction
CurrentKnown-leave ts none id h = tt
CurrentKnown-leave ts (some current) id h = elim (Bool-cases (current == id)) [
  | inl p ↦ rw p tt
  | inr p ↦ rw p h
]

commit_transaction-Consistent :
    (now id : ℕ) (j : OperationJournal) → Consistent j → Consistent (commit_transaction now j id).0
unfolding commit_transaction
commit_transaction-Consistent now id j h =
    elim (Bool-cases ((set_committed now id j.transactions).1 == 0)) [
      | inl p ↦ rw (p, commit_transaction) h
      | inr p ↦
          rw (p, commit_transaction)
            (record {
              ids_below = h.ids_below;
              ids_rise = h.ids_rise;
              owned =
                  All-map (λ e. Known-set_committed now id j.transactions e.transaction_id)
                    j.entries h.owned;
              current_known = CurrentKnown-leave _ j.current_transaction id (
                  CurrentKnown-map j.transactions _ j.current_transaction
                    (Known-set_committed now id j.transactions) h.current_known);
            })
    ]

begin_operation-Consistent :
    (now : ℕ) (j : OperationJournal) (agent_id : String) (type : OperationType) (path : String)
    (tx : Option ℕ) (snap : Option (ℕ × String)) (checksum : Option String)
    → Consistent j
    → Consistent (begin_operation now j agent_id type path tx snap checksum).0
unfolding begin_operation
begin_operation-Consistent now j agent_id type path tx snap checksum h =
    elim (Option-cases (chosen_transaction tx j.current_transaction)) [
      | inl p ↦ rw (p, begin_operation) h
      | inr (tx_id, p) ↦ elim (Option-cases (get_transaction j.transactions tx_id)) [
        | inl q ↦ rw (p, begin_operation) (rw (q, begin_operation) h)
        | inr (t, q) ↦
            rw (p, begin_operation)
              (rw (q, begin_operation)
                (record {
                  ids_below =
                      All-append (λ e. e.id ≤ 1 + j.last_entry) j.entries _
                        (All-map (λ e l. omega (arith, l)) j.entries h.ids_below) (omega arith);
                  ids_rise =
                      Rising-append j.entries _ j.last_entry h.ids_below h.ids_rise (omega arith);
                  owned =
                      All-append (λ e. Known j.transactions e.transaction_id) j.entries _ h.owned
                        (λ n. ground (arith, n, q));
                  current_known = h.current_known;
                }))
      ]
    ]

-- Each call of the journal keeps its tables consistent: the entries' ids rise and are below the
-- counter, and the transactions of the entries and the current one are there.
pub Call-Consistent : {j j' : OperationJournal} → Call j j' → Consistent j → Consistent j'
unfolding begin_transaction mark_transaction_rolled_back update_status
Call-Consistent {j} (begins now description mod_id) h = record {
  ids_below = h.ids_below;
  ids_rise = h.ids_rise;
  owned = All-map (λ e. Known-append j.transactions _ e.transaction_id) j.entries h.owned;
  current_known = Known-new j.transactions _;
}
Call-Consistent {j} (commits now id) h = commit_transaction-Consistent now id j h
Call-Consistent {j} (reverts now id) h = record {
  ids_below = h.ids_below;
  ids_rise = h.ids_rise;
  owned =
      All-map (λ e. Known-set_reverted now id j.transactions e.transaction_id) j.entries h.owned;
  current_known =
      CurrentKnown-map j.transactions _ j.current_transaction
        (Known-set_reverted now id j.transactions) h.current_known;
}
Call-Consistent {j} (records now agent_id type path tx snap checksum) h =
    begin_operation-Consistent now j agent_id type path tx snap checksum h
Call-Consistent {j} (updates id status) h = record {
  ids_below = set_status-All (λ i t. i ≤ j.last_entry) id status j.entries h.ids_below;
  ids_rise = set_status-Rising id status j.entries h.ids_rise;
  owned = set_status-All (λ i t. Known j.transactions t) id status j.entries h.owned;
  current_known = h.current_known;
}
