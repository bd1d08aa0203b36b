-- ===== src/SyncEngine/Updates.antt =====
-- The update cycle of `SyncEngine` in sky_claw/antigravity/orchestrator/sync_engine.py, with its
-- rollback manager. An update is in three parts: it begins its transaction, the work talks to the
-- network and the operator, and the end closes the transaction. Other updates run in between. What
-- the network, the operator and the registry answer is the record `World`.
pub mod Closing
pub mod Reports
use sky_claw_gravity.Prelude.{
  Bool, List, Option, String, [], false, if◌then◌else◌, length, none, not, some, suc, true, zero, ℕ,
  ◌++◌, ◌+◌, ◌-◌, ◌==◌, ◌||◌, ◌∷◌, nat_eq, string_eq,
}
use sky_claw_gravity.Result.{Result, err, ok}
use sky_claw_gravity.HitlGuard.{Decision, approved}
use sky_claw_gravity.Journal.{
  JournalError, OperationJournal, commit_transaction, mark_transaction_rolled_back,
}

-- how an awaited call ends: by an answer, an error that `_safe_fetch_info` retries (`ClientError`,
-- `MasterlistFetchError`, of which `CircuitOpenError` is one), the `RetryError` of a call that retries
-- by itself, any other `Exception`, or a cancellation
pub data CallEnd {ℓ} (A : Type ℓ) : Type ℓ where
  answered : A → CallEnd A
  fetch_error retry_error other_error cancelled_call : CallEnd A

-- `fetch_mod_info` answers by attempt, with the version of the metadata if there is any; there is no
-- approval if the engine has no guard
pub record World : Type 0 where
  pub fetch_mod_info : ℕ → CallEnd (Option String)
  pub has_downloader : Bool
  pub get_file_info : CallEnd (Unit {0})
  pub request_approval : Option (CallEnd Decision)
  pub download : CallEnd (Unit {0})
  pub upsert_mod : CallEnd (Unit {0})
  pub log_tasks_batch : CallEnd (Unit {0})

-- `stop_after_attempt(5)`
abbrev pub max_attempts : ℕ
max_attempts = 5

-- `_safe_fetch_info` with some attempts left: its answer, and the attempts that it has made
unfoldable pub fetch_from : ℕ → ℕ → (ℕ → CallEnd (Option String)) → CallEnd (Option String) × ℕ
fetch_from zero attempt fetch = (fetch attempt, attempt + 1)
fetch_from (suc left) attempt fetch = elim (fetch attempt) [
  | fetch_error ↦ fetch_from left (attempt + 1) fetch
  | answered info ↦ (answered info, attempt + 1)
  | retry_error ↦ (retry_error, attempt + 1)
  | other_error ↦ (other_error, attempt + 1)
  | cancelled_call ↦ (cancelled_call, attempt + 1)
]

unfoldable pub safe_fetch_info : (ℕ → CallEnd (Option String)) → CallEnd (Option String)
unfolding fetch_from
safe_fetch_info fetch = (fetch_from (max_attempts - 1) 0 fetch).0

-- the result of an update, without the texts of its errors
pub data Update : Type 0 where
  no_metadata up_to_date no_downloader aborted updated network_failure : Update

-- how the work ends: it commits or reverts its transaction and has a result, or it raises
pub data WorkEnd : Type 0 where
  commits : Update → WorkEnd
  reverts : Update → WorkEnd
  fails_network fails_other is_cancelled : WorkEnd

-- an awaited call, and the work after it
unfoldable pub awaited {ℓ} : {A : Type ℓ} → CallEnd A → (A → WorkEnd) → WorkEnd
awaited (answered a) next = next a
awaited fetch_error next = fails_network
awaited retry_error next = fails_network
awaited other_error next = fails_other
awaited cancelled_call next = is_cancelled

unfoldable pub is_approved : Decision → Bool
is_approved approved = true
is_approved _ = false

-- the operator's decision, if there is a guard, and the work after an approval
unfoldable pub if_approved : Option (CallEnd Decision) → WorkEnd → WorkEnd
unfolding awaited is_approved
if_approved none next = next
if_approved (some call) next =
    awaited call (λ decision. if is_approved decision then next else reverts aborted)

-- the download and the registry
unfoldable pub install : World → WorkEnd
unfolding awaited
install w =
    awaited w.download
      (λ _. awaited w.upsert_mod (λ _. awaited w.log_tasks_batch (λ _. commits updated)))

-- the work, from the version of the metadata
unfoldable pub update_from : World → String → Option String → WorkEnd
unfolding awaited if_approved install
update_from w local_version none = commits no_metadata
update_from w local_version (some version) =
    if version == "" || version == local_version
    then commits up_to_date
    else if not w.has_downloader
    then commits no_downloader
    else awaited w.get_file_info (λ _. if_approved w.request_approval (install w))

unfoldable pub update_work : World → String → WorkEnd
unfolding awaited safe_fetch_info update_from
update_work w local_version =
    awaited (safe_fetch_info w.fetch_mod_info) (update_from w local_version)

-- how `_check_and_update_mod` ends
pub data Outcome : Type 0 where
  result : Update → Outcome
  raises cancels : Outcome

-- `mark_transaction_rolled_back`; the flag says that it fails
unfoldable pub mark : ℕ → OperationJournal → ℕ → Bool → OperationJournal
mark now j tx_id fails = if fails then j else mark_transaction_rolled_back now j tx_id

-- what follows the commit: if it raises, the exception goes to the second `except` clause
unfoldable pub close_commit :
    ℕ
    → ℕ
    → Bool
    → Update
    → OperationJournal × Result JournalError (Unit {0})
    → OperationJournal × Outcome
unfolding mark
close_commit now tx_id fails u (j, ok _) = (j, result u)
close_commit now tx_id fails u (j, err e) = (mark now j tx_id fails, raises)

-- the end of `_check_and_update_mod`
unfoldable pub close_update : ℕ → OperationJournal → ℕ → Bool → WorkEnd → OperationJournal × Outcome
unfolding close_commit mark
close_update now j tx_id fails (commits u) =
    close_commit now tx_id fails u (commit_transaction now j tx_id)
close_update now j tx_id fails (reverts u) =
    (mark now j tx_id fails, if fails then raises else result u)
close_update now j tx_id fails fails_network = (mark now j tx_id fails, result network_failure)
close_update now j tx_id fails fails_other = (mark now j tx_id fails, raises)
close_update now j tx_id fails is_cancelled = (j, cancels)

-- the entry of a mod in the results: what its worker has stored, or the exception that it isolated
pub record Checked : Type 0 where
  pub name : String
  pub answer : Option Update

-- `UpdatePayload`, by the names of the mods
pub record UpdatePayload : Type 0 where
  pub total_checked : ℕ
  pub updated_mods : List String
  pub failed_mods : List String
  pub up_to_date_mods : List String

-- the loop over the results
unfoldable pub add_result : UpdatePayload → Checked → UpdatePayload
add_result p r = elim r.answer [
  | none ↦ record p { failed_mods = p.failed_mods ++ r.name ∷ [] }
  | some updated ↦ record p { updated_mods = p.updated_mods ++ r.name ∷ [] }
  | some up_to_date ↦ record p { up_to_date_mods = p.up_to_date_mods ++ r.name ∷ [] }
  | some _ ↦ record p { failed_mods = p.failed_mods ++ r.name ∷ [] }
]

unfoldable pub add_results : UpdatePayload → List Checked → UpdatePayload
unfolding add_result
add_results p [] = p
add_results p (r ∷ rs) = add_results (add_result p r) rs

-- `check_for_updates` from the results of its workers
unfoldable pub report : List Checked → UpdatePayload
unfolding add_results
report rs =
    add_results
      (record {
        total_checked = length rs;
        updated_mods = [];
        failed_mods = [];
        up_to_date_mods = [];
      })
      rs
