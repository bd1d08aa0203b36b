-- ===== src/Dlq.antt =====
-- `DLQManager` of sky_claw/antigravity/core/dlq_manager.py: the queue of failed events, the table
-- `dead_letter_events` with its rows by rising id. Each SQL statement is one atomic step. The clock
-- is an argument, in milliseconds. A row keeps its payload as the JSON text that is stored.
pub mod Claims
pub mod Attempts
use sky_claw_gravity.Prelude.{
  Bool, List, String, [], false, if◌then◌else◌, keep, leb, ltb, not, take, true, ℕ, ◌&&◌, ◌*◌, ◌++◌,
  ◌+◌, ◌==◌, ◌^◌, ◌||◌, ◌∷◌, nat_eq, string_eq,
}

pub data Status : Type 0 where
  pending in_progress dead : Status

pub record DlqRow : Type 0 where
  pub id : ℕ
  pub topic : String
  pub payload_json : String
  pub source : String
  pub event_ts_ms : ℕ
  pub handler_name : String
  pub error_type : String
  pub error_message : String
  pub attempts : ℕ
  pub next_retry_at : ℕ
  pub status : Status
  pub enqueued_at : ℕ
  pub updated_at : ℕ

-- the rows, and the last id that AUTOINCREMENT gave
pub record Table : Type 0 where
  pub rows : List DlqRow
  pub last_id : ℕ

pub record Config : Type 0 where
  pub max_attempts : ℕ
  pub base_backoff_s : ℕ
  pub batch_size : ℕ

-- an `Event`, with its payload as JSON text
pub record Event : Type 0 where
  pub topic : String
  pub payload_json : String
  pub timestamp_ms : ℕ
  pub source : String

-- `type(exc).__name__` and `str(exc)`
pub record Failure : Type 0 where
  pub error_type : String
  pub error_message : String

abbrev pub is_pending : Status → Bool
is_pending pending = true
is_pending _ = false

abbrev pub is_in_progress : Status → Bool
is_in_progress in_progress = true
is_in_progress _ = false

abbrev pub is_dead : Status → Bool
is_dead dead = true
is_dead _ = false

unfoldable pub compute_next_retry_at : ℕ → ℕ → ℕ → ℕ
compute_next_retry_at now_ms attempt base = now_ms + base ^ attempt * 1000

unfoldable pub enqueue : Config → ℕ → Table → Event → String → Failure → Table
unfolding compute_next_retry_at
enqueue c now t event handler_name failure = record {
  rows =
      t.rows
      ++ (record {
        id = t.last_id + 1;
        topic = event.topic;
        payload_json = event.payload_json;
        source = event.source;
        event_ts_ms = event.timestamp_ms;
        handler_name = handler_name;
        error_type = failure.error_type;
        error_message = failure.error_message;
        attempts = 0;
        next_retry_at = compute_next_retry_at now 1 c.base_backoff_s;
        status = pending;
        enqueued_at = now;
        updated_at = now;
      })
        ∷ [];
  last_id = t.last_id + 1;
}

-- `_select_by_status`, whose two uses are `list_pending` and `list_dead`
unfoldable pub list_pending : Table → List DlqRow
list_pending t = keep (λ r. is_pending r.status) t.rows

unfoldable pub list_dead : Table → List DlqRow
list_dead t = keep (λ r. is_dead r.status) t.rows

-- an UPDATE of the rows that a test takes
unfoldable pub update_where : (DlqRow → Bool) → (DlqRow → DlqRow) → List DlqRow → List DlqRow
update_where test f [] = []
update_where test f (r ∷ rs) =
    let rest = update_where test f rs in if test r then f r ∷ rest else r ∷ rest

-- `_recover_stale_rows`
unfoldable pub recover_stale_rows : ℕ → List DlqRow → List DlqRow
unfolding update_where
recover_stale_rows now =
    update_where (λ r. is_in_progress r.status && ltb (r.updated_at + 60000) now)
      (λ r. record r { status = pending; updated_at = now })

-- the claim at the head of `_process_row`, with its row count as a `Bool`
abbrev pub claimable : ℕ → DlqRow → Bool
claimable id r = r.id == id && is_pending r.status

abbrev pub some_row : (DlqRow → Bool) → List DlqRow → Bool
some_row test [] = false
some_row test (r ∷ rs) = test r || some_row test rs

unfoldable pub claim : ℕ → ℕ → List DlqRow → List DlqRow × Bool
unfolding update_where
claim now id rows = (
  update_where (claimable id) (λ r. record r { status = in_progress; updated_at = now }) rows,
  some_row (claimable id) rows,
)

-- `_mark_dead`
unfoldable pub mark_dead : ℕ → DlqRow → String → ℕ → List DlqRow → List DlqRow
unfolding update_where
mark_dead now row reason attempts =
    update_where (λ r. r.id == row.id)
      (λ r. record r {
        status = dead;
        error_message = reason;
        updated_at = now;
        attempts = attempts;
      })

-- how the claimed row ends: its handler is not registered, returns, raises an `Exception`, or the
-- worker is cancelled while it waits
pub data Handling : Type 0 where
  unregistered : Handling
  succeeded : Handling
  failed : Failure → Handling
  interrupted : Handling

-- `_process_row` after the claim
unfoldable pub finish_row : Config → ℕ → DlqRow → Handling → List DlqRow → List DlqRow
unfolding mark_dead compute_next_retry_at update_where
finish_row c now row unregistered rows =
    update_where (λ r. r.id == row.id)
      (λ r. record r { status = pending; next_retry_at = now + 60000; updated_at = now }) rows
finish_row c now row succeeded rows = keep (λ r. not (r.id == row.id)) rows
finish_row c now row (failed e) rows =
    let new_attempts = row.attempts + 1 in
    if leb c.max_attempts new_attempts
    then mark_dead now row e.error_message new_attempts rows
    else update_where (λ r. r.id == row.id)
        (λ r. record r {
          status = pending;
          attempts = new_attempts;
          next_retry_at = compute_next_retry_at now new_attempts c.base_backoff_s;
          error_type = e.error_type;
          error_message = e.error_message;
          updated_at = now;
        })
        rows
finish_row c now row interrupted rows = rows

-- `_process_row`; the clock is read at the claim and again at the end
unfoldable pub process_row : Config → ℕ → ℕ → DlqRow → Handling → List DlqRow → List DlqRow
unfolding claim finish_row
process_row c now later row handling rows =
    let (rows', claimed) = claim now row.id rows in
    if claimed then finish_row c later row handling rows' else rows'

-- `ORDER BY next_retry_at ASC`; rows with one time stay by id
unfoldable pub insert_due : DlqRow → List DlqRow → List DlqRow
insert_due r [] = r ∷ []
insert_due r (s ∷ ss) =
    let rest = insert_due r ss in
    if leb r.next_retry_at s.next_retry_at then r ∷ s ∷ ss else s ∷ rest

unfoldable pub sort_due : List DlqRow → List DlqRow
unfolding insert_due
sort_due [] = []
sort_due (r ∷ rs) = insert_due r (sort_due rs)

abbrev pub is_due : ℕ → DlqRow → Bool
is_due now r = is_pending r.status && leb r.next_retry_at now

unfoldable pub fetch_due_batch : ℕ → ℕ → List DlqRow → List DlqRow
unfolding sort_due
fetch_due_batch now limit rows = take limit (sort_due (keep (is_due now) rows))

-- the rows of one batch in turn, each with its clock readings and its handling
unfoldable pub process_all :
    Config → List DlqRow → List (ℕ × ℕ × Handling) → List DlqRow → List DlqRow
unfolding process_row
process_all c (row ∷ batch) ((now, later, handling) ∷ es) rows =
    process_all c batch es (process_row c now later row handling rows)
process_all c _ _ rows = rows

-- one turn of `_retry_loop`
unfoldable pub retry_turn : Config → ℕ → List (ℕ × ℕ × Handling) → List DlqRow → List DlqRow
unfolding fetch_due_batch process_all
retry_turn c now es rows = process_all c (fetch_due_batch now c.batch_size rows) es rows
