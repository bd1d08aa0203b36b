-- ===== src/Tests/Queue.antt =====
-- The dead letter queue.
use sky_claw_gravity.Prelude.{List, [], refl, ℕ, ◌∷◌, ◌≡◌}
use sky_claw_gravity.Dlq.{Config, DlqRow, Failure, failed, pending, process_row}
use sky_claw_gravity.Dlq.Attempts.{After, find, process_row_outcome}

abbrev retries : Config
retries = record { max_attempts = 5; base_backoff_s = 2; batch_size = 10 }

abbrev failed_event : DlqRow
failed_event = record {
  id = 7;
  topic = "mods.sync";
  payload_json = "{}";
  source = "system";
  event_ts_ms = 1;
  handler_name = "on_sync";
  error_type = "ValueError";
  error_message = "no";
  attempts = 3;
  next_retry_at = 100;
  status = pending;
  enqueued_at = 1;
  updated_at = 1;
}

abbrev queue : List DlqRow
queue = record failed_event { id = 6 } ∷ failed_event ∷ []

abbrev timeout_failure : Failure
timeout_failure = record { error_type = "TimeoutError"; error_message = "late" }

process_row_outcome_example :
    After retries 105 failed_event failed_event
      (failed timeout_failure)
      (find (process_row retries 100 105 failed_event (failed timeout_failure) queue) 7)
    × ((j : ℕ)
        → ¬ (j ≡ 7)
        → find (process_row retries 100 105 failed_event (failed timeout_failure) queue) j
          ≡ find queue j)
unfolding find
process_row_outcome_example =
    process_row_outcome retries 100 105 failed_event failed_event (failed timeout_failure) queue
      refl refl
