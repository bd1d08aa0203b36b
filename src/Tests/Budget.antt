-- ===== src/Tests/Budget.antt =====
-- The token budget.
use sky_claw_gravity.Prelude.{List, [], some, true, ◌∷◌}
use sky_claw_gravity.TokenBudget.{Config, Message, Session, other_part, parts, text, text_part}

abbrev budget : Config
budget = record {
  max_context_tokens = 10;
  warning_threshold_pct = 70;
  critical_threshold_pct = 90;
  messages_to_preserve = 1;
  enable_auto_summarization = true;
}

abbrev session : Session
session = record { total_tokens_consumed = 0; peak_context_tokens = 3; summarization_count = 0 }

abbrev dialogue : List Message
dialogue =
    record { role = some "user"; content = text "sort my load order" }
    ∷ record { role = some "system"; content = text "be brief" }
    ∷ record { role = some "assistant"; content = parts (text_part "done" ∷ other_part ∷ []) }
    ∷ []

abbrev keeps_none : Config
keeps_none = record budget { messages_to_preserve = 0 }
