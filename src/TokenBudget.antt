-- ===== src/TokenBudget.antt =====
-- sky_claw/antigravity/agent/token_budget.py: how a conversation is kept within the context window.
-- A threshold is a whole number of hundredths, and the quotient `utilization` is compared exactly,
-- where Python compares floats; the field `utilization_pct`, which only repeats the two token
-- counts, is left out. Counts in the configuration are not negative.
pub mod Text
pub mod Verdict
pub mod Window
use sky_claw_gravity.Prelude.{
  Bool, List, Option, String, [], drop, false, if◌then◌else◌, keep, leb, length, ltb, max, none,
  not, some, take, ℕ, ◌*◌, ◌++◌, ◌+◌, ◌-◌, ◌/◌, ◌==◌, ◌∷◌, nat_eq, string_eq,
}
use sky_claw_gravity.TokenBudget.Text.{chars, concat, join, prefix}

pub record Config : Type 0 where
  pub max_context_tokens : ℕ
  pub warning_threshold_pct : ℕ
  pub critical_threshold_pct : ℕ
  pub messages_to_preserve : ℕ
  pub enable_auto_summarization : Bool

-- a part of a content list: a dict whose `text` is a `str`, or anything else
pub data Part : Type 0 where
  text_part : String → Part
  other_part : Part

-- `msg.get("content", "")`
pub data Content : Type 0 where
  text : String → Content
  parts : List Part → Content
  other : Content

pub record Message : Type 0 where
  pub role : Option String
  pub content : Content

pub data Action : Type 0 where
  allow summarize truncate reject : Action

pub record BudgetVerdict : Type 0 where
  pub action : Action
  pub current_tokens : ℕ
  pub max_tokens : ℕ
  pub messages_affected : ℕ

-- the mutable fields of `TokenBudgetManager`
pub record Session : Type 0 where
  pub total_tokens_consumed : ℕ
  pub peak_context_tokens : ℕ
  pub summarization_count : ℕ

unfoldable pub estimate_tokens : String → ℕ
estimate_tokens t = if chars t == 0 then 0 else max 1 (chars t / 4)

unfoldable pub part_tokens : List Part → ℕ
unfolding estimate_tokens
part_tokens [] = 0
part_tokens (text_part t ∷ ps) = estimate_tokens t + part_tokens ps
part_tokens (other_part ∷ ps) = part_tokens ps

unfoldable pub content_tokens : Content → ℕ
unfolding part_tokens
content_tokens (text t) = estimate_tokens t
content_tokens (parts ps) = part_tokens ps
content_tokens other = 0

-- `_estimate_messages_tokens`
unfoldable pub messages_tokens : List Message → ℕ
unfolding content_tokens
messages_tokens [] = 0
messages_tokens (m ∷ ms) = content_tokens m.content + messages_tokens ms

-- `utilization >= pct`, where `utilization` is `current / max_tokens`, or 1.0 without a window
unfoldable pub reaches : ℕ → ℕ → ℕ → Bool
reaches current max_tokens pct =
    if ltb 0 max_tokens then leb (pct * max_tokens) (100 * current) else leb pct 100

-- the branches of `check_budget`
unfoldable pub decide_action : Config → ℕ → Action
unfolding reaches
decide_action c current =
    if reaches current c.max_context_tokens 100
    then reject
    else if reaches current c.max_context_tokens c.critical_threshold_pct
    then truncate
    else if reaches current c.max_context_tokens c.warning_threshold_pct
    then summarize
    else allow

unfoldable pub affected : Config → Action → ℕ → ℕ
affected c reject n = n
affected c truncate n = n - c.messages_to_preserve - 1
affected c summarize n = n - c.messages_to_preserve - 1
affected c allow n = 0

unfoldable pub check_budget : Config → Session → List Message → Session × BudgetVerdict
unfolding decide_action affected
check_budget c s messages =
    let current = messages_tokens messages in
    let action' = decide_action c current in
    (
      record s {
        peak_context_tokens =
            if ltb s.peak_context_tokens current then current else s.peak_context_tokens;
      },
      record {
        action = action';
        current_tokens = current;
        max_tokens = c.max_context_tokens;
        messages_affected = affected c action' (length messages);
      },
    )

-- `msg.get("role") == "system"`
unfoldable pub is_system : Message → Bool
is_system m = elim m.role [ none ↦ false | some r ↦ r == "system" ]

-- `xs[-n:]` and `xs[:-n]`; in Python `-0` is 0
unfoldable pub last_n : {A : Type 0} → ℕ → List A → List A
last_n n xs = if n == 0 then xs else drop (length xs - n) xs

unfoldable pub all_but_last : {A : Type 0} → ℕ → List A → List A
all_but_last n xs = if n == 0 then [] else take (length xs - n) xs

abbrev pub system_messages : List Message → List Message
system_messages = keep is_system

abbrev pub conversation : List Message → List Message
conversation = keep (λ m. not (is_system m))

unfoldable pub preview_body : Content → String
preview_body (text t) = if ltb 200 (chars t) then concat (prefix 200 t) "..." else t
preview_body _ = "[multi-part content]"

unfoldable pub role_name : Option String → String
role_name none = "unknown"
role_name (some r) = r

-- one entry of `summary_parts`
unfoldable pub preview : Message → String
unfolding preview_body role_name
preview m = concat "[" (concat (role_name m.role) (concat "]: " (preview_body m.content)))

unfoldable pub previews : List Message → List String
unfolding preview
previews [] = []
previews (m ∷ ms) = preview m ∷ previews ms

-- the text of the summary message
unfoldable pub summary_text : Config → List Message → String
unfolding previews
summary_text c older =
    let whole = concat "CONTEXT SUMMARY (auto-generated):\n" (join "\n" (previews older)) in
    let max_summary_chars = c.max_context_tokens * 60 / 100 in
    if ltb max_summary_chars (chars whole)
    then concat (prefix max_summary_chars whole) "\n... [summary truncated]"
    else whole

unfoldable pub summary_message : Config → List Message → Message
summary_message c older = record { role = some "system"; content = text (summary_text c older) }

-- `summarize_older_messages`
unfoldable pub summarize_older : Config → Session → List Message → Session × List Message
unfolding last_n all_but_last summary_message
summarize_older c s messages =
    let n = c.messages_to_preserve in
    let conv = conversation messages in
    if not c.enable_auto_summarization
    then (s, messages)
    else if leb (length messages) (n + 1)
    then (s, messages)
    else if leb (length conv) n
    then (s, messages)
    else (
      record s { summarization_count = s.summarization_count + 1 },
      system_messages messages ++ summary_message c (all_but_last n conv) ∷ last_n n conv,
    )

-- `truncate_older_messages`
unfoldable pub truncate_older : Config → List Message → List Message
unfolding last_n
truncate_older c messages =
    let n = c.messages_to_preserve in
    let conv = conversation messages in
    system_messages messages ++ (if ltb n (length conv) then last_n n conv else conv)

unfoldable pub record_usage : Session → ℕ → Session
record_usage s used = record s { total_tokens_consumed = s.total_tokens_consumed + used }
