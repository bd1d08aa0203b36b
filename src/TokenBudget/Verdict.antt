-- ===== src/TokenBudget/Verdict.antt =====
-- What `check_budget` decides.
use sky_claw_gravity.Prelude.{List, arith, length, max, ℕ, ◌*◌, ◌<◌, ◌↔◌, ◌≡◌, ◌≤◌}
use sky_claw_gravity.TokenBudget.{
  Config, Message, Session, allow, check_budget, decide_action, messages_tokens, reject, summarize,
  truncate,
}

mul_mono : (a b m : ℕ) → a ≤ b → a * m ≤ b * m
mul_mono a b m h = grind arith

bands :
    (c : Config) (n : ℕ)
    → c.warning_threshold_pct ≤ c.critical_threshold_pct
    → c.critical_threshold_pct ≤ 100
    → 0 < c.max_context_tokens
    → let used = 100 * n in
      let m = c.max_context_tokens in
      ((decide_action c n ≡ reject) ↔ (100 * m ≤ used))
      × ((decide_action c n ≡ truncate)
          ↔ ((c.critical_threshold_pct * m ≤ used) × (used < 100 * m)))
      × ((decide_action c n ≡ summarize)
          ↔ ((c.warning_threshold_pct * m ≤ used) × (used < c.critical_threshold_pct * m)))
      × ((decide_action c n ≡ allow) ↔ (used < c.warning_threshold_pct * m))
unfolding decide_action
bands c n h k pos =
    let low = mul_mono c.warning_threshold_pct c.critical_threshold_pct c.max_context_tokens h in
    let high = mul_mono c.critical_threshold_pct 100 c.max_context_tokens k in
    (ground arith, ground arith, ground arith, ground arith)

-- With thresholds warning ≤ critical ≤ 100 and a window, the verdict is: reject from 100 hundredths
-- of the window on, truncate from the critical threshold up to there, summarize from the warning
-- threshold up to the critical one, and allow below. The peak becomes the larger of the old peak
-- and the tokens of these messages.
check_budget_bands :
    (c : Config) (s : Session) (messages : List Message)
    → c.warning_threshold_pct ≤ c.critical_threshold_pct
    → c.critical_threshold_pct ≤ 100
    → 0 < c.max_context_tokens
    → let (s', v) = check_budget c s messages in
      let used = 100 * messages_tokens messages in
      let m = c.max_context_tokens in
      ((v.action ≡ reject) ↔ (100 * m ≤ used))
      × ((v.action ≡ truncate) ↔ ((c.critical_threshold_pct * m ≤ used) × (used < 100 * m)))
      × ((v.action ≡ summarize)
          ↔ ((c.warning_threshold_pct * m ≤ used) × (used < c.critical_threshold_pct * m)))
      × ((v.action ≡ allow) ↔ (used < c.warning_threshold_pct * m))
      × (s'.peak_context_tokens ≡ max s.peak_context_tokens (messages_tokens messages))
unfolding check_budget
check_budget_bands c s messages h k pos =
    let b = bands c (messages_tokens messages) h k pos in (b.0, b.1, b.2, b.3, ground arith)

-- Without a window, nothing fits: the verdict is reject, and all the messages are affected.
pub check_budget_no_window :
    (c : Config) (s : Session) (messages : List Message)
    → c.max_context_tokens ≡ 0
    → ((check_budget c s messages).1.action ≡ reject)
      × ((check_budget c s messages).1.messages_affected ≡ length messages)
unfolding check_budget
check_budget_no_window c s messages e = (ground arith, ground arith)
