-- ===== src/HitlGuard.antt =====
-- `HITLGuard` of sky_claw/antigravity/security/hitl.py. `request_approval` comes in two parts around
-- its wait for the operator; no lock of the code is held over a wait, so that each part, and each
-- answer, is one step. Host names and the match of `fnmatch` are arguments.
pub mod Answers
use sky_claw_gravity.Prelude.{
  Bool, List, Option, String, [], false, if◌then◌else◌, none, some, true, ◌||◌, ◌∷◌, nat_eq,
  string_eq,
}
use sky_claw_gravity.Dict

pub data Decision : Type 0 where
  approved denied timeout : Decision

-- `HITLRequest`; `answered` says that its event is set
pub record HitlRequest : Type 0 where
  pub reason : String
  pub url : Option String
  pub detail : String
  pub answered : Bool
  pub decision : Decision

-- `_pending`
abbrev pub Pending : Type 0
Pending = Dict.Dict String HitlRequest

-- `requires_approval`, for a host name in lower case
unfoldable pub requires_approval : (String → String → Bool) → List String → String → Bool
requires_approval matches [] hostname = false
requires_approval matches (pattern ∷ hosts) hostname =
    matches hostname pattern || requires_approval matches hosts hostname

-- a new `HITLRequest`
abbrev pub new_request : String → Option String → String → HitlRequest
new_request reason url detail = record {
  reason = reason;
  url = url;
  detail = detail;
  answered = false;
  decision = timeout;
}

-- `request_approval` up to the notification: a decision if the id is taken
unfoldable pub open_request : Pending → String → HitlRequest → Pending × Option Decision
open_request pending request_id req = elim (Dict.get pending request_id) [
  | some _ ↦ (pending, some denied)
  | none ↦ (Dict.put pending request_id req, none)
]

-- `request_approval` where the notification fails
unfoldable pub fail_notification : Pending → String → Pending × Decision
fail_notification pending request_id = (Dict.remove pending request_id, timeout)

-- how the wait of a request ends
pub data Waited : Type 0 where
  woken timed_out cancelled : Waited

-- the decision of a request by the end of its wait; a cancellation has none
unfoldable pub decide : HitlRequest → Waited → Option Decision
decide req woken = some req.decision
decide req timed_out = some denied
decide req cancelled = none

-- `request_approval` from the end of its wait
unfoldable pub close_request : Pending → String → Waited → Pending × Option Decision
unfolding decide
close_request pending request_id waited = elim (Dict.get pending request_id) [
  | none ↦ (pending, none)
  | some req ↦ (Dict.remove pending request_id, decide req waited)
]

-- `respond`
unfoldable pub respond : Pending → String → Bool → Pending × Bool
respond pending request_id is_approved = elim (Dict.get pending request_id) [
  | none ↦ (pending, false)
  | some req ↦ (
    Dict.put pending request_id
        (record req { decision = if is_approved then approved else denied; answered = true }),
    true,
  )
]
