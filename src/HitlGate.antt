-- ===== src/HitlGate.antt =====
-- `HitlGateMiddleware` of sky_claw/antigravity/orchestrator/tool_strategies/middleware.py. A gated
-- call runs in two parts, before and after the wait for the operator; other calls and the
-- operator's decisions come between.
pub mod Approval
use sky_claw_gravity.Prelude.{
  Bool, List, Option, String, [], false, get_or, if◌then◌else◌, none, some, true, ◌==◌, ◌||◌, ◌∷◌,
  nat_eq, string_eq,
}
use sky_claw_gravity.Dict
use sky_claw_gravity.Dict.{Dict}

-- `DESTRUCTIVE_TOOL_PATTERNS`
abbrev pub destructive_tool_patterns : List String
destructive_tool_patterns =
    "execute_loot_sorting" ∷ "generate_bashed_patch" ∷ "generate_lods" ∷ "resolve_conflict_patch"
    ∷ []

-- `notifies` says that a `notify_fn` is there; an `asyncio.Event` is the flag that it holds
pub record Gate : Type 0 where
  pub notifies : Bool
  pub destructive_tools : List String
  pub pending : Dict String Bool
  pub decisions : Dict String Bool

-- `__init__`
abbrev pub new_gate : Bool → Option (List String) → Gate
new_gate notifies tools = record {
  notifies = notifies;
  destructive_tools = elim tools [
    | none ↦ destructive_tool_patterns
    | some ts ↦ elim ts [ [] ↦ destructive_tool_patterns | t ∷ us ↦ t ∷ us ]
  ];
  pending = [];
  decisions = [];
}

unfoldable pub is_destructive : List String → String → Bool
is_destructive [] name = false
is_destructive (t ∷ ts) name = t == name || is_destructive ts name

-- what the first part of `__call__` ends in: the next call, the wait, or what `notify_fn` raised
pub data Opened : Type 0 where
  proceeds waits notify_raised : Opened

-- `__call__` up to the wait, with the request's id and whether `notify_fn` returns
unfoldable pub open_gate : Gate → String → String → Bool → Gate × Opened
unfolding is_destructive
open_gate g name request_id notified =
    if is_destructive g.destructive_tools name
    then (if g.notifies
        then (
          record g { pending = Dict.put g.pending request_id false },
          if notified then waits else notify_raised,
        )
        else (g, proceeds))
    else (g, proceeds)

-- how `asyncio.wait_for` ends
pub data Waited : Type 0 where
  event_set timed_out interrupted : Waited

pub data Verdict : Type 0 where
  next_called approval_timeout approval_denied cancelled : Verdict

-- `__call__` from the wait on
unfoldable pub close_gate : Gate → String → Waited → Gate × Verdict
close_gate g request_id event_set = (
  record g {
    pending = Dict.remove g.pending request_id;
    decisions = Dict.remove g.decisions request_id;
  },
  if get_or (Dict.get g.decisions request_id) false then next_called else approval_denied,
)
close_gate g request_id timed_out =
    (record g { pending = Dict.remove g.pending request_id }, approval_timeout)
close_gate g request_id interrupted =
    (record g { pending = Dict.remove g.pending request_id }, cancelled)

-- `event.set()`, if there is an event
unfoldable pub set_event : Dict String Bool → String → Dict String Bool
set_event d request_id = elim (Dict.get d request_id) [
  | none ↦ d
  | some _ ↦ Dict.put d request_id true
]

-- `resolve`
unfoldable pub resolve : Gate → String → Bool → Gate
unfolding set_event
resolve g request_id approved = record g {
  pending = set_event g.pending request_id;
  decisions = Dict.put g.decisions request_id approved;
}
