-- ===== src/HitlGate/Approval.antt =====
-- When `HitlGateMiddleware` lets a destructive tool run.
use sky_claw_gravity.Prelude.{
  Bool, List, Option, String, [], arith, false, get_or, if◌then◌else◌, none, refl, some, string_eq,
  true, ◌==◌, ◌∙◌, ◌∷◌, ◌≡◌, ◌≢◌, nat_eq,
}
use sky_claw_gravity.Dict
use sky_claw_gravity.Dict.{get-put, get-remove}
use sky_claw_gravity.HitlGate.{
  Gate, Waited, approval_denied, close_gate, event_set, interrupted, is_destructive, next_called,
  open_gate, resolve, set_event, timed_out, waits,
}

-- what the gate does while a call waits
pub data GateStep : Type 0 where
  opens : String → String → Bool → GateStep
  closes : String → Waited → GateStep
  resolves : String → Bool → GateStep

abbrev gate_step : Gate → GateStep → Gate
gate_step g (opens name i notified) = (open_gate g name i notified).0
gate_step g (closes i waited) = (close_gate g i waited).0
gate_step g (resolves i approved) = resolve g i approved

unfoldable pub run_gate : Gate → List GateStep → Gate
run_gate g [] = g
run_gate g (s ∷ ss) = run_gate (gate_step g s) ss

-- the step is not another call's with the same id, which `uuid4` rules out
abbrev pub Fresh : String → GateStep → Type 0
Fresh id (opens _ i _) = i ≢ id
Fresh id (closes i _) = i ≢ id
Fresh id (resolves _ _) = Unit

abbrev pub AllFresh : String → List GateStep → Type 0
AllFresh id [] = Unit
AllFresh id (s ∷ ss) = Fresh id s × AllFresh id ss

-- the operator's last decision on the request
abbrev decided : String → Option Bool → GateStep → Option Bool
decided id d (opens _ _ _) = d
decided id d (closes _ _) = d
decided id d (resolves i approved) = if i == id then some approved else d

unfoldable pub last_decision : String → Option Bool → List GateStep → Option Bool
last_decision id d [] = d
last_decision id d (s ∷ ss) = last_decision id (decided id d s) ss

abbrev pub is_some : Option Bool → Bool
is_some none = false
is_some (some _) = true

-- what the gate knows of a request while its call waits
abbrev Waiting : String → Option Bool → Gate → Type 0
Waiting id d g = (Dict.get g.pending id ≡ some (is_some d)) × (Dict.get g.decisions id ≡ d)

step-Waiting :
    (g : Gate) (id : String) (d : Option Bool) (s : GateStep)
    → Fresh id s
    → Waiting id d g
    → Waiting id (decided id d s) (gate_step g s)
unfolding open_gate close_gate resolve set_event
step-Waiting g id d (opens name i notified) n w =
    ground (arith, get-put g.pending i id false, n, w, string_eq.beq_iff i id)
step-Waiting g id d (closes i event_set) n w =
    ground
      (arith, get-remove g.pending i id, get-remove g.decisions i id, n, w, string_eq.beq_iff i id)
step-Waiting g id d (closes i timed_out) n w =
    ground (arith, get-remove g.pending i id, n, w, string_eq.beq_iff i id)
step-Waiting g id d (closes i interrupted) n w =
    ground (arith, get-remove g.pending i id, n, w, string_eq.beq_iff i id)
step-Waiting g id d (resolves i approved) n w = ground (
  arith,
  get-put g.pending i id true,
  get-put g.decisions i id approved,
  w,
  string_eq.beq_iff i id,
)

run-Waiting :
    (g : Gate) (id : String) (d : Option Bool) (ss : List GateStep)
    → AllFresh id ss
    → Waiting id d g
    → Waiting id (last_decision id d ss) (run_gate g ss)
unfolding run_gate last_decision
run-Waiting g id d [] f w = w
run-Waiting g id d (s ∷ ss) f w =
    run-Waiting (gate_step g s) id (decided id d s) ss f.1 (step-Waiting g id d s f.0 w)

open_gate-waits :
    (g : Gate) (name id : String)
    → is_destructive g.destructive_tools name ≡ true
    → g.notifies ≡ true
    → open_gate g name id true ≡ (record g { pending = Dict.put g.pending id false }, waits)
unfolding open_gate
open_gate-waits g name id e n = ground (arith, e, n)

-- Of a destructive tool's call with a `notify_fn` that returns, and with an id that has no
-- decision and that no other call uses, whatever other calls and decisions come while it waits:
-- its event is set exactly when the operator has decided on its request, and when it wakes by
-- the event the tool runs if the last decision approves and is denied otherwise. When its wait
-- times out or is cancelled the tool does not run.
pub gate_decides :
    (g : Gate) (name id : String) (ss : List GateStep)
    → is_destructive g.destructive_tools name ≡ true
    → g.notifies ≡ true
    → Dict.get g.decisions id ≡ none
    → AllFresh id ss
    → let g' = run_gate (open_gate g name id true).0 ss in
      ((open_gate g name id true).1 ≡ waits)
      × (Dict.get g'.pending id ≡ some (is_some (last_decision id none ss)))
      × ((close_gate g' id event_set).1
          ≡ (if get_or (last_decision id none ss) false then next_called else approval_denied))
      × ((close_gate g' id timed_out).1 ≢ next_called)
      × ((close_gate g' id interrupted).1 ≢ next_called)
unfolding close_gate
gate_decides g name id ss e n fresh f = rw (open_gate-waits g name id e n) (
    let start = record g { pending = Dict.put g.pending id false } in
    let w =
      run-Waiting start id none ss f
        (get-put g.pending id id false ∙ ground (arith, string_eq.beq_iff id id), fresh) in
    (refl, w.0, rw w.1 refl, ground arith, ground arith))
