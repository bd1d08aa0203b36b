-- ===== src/StateGraph/Loops.antt =====
-- The guardrail over the life of a graph, through the callbacks that use it.
use sky_claw_gravity.LoopGuardrail.Counter.{
  Counter, Follows, count_action, new-Follows, register_step, tripped, trips,
}
use sky_claw_gravity.Result.{ok}
use sky_claw_gravity.Prelude.{
  Bool, Bool-cases, List, Option, String, [], ap, false, get_or, if◌then◌else◌, inl, inr, none, not,
  refl, some, subst, sym, ◌&&◌, ◌==◌, ◌∙◌, ◌∷◌, ◌≡◌, nat_eq, string_eq,
}
use sky_claw_gravity.Hashing.{Hashing}
use sky_claw_gravity.LoopGuardrail.{Guardrail, Tripped, hash_action, new, register_and_check, reset}
use sky_claw_gravity.StateGraph.{ToolResult, Workflow, is_set}
use sky_claw_gravity.StateGraph.Callbacks.{
  Dispatched, call_tool, dispatch_checked, on_dispatching, on_hitl_wait,
}

-- a callback of the graph with the state that it is given, and the response that the operator gives
pub data Callback (P : Type 0) : Type 0 where
  at_dispatching : Workflow P → Callback P
  at_hitl_wait : String → Workflow P → Callback P

-- The specification: a counter of equal calls in a row, which an approval after a halt starts anew.
module _ {P : Type 0} (h : Hashing P) (empty : P) where
  abbrev pub counted_dispatch : Counter → Workflow P → Counter × Bool
  counted_dispatch c s =
      if is_set s.tool_name
      then (let (c', trips) =
            count_action 3 c
              (hash_action h (get_or s.tool_name "") (get_or s.tool_payload empty)) in
          (c', not trips))
      else (c, false)

  abbrev pub counted_calls : Counter → List (Callback P) → List Bool
  counted_calls c [] = []
  counted_calls c (at_dispatching s ∷ cs) =
      (counted_dispatch c s).1 ∷ counted_calls (counted_dispatch c s).0 cs
  counted_calls c (at_hitl_wait response s ∷ cs) =
      counted_calls (if response == "approved" && s.loop_detected then none else c) cs

module _ {P : Type 0} (h : Hashing P) (empty : P)
    (dispatch_tool : String → P → Option ToolResult) where
  -- whether each dispatching callback calls its tool, over callbacks that share the guardrail
  unfoldable pub calls : Guardrail → List (Callback P) → List Bool
  calls g [] = []
  calls g (at_dispatching s ∷ cs) =
      let d = on_dispatching h empty dispatch_tool g s in d.called ∷ calls d.guardrail cs
  calls g (at_hitl_wait response s ∷ cs) = calls (on_hitl_wait response g s).0 cs

  -- a callback follows the guardrail's answer
  abbrev Obeys : Guardrail × Option Tripped → Dispatched P → Type 0
  Obeys c d = (d.called ≡ not (tripped c.1)) × (d.guardrail ≡ c.0)

  called-Obeys :
      (g : Guardrail) (s : Workflow P) (result : Option ToolResult)
      → Obeys (g, none) (call_tool g s result)
  unfolding call_tool
  called-Obeys g s none = (refl, refl)
  called-Obeys g s (some r) = (refl, refl)

  checked-Obeys :
      (s : Workflow P) (tool : String) (payload : P) (c : Guardrail × Option Tripped)
      → Obeys c (dispatch_checked dispatch_tool s tool payload c)
  unfolding dispatch_checked
  checked-Obeys s tool payload (g, some trip) = (refl, refl)
  checked-Obeys s tool payload (g, none) = called-Obeys g s (dispatch_tool tool payload)

  -- one dispatching callback beside the counter
  dispatching-Follows :
      (g : Guardrail) (c : Counter) (s : Workflow P)
      → Follows h 3 g c
      → let d = on_dispatching h empty dispatch_tool g s in
        let (c', b) = counted_dispatch h empty c s in (d.called ≡ b) × Follows h 3 d.guardrail c'
  unfolding on_dispatching
  dispatching-Follows g c s f = elim (Bool-cases (is_set s.tool_name)) [
    | inr p ↦ rw p (refl, f)
    | inl p ↦
        let tool = get_or s.tool_name "" in
        let payload = get_or s.tool_payload empty in
        let (b, f') = register_step h 3 g c tool payload f in
        let (called, left) = checked-Obeys s tool payload (register_and_check h g tool payload) in
        rw p (
          called ∙ ap not b,
          subst (λ x. Follows h 3 x (count_action 3 c (hash_action h tool payload)).0) (sym left)
              f',
        )
  ]

  reset-Follows : (g : Guardrail) (c : Counter) → Follows h 3 g c → Follows h 3 (reset g) none
  unfolding reset
  reset-Follows g c (m, v, r) = (m, record { at_least_two = v.at_least_two; fits = v.fits }, refl)

  hitl_wait-Follows :
      (response : String) (g : Guardrail) (c : Counter) (s : Workflow P)
      → Follows h 3 g c
      → Follows h 3
          (on_hitl_wait response g s).0
          (if response == "approved" && s.loop_detected then none else c)
  unfolding on_hitl_wait
  hitl_wait-Follows response g c s f =
      elim (Bool-cases (response == "approved" && s.loop_detected)) [
        | inl p ↦ rw p (reset-Follows g c f)
        | inr p ↦ rw p f
      ]

  calls-counted :
      (g : Guardrail) (c : Counter) (cs : List (Callback P))
      → Follows h 3 g c
      → calls g cs ≡ counted_calls h empty c cs
  unfolding calls
  calls-counted g c [] f = refl
  calls-counted g c (at_dispatching s ∷ cs) f =
      let (b, f') = dispatching-Follows g c s f in
      ap (λ x. x ∷ calls (on_dispatching h empty dispatch_tool g s).guardrail cs) b
      ∙ ap (◌∷◌ (counted_dispatch h empty c s).1)
          (calls-counted (on_dispatching h empty dispatch_tool g s).guardrail _ cs f')
  calls-counted g c (at_hitl_wait response s ∷ cs) f =
      calls-counted (on_hitl_wait response g s).0 _ cs (hitl_wait-Follows response g c s f)

  -- Over any callbacks that share the new guardrail of a graph, with any states: a dispatching callback
  -- calls its tool exactly when the state names one and the call is not the third of equal ones in a
  -- row. The count starts anew after each halt, and when the operator approves while the state
  -- says that a loop was detected; a dispatch without a tool does not count.
  pub calls-eq-counted :
      (g : Guardrail) (cs : List (Callback P))
      → new 3 5 ≡ ok g
      → calls g cs ≡ counted_calls h empty none cs
  calls-eq-counted g cs e = calls-counted g none cs (new-Follows h 3 5 g e)
