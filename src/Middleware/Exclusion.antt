-- ===== src/Middleware/Exclusion.antt =====
-- At most one call in flight for one tool and payload.
use sky_claw_gravity.Prelude.{
  All, List, Option-cases, String, [], arith, inl, inr, none, some, true, ℕ, ◌+◌, ◌∷◌, ◌≡◌, ◌≢◌,
  nat_eq, string_eq,
}
use sky_claw_gravity.Dict
use sky_claw_gravity.Result.{ok}
use sky_claw_gravity.Hashing.{Hashing}
use sky_claw_gravity.ToolTask.{TaskRecord, ToolStateMachine, completed, failed, make_key, running}
use sky_claw_gravity.ToolTask.Lifecycle.{IsValid, transition-IsValid}
use sky_claw_gravity.Middleware.{Ending, begin_call, cancelled, end_call, raised, returned}
use sky_claw_gravity.Middleware.Flights.{
  All-flies, All-map, All-without, Distinct, Distinct-without, flies, without,
}
use sky_claw_gravity.Middleware.Begin.{begin_busy, begin_free, begun}
use sky_claw_gravity.Middleware.Holding.{
  Holds, Holds-below, Holds-same, begun-Holds, begun-IsValid, begun-new, end_call-Holds,
  end_cancelled, end_frees,
}

-- the calls that wait for their tool, by task id, beside the machine they share
pub record Calls (R : Type 0) : Type 0 where
  pub machine : ToolStateMachine R
  pub flights : List ℕ

module _ {R P : Type 0} (h : Hashing P) where
  -- One part of one call: calls interleave in any order.
  pub data CallStep (c c' : Calls R) : Type 0 where
    call_begins :
        (now : ℕ) (tool : String) (payload : P) (sm : ToolStateMachine R) (t : ℕ)
        → begin_call h now c.machine tool payload ≡ (sm, ok (some t))
        → c' ≡ record { machine = sm; flights = t ∷ c.flights }
        → CallStep c c'
    call_rejected :
        (now : ℕ) (tool : String) (payload : P) (sm : ToolStateMachine R)
        → begin_call h now c.machine tool payload ≡ (sm, ok none)
        → c' ≡ record { machine = sm; flights = c.flights }
        → CallStep c c'
    call_ends :
        (now t : ℕ) (ending : Ending R)
        → flies c.flights t ≡ true
        → c' ≡ record { machine = end_call now c.machine t ending; flights = without t c.flights }
        → CallStep c c'

  pub data CallReach (c : Calls R) : Calls R → Type 0 where
    here : CallReach c c
    next : {c' c'' : Calls R} → CallReach c c' → CallStep c' c'' → CallReach c c''

module _ {R : Type 0} where
  pub record IsSound (c : Calls R) : Type 0 where
    pub valid : IsValid c.machine
    pub holding : All (Holds c.machine) c.flights
    pub distinct : Distinct c.flights

module _ {R P : Type 0} (h : Hashing P) where
  end_call-IsValid :
      (now : ℕ) (sm : ToolStateMachine R) (t : ℕ) (ending : Ending R)
      → IsValid sm
      → IsValid (end_call now sm t ending)
  unfolding end_call
  end_call-IsValid now sm t (returned r) i = transition-IsValid h now sm t completed (some r) none i
  end_call-IsValid now sm t (raised e) i = transition-IsValid h now sm t failed none (some e) i
  end_call-IsValid now sm t cancelled i = i

  All-below :
      (sm : ToolStateMachine R) (ts : List ℕ)
      → IsValid sm
      → All (Holds sm) ts
      → All (λ t. sm.task_counter + 1 ≢ t) ts
  All-below sm [] v a = tt
  All-below sm (t ∷ ts) v a =
      let below = Holds-below sm t v a.0 in (λ e. absurd (omega arith), All-below sm ts v a.1)

  CallStep-IsSound : {c c' : Calls R} → CallStep h c c' → IsSound c → IsSound c'
  CallStep-IsSound {c} (call_begins now tool payload sm t e e') v =
      elim (Option-cases (Dict.get c.machine.active (make_key h tool payload))) [
        | inr (u, p) ↦ absurd (ground (arith, begin_busy h now c.machine tool payload u p))
        | inl p ↦
            let q = begin_free h now c.machine tool payload p in
            let machine : sm ≡ begun h now c.machine tool payload = ground arith in
            let id : t ≡ c.machine.task_counter + 1 = ground arith in
            rw (e', machine, id)
              (record {
                valid = begun-IsValid h now c.machine tool payload v.valid;
                holding = (
                  begun-new h now c.machine tool payload,
                  All-map (Holds c.machine) (Holds (begun h now c.machine tool payload))
                      (begun-Holds h now c.machine tool payload p v.valid) c.flights v.holding,
                );
                distinct = (All-below c.machine c.flights v.valid v.holding, v.distinct);
              })
      ]
  CallStep-IsSound {c} (call_rejected now tool payload sm e e') v =
      elim (Option-cases (Dict.get c.machine.active (make_key h tool payload))) [
        | inl p ↦ absurd (ground (arith, begin_free h now c.machine tool payload p))
        | inr (u, p) ↦
            let q = begin_busy h now c.machine tool payload u p in
            let same : sm ≡ c.machine = ground arith in rw (e', same) v
      ]
  CallStep-IsSound {c} (call_ends now t ending f e) v =
      let b = All-flies (Holds c.machine) t c.flights v.holding f in
      rw e (record {
        valid = end_call-IsValid now c.machine t ending v.valid;
        holding = All-without t c.flights (end_call-Holds now c.machine t ending b) v.holding;
        distinct = Distinct-without t c.flights v.distinct;
      })

  CallReach-IsSound : {c c' : Calls R} → CallReach h c c' → IsSound c → IsSound c'
  CallReach-IsSound here v = v
  CallReach-IsSound (next r st) v = CallStep-IsSound st (CallReach-IsSound r v)

  -- From a sound state, in every interleaving of calls that begin, are rejected, return, raise
  -- or are cancelled, two different calls in flight have different idempotency keys.
  pub in_flight_once :
      (c c' : Calls R) (t t' : ℕ) (r r' : TaskRecord R)
      → IsSound c
      → CallReach h c c'
      → flies c'.flights t ≡ true
      → flies c'.flights t' ≡ true
      → t ≢ t'
      → Dict.get c'.machine.tasks t ≡ some r
      → Dict.get c'.machine.tasks t' ≡ some r'
      → r.idempotency_key ≢ r'.idempotency_key
  in_flight_once c c' t t' r r' v reach f f' ne p p' k =
      let v' = CallReach-IsSound reach v in
      let a = All-flies (Holds c'.machine) t c'.flights v'.holding f in
      let b = All-flies (Holds c'.machine) t' c'.flights v'.holding f' in
      ne (Holds-same c'.machine t t' a b (ground (arith, a.stored, b.stored)))

  -- From a sound state, over every interleaving: while a call is in flight, a call with the same
  -- tool and payload is refused as a duplicate and changes nothing.
  duplicate_refused :
      (c c' : Calls R) (t now : ℕ) (r : TaskRecord R) (tool : String) (payload : P)
      → IsSound c
      → CallReach h c c'
      → flies c'.flights t ≡ true
      → Dict.get c'.machine.tasks t ≡ some r
      → r.idempotency_key ≡ make_key h tool payload
      → begin_call h now c'.machine tool payload ≡ (c'.machine, ok none)
  duplicate_refused c c' t now r tool payload v reach f p k =
      let v' = CallReach-IsSound reach v in
      let a = All-flies (Holds c'.machine) t c'.flights v'.holding f in
      begin_busy h now c'.machine tool payload t (ground (arith, a.stored, a.held))

  -- From a sound state, over every interleaving: a call in flight that returns or raises frees
  -- its key, so that the next call with that tool and payload begins; one that is cancelled
  -- leaves the key taken, so that the next one is refused.
  pub key_after_end :
      (c c' : Calls R) (t now now' : ℕ) (r : TaskRecord R) (tool : String) (payload : P) (value : R)
      (message : String)
      → IsSound c
      → CallReach h c c'
      → flies c'.flights t ≡ true
      → Dict.get c'.machine.tasks t ≡ some r
      → r.idempotency_key ≡ make_key h tool payload
      → ((begin_call h now' (end_call now c'.machine t (returned value)) tool payload).1
          ≡ ok (some (c'.machine.task_counter + 1)))
        × ((begin_call h now' (end_call now c'.machine t (raised message)) tool payload).1
            ≡ ok (some (c'.machine.task_counter + 1)))
        × ((begin_call h now' (end_call now c'.machine t cancelled) tool payload).1 ≡ ok none)
  key_after_end c c' t now now' r tool payload value message v reach f p k =
      let v' = CallReach-IsSound reach v in
      let a = All-flies (Holds c'.machine) t c'.flights v'.holding f in
      let runs : r.state ≡ running = ground (arith, a.stored, a.runs) in
      let sm = end_call now c'.machine t (returned value) in
      let sm' = end_call now c'.machine t (raised message) in
      let freed = end_frees now c'.machine t r (make_key h tool payload) value message p runs k in
      (
        ground (arith, begin_free h now' sm tool payload freed.0, freed.1),
        ground (arith, begin_free h now' sm' tool payload freed.2, freed.3),
        ground (
          arith,
          duplicate_refused c c' t now' r tool payload v reach f p k,
          end_cancelled now c'.machine t,
        ),
      )
