-- ===== src/HitlGuard/Answers.antt =====
-- What a request is answered, over any other calls of the guard.
use sky_claw_gravity.Dict.{get-put, get-remove}
use mathlib.Core.Option
use sky_claw_gravity.Prelude.{
  ==-eq, ==-ne, ==-refl, All, Bool, Bool-cases, List, Option, Option-cases, String, [], ap, arith,
  false, if◌then◌else◌, inl, inr, none, refl, some, subst, sym, true, ◌==◌, ◌||◌, ◌∙◌, ◌∷◌, ◌≡◌,
  ◌≢◌, ◌⊎◌, nat_eq, string_eq,
}
use sky_claw_gravity.HitlGuard.{
  HitlRequest, Pending, Waited, approved, cancelled, close_request, decide, denied,
  fail_notification, new_request, open_request, respond, timed_out, timeout, woken,
}
use sky_claw_gravity.Dict

-- a call of the guard
pub data Call : Type 0 where
  opens : String → HitlRequest → Call
  fails : String → Call
  closes : String → Waited → Call
  responds : String → Bool → Call

unfoldable pub step : Pending → Call → Pending
step pending (opens id req) = (open_request pending id req).0
step pending (fails id) = (fail_notification pending id).0
step pending (closes id waited) = (close_request pending id waited).0
step pending (responds id is_approved) = (respond pending id is_approved).0

unfoldable pub run : Pending → List Call → Pending
unfolding step
run pending [] = pending
run pending (call ∷ calls) = run (step pending call) calls

-- the call does not end the request of an id
abbrev pub Spares : String → Call → Type 0
Spares id (fails j) = id ≢ j
Spares id (closes j waited) = id ≢ j
Spares id _ = Unit

-- the request after one call, and after many: each response to it replaces its decision
abbrev pub answer_one : String → HitlRequest → Call → HitlRequest
answer_one id req (responds j is_approved) =
    if j == id
    then record req { decision = if is_approved then approved else denied; answered = true }
    else req
answer_one id req _ = req

abbrev pub answer_all : String → HitlRequest → List Call → HitlRequest
answer_all id req [] = req
answer_all id req (call ∷ calls) = answer_all id (answer_one id req call) calls

-- some call approves the request
abbrev pub has_approval : String → List Call → Bool
has_approval id [] = false
has_approval id (responds j true ∷ calls) = j == id || has_approval id calls
has_approval id (_ ∷ calls) = has_approval id calls

-- another id is not the one of a request that is pending
other_id :
    (pending : Pending) (id j : String) (req : HitlRequest)
    → Dict.get pending id ≡ some req
    → Dict.get pending j ≡ none
    → (j == id) ≡ false
other_id pending id j req e p =
    ==-ne j id (λ q. ground (arith, e, subst (λ k. Dict.get pending k ≡ none) q p))

removed-other :
    (pending : Pending) (id j : String) (req : HitlRequest)
    → Dict.get pending id ≡ some req
    → id ≢ j
    → Dict.get (Dict.remove pending j) id ≡ some req
removed-other pending id j req e n = get-remove pending j id ∙ rw (==-ne j id (λ q. n (sym q))) e

same_id :
    (pending : Pending) (id j : String) (req x : HitlRequest) (is_approved : Bool)
    → Dict.get pending id ≡ some req
    → Dict.get pending j ≡ some x
    → (if j == id
        then some
            (record x { decision = if is_approved then approved else denied; answered = true })
        else Dict.get pending id)
      ≡ some (answer_one id req (responds j is_approved))
same_id pending id j req x is_approved e p = elim (Bool-cases (j == id)) [
  | inl q ↦
      let same : some x ≡ some req = sym p ∙ ap (Dict.get pending) (==-eq j id q) ∙ e in
      rw q (
        ap
          (Option.map {A = HitlRequest} (λ r. record r {
            decision = if is_approved then approved else denied;
            answered = true;
          }))
          same)
  | inr q ↦ rw q e
]

step-answer_one :
    (pending : Pending) (id : String) (req : HitlRequest) (call : Call)
    → Dict.get pending id ≡ some req
    → Spares id call
    → Dict.get (step pending call) id ≡ some (answer_one id req call)
unfolding step open_request fail_notification close_request respond
step-answer_one pending id req (opens j r) e s = elim (Option-cases (Dict.get pending j)) [
  | inl p ↦ rw (p, step) (get-put pending j id r ∙ rw (other_id pending id j req e p) e)
  | inr (x, p) ↦ rw (p, step) e
]
step-answer_one pending id req (fails j) e s = removed-other pending id j req e s
step-answer_one pending id req (closes j waited) e s = elim (Option-cases (Dict.get pending j)) [
  | inl p ↦ rw (p, step) e
  | inr (x, p) ↦ rw (p, step) (removed-other pending id j req e s)
]
step-answer_one pending id req (responds j is_approved) e s =
    elim (Option-cases (Dict.get pending j)) [
      | inl p ↦ rw (p, step) (e ∙ rw (other_id pending id j req e p) refl)
      | inr (x, p) ↦
          rw (p, step) (get-put pending j id _ ∙ same_id pending id j req x is_approved e p)
    ]

run-answer_all :
    (pending : Pending) (id : String) (req : HitlRequest) (calls : List Call)
    → Dict.get pending id ≡ some req
    → All (Spares id) calls
    → Dict.get (run pending calls) id ≡ some (answer_all id req calls)
unfolding run
run-answer_all pending id req [] e s = e
run-answer_all pending id req (call ∷ calls) e (s, ss) =
    run-answer_all (step pending call) id (answer_one id req call) calls
      (step-answer_one pending id req call e s) ss

approval-one :
    (id : String) (req : HitlRequest) (call : Call) (calls : List Call)
    → ((answer_one id req call).decision ≡ approved) ⊎ (has_approval id calls ≡ true)
    → (req.decision ≡ approved) ⊎ (has_approval id (call ∷ calls) ≡ true)
approval-one id req (opens j r) calls h = h
approval-one id req (fails j) calls h = h
approval-one id req (closes j waited) calls h = h
approval-one id req (responds j true) calls h = ground (arith, h)
approval-one id req (responds j false) calls h = ground (arith, h)

approval-all :
    (id : String) (req : HitlRequest) (calls : List Call)
    → (answer_all id req calls).decision ≡ approved
    → (req.decision ≡ approved) ⊎ (has_approval id calls ≡ true)
approval-all id req [] h = inl h
approval-all id req (call ∷ calls) h =
    approval-one id req call calls (approval-all id (answer_one id req call) calls h)

approval-decide :
    (id : String) (req : HitlRequest) (calls : List Call) (waited : Waited)
    → req.decision ≡ timeout
    → decide (answer_all id req calls) waited ≡ some approved
    → has_approval id calls ≡ true
unfolding decide
approval-decide id req calls woken t h = ground (arith, t, h, approval-all id req calls)
approval-decide id req calls timed_out t h = ground (arith, h)
approval-decide id req calls cancelled t h = ground (arith, h)

-- A request whose id is free is decided, over any other calls that do not end it, by the end of its
-- wait: if its task is woken, by the last response to it, or as a timeout if there was none; if the
-- wait times out, it is denied. It is not pending any more. It is approved only if one of the
-- responses to it approved.
pub close_request-open_request :
    (pending : Pending) (id reason detail : String) (url : Option String) (calls : List Call)
    (waited : Waited)
    → Dict.get pending id ≡ none
    → All (Spares id) calls
    → let req = new_request reason url detail in
      let (opened, refused) = open_request pending id req in
      let (closed, decision) = close_request (run opened calls) id waited in
      (refused ≡ none)
      × (decision ≡ decide (answer_all id req calls) waited)
      × (Dict.get closed id ≡ none)
      × (decision ≡ some approved → has_approval id calls ≡ true)
unfolding open_request close_request
close_request-open_request pending id reason detail url calls waited e s =
    rw (e, open_request)
      (rw
        (
          run-answer_all (Dict.put pending id (new_request reason url detail)) id
              (new_request reason url detail) calls (get-put pending id id _ ∙ rw (==-refl id) refl)
              s,
          close_request,
        )
        (
          refl,
          refl,
          get-remove _ id id ∙ rw (==-refl id) refl,
          λ h. approval-decide id _ calls waited refl h,
        ))
