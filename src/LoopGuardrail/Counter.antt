-- ===== src/LoopGuardrail/Counter.antt =====
-- The guardrail refines a counter of equal actions in a row.
use sky_claw_gravity.Prelude.{
  ==-eq, ==-refl, Bool, Bool-cases, List, Option, String, [], ap, arith, false, if◌then◌else◌, inl,
  inr, leb, none, refl, replicate, some, string_eq, suc, sym, take, true, zero, ℕ, ◌++◌, ◌+◌, ◌<◌,
  ◌==◌, ◌∙◌, ◌∷◌, ◌≡◌, ◌≤◌, ◌⊎◌, nat_eq,
}
use sky_claw_gravity.Hashing.{Hashing}
use sky_claw_gravity.Result.{ok}
use sky_claw_gravity.LoopGuardrail.{
  Guardrail, Tripped, hash_action, new, register, register_and_check,
}
use sky_claw_gravity.LoopGuardrail.Streak.{loop_test, streak, streak-take}

-- The specification: the last action and how often it came in a row, or nothing after a trip.
abbrev pub Counter : Type 0
Counter = Option (String × ℕ)

unfoldable pub in_a_row : Counter → String → ℕ
in_a_row none a = 1
in_a_row (some (b, n)) a = if b == a then n + 1 else 1

unfoldable pub count_action : ℕ → Counter → String → Counter × Bool
unfolding in_a_row
count_action max_repeats c a =
    let n = in_a_row c a in if leb max_repeats n then (none, true) else (some (a, n), false)

abbrev pub tripped : Option Tripped → Bool
tripped none = false
tripped (some t) = true

module _ {P : Type 0} (h : Hashing P) where
  -- for each action in turn, did it trip?
  unfoldable pub trips : Guardrail → List (String × P) → List Bool
  trips g [] = []
  trips g ((tool, args) ∷ actions) =
      let (g', t) = register_and_check h g tool args in tripped t ∷ trips g' actions

  unfoldable pub counted_trips : ℕ → Counter → List (String × P) → List Bool
  counted_trips max_repeats c [] = []
  counted_trips max_repeats c ((tool, args) ∷ actions) =
      let (c', t) = count_action max_repeats c (hash_action h tool args) in
      t ∷ counted_trips max_repeats c' actions

-- the history tells the counter's value
abbrev pub Agrees : Guardrail → Counter → Type 0
Agrees g none = g.history ≡ []
Agrees g (some (b, n)) =
    (streak b g.history ≡ n)
    × ((a : String) → (a ≡ b) ⊎ (streak a g.history ≡ 0))
    × (0 < n)
    × (n < g.max_repeats)

-- what `new` accepts
pub record IsValid (g : Guardrail) : Type 0 where
  pub at_least_two : 2 ≤ g.max_repeats
  pub fits : g.max_repeats ≤ g.window_size

streak-head : (a b : String) (xs : List String) → (a ≡ b) ⊎ (streak a (b ∷ xs) ≡ 0)
unfolding streak
streak-head a b xs = elim (Bool-cases (b == a)) [
  | inl p ↦ inl (sym (==-eq b a p))
  | inr p ↦ inr (rw p)
]

in_a_row-streak :
    (g : Guardrail) (c : Counter) (a : String) → Agrees g c → in_a_row c a ≡ streak a g.history + 1
unfolding in_a_row streak
in_a_row-streak g none a r = rw r
in_a_row-streak g (some (b, n)) a r = ground (arith, r.1 a, string_eq.beq_iff b a)

-- the history after an action that did not trip
abbrev pushed : Guardrail → String → Guardrail
pushed g a = record g { history = take g.window_size (a ∷ g.history) }

register_lem :
    (g : Guardrail) (c : Counter) (tool a : String)
    → IsValid g
    → Agrees g c
    → register g tool a ≡ (
        if leb g.max_repeats (in_a_row c a)
        then (
          record g { history = [] },
          some (record { tool_name = tool; occurrences = g.max_repeats }),
        )
        else (pushed g a, none))
unfolding register
register_lem g c tool a v r = rw (
  loop_test g.max_repeats g.window_size a g.history (omega (arith, v.at_least_two)) v.fits,
  in_a_row-streak g c a r,
)

streak_pushed : (a : String) (xs : List String) → streak a (a ∷ xs) ≡ streak a xs + 1
unfolding streak
streak_pushed a xs = ground (arith, ==-refl a)

pushed-Agrees :
    (g : Guardrail) (c : Counter) (a : String)
    → IsValid g
    → Agrees g c
    → in_a_row c a < g.max_repeats
    → Agrees (pushed g a) (some (a, in_a_row c a))
pushed-Agrees g c a v r below =
    let n = in_a_row-streak g c a r in
    let s = streak_pushed a g.history in
    (
      streak-take g.window_size a (a ∷ g.history) (omega (arith, v.fits)) ∙ omega arith,
      (λ b. elim (streak-head b a g.history) [
        | inl e ↦ inl e
        | inr e ↦ inr (
            streak-take g.window_size b (a ∷ g.history) (omega (arith, v.fits, v.at_least_two)) ∙ e)
      ]),
      omega arith,
      below,
    )

module _ {P : Type 0} (h : Hashing P) where
  -- the guardrail and the counter go on together
  abbrev pub Follows : ℕ → Guardrail → Counter → Type 0
  Follows max_repeats g c = (g.max_repeats ≡ max_repeats) × IsValid g × Agrees g c

  pub register_step :
      (m : ℕ) (g : Guardrail) (c : Counter) (tool : String) (args : P)
      → Follows m g c
      → let (g', t) = register_and_check h g tool args in
        let (c', b) = count_action m c (hash_action h tool args) in
        (tripped t ≡ b) × Follows m g' c'
  unfolding register_and_check count_action
  register_step m g c tool args (q, v, r) =
      let a = hash_action h tool args in
      let e = register_lem g c tool a v r in
      elim (Bool-cases (leb g.max_repeats (in_a_row c a))) [
        | inl p ↦ rw (← q) (
            rw (e, p) (refl, (refl, record { at_least_two = v.at_least_two; fits = v.fits }, refl)))
        | inr p ↦ rw (← q) (
            rw (e, p)
              (
                refl,
                (
                  refl,
                  record { at_least_two = v.at_least_two; fits = v.fits },
                  pushed-Agrees g c a v r (ground (arith, p)),
                ),
              ))
      ]

  trips_from :
      (m : ℕ) (g : Guardrail) (c : Counter) (actions : List (String × P))
      → Follows m g c
      → trips h g actions ≡ counted_trips h m c actions
  unfolding trips counted_trips
  trips_from m g c [] f = refl
  trips_from m g c ((tool, args) ∷ actions) f =
      let (t, f') = register_step m g c tool args f in
      ap (λ b. b ∷ trips h (register_and_check h g tool args).0 actions) t
      ∙ ap (◌∷◌ (count_action m c (hash_action h tool args)).1)
          (trips_from m (register_and_check h g tool args).0 _ actions f')

  -- what `new` makes, with the counter at nothing
  pub new-Follows : (m w : ℕ) (g : Guardrail) → new m w ≡ ok g → Follows m g none
  unfolding new
  new-Follows m w g e = (ground (arith, e), ground (arith, e), ground (arith, e))

  -- A guardrail that `new` accepts raises at exactly the actions at which a counter of equal
  -- actions in a row, started anew after each raise, reaches `max_repeats`, whatever the window.
  pub trips-eq-counted :
      (max_repeats window_size : ℕ) (g : Guardrail) (actions : List (String × P))
      → new max_repeats window_size ≡ ok g
      → trips h g actions ≡ counted_trips h max_repeats none actions
  trips-eq-counted m w g actions e = trips_from m g none actions (new-Follows m w g e)

  counted_run :
      (m : ℕ) (c : Counter) (tool : String) (args : P) (k : ℕ)
      → in_a_row c (hash_action h tool args) + k ≡ m
      → counted_trips h m c (replicate (suc k) (tool, args)) ≡ replicate k false ++ true ∷ []
  unfolding counted_trips count_action in_a_row
  counted_run m c tool args zero e = ground arith
  counted_run m c tool args (suc k) e =
      let a = hash_action h tool args in
      let small : leb m (in_a_row c a) ≡ false = ground arith in
      let rest = counted_run m (some (a, in_a_row c a)) tool args k (ground (arith, ==-refl a)) in
      rw small (ap (◌∷◌ false) rest)

  -- A new guardrail that sees one action `max_repeats` times in a row raises at the last of them,
  -- and not before.
  trips_at_max :
      (max_repeats window_size : ℕ) (g : Guardrail) (tool : String) (args : P)
      → new (suc max_repeats) window_size ≡ ok g
      → trips h g (replicate (suc max_repeats) (tool, args))
        ≡ replicate max_repeats false ++ true ∷ []
  trips_at_max m w g tool args e =
      trips-eq-counted (suc m) w g (replicate (suc m) (tool, args)) e
      ∙ counted_run (suc m) none tool args m (unfold in_a_row in omega arith)
