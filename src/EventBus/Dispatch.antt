-- ===== src/EventBus/Dispatch.antt =====
-- Where the deliveries of an event go.
use sky_claw_gravity.Prelude.{
  Bool, Bool-cases, List, String, [], ap, append-nil, append_assoc, arith, drop, if◌then◌else◌, inl,
  inr, length, length-append, refl, suc, take, zero, ℕ, ◌++◌, ◌-◌, ◌∙◌, ◌∷◌, ◌≡◌,
}
use sky_claw_gravity.EventBus.{
  Bus, Delivery, Event, dispatch_all, dispatch_to, max_dlq_tasks, max_pending_tasks,
  schedule_backpressure_drop,
}

-- the subscribers that still may start
abbrev pub room : Bus → ℕ
room bus = max_pending_tasks - length bus.pending_tasks

-- the drops that the dead letter queue still takes
abbrev pub dlq_room : Bus → ℕ
dlq_room bus = if bus.has_dlq then max_dlq_tasks - length bus.dlq_tasks else 0

-- the deliveries of an event, in the order of the subscriptions
abbrev pub deliveries : (String → String → Bool) → Event → List (String × ℕ) → List Delivery
deliveries matches event [] = []
deliveries matches event ((pattern, callback) ∷ rest) =
    let ds = deliveries matches event rest in
    if matches event.topic pattern then (event, callback) ∷ ds else ds

-- the loop over the deliveries
abbrev pub dispatch_each : Bus → List Delivery → Bus
dispatch_each bus [] = bus
dispatch_each bus (d ∷ ds) = dispatch_each (dispatch_to bus d) ds

dispatch_to-full :
    (bus : Bus) (d : Delivery) → room bus ≡ 0 → dispatch_to bus d ≡ schedule_backpressure_drop bus d
unfolding dispatch_to
dispatch_to-full bus d h = ground (arith, h)

dispatch_to-room :
    (bus : Bus) (d : Delivery) (n : ℕ)
    → room bus ≡ suc n
    → dispatch_to bus d ≡ record bus { pending_tasks = bus.pending_tasks ++ d ∷ [] }
unfolding dispatch_to
dispatch_to-room bus d n h = ground (arith, h)

drop-full :
    (bus : Bus) (d : Delivery)
    → dlq_room bus ≡ 0
    → schedule_backpressure_drop bus d ≡ record bus { lost = bus.lost ++ d ∷ [] }
unfolding schedule_backpressure_drop
drop-full bus d h = ground (arith, h)

drop-room :
    (bus : Bus) (d : Delivery) (n : ℕ)
    → dlq_room bus ≡ suc n
    → schedule_backpressure_drop bus d ≡ record bus { dlq_tasks = bus.dlq_tasks ++ d ∷ [] }
unfolding schedule_backpressure_drop
drop-room bus d n h = ground (arith, h)

-- every further delivery is dropped
dispatch_each-full :
    (n : ℕ) (bus : Bus) (ds : List Delivery)
    → room bus ≡ 0
    → dlq_room bus ≡ n
    → dispatch_each bus ds
      ≡ record bus { dlq_tasks = bus.dlq_tasks ++ take n ds; lost = bus.lost ++ drop n ds }
dispatch_each-full zero bus [] h e = rw (append-nil bus.dlq_tasks, append-nil bus.lost) refl
dispatch_each-full (suc n) bus [] h e = rw (append-nil bus.dlq_tasks, append-nil bus.lost) refl
dispatch_each-full zero bus (d ∷ ds) h e =
    ap (λ b. dispatch_each b ds) (dispatch_to-full bus d h ∙ drop-full bus d e)
    ∙ dispatch_each-full zero (record bus { lost = bus.lost ++ d ∷ [] }) ds h e
    ∙ rw (append_assoc bus.lost (d ∷ []) ds) refl
dispatch_each-full (suc n) bus (d ∷ ds) h e =
    ap (λ b. dispatch_each b ds) (dispatch_to-full bus d h ∙ drop-room bus d n e)
    ∙ dispatch_each-full n (record bus { dlq_tasks = bus.dlq_tasks ++ d ∷ [] }) ds h
        (ground (arith, e, length-append bus.dlq_tasks (d ∷ [])))
    ∙ rw (append_assoc bus.dlq_tasks (d ∷ []) (take n ds)) refl

dispatch_each_lem :
    (m n : ℕ) (bus : Bus) (ds : List Delivery)
    → room bus ≡ m
    → dlq_room bus ≡ n
    → dispatch_each bus ds ≡ record bus {
      pending_tasks = bus.pending_tasks ++ take m ds;
      dlq_tasks = bus.dlq_tasks ++ take n (drop m ds);
      lost = bus.lost ++ drop n (drop m ds);
    }
dispatch_each_lem zero n bus ds h e =
    dispatch_each-full n bus ds h e ∙ rw (append-nil bus.pending_tasks) refl
dispatch_each_lem (suc m) zero bus [] h e =
    rw (append-nil bus.dlq_tasks, append-nil bus.lost, append-nil bus.pending_tasks) refl
dispatch_each_lem (suc m) (suc n) bus [] h e =
    rw (append-nil bus.dlq_tasks, append-nil bus.lost, append-nil bus.pending_tasks) refl
dispatch_each_lem (suc m) n bus (d ∷ ds) h e =
    ap (λ b. dispatch_each b ds) (dispatch_to-room bus d m h)
    ∙ dispatch_each_lem m n (record bus { pending_tasks = bus.pending_tasks ++ d ∷ [] }) ds
        (ground (arith, h, length-append bus.pending_tasks (d ∷ []))) e
    ∙ rw (append_assoc bus.pending_tasks (d ∷ []) (take m ds)) refl

module _ (matches : String → String → Bool) (handler_name : ℕ → String) where
  dispatch_all-each :
      (bus : Bus) (event : Event) (subs : List (String × ℕ))
      → dispatch_all matches handler_name bus event subs
        ≡ dispatch_each bus (deliveries matches event subs)
  unfolding dispatch_all
  dispatch_all-each bus event [] = refl
  dispatch_all-each bus event ((pattern, callback) ∷ rest) =
      elim (Bool-cases (matches event.topic pattern)) [
        | inl p ↦ rw p (dispatch_all-each (dispatch_to bus (event, callback)) event rest)
        | inr p ↦ rw p (dispatch_all-each bus event rest)
      ]

  -- The deliveries of an event, to the subscribers whose patterns match, are shared out in the order
  -- of the subscriptions: the first start, as many as fifty pending tasks leave room for; of the
  -- others the first go to the dead letter queue, as many as fifty of its tasks leave room for, or
  -- none if there is no such queue; and the rest is lost. Nothing else of the bus changes.
  pub dispatch_all_lem :
      (bus : Bus) (event : Event)
      → let ds = deliveries matches event bus.subscriptions in
        dispatch_all matches handler_name bus event bus.subscriptions ≡ record bus {
          pending_tasks = bus.pending_tasks ++ take (room bus) ds;
          dlq_tasks = bus.dlq_tasks ++ take (dlq_room bus) (drop (room bus) ds);
          lost = bus.lost ++ drop (dlq_room bus) (drop (room bus) ds);
        }
  dispatch_all_lem bus event =
      dispatch_all-each bus event bus.subscriptions
      ∙ dispatch_each_lem (room bus) (dlq_room bus) bus _ refl refl
