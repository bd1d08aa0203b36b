-- ===== src/EventBus/Limits.antt =====
-- The limits of the bus over its steps.
use sky_claw_gravity.Prelude.{
  ==-eq, Bool, Bool-cases, List, Option, Option-cases, String, [], ap, arith, drop, false,
  if◌then◌else◌, inl, inr, leb, length, length-append, none, refl, some, subst, suc, take, true,
  zero, ℕ, ◌==◌, ◌∷◌, ◌≡◌, ◌≤◌, ◌⊎◌, nat_eq, string_eq,
}
use sky_claw_gravity.EventBus.{
  Bus, Delivery, Event, Outcome, PublishError, delivered, dispatch_all, dispatch_loop,
  enqueue_backpressure_drop, failed_enqueued, failed_lost, max_dlq_tasks, max_pending_tasks,
  publish, published, put_nowait, safe_execute, start, stop, stop_loop, subscribe, take_next,
  unsubscribe, without,
}
use sky_claw_gravity.Result.{Result}
use sky_claw_gravity.EventBus.Dispatch.{deliveries, dispatch_all_lem, dlq_room, room}

-- the tasks of subscribers, those of the dead letter queue and the queue are within their limits
pub record WithinLimits (bus : Bus) : Type 0 where
  pub pending_within : length bus.pending_tasks ≤ max_pending_tasks
  pub dlq_within : length bus.dlq_tasks ≤ max_dlq_tasks
  pub queue_within : (bus.max_queue_size ≡ 0) ⊎ (length bus.queue ≤ bus.max_queue_size)

length-without : (n : ℕ) (ds : List Delivery) → length (without n ds) ≤ length ds
unfolding without
length-without n [] = omega arith
length-without zero (d ∷ ds) = omega arith
length-without (suc n) (d ∷ ds) = omega (arith, length-without n ds)

length-take : (n : ℕ) (ds : List Delivery) → length (take n ds) ≤ n
length-take zero ds = omega arith
length-take (suc n) [] = omega arith
length-take (suc n) (d ∷ ds) = omega (arith, length-take n ds)

-- a queue that is one item shorter
tail-within :
    (max_size : ℕ) (queue : List (Option Event)) (item : Option Event) (rest : List (Option Event))
    → queue ≡ item ∷ rest
    → (max_size ≡ 0) ⊎ (length queue ≤ max_size)
    → (max_size ≡ 0) ⊎ (length rest ≤ max_size)
tail-within max_size queue item rest e (inl z) = inl z
tail-within max_size queue item rest e (inr l) = inr (omega (arith, l, ap length e))

-- the queue of a bus after `put_nowait`
abbrev pub PutWithin : ℕ → Option (List (Option Event)) → Type 0
PutWithin max_size none = Unit
PutWithin max_size (some queue) = (max_size ≡ 0) ⊎ (length queue ≤ max_size)

put_nowait-PutWithin :
    (max_size : ℕ) (queue : List (Option Event)) (item : Option Event)
    → PutWithin max_size (put_nowait max_size queue item)
unfolding put_nowait
put_nowait-PutWithin max_size queue item = elim (Bool-cases (max_size == 0)) [
  | inl z ↦ rw z (inl (==-eq max_size 0 z))
  | inr z ↦ elim (Bool-cases (leb max_size (length queue))) [
    | inl p ↦ rw (z, p) tt
    | inr p ↦ rw (z, p) (inr (ground (arith, p, length-append queue (item ∷ []))))
  ]
]

within-if :
    (b : Bool) (x y : Bus) → WithinLimits x → WithinLimits y → WithinLimits (if b then x else y)
within-if true x y h k = h
within-if false x y h k = k

answer-if :
    (b : Bool) (x y : Bus × Result PublishError (Unit {0}))
    → WithinLimits x.0
    → WithinLimits y.0
    → WithinLimits (if b then x else y).0
answer-if true x y h k = h
answer-if false x y h k = k

module _ (matches : String → String → Bool) (handler_name : ℕ → String) where
  -- a step of the bus, with its callers, its loop and its tasks
  pub data BusStep : Bus → Bus → Type 0 where
    starts : {bus : Bus} → BusStep bus (start bus)
    stops :
        {bus : Bus} (enqueue_fails : Delivery → Bool)
        → BusStep bus (stop matches handler_name enqueue_fails bus)
    subscribes :
        {bus : Bus} (pattern : String) (callback : ℕ)
        → BusStep bus (subscribe matches handler_name bus pattern callback)
    unsubscribes :
        {bus : Bus} (pattern : String) (callback : ℕ)
        → BusStep bus (unsubscribe matches handler_name bus pattern callback)
    publishes : {bus : Bus} (event : Event) → BusStep bus (publish bus event).0
    dispatches : {bus : Bus} → BusStep bus (dispatch_loop matches handler_name bus)
    ends : {bus : Bus} (n : ℕ) (outcome : Outcome) → BusStep bus (safe_execute bus n outcome)
    drops : {bus : Bus} (n : ℕ) (fails : Bool) → BusStep bus (enqueue_backpressure_drop bus n fails)

  dispatch-within :
      (bus : Bus) (event : Event)
      → WithinLimits bus
      → WithinLimits (dispatch_all matches handler_name bus event bus.subscriptions)
  dispatch-within bus event h =
      let ds = deliveries matches event bus.subscriptions in
      rw (dispatch_all_lem matches handler_name bus event) (record {
        pending_within = omega (
          arith,
          h.pending_within,
          length-append bus.pending_tasks (take (room bus) ds),
          length-take (room bus) ds,
        );
        dlq_within = ground (
          arith,
          h.dlq_within,
          length-append bus.dlq_tasks (take (dlq_room bus) (drop (room bus) ds)),
          length-take (dlq_room bus) (drop (room bus) ds),
        );
        queue_within = h.queue_within;
      })

  take_next-within :
      (bus : Bus) (queue : List (Option Event))
      → WithinLimits bus
      → bus.queue ≡ queue
      → WithinLimits (take_next matches handler_name bus queue)
  unfolding take_next
  take_next-within bus [] h e = h
  take_next-within bus (none ∷ queue) h e = record {
    pending_within = h.pending_within;
    dlq_within = h.dlq_within;
    queue_within = tail-within bus.max_queue_size bus.queue none queue e h.queue_within;
  }
  take_next-within bus (some event ∷ queue) h e =
      let w =
        dispatch-within (record bus { queue = queue }) event
          (record {
            pending_within = h.pending_within;
            dlq_within = h.dlq_within;
            queue_within =
                tail-within bus.max_queue_size bus.queue (some event) queue e h.queue_within;
          }) in
      record {
        pending_within = w.pending_within;
        dlq_within = w.dlq_within;
        queue_within = w.queue_within;
      }

  loop-within :
      (bus : Bus) → WithinLimits bus → WithinLimits (dispatch_loop matches handler_name bus)
  unfolding dispatch_loop
  loop-within bus h = within-if bus.alive _ bus (take_next-within bus bus.queue h refl) h

  stop_loop-within :
      (bus : Bus) → WithinLimits bus → WithinLimits (stop_loop matches handler_name bus)
  unfolding stop_loop
  stop_loop-within bus h = elim (Option-cases (put_nowait bus.max_queue_size bus.queue none)) [
    | inl p ↦
        rw (p, stop_loop)
          (record {
            pending_within = h.pending_within;
            dlq_within = h.dlq_within;
            queue_within = h.queue_within;
          })
    | inr (queue, p) ↦
        rw (p, stop_loop)
          (loop-within (record bus { queue = queue })
            (record {
              pending_within = h.pending_within;
              dlq_within = h.dlq_within;
              queue_within =
                  subst (PutWithin bus.max_queue_size) p
                    (put_nowait-PutWithin bus.max_queue_size bus.queue none);
            }))
  ]

  -- a call of `publish`, by what the queue says
  put-within :
      (bus : Bus) (event : Event) (put : Option (List (Option Event)))
      → put_nowait bus.max_queue_size bus.queue (some event) ≡ put
      → WithinLimits bus
      → WithinLimits (published bus put).0
  unfolding published
  put-within bus event none p h = h
  put-within bus event (some queue) p h = record {
    pending_within = h.pending_within;
    dlq_within = h.dlq_within;
    queue_within =
        subst (PutWithin bus.max_queue_size) p
          (put_nowait-PutWithin bus.max_queue_size bus.queue (some event));
  }

  publish-within :
      (bus : Bus) (event : Event) → WithinLimits bus → WithinLimits (publish bus event).0
  unfolding publish
  publish-within bus event h = answer-if bus.running _ _ (put-within bus event _ refl h) h

  ended :
      (bus : Bus) {enqueued lost : List Delivery} (n : ℕ)
      → WithinLimits bus
      → WithinLimits (record bus {
        pending_tasks = without n bus.pending_tasks;
        enqueued = enqueued;
        lost = lost;
      })
  ended bus n h = record {
    pending_within = omega (arith, h.pending_within, length-without n bus.pending_tasks);
    dlq_within = h.dlq_within;
    queue_within = h.queue_within;
  }

  dropped :
      (bus : Bus) {enqueued lost : List Delivery} (n : ℕ)
      → WithinLimits bus
      → WithinLimits
          (record bus { dlq_tasks = without n bus.dlq_tasks; enqueued = enqueued; lost = lost })
  dropped bus n h = record {
    pending_within = h.pending_within;
    dlq_within = omega (arith, h.dlq_within, length-without n bus.dlq_tasks);
    queue_within = h.queue_within;
  }

  -- Each step of the bus keeps its limits: at most fifty pending tasks, at most fifty tasks that
  -- fill the dead letter queue, and no more in the queue than its size, when that is not 0.
  pub BusStep-WithinLimits :
      {bus bus' : Bus} → BusStep bus bus' → WithinLimits bus → WithinLimits bus'
  unfolding start stop safe_execute enqueue_backpressure_drop subscribe unsubscribe
  BusStep-WithinLimits {bus} starts h = within-if bus.has_task bus _ h (record {
    pending_within = h.pending_within;
    dlq_within = h.dlq_within;
    queue_within = h.queue_within;
  })
  BusStep-WithinLimits {bus} (stops enqueue_fails) h =
      within-if bus.has_task _ bus
        (let w =
            stop_loop-within (record bus { running = false })
              (record {
                pending_within = h.pending_within;
                dlq_within = h.dlq_within;
                queue_within = h.queue_within;
              }) in
          record {
            pending_within = omega arith;
            dlq_within = omega arith;
            queue_within = w.queue_within;
          })
        h
  BusStep-WithinLimits {bus} (subscribes pattern callback) h = record {
    pending_within = h.pending_within;
    dlq_within = h.dlq_within;
    queue_within = h.queue_within;
  }
  BusStep-WithinLimits {bus} (unsubscribes pattern callback) h = record {
    pending_within = h.pending_within;
    dlq_within = h.dlq_within;
    queue_within = h.queue_within;
  }
  BusStep-WithinLimits {bus} (publishes event) h = publish-within bus event h
  BusStep-WithinLimits {bus} dispatches h = loop-within bus h
  BusStep-WithinLimits {bus} (ends n delivered) h = ended bus n h
  BusStep-WithinLimits {bus} (ends n failed_enqueued) h =
      within-if bus.has_dlq _ _ (ended bus n h) (ended bus n h)
  BusStep-WithinLimits {bus} (ends n failed_lost) h = ended bus n h
  BusStep-WithinLimits {bus} (drops n true) h = dropped bus n h
  BusStep-WithinLimits {bus} (drops n false) h = dropped bus n h
