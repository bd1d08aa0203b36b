-- ===== src/EventBus/Restart.antt =====
-- What a restart of the bus leaves of its loop, and what an unsubscribe leaves of its index.
use sky_claw_gravity.Prelude.{
  ==-ne, ==-refl, Bool, String, [], arith, false, inl, inr, none, refl, some, true, ℕ, ◌∷◌, ◌≡◌,
  ◌≢◌, ◌≤◌, ◌⊎◌, nat_eq, string_eq,
}
use sky_claw_gravity.EventBus.{
  Bus, Delivery, Event, dispatch_all, dispatch_loop, put_nowait, remove_first, start, stop,
  stop_loop, subscribe, take_next, unsubscribe,
}
use sky_claw_gravity.EventBus.Dispatch.{dispatch_all_lem}
use sky_claw_gravity.Dict

-- a bus that runs, with one event in its queue that its loop has not yet taken
abbrev pub with_event : Bus → Event → Bus
with_event bus event = record bus {
  queue = some event ∷ [];
  running = true;
  has_task = true;
  alive = true;
}

-- the queue takes two items
abbrev pub HasRoom : Bus → Type 0
HasRoom bus = (bus.max_queue_size ≡ 0) ⊎ (2 ≤ bus.max_queue_size)

sentinel-put :
    (bus : Bus) (event : Event)
    → HasRoom bus
    → put_nowait bus.max_queue_size (some event ∷ []) none ≡ some (some event ∷ none ∷ [])
unfolding put_nowait
sentinel-put bus event (inl z) = ground (arith, z)
sentinel-put bus event (inr l) = ground (arith, l)

module _ (matches : String → String → Bool) (handler_name : ℕ → String) where
  dispatch_all-queue :
      (bus : Bus) (event : Event)
      → let bus' = dispatch_all matches handler_name bus event bus.subscriptions in
        (bus'.queue ≡ bus.queue) × (bus'.running ≡ bus.running)
  dispatch_all-queue bus event = rw (dispatch_all_lem matches handler_name bus event) (refl, refl)

  stop_loop-sentinel :
      (bus : Bus) (event : Event)
      → HasRoom bus
      → (stop_loop matches handler_name (record (with_event bus event) { running = false })).queue
        ≡ none ∷ []
  unfolding stop_loop dispatch_loop take_next
  stop_loop-sentinel bus event r =
      rw (sentinel-put bus event r, stop_loop)
        (dispatch_all-queue (record (with_event bus event) { running = false; queue = none ∷ [] })
          event).0

  -- A bus that is stopped right after an event was published keeps the sentinel in its queue, when
  -- the queue has room for both. Once it is started again, the first round of its loop takes the
  -- sentinel and ends: the bus runs without a loop, a further start does nothing, and no round
  -- dispatches anything.
  start-stop :
      (enqueue_fails : Delivery → Bool) (bus : Bus) (event : Event)
      → HasRoom bus
      → let bus' =
          dispatch_loop matches handler_name
            (start (stop matches handler_name enqueue_fails (with_event bus event))) in
        (bus'.running ≡ true)
        × (bus'.alive ≡ false)
        × (start bus' ≡ bus')
        × (dispatch_loop matches handler_name bus' ≡ bus')
  unfolding start stop dispatch_loop take_next
  start-stop enqueue_fails bus event r =
      rw (stop_loop-sentinel bus event r) (refl, refl, refl, refl)

  -- A callback that was subscribed for two patterns and unsubscribed for the second is still
  -- subscribed for the first, but its name is not in the index any more.
  unsubscribe_forgets :
      (bus : Bus) (p q : String) (callback : ℕ)
      → p ≢ q
      → let bus1 = subscribe matches handler_name (record bus { subscriptions = [] }) p callback in
        let bus2 = subscribe matches handler_name bus1 q callback in
        let bus3 = unsubscribe matches handler_name bus2 q callback in
        (bus3.subscriptions ≡ (p, callback) ∷ [])
        × (Dict.get bus3.handler_index (handler_name callback) ≡ none)
  unfolding unsubscribe subscribe remove_first
  unsubscribe_forgets bus p q callback n = (
    rw (==-ne p q n) (rw (==-refl q, ==-refl callback) refl),
    rw (Dict.get-remove) (rw (==-refl (handler_name callback)) refl),
  )
