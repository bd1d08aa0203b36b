-- ===== src/EventBus.antt =====
-- `CoreEventBus` of sky_claw/antigravity/core/event_bus.py. A subscriber is a number; the match of a
-- topic with a pattern (`fnmatch`) and the name of a subscriber are arguments. Between two steps of
-- the dispatch loop the tasks of subscribers and of the dead letter queue may end. The `stop` of the
-- bus is one step: no other task runs between its awaits.
pub mod Dispatch
pub mod Limits
pub mod Restart
use sky_claw_gravity.Prelude.{
  Bool, List, Option, String, [], false, if◌then◌else◌, keep, leb, length, ltb, none, not, some,
  suc, true, zero, ℕ, ◌&&◌, ◌++◌, ◌==◌, ◌∷◌, nat_eq, string_eq,
}
use sky_claw_gravity.Result.{Result, err, ok}
use sky_claw_gravity.Dict

pub record Event : Type 0 where
  pub topic : String
  pub payload : String
  pub timestamp_ms : ℕ
  pub source : String

-- an event on its way to a subscriber
abbrev pub Delivery : Type 0
Delivery = Event × ℕ

-- `_MAX_PENDING_TASKS`
abbrev pub max_pending_tasks : ℕ
max_pending_tasks = 50

-- `_MAX_DLQ_TASKS`
abbrev pub max_dlq_tasks : ℕ
max_dlq_tasks = 50

-- The bus: `has_dlq` says whether it has a dead letter queue, `has_task` whether `_dispatch_task` is
-- there, and `alive` whether its loop waits for the queue. A delivery that is only logged is `lost`.
pub record Bus : Type 0 where
  pub subscriptions : List (String × ℕ)
  pub handler_index : Dict.Dict String ℕ
  pub queue : List (Option Event)
  pub max_queue_size : ℕ
  pub has_dlq : Bool
  pub running : Bool
  pub has_task : Bool
  pub alive : Bool
  pub pending_tasks : List Delivery
  pub dlq_tasks : List Delivery
  pub enqueued : List Delivery
  pub lost : List Delivery

-- `start`
unfoldable pub start : Bus → Bus
start bus =
    if bus.has_task then bus else record bus { running = true; has_task = true; alive = true }

-- `list.remove`, which takes the first that is equal
unfoldable pub remove_first : String × ℕ → List (String × ℕ) → List (String × ℕ)
remove_first (pattern, callback) [] = []
remove_first (pattern, callback) ((p, c) ∷ rest) =
    let rest' = remove_first (pattern, callback) rest in
    if p == pattern && c == callback then rest else (p, c) ∷ rest'

pub data PublishError : Type 0 where
  not_running queue_full : PublishError

-- `queue.put_nowait`
unfoldable pub put_nowait : ℕ → List (Option Event) → Option Event → Option (List (Option Event))
put_nowait max_size queue item =
    if not (max_size == 0) && leb max_size (length queue) then none else some (queue ++ item ∷ [])

-- what follows the `put` of `publish`; where the queue is full the call waits, which is its answer
-- here
unfoldable pub published : Bus → Option (List (Option Event)) → Bus × Result PublishError (Unit {0})
published bus none = (bus, err queue_full)
published bus (some queue) = (record bus { queue = queue }, ok tt)

-- `publish`
unfoldable pub publish : Bus → Event → Bus × Result PublishError (Unit {0})
unfolding put_nowait published
publish bus event =
    if bus.running
    then published bus (put_nowait bus.max_queue_size bus.queue (some event))
    else (bus, err not_running)

-- `_schedule_backpressure_drop`, if there is a dead letter queue
unfoldable pub schedule_backpressure_drop : Bus → Delivery → Bus
schedule_backpressure_drop bus d =
    if bus.has_dlq && ltb (length bus.dlq_tasks) max_dlq_tasks
    then record bus { dlq_tasks = bus.dlq_tasks ++ d ∷ [] }
    else record bus { lost = bus.lost ++ d ∷ [] }

-- the body of the loop over the subscriptions, for one that matches
unfoldable pub dispatch_to : Bus → Delivery → Bus
unfolding schedule_backpressure_drop
dispatch_to bus d =
    if leb max_pending_tasks (length bus.pending_tasks)
    then schedule_backpressure_drop bus d
    else record bus { pending_tasks = bus.pending_tasks ++ d ∷ [] }

module _ (matches : String → String → Bool) (handler_name : ℕ → String) where
  -- `subscribe`
  unfoldable pub subscribe : Bus → String → ℕ → Bus
  subscribe bus pattern callback = record bus {
    subscriptions = bus.subscriptions ++ (pattern, callback) ∷ [];
    handler_index = Dict.put bus.handler_index (handler_name callback) callback;
  }

  -- `unsubscribe`
  unfoldable pub unsubscribe : Bus → String → ℕ → Bus
  unfolding remove_first
  unsubscribe bus pattern callback = record bus {
    subscriptions = remove_first (pattern, callback) bus.subscriptions;
    handler_index = Dict.remove bus.handler_index (handler_name callback);
  }

  -- the loop over the subscriptions
  unfoldable pub dispatch_all : Bus → Event → List (String × ℕ) → Bus
  unfolding dispatch_to
  dispatch_all bus event [] = bus
  dispatch_all bus event ((pattern, callback) ∷ rest) =
      dispatch_all (if matches event.topic pattern then dispatch_to bus (event, callback) else bus)
        event rest

  -- The loop takes what is next in the queue; it waits where there is nothing. After an event it
  -- goes on while the bus runs.
  unfoldable pub take_next : Bus → List (Option Event) → Bus
  unfolding dispatch_all
  take_next bus [] = bus
  take_next bus (none ∷ queue) = record bus { queue = queue; alive = false }
  take_next bus (some event ∷ queue) =
      let bus' = dispatch_all (record bus { queue = queue }) event bus.subscriptions in
      record bus' { alive = bus'.running }

  -- a round of `_dispatch_loop`
  unfoldable pub dispatch_loop : Bus → Bus
  unfolding take_next
  dispatch_loop bus = if bus.alive then take_next bus bus.queue else bus

  -- `stop` from the sentinel to the end of the dispatch task: where the queue is full the task is
  -- cancelled
  unfoldable pub stop_loop : Bus → Bus
  unfolding put_nowait dispatch_loop
  stop_loop bus = elim (put_nowait bus.max_queue_size bus.queue none) [
    | none ↦ record bus { alive = false }
    | some queue ↦ dispatch_loop (record bus { queue = queue })
  ]

  -- `stop`; the flag of a delivery says that its enqueue fails
  unfoldable pub stop : (Delivery → Bool) → Bus → Bus
  unfolding stop_loop
  stop enqueue_fails bus =
      if bus.has_task
      then (let bus' = stop_loop (record bus { running = false }) in
          record bus' {
            has_task = false;
            pending_tasks = [];
            dlq_tasks = [];
            enqueued = bus'.enqueued ++ keep (λ d. not (enqueue_fails d)) bus'.dlq_tasks;
            lost = bus'.lost ++ keep enqueue_fails bus'.dlq_tasks;
          })
      else bus

-- how the task of a subscriber ends
pub data Outcome : Type 0 where
  delivered failed_enqueued failed_lost : Outcome

-- the list without the delivery at an index
unfoldable pub without : ℕ → List Delivery → List Delivery
without n [] = []
without zero (d ∷ ds) = ds
without (suc n) (d ∷ ds) = d ∷ without n ds

unfoldable pub at : ℕ → List Delivery → List Delivery
at n [] = []
at zero (d ∷ ds) = d ∷ []
at (suc n) (d ∷ ds) = at n ds

-- `_safe_execute`, for the pending task of an index
unfoldable pub safe_execute : Bus → ℕ → Outcome → Bus
unfolding without at
safe_execute bus n delivered = record bus { pending_tasks = without n bus.pending_tasks }
safe_execute bus n failed_enqueued =
    if bus.has_dlq
    then record bus {
      pending_tasks = without n bus.pending_tasks;
      enqueued = bus.enqueued ++ at n bus.pending_tasks;
    }
    else record bus {
      pending_tasks = without n bus.pending_tasks;
      lost = bus.lost ++ at n bus.pending_tasks;
    }
safe_execute bus n failed_lost = record bus {
  pending_tasks = without n bus.pending_tasks;
  lost = bus.lost ++ at n bus.pending_tasks;
}

-- `_enqueue_backpressure_drop`, for the task of an index; the flag says that the enqueue fails
unfoldable pub enqueue_backpressure_drop : Bus → ℕ → Bool → Bus
unfolding without at
enqueue_backpressure_drop bus n false = record bus {
  dlq_tasks = without n bus.dlq_tasks;
  enqueued = bus.enqueued ++ at n bus.dlq_tasks;
}
enqueue_backpressure_drop bus n true = record bus {
  dlq_tasks = without n bus.dlq_tasks;
  lost = bus.lost ++ at n bus.dlq_tasks;
}
