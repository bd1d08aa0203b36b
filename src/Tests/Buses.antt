-- ===== src/Tests/Buses.antt =====
-- The event bus.
use sky_claw_gravity.Prelude.{
  Bool, String, [], arith, drop, false, inr, replicate, take, true, ℕ, ◌++◌, ◌==◌, ◌∷◌, ◌≡◌, nat_eq,
  string_eq,
}
use sky_claw_gravity.EventBus.{Bus, Event, dispatch_all, dispatch_loop}
use sky_claw_gravity.EventBus.Dispatch.{deliveries, dispatch_all_lem, dlq_room, room}
use sky_claw_gravity.EventBus.Limits.{BusStep-WithinLimits, WithinLimits, dispatches}
use sky_claw_gravity.EventBus.Restart.{with_event}

abbrev same : String → String → Bool
same topic pattern = topic == pattern

abbrev one_name : ℕ → String
one_name callback = "handlers.on_event"

abbrev event : Event
event = record { topic = "mods"; payload = "{}"; timestamp_ms = 1; source = "system" }

abbrev bus : Bus
bus = record {
  subscriptions = ("mods", 1) ∷ ("other", 2) ∷ ("mods", 3) ∷ [];
  handler_index = [];
  queue = [];
  max_queue_size = 1024;
  has_dlq = true;
  running = false;
  has_task = false;
  alive = false;
  pending_tasks = replicate 49 (event, 1);
  dlq_tasks = [];
  enqueued = [];
  lost = [];
}

dispatch_all_lem_example : dispatch_all same one_name bus event bus.subscriptions ≡ record bus {
  pending_tasks = bus.pending_tasks ++ take (room bus) (deliveries same event bus.subscriptions);
  dlq_tasks =
      bus.dlq_tasks
      ++ take (dlq_room bus) (drop (room bus) (deliveries same event bus.subscriptions));
  lost =
      bus.lost ++ drop (dlq_room bus) (drop (room bus) (deliveries same event bus.subscriptions));
}
dispatch_all_lem_example = dispatch_all_lem same one_name bus event

bus-WithinLimits : WithinLimits bus
bus-WithinLimits = record {
  pending_within = omega arith;
  dlq_within = omega arith;
  queue_within = inr (omega arith);
}

BusStep-WithinLimits_example : WithinLimits (dispatch_loop same one_name (with_event bus event))
BusStep-WithinLimits_example = BusStep-WithinLimits same one_name dispatches (record {
  pending_within = omega arith;
  dlq_within = omega arith;
  queue_within = inr (omega arith);
})
