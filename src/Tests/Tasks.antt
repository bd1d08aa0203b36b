-- ===== src/Tests/Tasks.antt =====
-- Tasks, calls and the loop guardrail.
use sky_claw_gravity.Prelude.{
  List, String, [], arith, none, refl, some, ℕ, ◌∷◌, ◌≡◌, ◌≢◌, nat_eq, string_eq,
}
use sky_claw_gravity.Dict
use sky_claw_gravity.Result.{ok}
use sky_claw_gravity.Hashing.{Hashing}
use sky_claw_gravity.ToolTask.{
  TaskRecord, ToolStateMachine, acquire_idempotency, awaiting_approval, make_key, new_record,
  pending, running, transition,
}
use sky_claw_gravity.ToolTask.Lifecycle.{Continues, IsValid, Reach, task_history, transition_step}
use sky_claw_gravity.ToolTask.Lifecycle
use sky_claw_gravity.Middleware.{begin_call, cancelled, end_call, raised, returned}
use sky_claw_gravity.Middleware.Exclusion
use sky_claw_gravity.Middleware.Exclusion.{
  CallReach, Calls, IsSound, call_begins, in_flight_once, key_after_end,
}
use sky_claw_gravity.LoopGuardrail.{Guardrail, new}
use sky_claw_gravity.LoopGuardrail.Counter.{counted_trips, trips, trips-eq-counted}

abbrev plain : Hashing String
plain = record { dumps = λ p. p; sha256_hex = λ s. s }

abbrev no_tasks : ToolStateMachine ℕ
no_tasks = record { tasks = []; active = []; task_counter = 0 }

abbrev idle : Calls ℕ
idle = record { machine = no_tasks; flights = [] }

idle-IsValid : IsValid no_tasks
unfolding Dict.get
idle-IsValid = record { unique = tt; fresh = λ j above. refl }

idle-IsSound : IsSound idle
idle-IsSound = record { valid = idle-IsValid; holding = tt; distinct = tt }

abbrev first_task : TaskRecord ℕ
first_task = record (new_record 1 "loot" pending "loot:x" 5) { state = running }

abbrev second_task : TaskRecord ℕ
second_task = record (new_record 2 "loot" pending "loot:y" 6) { state = running }

abbrev one_call : Calls ℕ
one_call = record {
  machine = record { tasks = (1, first_task) ∷ []; active = ("loot:x", 1) ∷ []; task_counter = 1 };
  flights = 1 ∷ [];
}

abbrev two_calls : Calls ℕ
two_calls = record {
  machine = record {
    tasks = (1, first_task) ∷ (2, second_task) ∷ [];
    active = ("loot:x", 1) ∷ ("loot:y", 2) ∷ [];
    task_counter = 2;
  };
  flights = 2 ∷ 1 ∷ [];
}

one_call-reached : CallReach plain idle one_call
unfolding begin_call sky_claw_gravity.ToolTask.is_active Dict.get
    sky_claw_gravity.ToolTask.create_task acquire_idempotency Dict.put transition
    sky_claw_gravity.ToolTask.is_allowed sky_claw_gravity.ToolTask.is_terminal
one_call-reached =
    Exclusion.next Exclusion.here (call_begins 5 "loot" "x" one_call.machine 1 refl refl)

two_calls-reached : CallReach plain idle two_calls
unfolding begin_call sky_claw_gravity.ToolTask.is_active Dict.get make_key
    sky_claw_gravity.ToolTask.create_task acquire_idempotency Dict.put transition
    sky_claw_gravity.ToolTask.is_allowed sky_claw_gravity.ToolTask.is_terminal
two_calls-reached =
    Exclusion.next one_call-reached (call_begins 6 "loot" "y" two_calls.machine 2 refl refl)

in_flight_once_example : first_task.idempotency_key ≢ second_task.idempotency_key
unfolding Dict.get
in_flight_once_example =
    in_flight_once plain idle two_calls 1 2 first_task second_task idle-IsSound two_calls-reached
      refl refl (omega arith) refl refl

key_after_end_example :
    ((begin_call plain 8 (end_call 7 two_calls.machine 1 (returned 4)) "loot" "x").1 ≡ ok (some 3))
    × ((begin_call plain 8 (end_call 7 two_calls.machine 1 (raised "no")) "loot" "x").1
        ≡ ok (some 3))
    × ((begin_call plain 8 (end_call 7 two_calls.machine 1 cancelled) "loot" "x").1 ≡ ok none)
unfolding Dict.get make_key
key_after_end_example =
    key_after_end plain idle two_calls 1 7 8 first_task "loot" "x" 4 "no" idle-IsSound
      two_calls-reached refl refl refl

abbrev one_pending : ToolStateMachine ℕ
one_pending = record {
  tasks = (1, new_record 1 "loot" pending "loot:x" 5) ∷ [];
  active = [];
  task_counter = 1;
}

one_pending-IsValid : IsValid one_pending
unfolding Dict.get
one_pending-IsValid = record { unique = (refl, tt); fresh = λ j above. ground arith }

one_pending-reaches : Reach plain one_pending (transition 6 one_pending 1 running none none).0
one_pending-reaches = Lifecycle.next Lifecycle.here (transition_step 6 1 running none none refl)

task_history_example :
    Continues
      (new_record {R = ℕ} 1 "loot" pending "loot:x" 5)
      (Dict.get (transition 6 one_pending 1 running none none).0.tasks 1)
unfolding Dict.get
task_history_example =
    task_history plain one_pending (transition 6 one_pending 1 running none none).0 1
      (new_record 1 "loot" pending "loot:x" 5) one_pending-IsValid refl one_pending-reaches

-- three tasks for one call: the first runs, the second waits for approval, the third is new
abbrev waiting_task : TaskRecord ℕ
waiting_task = new_record 2 "loot" awaiting_approval "loot:x" 6

abbrev third_task : TaskRecord ℕ
third_task = new_record 3 "loot" pending "loot:x" 7

abbrev three_tasks : ToolStateMachine ℕ
three_tasks = record {
  tasks = (1, first_task) ∷ (2, waiting_task) ∷ (3, third_task) ∷ [];
  active = ("loot:x", 1) ∷ [];
  task_counter = 3;
}

abbrev guardrail : Guardrail
guardrail = record { max_repeats = 3; window_size = 5; history = [] }

abbrev repeated : List (String × String)
repeated = ("a", "1") ∷ ("b", "1") ∷ ("b", "1") ∷ ("b", "1") ∷ ("b", "1") ∷ []

trips-eq-counted_example : trips plain guardrail repeated ≡ counted_trips plain 3 none repeated
unfolding new
trips-eq-counted_example = trips-eq-counted plain 3 5 guardrail repeated refl
