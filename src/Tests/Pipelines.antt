-- ===== src/Tests/Pipelines.antt =====
-- The pipeline of a synchronisation.
use sky_claw_gravity.Prelude.{
  List, [], arith, if◌then◌else◌, none, refl, some, true, ℕ, ◌==◌, ◌∷◌, ◌≡◌, nat_eq, string_eq,
}
use sky_claw_gravity.SyncEngine.Pipeline.{
  Action, Counted, SyncConfig, counted, finish, info, process_batch, produce, run, start_run,
  take_item,
}
use sky_claw_gravity.SyncEngine.Pipeline.Results.{IsDrained, no_result, run-process_batch}
use sky_claw_gravity.SyncEngine.Pipeline.Progress.{Ends, run-Ends, work_left}

-- two workers, and batches of one mod
abbrev config : SyncConfig
config = record { worker_count = 2; batch_size = 1; queue_maxsize = 1 }

abbrev classify : ℕ → Counted
classify = counted (λ m. if m == 0 then none else some m) (λ nexus_id. info true)

abbrev actions : List Action
actions =
    produce
    ∷ produce
    ∷ take_item
    ∷ produce
    ∷ produce
    ∷ take_item
    ∷ finish 1
    ∷ finish 0
    ∷ produce
    ∷ take_item
    ∷ produce
    ∷ take_item
    ∷ []

run-process_batch_example :
    let p = run config classify actions (start_run config classify (7 ∷ 0 ∷ [])) in
    IsDrained config classify p
    × (p.result ≡ process_batch config classify (7 ∷ 0 ∷ []) (no_result config classify))
unfolding run start_run
run-process_batch_example =
    run-process_batch config classify (7 ∷ 0 ∷ []) actions (omega arith) refl

run-Ends_example :
    let p = run config classify (produce ∷ produce ∷ []) (start_run config classify (7 ∷ 0 ∷ [])) in
    Ends config classify (work_left p) p
run-Ends_example = run-Ends config classify (7 ∷ 0 ∷ []) (produce ∷ produce ∷ [])
