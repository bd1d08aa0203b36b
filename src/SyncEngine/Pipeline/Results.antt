-- ===== src/SyncEngine/Pipeline/Results.antt =====
-- When every worker has returned, the counts are those of the sequential loop.
use sky_claw_gravity.Prelude.{
  List, [], ap, arith, inl, inr, length, refl, sym, ◌+◌, ◌<◌, ◌∙◌, ◌∷◌, ◌≡◌,
}
use sky_claw_gravity.SyncEngine.Pipeline.{
  Action, Counted, Item, Pipe, SyncConfig, SyncResult, is_failed, is_processed, is_skipped, mods,
  poison, process_batch, run, start_run,
}
use sky_claw_gravity.SyncEngine.Pipeline.Counts.{
  counter, counter-process_batch, run-total, tally, tally_batches, tally_items, total,
}
use sky_claw_gravity.SyncEngine.Pipeline.Ending.{
  IsValid, OnlyPoison, poison_count, run-IsValid, start_run-IsValid,
}

OnlyPoison-empty :
    {M : Type 0} (items : List (Item M)) → OnlyPoison items → poison_count items ≡ 0 → items ≡ []
OnlyPoison-empty [] o h = refl
OnlyPoison-empty (mods ms ∷ items) o h = absurd o
OnlyPoison-empty (poison ∷ items) o h = absurd (omega (arith, h))

length-empty : {A : Type 0} (xs : List A) → length xs ≡ 0 → xs ≡ []
length-empty [] h = refl
length-empty (x ∷ xs) h = absurd (omega (arith, h))

module _ {M : Type 0} (cfg : SyncConfig) (classify : M → Counted) where
  -- nothing is left once every worker has returned
  abbrev pub IsDrained : Pipe M → Type 0
  IsDrained p = (p.todo ≡ []) × (p.batch ≡ []) × (p.queue ≡ []) × (p.working ≡ [])

  pub ended-IsDrained :
      (p : Pipe M)
      → 0 < cfg.worker_count
      → IsValid cfg.worker_count p
      → p.ended ≡ cfg.worker_count
      → IsDrained p
  ended-IsDrained p w v e =
      let no_poison : poison_count p.queue ≡ 0 = omega (arith, v.all_poison, e) in
      let no_work : length p.working ≡ 0 = omega (arith, v.all_workers, e) in
      let (todo, batch) = elim v.read_first as (λ _. (p.todo ≡ []) × (p.batch ≡ [])) [
        | inl z ↦ absurd (omega (arith, z, v.all_poison, e, w))
        | inr r ↦ r
      ] in
      let queue = elim v.drained as (λ _. p.queue ≡ []) [
        | inl z ↦ absurd (omega (arith, z, e, w))
        | inr o ↦ OnlyPoison-empty p.queue o no_poison
      ] in
      (todo, batch, queue, length-empty p.working no_work)

  drained-counter :
      (k : Counted) (p : Pipe M) → IsDrained p → total cfg classify k p ≡ counter k p.result
  unfolding tally tally_items tally_batches
  drained-counter k p (t, b, q, w) = omega (
    arith,
    ap (tally cfg classify k) t,
    ap (tally cfg classify k) b,
    ap (tally_items cfg classify k) q,
    ap (tally_batches cfg classify k) w,
  )

  start-total :
      (k : Counted) (modlist : List M)
      → total cfg classify k (start_run cfg classify modlist) ≡ tally cfg classify k modlist
  unfolding start_run tally tally_items tally_batches
  start-total is_processed modlist = omega arith
  start-total is_failed modlist = omega arith
  start-total is_skipped modlist = omega arith

  -- no counts yet
  abbrev pub no_result : SyncResult
  no_result = record { processed = 0; failed = 0; skipped = 0 }

  counted_once :
      (k : Counted) (modlist : List M) (actions : List Action)
      → IsDrained (run cfg classify actions (start_run cfg classify modlist))
      → counter k (run cfg classify actions (start_run cfg classify modlist)).result
        ≡ counter k (process_batch cfg classify modlist no_result)
  counted_once k modlist actions d =
      sym (drained-counter k (run cfg classify actions (start_run cfg classify modlist)) d)
      ∙ run-total cfg classify k actions (start_run cfg classify modlist)
      ∙ start-total k modlist
      ∙ zero_first k
      ∙ sym (counter-process_batch cfg classify k modlist no_result)
    where
      zero_first :
          (j : Counted)
          → tally cfg classify j modlist ≡ counter j no_result + tally cfg classify j modlist
      zero_first is_processed = omega arith
      zero_first is_failed = omega arith
      zero_first is_skipped = omega arith

  -- With at least one worker, in every order of the actions of the producer and the workers, with any
  -- sizes of the batches and the queue: once all workers have returned, the whole modlist was read,
  -- nothing is left in the queue or in work, and the result is the one of a single loop over the
  -- modlist, so that each mod was counted once.
  pub run-process_batch :
      (modlist : List M) (actions : List Action)
      → 0 < cfg.worker_count
      → (run cfg classify actions (start_run cfg classify modlist)).ended ≡ cfg.worker_count
      → let p = run cfg classify actions (start_run cfg classify modlist) in
        IsDrained p × (p.result ≡ process_batch cfg classify modlist no_result)
  run-process_batch modlist actions w e =
      let start = start_run cfg classify modlist in
      let drained =
        ended-IsDrained (run cfg classify actions start) w
          (run-IsValid cfg classify actions start (start_run-IsValid cfg classify modlist)) e in
      (
        drained,
        ground (
          arith,
          counted_once is_processed modlist actions drained,
          counted_once is_failed modlist actions drained,
          counted_once is_skipped modlist actions drained,
        ),
      )
