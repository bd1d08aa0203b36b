-- ===== src/SyncEngine/Pipeline/Counts.antt =====
-- No mod is lost and none is counted twice, in any order of the actions.
use sky_claw_gravity.Prelude.{
  Bool, Bool-cases, List, Option, [], ap, arith, false, if◌then◌else◌, inl, inr, leb, length, none,
  refl, some, suc, true, zero, ℕ, ◌++◌, ◌+◌, ◌∙◌, ◌∷◌, ◌≡◌,
}
use sky_claw_gravity.SyncEngine.Pipeline.{
  Action, Counted, Item, Pipe, SyncConfig, SyncResult, count, finish, finish_picked, has_room,
  is_failed, is_processed, is_skipped, mods, perform, pick, poison, process_batch, produce,
  produce_from, put_batch, put_poison, run, take_from, take_item,
}

abbrev pub same_count : Counted → Counted → Bool
same_count is_processed is_processed = true
same_count is_failed is_failed = true
same_count is_skipped is_skipped = true
same_count _ _ = false

-- a counter of a result
abbrev pub counter : Counted → SyncResult → ℕ
counter is_processed r = r.processed
counter is_failed r = r.failed
counter is_skipped r = r.skipped

counter-count :
    (k c : Counted) (r : SyncResult)
    → counter k (count c r) ≡ counter k r + (if same_count k c then 1 else 0)
unfolding count
counter-count is_processed is_processed r = omega arith
counter-count is_processed is_failed r = omega arith
counter-count is_processed is_skipped r = omega arith
counter-count is_failed is_processed r = omega arith
counter-count is_failed is_failed r = omega arith
counter-count is_failed is_skipped r = omega arith
counter-count is_skipped is_processed r = omega arith
counter-count is_skipped is_failed r = omega arith
counter-count is_skipped is_skipped r = omega arith

module _ {M : Type 0} (cfg : SyncConfig) (classify : M → Counted) (k : Counted) where
  -- the mods of a list that are counted so
  unfoldable pub tally : List M → ℕ
  tally [] = 0
  tally (m ∷ ms) = (if same_count k (classify m) then 1 else 0) + tally ms

  pub tally-append : (xs ys : List M) → tally (xs ++ ys) ≡ tally xs + tally ys
  unfolding tally
  tally-append [] ys = omega arith
  tally-append (x ∷ xs) ys = omega (arith, tally-append xs ys)

  -- those of batches, and of the items of a queue
  unfoldable pub tally_batches : List (List M) → ℕ
  tally_batches [] = 0
  tally_batches (ms ∷ rest) = tally ms + tally_batches rest

  unfoldable pub tally_items : List (Item M) → ℕ
  tally_items [] = 0
  tally_items (mods ms ∷ items) = tally ms + tally_items items
  tally_items (poison ∷ items) = tally_items items

  tally_items-append :
      (xs ys : List (Item M)) → tally_items (xs ++ ys) ≡ tally_items xs + tally_items ys
  unfolding tally_items
  tally_items-append [] ys = omega arith
  tally_items-append (mods ms ∷ xs) ys = omega (arith, tally_items-append xs ys)
  tally_items-append (poison ∷ xs) ys = tally_items-append xs ys

  pub counter-process_batch :
      (ms : List M) (r : SyncResult)
      → counter k (process_batch cfg classify ms r) ≡ counter k r + tally ms
  unfolding process_batch tally
  counter-process_batch [] r = omega arith
  counter-process_batch (m ∷ ms) r =
      omega (arith, counter-process_batch ms (count (classify m) r), counter-count k (classify m) r)

  -- the mods that are counted so already, or will be
  abbrev pub total : Pipe M → ℕ
  total p =
      counter k p.result
      + tally_batches p.working
      + tally_items p.queue
      + tally p.batch
      + tally p.todo

  put_batch-total : (p : Pipe M) → total (put_batch cfg classify p) ≡ total p
  unfolding put_batch tally tally_items
  put_batch-total p = elim (Bool-cases (has_room cfg classify p)) [
    | inl h ↦ rw (h, put_batch) (omega (arith, tally_items-append p.queue (mods p.batch ∷ [])))
    | inr h ↦ rw (h, put_batch) refl
  ]

  put_poison-total : (n : ℕ) (p : Pipe M) → total (put_poison cfg classify n p) ≡ total p
  unfolding put_poison tally_items
  put_poison-total zero p = refl
  put_poison-total (suc n) p = elim (Bool-cases (has_room cfg classify p)) [
    | inl h ↦ rw (h, put_poison) (omega (arith, tally_items-append p.queue (poison ∷ [])))
    | inr h ↦ rw (h, put_poison) refl
  ]

  produce_from-total :
      (bs ms : List M) (p : Pipe M)
      → p.batch ≡ bs
      → p.todo ≡ ms
      → total (produce_from cfg classify bs ms p) ≡ total p
  unfolding produce_from tally
  produce_from-total [] [] p e f = put_poison-total p.poisons p
  produce_from-total [] (m ∷ ms) p e f = omega (arith, ap tally e, ap tally f)
  produce_from-total (b ∷ bs) [] p e f = put_batch-total p
  produce_from-total (b ∷ bs) (m ∷ ms) p e f =
      elim (Bool-cases (leb cfg.batch_size (length (b ∷ bs)))) [
        | inl h ↦ rw (h, produce_from) (put_batch-total p)
        | inr h ↦
            rw (h, produce_from)
              (omega (arith, ap tally e, ap tally f, tally-append (b ∷ bs) (m ∷ [])))
      ]

  take_from-total :
      (n : ℕ) (items : List (Item M)) (p : Pipe M)
      → p.queue ≡ items
      → total (take_from cfg classify n items p) ≡ total p
  unfolding take_from tally_items tally_batches
  take_from-total zero items p e = refl
  take_from-total (suc n) [] p e = refl
  take_from-total (suc n) (mods ms ∷ items) p e = omega (arith, ap tally_items e)
  take_from-total (suc n) (poison ∷ items) p e = omega (arith, ap tally_items e)

  -- a batch that is picked, and the others
  abbrev Picked : List (List M) → Option (List M × List (List M)) → Type 0
  Picked batches none = Unit
  Picked batches (some (ms, others)) = tally_batches batches ≡ tally ms + tally_batches others

  pick-suc :
      (ms : List M) (rest : List (List M)) (o : Option (List M × List (List M)))
      → Picked rest o
      → Picked (ms ∷ rest) (elim o as (λ _. Option (List M × List (List M))) [
        | none ↦ none
        | some (picked, others) ↦ some (picked, ms ∷ others)
      ])
  unfolding tally_batches
  pick-suc ms rest none h = tt
  pick-suc ms rest (some (picked, others)) h = omega (arith, h)

  pick-Picked : (i : ℕ) (batches : List (List M)) → Picked batches (pick cfg classify i batches)
  unfolding pick tally_batches
  pick-Picked i [] = tt
  pick-Picked zero (ms ∷ rest) = refl
  pick-Picked (suc i) (ms ∷ rest) = pick-suc ms rest (pick cfg classify i rest) (pick-Picked i rest)

  finish_picked-total :
      (p : Pipe M) (o : Option (List M × List (List M)))
      → Picked p.working o
      → total (finish_picked cfg classify o p) ≡ total p
  unfolding finish_picked
  finish_picked-total p none h = refl
  finish_picked-total p (some (ms, others)) h = omega (arith, h, counter-process_batch ms p.result)

  perform-total : (a : Action) (p : Pipe M) → total (perform cfg classify a p) ≡ total p
  unfolding perform
  perform-total produce p = produce_from-total p.batch p.todo p refl refl
  perform-total take_item p = take_from-total p.waiting p.queue p refl
  perform-total (finish i) p = finish_picked-total p _ (pick-Picked i p.working)

  pub run-total :
      (actions : List Action) (p : Pipe M) → total (run cfg classify actions p) ≡ total p
  unfolding run
  run-total [] p = refl
  run-total (a ∷ actions) p = run-total actions (perform cfg classify a p) ∙ perform-total a p
