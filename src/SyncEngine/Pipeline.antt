-- ===== src/SyncEngine/Pipeline.antt =====
-- `SyncEngine.run` of sky_claw/antigravity/orchestrator/sync_engine.py: a producer reads the modlist
-- into batches, and workers take them from a bounded queue. A run is a sequence of actions in any
-- order; one that is not possible is passed over. How a mod is counted is an argument of a run, which
-- `counted` gives from its Nexus id and the answers of the network. The time limits on the queue, and
-- exceptions that a batch does not catch, end a run early and are not modelled.
pub mod Counts
pub mod Ending
pub mod Results
pub mod Progress
use sky_claw_gravity.Prelude.{
  Bool, List, Option, [], if◌then◌else◌, leb, length, ltb, none, some, suc, zero, ℕ, ◌++◌, ◌+◌,
  ◌==◌, ◌||◌, ◌∷◌, nat_eq, string_eq,
}

-- how `_process_batch_inner` counts a mod
pub data Counted : Type 0 where
  is_processed is_failed is_skipped : Counted

-- the answer of `_safe_fetch_info`: nothing, metadata that have a `mod_id` or not, or an error that
-- the batch catches
pub data Fetched : Type 0 where
  no_info fetch_failed : Fetched
  info : Bool → Fetched

unfoldable pub count_fetched : Fetched → Counted
count_fetched no_info = is_skipped
count_fetched fetch_failed = is_failed
count_fetched (info has_mod_id) = if has_mod_id then is_processed else is_skipped

-- one turn of the loop of `_process_batch_inner`, from `_extract_nexus_id`
unfoldable pub counted : {M : Type 0} → (M → Option ℕ) → (ℕ → Fetched) → M → Counted
unfolding count_fetched
counted extract_nexus_id fetch m = elim (extract_nexus_id m) [
  | none ↦ is_skipped
  | some nexus_id ↦ count_fetched (fetch nexus_id)
]

-- `SyncResult`
pub record SyncResult : Type 0 where
  pub processed : ℕ
  pub failed : ℕ
  pub skipped : ℕ

-- the tunables of `SyncConfig` that a run uses
pub record SyncConfig : Type 0 where
  pub worker_count : ℕ
  pub batch_size : ℕ
  pub queue_maxsize : ℕ

module _ (M : Type 0) where
  -- an item of the queue, a batch or the `_POISON`
  pub data Item : Type 0 where
    mods : List M → Item
    poison : Item

  -- the mods that are still to be read, the batch of the producer, the queue, the poison that it
  -- still has to send, and the workers: those that wait, the batches of those that work, and those
  -- that returned
  pub record Pipe : Type 0 where
    pub todo : List M
    pub batch : List M
    pub queue : List Item
    pub poisons : ℕ
    pub waiting : ℕ
    pub working : List (List M)
    pub ended : ℕ
    pub result : SyncResult

-- a step of the producer, of a worker that waits, or of the worker at an index that works
pub data Action : Type 0 where
  produce take_item : Action
  finish : ℕ → Action

unfoldable pub count : Counted → SyncResult → SyncResult
count is_processed r = record r { processed = r.processed + 1 }
count is_failed r = record r { failed = r.failed + 1 }
count is_skipped r = record r { skipped = r.skipped + 1 }

module _ {M : Type 0} (cfg : SyncConfig) (classify : M → Counted) where
  -- `_process_batch_inner`
  unfoldable pub process_batch : List M → SyncResult → SyncResult
  unfolding count
  process_batch [] r = r
  process_batch (m ∷ ms) r = process_batch ms (count (classify m) r)

  -- a `maxsize` of 0 sets no limit
  unfoldable pub has_room : Pipe M → Bool
  has_room p = cfg.queue_maxsize == 0 || ltb (length p.queue) cfg.queue_maxsize

  -- `queue.put(batch)`
  unfoldable pub put_batch : Pipe M → Pipe M
  unfolding has_room
  put_batch p =
      if has_room p then record p { batch = []; queue = p.queue ++ mods p.batch ∷ [] } else p

  -- `queue.put(_POISON)`
  unfoldable pub put_poison : ℕ → Pipe M → Pipe M
  unfolding has_room
  put_poison zero p = p
  put_poison (suc n) p =
      if has_room p then record p { poisons = n; queue = p.queue ++ poison ∷ [] } else p

  -- `_produce_then_poison`, by its batch and what it has still to read
  unfoldable pub produce_from : List M → List M → Pipe M → Pipe M
  unfolding put_batch put_poison
  produce_from [] [] p = put_poison p.poisons p
  produce_from [] (m ∷ ms) p = record p { todo = ms; batch = m ∷ [] }
  produce_from (b ∷ bs) [] p = put_batch p
  produce_from (b ∷ bs) (m ∷ ms) p =
      if leb cfg.batch_size (length (b ∷ bs))
      then put_batch p
      else record p { todo = ms; batch = b ∷ bs ++ m ∷ [] }

  -- `queue.get()` of a worker that waits
  unfoldable pub take_from : ℕ → List (Item M) → Pipe M → Pipe M
  take_from zero items p = p
  take_from (suc n) [] p = p
  take_from (suc n) (mods ms ∷ items) p = record p {
    waiting = n;
    queue = items;
    working = ms ∷ p.working;
  }
  take_from (suc n) (poison ∷ items) p = record p {
    waiting = n;
    queue = items;
    ended = p.ended + 1;
  }

  -- the batch at an index, and the others
  unfoldable pub pick : ℕ → List (List M) → Option (List M × List (List M))
  pick i [] = none
  pick zero (ms ∷ rest) = some (ms, rest)
  pick (suc i) (ms ∷ rest) = elim (pick i rest) [
    | none ↦ none
    | some (picked, others) ↦ some (picked, ms ∷ others)
  ]

  unfoldable pub finish_picked : Option (List M × List (List M)) → Pipe M → Pipe M
  unfolding process_batch
  finish_picked none p = p
  finish_picked (some (ms, others)) p = record p {
    waiting = p.waiting + 1;
    working = others;
    result = process_batch ms p.result;
  }

  unfoldable pub perform : Action → Pipe M → Pipe M
  unfolding produce_from take_from pick finish_picked
  perform produce p = produce_from p.batch p.todo p
  perform take_item p = take_from p.waiting p.queue p
  perform (finish i) p = finish_picked (pick i p.working) p

  unfoldable pub run : List Action → Pipe M → Pipe M
  unfolding perform
  run [] p = p
  run (a ∷ actions) p = run actions (perform a p)

  -- the start of a run
  unfoldable pub start_run : List M → Pipe M
  start_run modlist = record {
    todo = modlist;
    batch = [];
    queue = [];
    poisons = cfg.worker_count;
    waiting = cfg.worker_count;
    working = [];
    ended = 0;
    result = record { processed = 0; failed = 0; skipped = 0 };
  }
