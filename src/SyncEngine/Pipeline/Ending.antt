-- ===== src/SyncEngine/Pipeline/Ending.antt =====
-- What holds of the workers, the poisons and the queue, in any order of the actions.
use sky_claw_gravity.Prelude.{
  Bool-cases, List, Option, [], ap, arith, inl, inr, leb, length, none, refl, some, subst, suc,
  zero, ℕ, ◌++◌, ◌+◌, ◌∷◌, ◌≡◌, ◌≢◌, ◌⊎◌,
}
use sky_claw_gravity.SyncEngine.Pipeline.{
  Action, Counted, Item, Pipe, SyncConfig, finish, finish_picked, has_room, mods, perform, pick,
  poison, produce, produce_from, put_batch, put_poison, run, start_run, take_from, take_item,
}

module _ {M : Type 0} where
  -- no batch, and no batch after a poison
  abbrev pub OnlyPoison : List (Item M) → Type 0
  OnlyPoison [] = Unit
  OnlyPoison (mods ms ∷ items) = ⊥
  OnlyPoison (poison ∷ items) = OnlyPoison items

  abbrev pub PoisonLast : List (Item M) → Type 0
  PoisonLast [] = Unit
  PoisonLast (mods ms ∷ items) = PoisonLast items
  PoisonLast (poison ∷ items) = OnlyPoison items

  abbrev pub poison_count : List (Item M) → ℕ
  poison_count [] = 0
  poison_count (mods ms ∷ items) = poison_count items
  poison_count (poison ∷ items) = suc (poison_count items)

  poison_count-append :
      (xs ys : List (Item M)) → poison_count (xs ++ ys) ≡ poison_count xs + poison_count ys
  poison_count-append [] ys = omega arith
  poison_count-append (mods ms ∷ xs) ys = poison_count-append xs ys
  poison_count-append (poison ∷ xs) ys = omega (arith, poison_count-append xs ys)

  PoisonLast-mods :
      (xs : List (Item M)) (ms : List M) → poison_count xs ≡ 0 → PoisonLast (xs ++ mods ms ∷ [])
  PoisonLast-mods [] ms h = tt
  PoisonLast-mods (mods _ ∷ xs) ms h = PoisonLast-mods xs ms h
  PoisonLast-mods (poison ∷ xs) ms h = absurd (omega (arith, h))

  OnlyPoison-poison : (xs : List (Item M)) → OnlyPoison xs → OnlyPoison (xs ++ poison ∷ [])
  OnlyPoison-poison [] h = tt
  OnlyPoison-poison (mods ms ∷ xs) h = h
  OnlyPoison-poison (poison ∷ xs) h = OnlyPoison-poison xs h

  PoisonLast-poison : (xs : List (Item M)) → PoisonLast xs → PoisonLast (xs ++ poison ∷ [])
  PoisonLast-poison [] h = tt
  PoisonLast-poison (mods ms ∷ xs) h = PoisonLast-poison xs h
  PoisonLast-poison (poison ∷ xs) h = OnlyPoison-poison xs h

  OnlyPoison-PoisonLast : (xs : List (Item M)) → OnlyPoison xs → PoisonLast xs
  OnlyPoison-PoisonLast [] h = tt
  OnlyPoison-PoisonLast (mods ms ∷ xs) h = absurd h
  OnlyPoison-PoisonLast (poison ∷ xs) h = h

  -- what holds between the actions, with so many workers
  pub record IsValid (workers : ℕ) (p : Pipe M) : Type 0 where
    pub all_workers : p.waiting + length p.working + p.ended ≡ workers
    pub all_poison : p.poisons + poison_count p.queue + p.ended ≡ workers
    pub read_first : (p.poisons ≡ workers) ⊎ ((p.todo ≡ []) × (p.batch ≡ []))
    pub ordered : PoisonLast p.queue
    pub drained : (p.ended ≡ 0) ⊎ OnlyPoison p.queue

module _ {M : Type 0} (cfg : SyncConfig) (classify : M → Counted) where
  pub start_run-IsValid :
      (modlist : List M) → IsValid cfg.worker_count (start_run cfg classify modlist)
  unfolding start_run
  start_run-IsValid modlist = record {
    all_workers = omega arith;
    all_poison = omega arith;
    read_first = inl refl;
    ordered = tt;
    drained = inl refl;
  }

  put_batch-IsValid :
      (p : Pipe M)
      → p.poisons ≡ cfg.worker_count
      → IsValid cfg.worker_count p
      → IsValid cfg.worker_count (put_batch cfg classify p)
  unfolding put_batch
  put_batch-IsValid p e v = elim (Bool-cases (has_room cfg classify p)) [
    | inl h ↦
        rw (h, put_batch)
          (record {
            all_workers = v.all_workers;
            all_poison =
                omega (arith, v.all_poison, poison_count-append p.queue (mods p.batch ∷ []));
            read_first = inl e;
            ordered = PoisonLast-mods p.queue p.batch (omega (arith, v.all_poison, e));
            drained = inl (omega (arith, v.all_poison, e));
          })
    | inr h ↦ rw (h, put_batch) v
  ]

  put_poison-IsValid :
      (n : ℕ) (p : Pipe M)
      → p.poisons ≡ n
      → p.todo ≡ []
      → p.batch ≡ []
      → IsValid cfg.worker_count p
      → IsValid cfg.worker_count (put_poison cfg classify n p)
  unfolding put_poison
  put_poison-IsValid zero p e t b v = v
  put_poison-IsValid (suc n) p e t b v = elim (Bool-cases (has_room cfg classify p)) [
    | inl h ↦
        rw (h, put_poison)
          (record {
            all_workers = v.all_workers;
            all_poison = omega (arith, v.all_poison, e, poison_count-append p.queue (poison ∷ []));
            read_first = inr (t, b);
            ordered = PoisonLast-poison p.queue v.ordered;
            drained = elim v.drained [ inl z ↦ inl z | inr o ↦ inr (OnlyPoison-poison p.queue o) ];
          })
    | inr h ↦ rw (h, put_poison) v
  ]

  -- while there is something to read or to put, no poison was sent
  still_reading :
      (p : Pipe M)
      → (p.todo ≢ []) ⊎ (p.batch ≢ [])
      → IsValid cfg.worker_count p
      → p.poisons ≡ cfg.worker_count
  still_reading p h v = elim v.read_first [
    | inl e ↦ e
    | inr (t, b) ↦ elim h [ inl n ↦ absurd (n t) | inr n ↦ absurd (n b) ]
  ]

  read-IsValid :
      (p : Pipe M) (todo batch : List M)
      → p.poisons ≡ cfg.worker_count
      → IsValid cfg.worker_count p
      → IsValid cfg.worker_count (record p { todo = todo; batch = batch })
  read-IsValid p todo batch e v = record {
    all_workers = v.all_workers;
    all_poison = v.all_poison;
    read_first = inl e;
    ordered = v.ordered;
    drained = v.drained;
  }

  produce_from-IsValid :
      (bs ms : List M) (p : Pipe M)
      → p.batch ≡ bs
      → p.todo ≡ ms
      → IsValid cfg.worker_count p
      → IsValid cfg.worker_count (produce_from cfg classify bs ms p)
  unfolding produce_from
  produce_from-IsValid [] [] p e f v = put_poison-IsValid p.poisons p refl f e v
  produce_from-IsValid [] (m ∷ ms) p e f v =
      read-IsValid p ms (m ∷ []) (still_reading p (inl (λ n. ground (arith, n, f))) v) v
  produce_from-IsValid (b ∷ bs) [] p e f v =
      put_batch-IsValid p (still_reading p (inr (λ n. ground (arith, n, e))) v) v
  produce_from-IsValid (b ∷ bs) (m ∷ ms) p e f v =
      let reading = still_reading p (inl (λ n. ground (arith, n, f))) v in
      elim (Bool-cases (leb cfg.batch_size (length (b ∷ bs)))) [
        | inl h ↦ rw (h, produce_from) (put_batch-IsValid p reading v)
        | inr h ↦ rw (h, produce_from) (read-IsValid p ms (b ∷ bs ++ m ∷ []) reading v)
      ]

  take_from-IsValid :
      (n : ℕ) (items : List (Item M)) (p : Pipe M)
      → p.waiting ≡ n
      → p.queue ≡ items
      → IsValid cfg.worker_count p
      → IsValid cfg.worker_count (take_from cfg classify n items p)
  unfolding take_from
  take_from-IsValid zero items p w e v = v
  take_from-IsValid (suc n) [] p w e v = v
  take_from-IsValid (suc n) (mods ms ∷ items) p w e v =
      let ordered : PoisonLast (mods ms ∷ items) = subst PoisonLast e v.ordered in
      record {
        all_workers = omega (arith, v.all_workers, w);
        all_poison = omega (arith, v.all_poison, ap poison_count e);
        read_first = v.read_first;
        ordered = ordered;
        drained = elim v.drained [ inl z ↦ inl z | inr o ↦ absurd (subst OnlyPoison e o) ];
      }
  take_from-IsValid (suc n) (poison ∷ items) p w e v =
      let only : OnlyPoison items = subst PoisonLast e v.ordered in
      record {
        all_workers = omega (arith, v.all_workers, w);
        all_poison = omega (arith, v.all_poison, ap poison_count e);
        read_first = v.read_first;
        ordered = OnlyPoison-PoisonLast items only;
        drained = inr only;
      }

  -- a batch that is picked leaves one batch fewer
  abbrev Shorter : List (List M) → Option (List M × List (List M)) → Type 0
  Shorter batches none = Unit
  Shorter batches (some (ms, others)) = length batches ≡ suc (length others)

  pick-suc :
      (ms : List M) (rest : List (List M)) (o : Option (List M × List (List M)))
      → Shorter rest o
      → Shorter (ms ∷ rest) (elim o as (λ _. Option (List M × List (List M))) [
        | none ↦ none
        | some (picked, others) ↦ some (picked, ms ∷ others)
      ])
  pick-suc ms rest none h = tt
  pick-suc ms rest (some (picked, others)) h = ap suc h

  pick-Shorter : (i : ℕ) (batches : List (List M)) → Shorter batches (pick cfg classify i batches)
  unfolding pick
  pick-Shorter i [] = tt
  pick-Shorter zero (ms ∷ rest) = refl
  pick-Shorter (suc i) (ms ∷ rest) =
      pick-suc ms rest (pick cfg classify i rest) (pick-Shorter i rest)

  finish_picked-IsValid :
      (p : Pipe M) (o : Option (List M × List (List M)))
      → Shorter p.working o
      → IsValid cfg.worker_count p
      → IsValid cfg.worker_count (finish_picked cfg classify o p)
  unfolding finish_picked
  finish_picked-IsValid p none h v = v
  finish_picked-IsValid p (some (ms, others)) h v = record {
    all_workers = omega (arith, v.all_workers, h);
    all_poison = v.all_poison;
    read_first = v.read_first;
    ordered = v.ordered;
    drained = v.drained;
  }

  pub perform-IsValid :
      (a : Action) (p : Pipe M)
      → IsValid cfg.worker_count p
      → IsValid cfg.worker_count (perform cfg classify a p)
  unfolding perform
  perform-IsValid produce p v = produce_from-IsValid p.batch p.todo p refl refl v
  perform-IsValid take_item p v = take_from-IsValid p.waiting p.queue p refl refl v
  perform-IsValid (finish i) p v = finish_picked-IsValid p _ (pick-Shorter i p.working) v

  pub run-IsValid :
      (actions : List Action) (p : Pipe M)
      → IsValid cfg.worker_count p
      → IsValid cfg.worker_count (run cfg classify actions p)
  unfolding run
  run-IsValid [] p v = v
  run-IsValid (a ∷ actions) p v =
      run-IsValid actions (perform cfg classify a p) (perform-IsValid a p v)
