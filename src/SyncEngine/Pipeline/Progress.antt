-- ===== src/SyncEngine/Pipeline/Progress.antt =====
-- A run that has not ended can go on, and ends.
use sky_claw_gravity.Prelude.{
  Bool-cases, List, [], ap, arith, false, inl, inr, leb, length, length-append, ltb, ltb→lt, refl,
  subst, suc, sym, true, zero, ℕ, ◌*◌, ◌++◌, ◌+◌, ◌-◌, ◌<◌, ◌∷◌, ◌≡◌, ◌≤◌,
}
use sky_claw_gravity.SyncEngine.Pipeline.{
  Action, Counted, Item, Pipe, SyncConfig, finish, finish_picked, has_room, mods, perform, pick,
  poison, produce, produce_from, put_batch, put_poison, run, start_run, take_from, take_item,
}
use sky_claw_gravity.SyncEngine.Pipeline.Ending.{
  IsValid, perform-IsValid, poison_count, run-IsValid, start_run-IsValid,
}

module _ {M : Type 0} where
  -- the actions that the items of a queue still need
  abbrev pub items_left : List (Item M) → ℕ
  items_left [] = 0
  items_left (mods ms ∷ items) = 2 + items_left items
  items_left (poison ∷ items) = 1 + items_left items

  items_left-append :
      (xs ys : List (Item M)) → items_left (xs ++ ys) ≡ items_left xs + items_left ys
  items_left-append [] ys = omega arith
  items_left-append (mods ms ∷ xs) ys = omega (arith, items_left-append xs ys)
  items_left-append (poison ∷ xs) ys = omega (arith, items_left-append xs ys)

  -- it falls with every action that is possible
  abbrev pub work_left : Pipe M → ℕ
  work_left p =
      4 * length p.todo + 3 * length p.batch + items_left p.queue + length p.working + 2 * p.poisons

not_less : (a b : ℕ) → ltb a b ≡ false → b ≤ a
not_less a b h = ground (arith, h)

module _ {M : Type 0} (cfg : SyncConfig) (classify : M → Counted) where
  -- the producer goes on when the queue is empty
  put_batch-falls :
      (b : M) (bs : List M) (p : Pipe M)
      → p.batch ≡ b ∷ bs
      → p.queue ≡ []
      → work_left (put_batch cfg classify p) < work_left p
  unfolding put_batch has_room
  put_batch-falls b bs p e q =
      let h : has_room cfg classify p ≡ true = ground (arith, ap length q) in
      rw (h, put_batch) (omega (arith, ap length e, items_left-append p.queue (mods p.batch ∷ [])))

  put_poison-falls :
      (n : ℕ) (p : Pipe M)
      → p.poisons ≡ suc n
      → p.queue ≡ []
      → work_left (put_poison cfg classify (suc n) p) < work_left p
  unfolding put_poison has_room
  put_poison-falls n p e q =
      let h : has_room cfg classify p ≡ true = ground (arith, ap length q) in
      rw (h, put_poison) (omega (arith, e, items_left-append p.queue (poison ∷ [])))

  produce_from-falls :
      (bs ms : List M) (p : Pipe M) (n : ℕ)
      → p.batch ≡ bs
      → p.todo ≡ ms
      → p.poisons ≡ suc n
      → p.queue ≡ []
      → work_left (produce_from cfg classify bs ms p) < work_left p
  unfolding produce_from
  produce_from-falls [] [] p n e f s q =
      subst (λ k. work_left (put_poison cfg classify k p) < work_left p) (sym s)
        (put_poison-falls n p s q)
  produce_from-falls [] (m ∷ ms) p n e f s q = omega (arith, ap length e, ap length f)
  produce_from-falls (b ∷ bs) [] p n e f s q = put_batch-falls b bs p e q
  produce_from-falls (b ∷ bs) (m ∷ ms) p n e f s q =
      elim (Bool-cases (leb cfg.batch_size (length (b ∷ bs)))) [
        | inl h ↦ rw (h, produce_from) (put_batch-falls b bs p e q)
        | inr h ↦
            rw (h, produce_from)
              (omega (arith, ap length e, ap length f, length-append (b ∷ bs) (m ∷ [])))
      ]

  take_from-falls :
      (n : ℕ) (item : Item M) (items : List (Item M)) (p : Pipe M)
      → p.queue ≡ item ∷ items
      → work_left (take_from cfg classify (suc n) (item ∷ items) p) < work_left p
  unfolding take_from
  take_from-falls n (mods ms) items p q = omega (arith, ap items_left q)
  take_from-falls n poison items p q = omega (arith, ap items_left q)

  finish-falls :
      (ms : List M) (rest : List (List M)) (p : Pipe M)
      → p.working ≡ ms ∷ rest
      → work_left (perform cfg classify (finish 0) p) < work_left p
  unfolding perform finish_picked pick
  finish-falls ms rest p e =
      subst (λ w. work_left (finish_picked cfg classify (pick cfg classify 0 w) p) < work_left p)
        (sym e) (omega (arith, ap length e))

  -- an action that is possible
  abbrev Possible : Pipe M → Type 0
  Possible p = (a : Action) × (work_left (perform cfg classify a p) < work_left p)

  go_on :
      (n : ℕ) (working : List (List M)) (queue : List (Item M)) (p : Pipe M)
      → p.waiting ≡ n
      → p.working ≡ working
      → p.queue ≡ queue
      → IsValid cfg.worker_count p
      → p.ended < cfg.worker_count
      → Possible p
  unfolding perform
  go_on n (ms ∷ rest) queue p w k q v l = (finish 0, finish-falls ms rest p k)
  go_on zero [] queue p w k q v l = absurd (omega (arith, v.all_workers, w, ap length k, l))
  go_on (suc n) [] (item ∷ items) p w k q v l = (
    take_item,
    subst (λ x. work_left (take_from cfg classify x p.queue p) < work_left p) (sym w)
        (subst (λ x. work_left (take_from cfg classify (suc n) x p) < work_left p) (sym q)
          (take_from-falls n item items p q)),
  )
  go_on (suc n) [] [] p w k q v l = (
    produce,
    produce_from-falls p.batch p.todo p (p.poisons - 1) refl refl
        (omega (arith, v.all_poison, ap poison_count q, l)) q,
  )

  -- the actions that end a run
  abbrev pub Ends : ℕ → Pipe M → Type 0
  Ends most p =
      (actions : List Action) × ((run cfg classify actions p).ended ≡ cfg.worker_count)
      × (length actions ≤ most)

  ended_now :
      (fuel : ℕ) (p : Pipe M)
      → IsValid cfg.worker_count p
      → ltb p.ended cfg.worker_count ≡ false
      → Ends fuel p
  unfolding run
  ended_now fuel p v e =
      ([], omega (arith, v.all_workers, not_less p.ended cfg.worker_count e), omega arith)

  possible : (p : Pipe M) → IsValid cfg.worker_count p → p.ended < cfg.worker_count → Possible p
  possible p v l = go_on p.waiting p.working p.queue p refl refl refl v l

  finish_within :
      (fuel : ℕ) (p : Pipe M) → work_left p ≤ fuel → IsValid cfg.worker_count p → Ends fuel p
  unfolding run
  finish_within zero p h v = elim (Bool-cases (ltb p.ended cfg.worker_count)) [
    | inr e ↦ ended_now 0 p v e
    | inl e ↦
        let (a, falls) = possible p v (ltb→lt p.ended cfg.worker_count e) in
        absurd (omega (arith, falls, h))
  ]
  finish_within (suc fuel) p h v = elim (Bool-cases (ltb p.ended cfg.worker_count)) [
    | inr e ↦ ended_now (suc fuel) p v e
    | inl e ↦
        let (a, falls) = possible p v (ltb→lt p.ended cfg.worker_count e) in
        let (actions, end, most) =
          finish_within fuel (perform cfg classify a p) (omega (arith, falls, h))
            (perform-IsValid cfg classify a p v) in
        (a ∷ actions, end, omega (arith, most))
  ]

  -- A run cannot get stuck: whatever the producer and the workers did so far, with any sizes of the
  -- batches and the queue, some actions follow after which every worker has returned, at most as many
  -- as the work that is left by the weights of `work_left`.
  pub run-Ends :
      (modlist : List M) (actions : List Action)
      → let p = run cfg classify actions (start_run cfg classify modlist) in Ends (work_left p) p
  run-Ends modlist actions =
      let p = run cfg classify actions (start_run cfg classify modlist) in
      finish_within (work_left p) p (omega arith) (
        run-IsValid cfg classify actions (start_run cfg classify modlist)
          (start_run-IsValid cfg classify modlist))
