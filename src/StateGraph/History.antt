-- ===== src/StateGraph/History.antt =====
-- `capped_transition_history` and `add_transition`: the history holds the last 50 transitions.
use sky_claw_gravity.Prelude.{
  Bool-cases, List, [], ap, append-nil, append_assoc, arith, drop, if◌then◌else◌, inl, inr, leb,
  leb→le, length, length-append, length-drop, ltb, refl, suc, sym, zero, ℕ, ◌++◌, ◌+◌, ◌-◌, ◌∙◌,
  ◌∷◌, ◌≡◌, ◌≤◌,
}

abbrev pub max_transition_history : ℕ
max_transition_history = 50

-- `xs[-n:]`, for a positive n
abbrev pub last_items : {A : Type 0} → ℕ → List A → List A
last_items n xs = drop (length xs - n) xs

module _ {A : Type 0} where
  unfoldable pub capped_transition_history : List A → List A → List A
  capped_transition_history old new =
      let merged = old ++ new in
      if leb (length merged) max_transition_history
      then merged
      else last_items max_transition_history merged

  -- the list after `add_transition`
  unfoldable pub add_transition : List A → A → List A
  add_transition history x =
      let longer = history ++ x ∷ [] in
      if ltb max_transition_history (length longer)
      then last_items max_transition_history longer
      else longer

  -- the reducer over the updates of the nodes, in turn
  unfoldable pub reduce_history : List A → List (List A) → List A
  reduce_history history [] = history
  reduce_history history (new ∷ news) = reduce_history (capped_transition_history history new) news

  abbrev pub concat : List (List A) → List A
  concat [] = []
  concat (xs ∷ xss) = xs ++ concat xss

  drop-nil : (n : ℕ) → drop {A = A} n [] ≡ []
  drop-nil zero = refl
  drop-nil (suc n) = refl

  drop-drop : (m n k : ℕ) (xs : List A) → n + m ≡ k → drop m (drop n xs) ≡ drop k xs
  drop-drop m zero k xs e = ap (λ i. drop i xs) (omega (arith, e))
  drop-drop m (suc n) zero xs e = absurd (omega arith)
  drop-drop m (suc n) (suc k) [] e = drop-nil m
  drop-drop m (suc n) (suc k) (x ∷ xs) e = drop-drop m n k xs (omega arith)

  drop-append : (n : ℕ) (xs ys : List A) → n ≤ length xs → drop n (xs ++ ys) ≡ drop n xs ++ ys
  drop-append zero xs ys h = refl
  drop-append (suc n) [] ys h = absurd (omega arith)
  drop-append (suc n) (x ∷ xs) ys h = drop-append n xs ys (omega arith)

  -- the last items of a list whose front was cut before are those of the whole list
  last_items-append :
      (n : ℕ) (xs ys : List A) → last_items n (last_items n xs ++ ys) ≡ last_items n (xs ++ ys)
  last_items-append n xs ys =
      ap (last_items n) (sym (drop-append (length xs - n) xs ys (omega arith)))
      ∙ drop-drop _ (length xs - n) _ (xs ++ ys)
          (omega (arith, length-drop (length xs - n) (xs ++ ys), length-append xs ys))

  capped-last_items :
      (old new : List A)
      → capped_transition_history old new ≡ last_items max_transition_history (old ++ new)
  unfolding capped_transition_history
  capped-last_items old new = elim (Bool-cases (leb (length (old ++ new)) 50)) [
    | inl e ↦
        let none_cut : length (old ++ new) - 50 ≡ 0 = omega (arith, leb→le _ _ e) in
        rw e (ap (λ i. drop i (old ++ new)) (sym none_cut))
    | inr e ↦ rw e refl
  ]

  reduce-last_items :
      (xs : List A) (news : List (List A))
      → reduce_history (last_items max_transition_history xs) news
        ≡ last_items max_transition_history (xs ++ concat news)
  unfolding reduce_history
  reduce-last_items xs [] = ap (last_items 50) (sym (append-nil xs))
  reduce-last_items xs (new ∷ news) =
      rw (capped-last_items (last_items 50 xs) new, last_items-append 50 xs new)
        (reduce-last_items (xs ++ new) news
          ∙ ap (last_items 50) (append_assoc xs new (concat news)))

  -- However the updates of the nodes are batched, the reducer keeps the last 50 transitions of all
  -- that were ever recorded, in order, and `add_transition` is the reducer on a single transition.
  history_is_last :
      (news : List (List A))
      → (reduce_history [] news ≡ last_items max_transition_history (concat news))
        × ((history : List A) (x : A)
            → add_transition history x ≡ capped_transition_history history (x ∷ []))
  unfolding add_transition capped_transition_history
  history_is_last news = (reduce-last_items [] news, λ history x. ground arith)
