-- ===== src/TokenBudget/Window.antt =====
-- What the sliding window keeps.
use sky_claw_gravity.TokenBudget.{
  Config, Message, Session, all_but_last, conversation, is_system, last_n, summarize_older,
  summary_message, system_messages, truncate_older,
}
use sky_claw_gravity.Prelude.{
  Bool, Bool-cases, List, [], ap, append-nil, arith, drop, false, if◌then◌else◌, inl, inr, keep,
  leb, length, length-drop, ltb, ltb→lt, min, not, refl, suc, sym, take-append-drop, true, zero, ℕ,
  ◌++◌, ◌+◌, ◌-◌, ◌<◌, ◌==◌, ◌∙◌, ◌∷◌, ◌≡◌, ◌≤◌, nat_eq, string_eq,
}

keep-append :
    {A : Type 0} (p : A → Bool) (xs ys : List A) → keep p (xs ++ ys) ≡ keep p xs ++ keep p ys
keep-append p [] ys = refl
keep-append p (x ∷ xs) ys = ground (arith, keep-append p xs ys)

-- what was kept by a test is kept whole by the same test, and dropped whole by its opposite
keep-keep : {A : Type 0} (p : A → Bool) (xs : List A) → keep p (keep p xs) ≡ keep p xs
keep-keep p [] = refl
keep-keep p (x ∷ xs) = elim (Bool-cases (p x)) [
  | inl e ↦ rw (e, e) (ap (◌∷◌ x) (keep-keep p xs))
  | inr e ↦ rw e (keep-keep p xs)
]

keep-keep-not : {A : Type 0} (p : A → Bool) (xs : List A) → keep p (keep (λ x. not (p x)) xs) ≡ []
keep-keep-not p [] = refl
keep-keep-not p (x ∷ xs) = elim (Bool-cases (p x)) [
  | inl e ↦ rw e (keep-keep-not p xs)
  | inr e ↦ rw (e, e) (keep-keep-not p xs)
]

not-keep-keep : {A : Type 0} (p : A → Bool) (xs : List A) → keep (λ x. not (p x)) (keep p xs) ≡ []
not-keep-keep p [] = refl
not-keep-keep p (x ∷ xs) = elim (Bool-cases (p x)) [
  | inl e ↦ rw (e, e) (not-keep-keep p xs)
  | inr e ↦ rw e (not-keep-keep p xs)
]

length-last_n :
    {A : Type 0} (n : ℕ) (xs : List A) → 0 < n → n ≤ length xs → length (last_n n xs) ≡ n
unfolding last_n
length-last_n n xs pos h = ground (arith, length-drop (length xs - n) xs)

split-last_n : {A : Type 0} (n : ℕ) (xs : List A) → all_but_last n xs ++ last_n n xs ≡ xs
unfolding last_n all_but_last
split-last_n n xs = elim (Bool-cases (n == 0)) [
  | inl e ↦ rw e
  | inr e ↦ rw e (take-append-drop (length xs - n) xs)
]

keep-drop_nil :
    {A : Type 0} (p : A → Bool) (n : ℕ) (xs : List A) → keep p xs ≡ [] → keep p (drop n xs) ≡ []
keep-drop_nil p zero xs h = h
keep-drop_nil p (suc n) [] h = refl
keep-drop_nil p (suc n) (x ∷ xs) h = keep-drop_nil p n xs (ground arith)

keep-last_n_nil :
    {A : Type 0} (p : A → Bool) (n : ℕ) (xs : List A) → keep p xs ≡ [] → keep p (last_n n xs) ≡ []
unfolding last_n
keep-last_n_nil p n xs h = elim (Bool-cases (n == 0)) [
  | inl e ↦ rw e h
  | inr e ↦ rw e (keep-drop_nil p (length xs - n) xs h)
]

-- what a truncation keeps of the conversation
abbrev recent : Config → List Message → List Message
recent c messages =
    let conv = conversation messages in
    if ltb c.messages_to_preserve (length conv) then last_n c.messages_to_preserve conv else conv

recent-system : (c : Config) (messages : List Message) → system_messages (recent c messages) ≡ []
recent-system c messages =
    let none_kept = keep-keep-not is_system messages in
    elim (Bool-cases (ltb c.messages_to_preserve (length (conversation messages)))) [
      | inl e ↦
          rw e (keep-last_n_nil is_system c.messages_to_preserve (conversation messages) none_kept)
      | inr e ↦ rw e none_kept
    ]

-- A truncation keeps every system message, in order and in front, and then, with a positive
-- `messages_to_preserve`, the last that many messages of the conversation, or all if there are no
-- more.
truncate_keeps :
    (c : Config) (messages : List Message)
    → 0 < c.messages_to_preserve
    → (older : List Message) × (kept : List Message) × (truncate_older c messages
        ≡ system_messages messages ++ kept)
      × (conversation messages ≡ older ++ kept)
      × (length kept ≡ min c.messages_to_preserve (length (conversation messages)))
      × (system_messages (truncate_older c messages) ≡ system_messages messages)
unfolding truncate_older
truncate_keeps c messages pos =
    let n = c.messages_to_preserve in
    let conv = conversation messages in
    (
      if ltb n (length conv) then all_but_last n conv else [],
      recent c messages,
      refl,
      elim (Bool-cases (ltb n (length conv))) [
        | inl e ↦ rw e (sym (split-last_n n conv))
        | inr e ↦ rw e
      ],
      elim (Bool-cases (ltb n (length conv))) [
        | inl e ↦
            rw e (omega (arith, length-last_n n conv pos (ground arith), ltb→lt n (length conv) e))
        | inr e ↦ rw e (ground arith)
      ],
      keep-append is_system (system_messages messages) (recent c messages)
          ∙ rw (keep-keep is_system messages, recent-system c messages)
              (append-nil (system_messages messages)),
    )

-- With `messages_to_preserve` zero a truncation drops nothing, whatever the length: every message
-- of the conversation is kept, behind the system messages.
truncate_zero_keeps_all :
    (c : Config) (messages : List Message)
    → c.messages_to_preserve ≡ 0
    → truncate_older c messages ≡ system_messages messages ++ conversation messages
unfolding truncate_older last_n
truncate_zero_keeps_all c messages e =
    rw e
      (elim (Bool-cases (ltb 0 (length (conversation messages)))) [ inl p ↦ rw p | inr p ↦ rw p ])

-- A summary that is made replaces all but the last `messages_to_preserve` messages of the
-- conversation by one system message, keeps every system message in front of it, and is counted.
summarize_keeps :
    (c : Config) (s : Session) (messages : List Message)
    → c.enable_auto_summarization ≡ true
    → 0 < c.messages_to_preserve
    → c.messages_to_preserve < length (conversation messages)
    → c.messages_to_preserve + 1 < length messages
    → (older : List Message) × (kept : List Message) × (summarize_older c s messages ≡ (
      record s { summarization_count = s.summarization_count + 1 },
      system_messages messages ++ summary_message c older ∷ kept,
    ))
      × (conversation messages ≡ older ++ kept)
      × (length kept ≡ c.messages_to_preserve)
unfolding summarize_older
summarize_keeps c s messages on pos more many =
    let n = c.messages_to_preserve in
    let conv = conversation messages in
    let enough : leb (length messages) (n + 1) ≡ false = ground arith in
    let enough' : leb (length conv) n ≡ false = ground arith in
    (
      all_but_last n conv,
      last_n n conv,
      rw (on, enough, enough'),
      sym (split-last_n n conv),
      length-last_n n conv pos (omega arith),
    )
