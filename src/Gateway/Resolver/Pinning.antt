-- ===== src/Gateway/Resolver/Pinning.antt =====
-- A host stays at the addresses that were checked.
use sky_claw_gravity.Prelude.{
  ==-eq, ==-refl, All, Bool, Bool-cases, List, Option, Option-cases, String, [], ap, arith, false,
  inl, inr, length, none, refl, some, subst, sym, true, ℕ, ◌&&◌, ◌++◌, ◌+◌, ◌<◌, ◌==◌, ◌∙◌, ◌∷◌,
  ◌≡◌, nat_eq, string_eq,
}
use sky_claw_gravity.Result.{Result, ok}
use sky_claw_gravity.Gateway.{Address, EgressPolicy, Library, is_internal}
use sky_claw_gravity.Gateway.Resolver.{
  PinKey, Pinned, ResolveError, check_addresses, evict_oldest, find_pin, max_pinned_entries,
  move_to_end, resolve, resolve_new, without_pin, pin_eq,
}
use sky_claw_gravity.Gateway.Resolver.Order.{
  Held, Held-move_to_end, Held-snoc, evict-Held, find_pin-Held, without_pin_self,
}

module _ (lib : Library) (policy : EgressPolicy) where
  -- the text is an address, and not an internal one if the policy blocks those
  abbrev pub IsPermitted : String → Type 0
  IsPermitted ip =
      (a : Address) × (lib.ip_address ip ≡ some a)
      × (policy.block_private_ips ≡ true → is_internal a ≡ false)

  abbrev pub AreChecked : List String → Type 0
  AreChecked = All IsPermitted

  not_blocked : (b i : Bool) → (b && i) ≡ false → b ≡ true → i ≡ false
  not_blocked false i h t = cc
  not_blocked true i h t = h

  pub check_addresses-AreChecked :
      (ips : List String) → check_addresses lib policy ips ≡ none → AreChecked ips
  unfolding check_addresses
  check_addresses-AreChecked [] h = tt
  check_addresses-AreChecked (ip ∷ ips) h = elim (Option-cases (lib.ip_address ip)) [
    | inl p ↦ ground (arith, rw (p, check_addresses) at h)
    | inr (a, p) ↦ elim (Bool-cases (policy.block_private_ips && is_internal a)) [
      | inl q ↦ ground (arith, rw (p, q, check_addresses) at h)
      | inr q ↦ (
        (a, p, not_blocked policy.block_private_ips (is_internal a) q),
        check_addresses-AreChecked ips (rw (p, q, check_addresses) at h),
      )
    ]
  ]

  abbrev pub AllChecked : Pinned → Type 0
  AllChecked = All (λ pin. AreChecked pin.1)

  resolve_new-Held :
      (key other : PinKey) (addresses : List String) (n : ℕ) (pins : Pinned)
      (answer : Option (List String))
      → n + 1 < max_pinned_entries
      → Held key addresses n pins
      → Held key addresses (n + 1) (resolve_new lib policy pins other answer).0
  unfolding resolve_new
  resolve_new-Held key other addresses n pins none m (older, newer, e, a, l) =
      (older, newer, e, a, omega (arith, l))
  resolve_new-Held key other addresses n pins (some []) m (older, newer, e, a, l) =
      (older, newer, e, a, omega (arith, l))
  resolve_new-Held key other addresses n pins (some (ip ∷ ips)) m h =
      elim (Option-cases (check_addresses lib policy (ip ∷ ips))) [
        | inl p ↦
            rw (p, resolve_new)
              (evict-Held key addresses (n + 1) (pins ++ (other, ip ∷ ips) ∷ []) m
                (Held-snoc key other addresses (ip ∷ ips) n pins h))
        | inr (x, p) ↦
            let (older, newer, e, a, l) = h in
            rw (p, resolve_new) (older, newer, e, a, omega (arith, l))
      ]

  -- a pin that is used again is the newest
  used_again :
      (key : PinKey) (addresses : List String) (n : ℕ) (pins : Pinned)
      → Held key addresses n (move_to_end pins key addresses)
  unfolding move_to_end
  used_again key addresses n pins =
      (without_pin pins key, [], refl, without_pin_self pins key, omega arith)

  resolve-Held :
      (key other : PinKey) (addresses : List String) (n : ℕ) (pins : Pinned)
      (answer : Option (List String))
      → n + 1 < max_pinned_entries
      → Held key addresses n pins
      → Held key addresses (n + 1) (resolve lib policy pins other answer).0
  unfolding resolve
  resolve-Held key other addresses n pins answer m h = elim (Option-cases (find_pin pins other)) [
    | inl p ↦ rw (p, resolve) (resolve_new-Held key other addresses n pins answer m h)
    | inr (others, p) ↦ elim (Bool-cases (other == key)) [
      | inr q ↦
          rw (p, resolve)
            (Held-move_to_end key other addresses others n pins
              (λ r. cc (q, subst (λ k. (k == key) ≡ true) (sym r) (==-refl key))) h)
      | inl q ↦
          let r = ==-eq other key q in
          let same : some others ≡ some addresses =
            sym p ∙ ap (find_pin pins) r ∙ find_pin-Held key addresses n pins h in
          let v : others ≡ addresses = ground (arith, same) in
          rw (p, resolve)
            (subst (λ a. Held key a (n + 1) (move_to_end pins other others)) v
              (subst (λ k. Held k others (n + 1) (move_to_end pins other others)) r
                (used_again other others (n + 1) pins)))
    ]
  ]

  -- calls of the resolver, each with the answer that the name server would give
  unfoldable pub resolve_all : Pinned → List (PinKey × Option (List String)) → Pinned
  resolve_all pins [] = pins
  resolve_all pins ((key, answer) ∷ calls) =
      resolve_all (resolve lib policy pins key answer).0 calls

  resolve_all-Held :
      (key : PinKey) (addresses : List String) (n : ℕ) (pins : Pinned)
      (calls : List (PinKey × Option (List String)))
      → n + length calls < max_pinned_entries
      → Held key addresses n pins
      → Held key addresses (n + length calls) (resolve_all pins calls)
  unfolding resolve_all
  resolve_all-Held key addresses n pins [] m (older, newer, e, a, l) =
      (older, newer, e, a, omega (arith, l))
  resolve_all-Held key addresses n pins ((other, answer) ∷ calls) m h =
      let (older, newer, e, a, l) =
        resolve_all-Held key addresses (n + 1) (resolve lib policy pins other answer).0 calls
          (omega (arith, m))
          (resolve-Held key other addresses n pins answer (omega (arith, m)) h) in
      (older, newer, e, a, omega (arith, l))

  pub find_pin-AreChecked :
      (pins : Pinned) (key : PinKey) (addresses : List String)
      → AllChecked pins
      → find_pin pins key ≡ some addresses
      → AreChecked addresses
  unfolding find_pin
  find_pin-AreChecked [] key addresses c h = ground (arith, h)
  find_pin-AreChecked ((k, a) ∷ pins) key addresses c h = elim (Bool-cases (k == key)) [
    | inl p ↦
        let same : some a ≡ some addresses = rw p at h in
        let v : a ≡ addresses = ground (arith, same) in subst AreChecked v c.0
    | inr p ↦ find_pin-AreChecked pins key addresses c.1 (rw p at h)
  ]

  -- the first answer for a host, by whether it is pinned
  resolve_new-first :
      (pins : Pinned) (key : PinKey) (answer : Option (List String)) (addresses : List String)
      → find_pin pins key ≡ none
      → (resolve_new lib policy pins key answer).1 ≡ ok addresses
      → AreChecked addresses × Held key addresses 0 (resolve_new lib policy pins key answer).0
  unfolding resolve_new
  resolve_new-first pins key none addresses f h = ground (arith, h)
  resolve_new-first pins key (some []) addresses f h = ground (arith, h)
  resolve_new-first pins key (some (ip ∷ ips)) addresses f h =
      elim (Option-cases (check_addresses lib policy (ip ∷ ips))) [
        | inl p ↦
            let same : ◌≡◌ {A = Result ResolveError (List String)} (ok (ip ∷ ips)) (ok addresses) =
              rw (p, resolve_new) at h in
            let v : (ip ∷ ips) ≡ addresses = ground (arith, same) in
            rw (p, resolve_new)
              (
                subst AreChecked v (check_addresses-AreChecked (ip ∷ ips) p),
                subst (λ a. Held key a 0 (evict_oldest (pins ++ (key, ip ∷ ips) ∷ []))) v
                    (evict-Held key (ip ∷ ips) 0 (pins ++ (key, ip ∷ ips) ∷ []) (omega arith)
                      (pins, [], refl, f, omega arith)),
              )
        | inr (x, p) ↦ ground (arith, rw (p, resolve_new) at h)
      ]

  resolve-first :
      (pins : Pinned) (key : PinKey) (answer : Option (List String)) (addresses : List String)
      → AllChecked pins
      → (resolve lib policy pins key answer).1 ≡ ok addresses
      → AreChecked addresses × Held key addresses 0 (resolve lib policy pins key answer).0
  unfolding resolve
  resolve-first pins key answer addresses c h = elim (Option-cases (find_pin pins key)) [
    | inl p ↦ rw (p, resolve) (resolve_new-first pins key answer addresses p (rw (p, resolve) at h))
    | inr (others, p) ↦
        let same : ◌≡◌ {A = Result ResolveError (List String)} (ok others) (ok addresses) =
          rw (p, resolve) at h in
        let v : others ≡ addresses = ground (arith, same) in
        rw (p, resolve)
          (
            subst AreChecked v (find_pin-AreChecked pins key others c p),
            subst (λ a. Held key a 0 (move_to_end pins key others)) v
                (used_again key others 0 pins),
          )
  ]

  -- When what is pinned so far are addresses that the policy permits: so are the ones that a
  -- resolution returns, all of which parse and none of which is internal if those are blocked. After
  -- up to 1023 more calls of the resolver, of any hosts and with any answers of the name server, the
  -- same host and port resolve to the same addresses, whatever the name server would answer then.
  pub resolve-pinned :
      (pins : Pinned) (key : PinKey) (answer later : Option (List String)) (addresses : List String)
      (calls : List (PinKey × Option (List String)))
      → AllChecked pins
      → (resolve lib policy pins key answer).1 ≡ ok addresses
      → length calls < max_pinned_entries
      → AreChecked addresses
        × ((resolve lib policy
              (resolve_all (resolve lib policy pins key answer).0 calls)
              key
              later).1
            ≡ ok addresses)
  unfolding resolve
  resolve-pinned pins key answer later addresses calls c h m =
      let (checked, held) = resolve-first pins key answer addresses c h in
      let still =
        resolve_all-Held key addresses 0 (resolve lib policy pins key answer).0 calls
          (omega (arith, m)) held in
      (checked, rw (find_pin-Held key addresses (0 + length calls) _ still, resolve) refl)
