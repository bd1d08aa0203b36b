-- ===== src/Gateway/Resolver/Bounds.antt =====
-- What stays true of the pins.
use sky_claw_gravity.Gateway.Resolver.Order.{length-without_pin}
use sky_claw_gravity.Prelude.{
  Bool-cases, List, Option, Option-cases, String, [], arith, inl, inr, length, length-append, ltb,
  none, some, suc, ◌++◌, ◌+◌, ◌<◌, ◌==◌, ◌∷◌, ◌≡◌, ◌≤◌, nat_eq, string_eq,
}
use sky_claw_gravity.Gateway.{EgressPolicy, Library}
use sky_claw_gravity.Gateway.Resolver.{
  PinKey, Pinned, check_addresses, evict_oldest, find_pin, max_pinned_entries, move_to_end, resolve,
  resolve_new, without_pin, pin_eq,
}
use sky_claw_gravity.Gateway.Resolver.Pinning.{
  AllChecked, AreChecked, check_addresses-AreChecked, find_pin-AreChecked,
}

length-without_found :
    (pins : Pinned) (key : PinKey) (addresses : List String)
    → find_pin pins key ≡ some addresses
    → length (without_pin pins key) < length pins
unfolding find_pin without_pin
length-without_found [] key addresses h = ground (arith, h)
length-without_found ((k, a) ∷ pins) key addresses h = elim (Bool-cases (k == key)) [
  | inl p ↦ rw p (omega (arith, length-without_pin pins key))
  | inr p ↦ rw p (omega (arith, length-without_found pins key addresses (rw p at h)))
]

length-evict_oldest :
    (pins : Pinned)
    → length pins ≤ max_pinned_entries + 1
    → length (evict_oldest pins) ≤ max_pinned_entries
unfolding evict_oldest
length-evict_oldest [] h = omega arith
length-evict_oldest (pin ∷ pins) h = ground (arith, h)

module _ (lib : Library) (policy : EgressPolicy) where
  without_pin-AllChecked :
      (pins : Pinned) (key : PinKey)
      → AllChecked lib policy pins
      → AllChecked lib policy (without_pin pins key)
  unfolding without_pin
  without_pin-AllChecked [] key c = tt
  without_pin-AllChecked ((k, a) ∷ pins) key c = elim (Bool-cases (k == key)) [
    | inl p ↦ rw p (without_pin-AllChecked pins key c.1)
    | inr p ↦ rw p (c.0, without_pin-AllChecked pins key c.1)
  ]

  snoc-AllChecked :
      (pins : Pinned) (key : PinKey) (addresses : List String)
      → AllChecked lib policy pins
      → AreChecked lib policy addresses
      → AllChecked lib policy (pins ++ (key, addresses) ∷ [])
  snoc-AllChecked [] key addresses c a = (a, tt)
  snoc-AllChecked (pin ∷ pins) key addresses c a = (c.0, snoc-AllChecked pins key addresses c.1 a)

  evict-AllChecked :
      (pins : Pinned) → AllChecked lib policy pins → AllChecked lib policy (evict_oldest pins)
  unfolding evict_oldest
  evict-AllChecked [] c = tt
  evict-AllChecked (pin ∷ pins) c = elim (Bool-cases (ltb max_pinned_entries (suc (length pins)))) [
    | inl p ↦ rw p c.1
    | inr p ↦ rw p c
  ]

  -- the pinned addresses are permitted, and the pins not too many
  abbrev pub IsSound : Pinned → Type 0
  IsSound pins = AllChecked lib policy pins × (length pins ≤ max_pinned_entries)

  resolve_new-IsSound :
      (pins : Pinned) (key : PinKey) (answer : Option (List String))
      → IsSound pins
      → IsSound (resolve_new lib policy pins key answer).0
  unfolding resolve_new
  resolve_new-IsSound pins key none s = s
  resolve_new-IsSound pins key (some []) s = s
  resolve_new-IsSound pins key (some (ip ∷ ips)) s =
      elim (Option-cases (check_addresses lib policy (ip ∷ ips))) [
        | inl p ↦
            rw (p, resolve_new)
              (
                evict-AllChecked (pins ++ (key, ip ∷ ips) ∷ []) (
                    snoc-AllChecked pins key (ip ∷ ips) s.0
                      (check_addresses-AreChecked lib policy (ip ∷ ips) p)),
                length-evict_oldest (pins ++ (key, ip ∷ ips) ∷ [])
                    (omega (arith, s.1, length-append pins ((key, ip ∷ ips) ∷ []))),
              )
        | inr (x, p) ↦ rw (p, resolve_new) s
      ]

  -- Every call of the resolver, however it ends, keeps the pins sound: each pinned address is one
  -- that the policy permits, and at most 1024 hosts and ports are pinned.
  pub resolve-IsSound :
      (pins : Pinned) (key : PinKey) (answer : Option (List String))
      → IsSound pins
      → IsSound (resolve lib policy pins key answer).0
  unfolding resolve move_to_end
  resolve-IsSound pins key answer s = elim (Option-cases (find_pin pins key)) [
    | inl p ↦ rw (p, resolve) (resolve_new-IsSound pins key answer s)
    | inr (addresses, p) ↦
        rw (p, resolve)
          (
            snoc-AllChecked (without_pin pins key) key addresses
                (without_pin-AllChecked pins key s.0)
                (find_pin-AreChecked lib policy pins key addresses s.0 p),
            omega (
              arith,
              s.1,
              length-without_found pins key addresses p,
              length-append (without_pin pins key) ((key, addresses) ∷ []),
            ),
          )
  ]
