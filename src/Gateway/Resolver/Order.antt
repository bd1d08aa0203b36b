-- ===== src/Gateway/Resolver/Order.antt =====
-- Where a pinned host stands among the others.
use sky_claw_gravity.Prelude.{
  ==-ne, ==-refl, Bool-cases, List, String, [], ap, append_assoc, arith, false, inl, inr, length,
  length-append, ltb, none, refl, some, subst, suc, sym, ℕ, ◌++◌, ◌+◌, ◌<◌, ◌==◌, ◌∙◌, ◌∷◌, ◌≡◌,
  ◌≢◌, ◌≤◌, nat_eq, string_eq,
}
use sky_claw_gravity.Gateway.Resolver.{
  PinKey, Pinned, evict_oldest, find_pin, max_pinned_entries, move_to_end, without_pin, pin_eq,
}

-- the key is pinned to the addresses, with at most so many entries that were used later
abbrev pub Held : PinKey → List String → ℕ → Pinned → Type 0
Held key addresses n pins =
    (older : Pinned) × (newer : Pinned) × (pins ≡ older ++ (key, addresses) ∷ newer)
    × (find_pin older key ≡ none)
    × (length newer ≤ n)

find_pin-append :
    (key : PinKey) (addresses : List String) (older newer : Pinned)
    → find_pin older key ≡ none
    → find_pin (older ++ (key, addresses) ∷ newer) key ≡ some addresses
unfolding find_pin
find_pin-append key addresses [] newer h = rw (==-refl key) refl
find_pin-append key addresses ((k, a) ∷ older) newer h = elim (Bool-cases (k == key)) [
  | inl p ↦ ground (arith, rw p at h)
  | inr p ↦ rw p (find_pin-append key addresses older newer (rw p at h))
]

pub find_pin-Held :
    (key : PinKey) (addresses : List String) (n : ℕ) (pins : Pinned)
    → Held key addresses n pins
    → find_pin pins key ≡ some addresses
find_pin-Held key addresses n pins (older, newer, e, a, l) =
    ap (λ ps. find_pin ps key) e ∙ find_pin-append key addresses older newer a

find_pin-without_pin :
    (pins : Pinned) (key other : PinKey)
    → find_pin pins key ≡ none
    → find_pin (without_pin pins other) key ≡ none
unfolding find_pin without_pin
find_pin-without_pin [] key other h = refl
find_pin-without_pin ((k, a) ∷ pins) key other h = elim (Bool-cases (k == key)) [
  | inl p ↦ ground (arith, rw p at h)
  | inr p ↦ elim (Bool-cases (k == other)) [
    | inl q ↦ rw q (find_pin-without_pin pins key other (rw p at h))
    | inr q ↦ rw q (rw p (find_pin-without_pin pins key other (rw p at h)))
  ]
]

pub without_pin_self : (pins : Pinned) (key : PinKey) → find_pin (without_pin pins key) key ≡ none
unfolding find_pin without_pin
without_pin_self [] key = refl
without_pin_self ((k, a) ∷ pins) key = elim (Bool-cases (k == key)) [
  | inl p ↦ rw p (without_pin_self pins key)
  | inr p ↦ rw p (rw p (without_pin_self pins key))
]

pub length-without_pin :
    (pins : Pinned) (key : PinKey) → length (without_pin pins key) ≤ length pins
unfolding without_pin
length-without_pin [] key = omega arith
length-without_pin ((k, a) ∷ pins) key = ground (arith, length-without_pin pins key)

-- another key is taken out of what is older and newer
without_pin-other :
    (key other : PinKey) (addresses : List String) (older newer : Pinned)
    → other ≢ key
    → without_pin (older ++ (key, addresses) ∷ newer) other
      ≡ without_pin older other ++ (key, addresses) ∷ without_pin newer other
unfolding without_pin
without_pin-other key other addresses [] newer h = rw (==-ne key other (λ p. h (sym p))) refl
without_pin-other key other addresses ((k, a) ∷ older) newer h = elim (Bool-cases (k == other)) [
  | inl p ↦ rw p (without_pin-other key other addresses older newer h)
  | inr p ↦ rw p (ap (◌∷◌ (k, a)) (without_pin-other key other addresses older newer h))
]

-- one more entry is the newest
pub Held-snoc :
    (key other : PinKey) (addresses others : List String) (n : ℕ) (pins : Pinned)
    → Held key addresses n pins
    → Held key addresses (n + 1) (pins ++ (other, others) ∷ [])
Held-snoc key other addresses others n pins (older, newer, e, a, l) = (
  older,
  newer ++ (other, others) ∷ [],
  ap (λ ps. ps ++ (other, others) ∷ []) e ∙ simp append_assoc,
  a,
  omega (arith, l, length-append newer ((other, others) ∷ [])),
)

pub Held-move_to_end :
    (key other : PinKey) (addresses others : List String) (n : ℕ) (pins : Pinned)
    → other ≢ key
    → Held key addresses n pins
    → Held key addresses (n + 1) (move_to_end pins other others)
unfolding move_to_end
Held-move_to_end key other addresses others n pins h (older, newer, e, a, l) =
    Held-snoc key other addresses others n (without_pin pins other) (
      without_pin older other,
      without_pin newer other,
      ap (λ ps. without_pin ps other) e ∙ without_pin-other key other addresses older newer h,
      find_pin-without_pin older key other a,
      omega (arith, l, length-without_pin newer other),
    )

-- the eviction spares the key while few are newer
Held-evict_oldest :
    (key : PinKey) (addresses : List String) (n : ℕ) (older newer : Pinned)
    → find_pin older key ≡ none
    → length newer ≤ n
    → n < max_pinned_entries
    → Held key addresses n (evict_oldest (older ++ (key, addresses) ∷ newer))
unfolding evict_oldest find_pin
Held-evict_oldest key addresses n [] newer a l m =
    let stays : ltb max_pinned_entries (suc (length newer)) ≡ false = ground (arith, l, m) in
    ([], newer, rw stays refl, refl, l)
Held-evict_oldest key addresses n ((k, x) ∷ older) newer a l m =
    elim (Bool-cases (ltb max_pinned_entries (suc (length (older ++ (key, addresses) ∷ newer))))) [
      | inl p ↦ (older, newer, rw p refl, ground (arith, a), l)
      | inr p ↦ ((k, x) ∷ older, newer, rw p refl, a, l)
    ]

pub evict-Held :
    (key : PinKey) (addresses : List String) (n : ℕ) (pins : Pinned)
    → n < max_pinned_entries
    → Held key addresses n pins
    → Held key addresses n (evict_oldest pins)
evict-Held key addresses n pins m (older, newer, e, a, l) =
    subst (λ ps. Held key addresses n (evict_oldest ps)) (sym e)
      (Held-evict_oldest key addresses n older newer a l m)
