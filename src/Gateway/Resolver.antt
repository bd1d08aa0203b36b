-- ===== src/Gateway/Resolver.antt =====
-- `SafeResolver` of sky_claw/antigravity/security/network_gateway.py: addresses are checked once and
-- then pinned, in an `OrderedDict` whose last entry is the one used last. What the name server answers
-- is an argument.
pub mod Order
pub mod Pinning
pub mod Bounds
use sky_claw_gravity.Prelude.{
  Bool, Eq, List, Option, String, [], arith, if◌then◌else◌, length, ltb, nat_eq, none, some,
  string_eq, suc, true, ℕ, ◌&&◌, ◌++◌, ◌==◌, ◌↔◌, ◌∷◌, ◌≡◌,
}
use sky_claw_gravity.Result.{Result, err, ok}
use sky_claw_gravity.Gateway.{EgressPolicy, Library, is_internal}

-- a key of `_pinned`, a host with a port
abbrev pub PinKey : Type 0
PinKey = String × ℕ

unfoldable pub same_key : PinKey → PinKey → Bool
same_key (host, port) (other, other_port) = host == other && port == other_port

pub same_key_iff : (a b : PinKey) → (same_key a b ≡ true) ↔ (a ≡ b)
unfolding same_key
same_key_iff (h, p) (g, q) = ground (arith, string_eq.beq_iff h g, nat_eq.beq_iff p q)

instance abbrev pub pin_eq : Eq PinKey
pin_eq = record { beq = same_key; beq_iff = same_key_iff }

abbrev pub Pinned : Type 0
Pinned = List (PinKey × List String)

-- `_MAX_PINNED_ENTRIES`
abbrev pub max_pinned_entries : ℕ
max_pinned_entries = 1024

-- how a resolution fails: `OSError`, the `ValueError` of an address, or `EgressViolationError`
pub data ResolveError : Type 0 where
  no_resolution invalid_address private_resolution : ResolveError

unfoldable pub find_pin : Pinned → PinKey → Option (List String)
find_pin [] key = none
find_pin ((k, addresses) ∷ pins) key =
    let rest = find_pin pins key in if k == key then some addresses else rest

unfoldable pub without_pin : Pinned → PinKey → Pinned
without_pin [] key = []
without_pin ((k, addresses) ∷ pins) key =
    let rest = without_pin pins key in if k == key then rest else (k, addresses) ∷ rest

-- `self._pinned.move_to_end(pin_key)`, for the entry that is there
unfoldable pub move_to_end : Pinned → PinKey → List String → Pinned
unfolding without_pin
move_to_end pins key addresses = without_pin pins key ++ (key, addresses) ∷ []

-- `popitem(last=False)` if there are too many
unfoldable pub evict_oldest : Pinned → Pinned
evict_oldest [] = []
evict_oldest (pin ∷ pins) = if ltb max_pinned_entries (suc (length pins)) then pins else pin ∷ pins

module _ (lib : Library) (policy : EgressPolicy) where
  -- the loop over the resolved addresses
  unfoldable pub check_addresses : List String → Option ResolveError
  unfolding is_internal
  check_addresses [] = none
  check_addresses (ip ∷ ips) = elim (lib.ip_address ip) [
    | none ↦ some invalid_address
    | some a ↦
        if policy.block_private_ips && is_internal a
        then some private_resolution
        else check_addresses ips
  ]

  -- `resolve` where nothing is pinned
  unfoldable pub resolve_new :
      Pinned → PinKey → Option (List String) → Pinned × Result ResolveError (List String)
  unfolding check_addresses evict_oldest
  resolve_new pins key none = (pins, err no_resolution)
  resolve_new pins key (some []) = (pins, err no_resolution)
  resolve_new pins key (some (ip ∷ ips)) = elim (check_addresses (ip ∷ ips)) [
    | some e ↦ (pins, err e)
    | none ↦ (evict_oldest (pins ++ (key, ip ∷ ips) ∷ []), ok (ip ∷ ips))
  ]

  -- `resolve`
  unfoldable pub resolve :
      Pinned → PinKey → Option (List String) → Pinned × Result ResolveError (List String)
  unfolding find_pin move_to_end resolve_new
  resolve pins key answer = elim (find_pin pins key) [
    | some addresses ↦ (move_to_end pins key addresses, ok addresses)
    | none ↦ resolve_new pins key answer
  ]
