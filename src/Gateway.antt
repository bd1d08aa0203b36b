-- ===== src/Gateway.antt =====
-- `NetworkGateway.authorize` of sky_claw/antigravity/security/network_gateway.py and its checks. What
-- the code takes from `urllib`, `ipaddress`, `re` and Python's texts is the record `Library`.
pub mod Requests
pub mod Egress
pub mod Resolver
use sky_claw_gravity.Prelude.{
  Bool, List, Option, String, [], false, if◌then◌else◌, none, not, some, true, ◌&&◌, ◌==◌, ◌||◌,
  ◌∷◌, nat_eq, string_eq,
}
use sky_claw_gravity.Dict

-- a parsed URL; the host name is in lower case, and empty if there is none
pub record Url : Type 0 where
  pub scheme : String
  pub hostname : String
  pub netloc : String
  pub path : String

-- `ipaddress.ip_address`
pub record Address : Type 0 where
  pub is_private : Bool
  pub is_loopback : Bool
  pub is_link_local : Bool

-- `urlparse` and `ip_address` are none where they raise a `ValueError`; `is_clean` says that a text
-- passes the three tests before the parse, and `wildcard_base` is what follows a leading `*.`.
pub record Library : Type 0 where
  pub urlparse : String → Option Url
  pub ip_address : String → Option Address
  pub lower : String → String
  pub upper : String → String
  pub is_clean : String → Bool
  pub wildcard_base : String → Option String
  pub endswith : String → String → Bool
  pub startswith : String → String → Bool
  pub concat : List String → String

pub record EgressPolicy : Type 0 where
  pub allowed_hosts : List String
  pub allowed_methods : Dict.Dict String (List String)
  pub telegram_path_prefix : String
  pub block_private_ips : Bool

-- `EgressViolationError`, by its cause; `not_parsed` is the `ValueError` of an `urlparse` outside
-- `authorize`
pub data Violation : Type 0 where
  unclean malformed no_hostname private_address insecure_scheme unknown_host : Violation
  bad_method bad_telegram_path too_many_redirects not_parsed : Violation

-- the second check, where the first does not raise
unfoldable pub and_then : Option Violation → Option Violation → Option Violation
and_then none next = next
and_then (some v) next = some v

unfoldable pub is_internal : Address → Bool
is_internal a = a.is_private || a.is_loopback || a.is_link_local

unfoldable pub contains : String → List String → Bool
contains x [] = false
contains x (y ∷ ys) = y == x || contains x ys

module _ (lib : Library) (policy : EgressPolicy) where
  -- the test of a literal address
  unfoldable pub check_address : String → Option Violation
  unfolding is_internal
  check_address hostname = elim (lib.ip_address hostname) [
    | none ↦ none
    | some a ↦ if policy.block_private_ips && is_internal a then some private_address else none
  ]

  -- `_is_loopback_host`
  unfoldable pub is_loopback_host : String → Bool
  is_loopback_host hostname =
      let name = lib.lower hostname in
      if hostname == ""
      then false
      else if name == "localhost" || name == "127.0.0.1" || name == "::1"
      then true
      else elim (lib.ip_address name) [ none ↦ false | some a ↦ a.is_loopback ]

  -- `_check_scheme_allowed`
  unfoldable pub check_scheme_allowed : Url → Option Violation
  unfolding is_loopback_host
  check_scheme_allowed u =
      if u.scheme == "https"
      then none
      else if u.scheme == "http" && is_loopback_host u.hostname
      then none
      else some insecure_scheme

  -- does a pattern of the allow list match?
  unfoldable pub pattern_matches : String → String → Bool
  pattern_matches hostname pattern = elim (lib.wildcard_base (lib.lower pattern)) [
    | some base ↦ lib.endswith (lib.lower hostname) (lib.concat ("." ∷ base ∷ []))
    | none ↦ lib.lower hostname == lib.lower pattern
  ]

  unfoldable pub first_match : String → List String → Option String
  unfolding pattern_matches
  first_match hostname [] = none
  first_match hostname (pattern ∷ patterns) =
      let rest = first_match hostname patterns in
      if pattern_matches hostname pattern then some pattern else rest

  -- `_matching_pattern`
  abbrev pub matching_pattern : String → Option String
  matching_pattern hostname = first_match hostname policy.allowed_hosts

  -- `_check_host_allowed`
  unfoldable pub check_host_allowed : String → Option Violation
  unfolding first_match
  check_host_allowed hostname = elim (matching_pattern hostname) [
    | none ↦ some unknown_host
    | some _ ↦ none
  ]

  -- the methods of a pattern, if it has a list of them
  unfoldable pub check_methods : String → Option (List String) → Option Violation
  unfolding contains
  check_methods method none = none
  check_methods method (some allowed) = if contains method allowed then none else some bad_method

  -- `_check_method_allowed`
  unfoldable pub check_method_allowed : String → String → Option Violation
  unfolding first_match check_methods
  check_method_allowed method hostname = elim (matching_pattern hostname) [
    | none ↦ none
    | some pattern ↦ check_methods method (Dict.get policy.allowed_methods pattern)
  ]

  -- `_check_telegram_path`
  unfoldable pub check_telegram_path : String → String → Option Violation
  check_telegram_path hostname path =
      if hostname == "api.telegram.org" && not (lib.startswith path policy.telegram_path_prefix)
      then some bad_telegram_path
      else none

  -- `authorize` after the parse
  unfoldable pub authorize_url : String → Url → Option Violation
  unfolding and_then check_address check_scheme_allowed check_host_allowed check_method_allowed
      check_telegram_path
  authorize_url method u =
      if u.hostname == ""
      then some no_hostname
      else and_then (check_address u.hostname) (
          and_then (check_scheme_allowed u) (
            and_then (check_host_allowed u.hostname) (
              and_then (check_method_allowed method u.hostname)
                (check_telegram_path u.hostname u.path))))

  -- `authorize`: none where it returns
  unfoldable pub authorize : String → String → Option Violation
  unfolding authorize_url
  authorize method url =
      if lib.is_clean url
      then elim (lib.urlparse url) [
        | none ↦ some malformed
        | some u ↦ authorize_url (lib.upper method) u
      ]
      else some unclean

  -- the check of a redirect to a host that is approved for redirects
  unfoldable pub check_redirect : Url → Option Violation
  unfolding and_then check_scheme_allowed check_address
  check_redirect u = and_then (check_scheme_allowed u) (check_address u.hostname)

  -- the check of a hop; the flag is `hop > 0`
  unfoldable pub check_hop : Bool → Option (List String) → String → String → Option Violation
  unfolding authorize check_redirect contains
  check_hop false redirect_hosts method url = authorize method url
  check_hop true none method url = authorize method url
  check_hop true (some hosts) method url = elim (lib.urlparse url) [
    | none ↦ some not_parsed
    | some u ↦ if contains u.hostname hosts then check_redirect u else authorize method url
  ]

  -- the second test of the scheme, before the request
  unfoldable pub check_again : String → Option Violation
  unfolding check_scheme_allowed
  check_again url = elim (lib.urlparse url) [
    | none ↦ some not_parsed
    | some u ↦ check_scheme_allowed u
  ]
