-- ===== src/Gateway/Egress.antt =====
-- Which URLs a request of the gateway reaches.
use sky_claw_gravity.Prelude.{
  All, Bool, Bool-cases, List, Option, Option-cases, String, [], arith, false, if◌then◌else◌, inl,
  inr, length, none, refl, some, suc, true, zero, ℕ, ◌==◌, ◌∷◌, ◌≡◌, ◌≤◌, ◌⊎◌, nat_eq, string_eq,
}
use sky_claw_gravity.Gateway.{
  EgressPolicy, Library, Url, Violation, and_then, authorize, authorize_url, check_address,
  check_again, check_hop, check_redirect, check_scheme_allowed, contains,
}
use sky_claw_gravity.Gateway.Requests.{Answer, Ending, next_url, request, request_hops}

and_then-none : (a b : Option Violation) → and_then a b ≡ none → (a ≡ none) × (b ≡ none)
unfolding and_then
and_then-none none b e = (refl, e)
and_then-none (some v) b e = ground (arith, e)

else-none :
    (b : Bool) (v : Violation) (o : Option Violation) → (if b then some v else o) ≡ none → o ≡ none
else-none false v o e = e
else-none true v o e = ground (arith, e)

next-cases : (r : Ending ⊎ String) → ((x : Ending) × (r ≡ inl x)) ⊎ ((u : String) × (r ≡ inr u))
next-cases (inl x) = inl (x, refl)
next-cases (inr u) = inr (u, refl)

module _ (lib : Library) (policy : EgressPolicy) where
  -- the host is one of those that a redirect may go to
  abbrev pub IsListed : Option (List String) → String → Type 0
  IsListed hosts hostname =
      (names : List String) × (hosts ≡ some names) × (contains hostname names ≡ true)

  -- the policy permits the scheme and the address of the URL, and the URL itself unless its host is
  -- one that a redirect may go to
  abbrev pub IsSafe : Option (List String) → String → String → Type 0
  IsSafe hosts method url =
      (u : Url) × (lib.urlparse url ≡ some u)
      × (check_scheme_allowed lib policy u ≡ none)
      × (check_address lib policy u.hostname ≡ none)
      × ((authorize lib policy method url ≡ none) ⊎ IsListed hosts u.hostname)

  authorize_url-none :
      (method : String) (u : Url)
      → authorize_url lib policy method u ≡ none
      → (check_scheme_allowed lib policy u ≡ none) × (check_address lib policy u.hostname ≡ none)
  unfolding authorize_url
  authorize_url-none method u e =
      let (address, rest) = and_then-none _ _ (else-none (u.hostname == "") _ _ e) in
      ((and_then-none _ _ rest).0, address)

  authorize-IsSafe :
      (hosts : Option (List String)) (method url : String)
      → authorize lib policy method url ≡ none
      → IsSafe hosts method url
  unfolding authorize
  authorize-IsSafe hosts method url e = elim (Bool-cases (lib.is_clean url)) [
    | inl p ↦ elim (Option-cases (lib.urlparse url)) [
      | inl q ↦ ground (arith, e, p, q)
      | inr (u, q) ↦
          let (scheme, address) = authorize_url-none (lib.upper method) u (rw (p, q) at e) in
          (u, q, scheme, address, inl e)
    ]
    | inr p ↦ ground (arith, e, p)
  ]

  check_redirect-none :
      (u : Url)
      → check_redirect lib policy u ≡ none
      → (check_scheme_allowed lib policy u ≡ none) × (check_address lib policy u.hostname ≡ none)
  unfolding check_redirect
  check_redirect-none u e = and_then-none _ _ e

  check_hop-IsSafe :
      (later : Bool) (hosts : Option (List String)) (method url : String)
      → check_hop lib policy later hosts method url ≡ none
      → IsSafe hosts method url
  unfolding check_hop
  check_hop-IsSafe false hosts method url e = authorize-IsSafe hosts method url e
  check_hop-IsSafe true none method url e = authorize-IsSafe none method url e
  check_hop-IsSafe true (some hosts) method url e = elim (Option-cases (lib.urlparse url)) [
    | inl q ↦ ground (arith, e, q)
    | inr (u, q) ↦ elim (Bool-cases (contains u.hostname hosts)) [
      | inl p ↦
          let (scheme, address) = check_redirect-none u (rw (q, p, check_hop) at e) in
          (u, q, scheme, address, inr (hosts, refl, p))
      | inr p ↦ authorize-IsSafe (some hosts) method url (rw (q, p, check_hop) at e)
    ]
  ]

  -- the checks before a request
  abbrev admits : Bool → Option (List String) → String → String → Option Violation
  admits later hosts method url =
      and_then (check_hop lib policy later hosts method url) (check_again lib policy url)

  -- the first URL is permitted by the allow list
  abbrev pub FirstIsAuthorized : String → List String → Type 0
  FirstIsAuthorized method [] = Unit
  FirstIsAuthorized method (url ∷ urls) = authorize lib policy method url ≡ none

  request_hops-IsSafe :
      (hops : ℕ) (later : Bool) (hosts : Option (List String)) (method : String)
      (network : String → Answer) (url : String)
      → let (urls, ending) = request_hops lib policy hops later hosts method network url in
        (length urls ≤ hops) × All (IsSafe hosts method) urls
  unfolding request_hops
  request_hops-IsSafe zero later hosts method network url = (omega arith, tt)
  request_hops-IsSafe (suc hops) later hosts method network url =
      elim (Option-cases (admits later hosts method url)) [
        | inr (v, e) ↦ rw (e, request_hops) (omega arith, tt)
        | inl e ↦
            let safe = check_hop-IsSafe later hosts method url (and_then-none _ _ e).0 in
            elim (next-cases (next_url lib policy url (network url))) [
              | inl (x, q) ↦ rw (e, q, request_hops) (omega arith, (safe, tt))
              | inr (next, q) ↦
                  let (fewer, others) = request_hops-IsSafe hops true hosts method network next in
                  rw (e, q, request_hops) (omega (arith, fewer), (safe, others))
            ]
      ]

  first_authorized :
      (hops : ℕ) (hosts : Option (List String)) (method : String) (network : String → Answer)
      (url : String)
      → FirstIsAuthorized method
          (request_hops lib policy (suc hops) false hosts method network url).0
  unfolding request_hops check_hop
  first_authorized hops hosts method network url =
      elim (Option-cases (admits false hosts method url)) [
        | inr (v, e) ↦ rw (e, request_hops) tt
        | inl e ↦
            let permitted = (and_then-none _ _ e).0 in
            elim (next-cases (next_url lib policy url (network url))) [
              | inl (x, q) ↦ rw (e, q, request_hops) permitted
              | inr (next, q) ↦ rw (e, q, request_hops) permitted
            ]
      ]

  -- For any library, policy, network and URL, `request` sends at most one request more than its limit
  -- of redirects. The first URL that it requests is one that `authorize` permits. Each URL that it
  -- requests has a scheme and an address that the policy permits, and `authorize` permits it too unless
  -- its host is one of the hosts that a redirect may go to.
  pub request-IsSafe :
      (max_redirects : ℕ) (hosts : Option (List String)) (method : String)
      (network : String → Answer) (url : String)
      → let (urls, ending) = request lib policy max_redirects hosts method network url in
        (length urls ≤ suc max_redirects)
        × FirstIsAuthorized method urls
        × All (IsSafe hosts method) urls
  unfolding request
  request-IsSafe max_redirects hosts method network url =
      let (bounded, safe) =
        request_hops-IsSafe (suc max_redirects) false hosts method network url in
      (bounded, first_authorized max_redirects hosts method network url, safe)
