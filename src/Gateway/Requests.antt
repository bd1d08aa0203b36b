-- ===== src/Gateway/Requests.antt =====
-- `NetworkGateway.request`: the requests of a URL and of its redirects. The answers of the network are
-- an argument.
use sky_claw_gravity.Prelude.{
  Bool, List, Option, String, [], false, if◌then◌else◌, inl, inr, none, some, suc, true, zero, ℕ,
  ◌==◌, ◌∷◌, ◌⊎◌, nat_eq, string_eq,
}
use sky_claw_gravity.Gateway.{
  EgressPolicy, Library, Violation, and_then, check_again, check_hop, not_parsed,
  too_many_redirects,
}

-- what the network answers to a request: a response, a redirect with its `Location` (none if it is
-- missing or empty), or a timeout
pub data Answer : Type 0 where
  response : ℕ → Answer
  redirect : Option String → Answer
  no_answer : Answer

-- how a request ends
pub data Ending : Type 0 where
  returned : Answer → Ending
  violated : Violation → Ending
  timed_out : Ending

module _ (lib : Library) (policy : EgressPolicy) where
  -- the URL of a redirect from a URL to a location
  unfoldable pub redirect_url : String → String → Option String
  redirect_url url location = elim (lib.urlparse location) [
    | none ↦ none
    | some l ↦
        if l.netloc == ""
        then elim (lib.urlparse url) [
          | none ↦ none
          | some base ↦ some (lib.concat (base.scheme ∷ "://" ∷ base.netloc ∷ location ∷ []))
        ]
        else some location
  ]

  -- what follows an answer: the end, or the next URL
  unfoldable pub next_url : String → Answer → Ending ⊎ String
  unfolding redirect_url
  next_url url (response status) = inl (returned (response status))
  next_url url no_answer = inl timed_out
  next_url url (redirect none) = inl (returned (redirect none))
  next_url url (redirect (some location)) = elim (redirect_url url location) [
    | none ↦ inl (violated not_parsed)
    | some next ↦ inr next
  ]

  -- `request`: the loop over the hops that are left, with the URLs that are requested
  unfoldable pub request_hops :
      ℕ → Bool → Option (List String) → String → (String → Answer) → String → List String × Ending
  unfolding and_then check_hop check_again next_url
  request_hops zero later hosts method network url = ([], violated too_many_redirects)
  request_hops (suc hops) later hosts method network url =
      elim (and_then (check_hop lib policy later hosts method url) (check_again lib policy url)) [
        | some v ↦ ([], violated v)
        | none ↦ elim (next_url url (network url)) [
          | inl ending ↦ (url ∷ [], ending)
          | inr next ↦
              let (urls, ending) = request_hops hops true hosts method network next in
              (url ∷ urls, ending)
        ]
      ]

  -- `request`
  unfoldable pub request :
      ℕ → Option (List String) → String → (String → Answer) → String → List String × Ending
  unfolding request_hops
  request max_redirects hosts method network url =
      request_hops (suc max_redirects) false hosts method network url
