-- ===== src/Tests/Networks.antt =====
-- The gateway of network requests.
use sky_claw_gravity.Prelude.{
  All, List, Option, String, [], arith, false, if◌then◌else◌, length, none, refl, some, true, ◌==◌,
  ◌∷◌, ◌≡◌, ◌≤◌, nat_eq, string_eq,
}
use sky_claw_gravity.Gateway.{EgressPolicy, Library, Url, unknown_host}
use sky_claw_gravity.Gateway.Requests.{Answer, redirect, request, response, returned, violated}
use sky_claw_gravity.Gateway.Egress.{FirstIsAuthorized, IsSafe, request-IsSafe}
use sky_claw_gravity.Gateway.Resolver.{PinKey, resolve, pin_eq}
use sky_claw_gravity.Gateway.Resolver.Pinning.{AreChecked, resolve-pinned, resolve_all}
use sky_claw_gravity.Gateway.Resolver.Bounds.{IsSound, resolve-IsSound}
use sky_claw_gravity.Result.{ok}
use sky_claw_gravity.Dict

-- two hosts, one of them only for redirects
abbrev parse : String → Option Url
parse url =
    if url == "https://api.github.com/file"
    then some (record {
      scheme = "https";
      hostname = "api.github.com";
      netloc = "api.github.com";
      path = "/file";
    })
    else if url == "https://assets.org/file"
    then some (record {
      scheme = "https";
      hostname = "assets.org";
      netloc = "assets.org";
      path = "/file";
    })
    else none

abbrev library : Library
library = record {
  urlparse = parse;
  ip_address = λ _. none;
  lower = λ s. s;
  upper = λ s. s;
  is_clean = λ _. true;
  wildcard_base = λ _. none;
  endswith = λ _ _. false;
  startswith = λ _ _. false;
  concat = λ _. "";
}

abbrev policy : EgressPolicy
policy = record {
  allowed_hosts = "api.github.com" ∷ [];
  allowed_methods = [];
  telegram_path_prefix = "/bot";
  block_private_ips = true;
}

-- the first host redirects to the second
abbrev network : String → Answer
network url =
    if url == "https://api.github.com/file"
    then redirect (some "https://assets.org/file")
    else response 200

followed :
    request library policy 5 (some ("assets.org" ∷ [])) "GET" network "https://api.github.com/file"
    ≡ ("https://api.github.com/file" ∷ "https://assets.org/file" ∷ [], returned (response 200))
unfolding request Dict.get
followed = refl

refused :
    request library policy 5 none "GET" network "https://api.github.com/file"
    ≡ ("https://api.github.com/file" ∷ [], violated unknown_host)
unfolding request Dict.get
refused = refl

abbrev assets : Option (List String)
assets = some ("assets.org" ∷ [])

request-IsSafe_example :
    let (urls, ending) =
      request library policy 5 assets "GET" network "https://api.github.com/file" in
    (length urls ≤ 6)
    × FirstIsAuthorized library policy "GET" urls
    × All (IsSafe library policy assets "GET") urls
request-IsSafe_example =
    request-IsSafe library policy 5 assets "GET" network "https://api.github.com/file"

-- every address is a public one
abbrev addressed : Library
addressed = record library {
  ip_address =
      λ _. some (record { is_private = false; is_loopback = false; is_link_local = false });
}

abbrev mirror : PinKey
mirror = ("mirror.org", 443)

-- the name server changes its answer after another host was resolved
resolve-pinned_example :
    AreChecked addressed policy ("8.8.8.8" ∷ [])
    × ((resolve addressed policy
          (resolve_all addressed policy
            (resolve addressed policy [] mirror (some ("8.8.8.8" ∷ []))).0
            ((("other.org", 443), some ("1.1.1.1" ∷ [])) ∷ []))
          mirror
          (some ("10.0.0.1" ∷ []))).1
        ≡ ok ("8.8.8.8" ∷ []))
unfolding resolve
resolve-pinned_example =
    resolve-pinned addressed policy [] mirror (some ("8.8.8.8" ∷ [])) (some ("10.0.0.1" ∷ []))
      ("8.8.8.8" ∷ []) ((("other.org", 443), some ("1.1.1.1" ∷ [])) ∷ []) tt refl (omega arith)

resolve-IsSound_example :
    IsSound addressed policy (resolve addressed policy [] mirror (some ("8.8.8.8" ∷ []))).0
resolve-IsSound_example =
    resolve-IsSound addressed policy [] mirror (some ("8.8.8.8" ∷ [])) (tt, omega arith)
