-- ===== src/Tests/Approvals.antt =====
-- The guard that asks the operator.
use sky_claw_gravity.Prelude.{List, [], false, none, refl, some, true, ◌∷◌, ◌≡◌, nat_eq, string_eq}
use sky_claw_gravity.HitlGuard.{approved, close_request, decide, new_request, open_request, woken}
use sky_claw_gravity.HitlGuard.Answers.{
  Call, answer_all, close_request-open_request, has_approval, opens, responds, run,
}
use sky_claw_gravity.Dict

-- the operator approves, another request comes, and the operator denies after all
abbrev second_thoughts : List Call
second_thoughts =
    responds "download-1" true
    ∷ opens "download-2" (new_request "host" none "")
    ∷ responds "download-1" false
    ∷ []

close_request-open_request_example :
    let req = new_request "host" (some "https://github.com") "" in
    let (opened, refused) = open_request [] "download-1" req in
    let (closed, decision) = close_request (run opened second_thoughts) "download-1" woken in
    (refused ≡ none)
    × (decision ≡ decide (answer_all "download-1" req second_thoughts) woken)
    × (Dict.get closed "download-1" ≡ none)
    × (decision ≡ some approved → has_approval "download-1" second_thoughts ≡ true)
unfolding Dict.get
close_request-open_request_example =
    close_request-open_request [] "download-1" "host" "" (some "https://github.com") second_thoughts
      woken refl (tt, (tt, (tt, tt)))
