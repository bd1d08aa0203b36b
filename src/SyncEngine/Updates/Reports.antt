-- ===== src/SyncEngine/Updates/Reports.antt =====
-- What an update that is reported rests on, and what a report holds.
use sky_claw_gravity.Prelude.{
  ==-refl, Bool, Bool-cases, List, Option, String, [], ap, append-nil, append_assoc, arith, false,
  if◌then◌else◌, inl, inr, length, none, refl, some, suc, sym, true, zero, ℕ, ◌++◌, ◌+◌, ◌-◌, ◌==◌,
  ◌||◌, ◌∙◌, ◌∷◌, ◌≡◌, ◌≢◌, ◌≤◌, ◌⊎◌, nat_eq, string_eq,
}
use sky_claw_gravity.HitlGuard.{Decision, approved, denied, timeout}
use sky_claw_gravity.SyncEngine.Updates.{
  CallEnd, Checked, Update, UpdatePayload, WorkEnd, World, aborted, add_result, add_results,
  answered, awaited, cancelled_call, commits, fetch_error, fetch_from, if_approved, install,
  is_approved, max_attempts, network_failure, no_downloader, no_metadata, other_error, report,
  retry_error, reverts, safe_fetch_info, up_to_date, update_from, update_work, updated,
}

awaited-commits {ℓ} :
    {A : Type ℓ} (call : CallEnd A) (next : A → WorkEnd) (u : Update)
    → awaited call next ≡ commits u
    → (a : A) × (call ≡ answered a) × (next a ≡ commits u)
unfolding awaited
awaited-commits (answered a) next u h = (a, refl, h)
awaited-commits fetch_error next u h = ground (arith, h)
awaited-commits retry_error next u h = ground (arith, h)
awaited-commits other_error next u h = ground (arith, h)
awaited-commits cancelled_call next u h = ground (arith, h)

-- the operator approved, or there is no guard
abbrev pub Approves : Option (CallEnd Decision) → Type 0
Approves approval = (approval ≡ none) ⊎ (approval ≡ some (answered approved))

approved-only :
    (d : Decision) (next : WorkEnd) (u : Update)
    → (if is_approved d then next else reverts aborted) ≡ commits u
    → (d ≡ approved) × (next ≡ commits u)
unfolding is_approved
approved-only approved next u h = (refl, h)
approved-only denied next u h = ground (arith, h)
approved-only timeout next u h = ground (arith, h)

if_approved-commits :
    (approval : Option (CallEnd Decision)) (next : WorkEnd) (u : Update)
    → if_approved approval next ≡ commits u
    → Approves approval × (next ≡ commits u)
unfolding if_approved
if_approved-commits none next u h = (inl refl, h)
if_approved-commits (some call) next u h =
    let (d, e, k) = awaited-commits call _ u h in
    let (a, n) = approved-only d next u k in (inr (ap some (e ∙ ap answered a)), n)

-- every call of the installation was answered
abbrev pub Installs : World → Type 0
Installs w =
    (w.download ≡ answered tt) × (w.upsert_mod ≡ answered tt) × (w.log_tasks_batch ≡ answered tt)

install-commits : (w : World) (u : Update) → install w ≡ commits u → Installs w
unfolding install
install-commits w u h =
    let (_, d, h1) = awaited-commits w.download _ u h in
    let (_, p, h2) = awaited-commits w.upsert_mod _ u h1 in
    let (_, l, _) = awaited-commits w.log_tasks_batch _ u h2 in (d, p, l)

test-ne : (a b : String) → (a == b) ≡ false → a ≢ b
test-ne a b h e = cc (h, e, ==-refl a)

or-false : (a b : Bool) → (a || b) ≡ false → (a ≡ false) × (b ≡ false)
or-false false b h = (refl, h)
or-false true b h = cc

-- the version is a new one
abbrev pub IsNews : String → String → Type 0
IsNews local_version version = (version ≢ "") × (version ≢ local_version)

update_from-updated :
    (w : World) (local_version : String) (info : Option String)
    → update_from w local_version info ≡ commits updated
    → (version : String) × (info ≡ some version)
      × IsNews local_version version
      × Approves w.request_approval
      × Installs w
unfolding update_from
update_from-updated w local_version none h = ground (arith, h)
update_from-updated w local_version (some version) h =
    elim (Bool-cases (version == "" || version == local_version)) [
      | inl p ↦ ground (arith, rw p at h)
      | inr p ↦ elim (Bool-cases w.has_downloader) [
        | inr q ↦ ground (arith, rw (p, q) at h)
        | inl q ↦
            let (empty, same) = or-false (version == "") (version == local_version) p in
            let (_, _, h1) = awaited-commits w.get_file_info _ updated (rw (p, q) at h) in
            let (a, h2) = if_approved-commits w.request_approval (install w) updated h1 in
            (
              version,
              refl,
              (test-ne version "" empty, test-ne version local_version same),
              a,
              install-commits w updated h2,
            )
      ]
    ]

-- at most the attempts that are left, and one more, are made
fetch_from-bounded :
    (left attempt : ℕ) (fetch : ℕ → CallEnd (Option String))
    → (fetch_from left attempt fetch).1 ≤ attempt + left + 1
unfolding fetch_from
fetch_from-bounded zero attempt fetch = omega arith
fetch_from-bounded (suc left) attempt fetch =
    ground (arith, fetch_from-bounded left (attempt + 1) fetch)

-- For any answers of the network, the operator and the registry: if the work of an update ends as
-- updated, then the metadata came with a version that is not empty and not the local one, the operator
-- approved unless the engine has no guard, and the download, the row of the mod and the log entry
-- succeeded. The metadata were asked for at most five times.
pub update_work-updated :
    (w : World) (local_version : String)
    → update_work w local_version ≡ commits updated
    → ((version : String) × (safe_fetch_info w.fetch_mod_info ≡ answered (some version))
        × IsNews local_version version
        × Approves w.request_approval
        × Installs w)
      × ((fetch_from (max_attempts - 1) 0 w.fetch_mod_info).1 ≤ max_attempts)
unfolding update_work
update_work-updated w local_version h =
    let (info, e, k) = awaited-commits (safe_fetch_info w.fetch_mod_info) _ updated h in
    let (version, i, n, a, d) = update_from-updated w local_version info k in
    (
      (version, e ∙ ap answered i, n, a, d),
      fetch_from-bounded (max_attempts - 1) 0 w.fetch_mod_info,
    )

-- the kinds of answers by which a report lists a mod
abbrev pub is_updated : Option Update → Bool
is_updated (some updated) = true
is_updated _ = false

abbrev pub is_up_to_date : Option Update → Bool
is_up_to_date (some up_to_date) = true
is_up_to_date _ = false

abbrev pub is_failed : Option Update → Bool
is_failed (some updated) = false
is_failed (some up_to_date) = false
is_failed _ = true

-- the names of the mods with such an answer, in order
abbrev pub names_where : (Option Update → Bool) → List Checked → List String
names_where p [] = []
names_where p (r ∷ rs) = let rest = names_where p rs in if p r.answer then r.name ∷ rest else rest

-- the payload with more names
abbrev extended : UpdatePayload → List Checked → UpdatePayload
extended p rs = record {
  total_checked = p.total_checked;
  updated_mods = p.updated_mods ++ names_where is_updated rs;
  failed_mods = p.failed_mods ++ names_where is_failed rs;
  up_to_date_mods = p.up_to_date_mods ++ names_where is_up_to_date rs;
}

add_result-extended :
    (p : UpdatePayload) (name : String) (answer : Option Update) (rs : List Checked)
    → extended (add_result p (record { name = name; answer = answer })) rs
      ≡ extended p (record { name = name; answer = answer } ∷ rs)
unfolding add_result
add_result-extended p name none rs = simp append_assoc
add_result-extended p name (some updated) rs = simp append_assoc
add_result-extended p name (some up_to_date) rs = simp append_assoc
add_result-extended p name (some no_metadata) rs = simp append_assoc
add_result-extended p name (some no_downloader) rs = simp append_assoc
add_result-extended p name (some aborted) rs = simp append_assoc
add_result-extended p name (some network_failure) rs = simp append_assoc

add_results-extended : (p : UpdatePayload) (rs : List Checked) → add_results p rs ≡ extended p rs
unfolding add_results
add_results-extended p [] = simp append-nil
add_results-extended p (r ∷ rs) =
    add_results-extended (add_result p r) rs ∙ add_result-extended p r.name r.answer rs

-- the counts of the three lists
abbrev count_lists : List Checked → ℕ
count_lists rs =
    length (names_where is_updated rs)
    + length (names_where is_failed rs)
    + length (names_where is_up_to_date rs)

count_lists-cons :
    (name : String) (answer : Option Update) (rs : List Checked)
    → count_lists (record { name = name; answer = answer } ∷ rs) ≡ suc (count_lists rs)
count_lists-cons name none rs = omega arith
count_lists-cons name (some updated) rs = omega arith
count_lists-cons name (some up_to_date) rs = omega arith
count_lists-cons name (some no_metadata) rs = omega arith
count_lists-cons name (some no_downloader) rs = omega arith
count_lists-cons name (some aborted) rs = omega arith
count_lists-cons name (some network_failure) rs = omega arith

names_where-total : (rs : List Checked) → length rs ≡ count_lists rs
names_where-total [] = refl
names_where-total (r ∷ rs) =
    ap suc (names_where-total rs) ∙ sym (count_lists-cons r.name r.answer rs)

-- A report counts the mods that were checked and lists each of them once, in the order of the checks:
-- as updated, as up to date, or else as failed, which an exception that was isolated is too.
report_lem :
    (rs : List Checked)
    → let p = report rs in
      (p.updated_mods ≡ names_where is_updated rs)
      × (p.up_to_date_mods ≡ names_where is_up_to_date rs)
      × (p.failed_mods ≡ names_where is_failed rs)
      × (p.total_checked ≡ length p.updated_mods + length p.failed_mods + length p.up_to_date_mods)
unfolding report
report_lem rs = rw (add_results-extended _ rs) (refl, refl, refl, names_where-total rs)
