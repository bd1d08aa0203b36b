-- ===== src/Fomod/Files.antt =====
-- The files that `resolve` returns.
use sky_claw_gravity.Prelude.{
  Bool, List, String, [], ap, append-nil, append_assoc, arith, false, if◌then◌else◌, keep, refl,
  sym, true, ℤ, ◌++◌, ◌∙◌, ◌∷◌, ◌≡◌, nat_eq, string_eq,
}
use sky_claw_gravity.Dict.{Dict}
use sky_claw_gravity.Fomod.{
  FileInstall, FomodConfig, Group, InstallStep, ResolveResult, collect, conditional_files,
  install_plugins, is_step_visible, resolve, resolve_group, resolve_groups, resolve_steps,
  selections_of,
}
use sky_claw_gravity.Fomod.Sorting.{IsSorted, has_priority, keep-sort_files, sort_files-IsSorted}
use sky_claw_gravity.Fomod.Groups.{files_of, group_files, takes}

files-groups :
    (step : String) (sel : List String) (gs : List Group) (r : ResolveResult)
    → (rest : List FileInstall) × ((resolve_groups step sel gs r).files ≡ r.files ++ rest)
unfolding resolve_groups
files-groups step sel [] r = ([], sym (append-nil r.files))
files-groups step sel (g ∷ gs) r =
    let (selected, pending) = resolve_group step g sel in
    let r' = record r { pending_decisions = r.pending_decisions ++ pending } in
    let own = files_of (takes g sel) g.plugins in
    let (rest, e) = files-groups step sel gs (install_plugins selected g.plugins r') in
    (
      own ++ rest,
      e
          ∙ ap (λ (fs : List FileInstall). fs ++ rest) (group_files step g sel r')
          ∙ append_assoc r.files own rest,
    )

-- one step, shown or hidden, and then the rest of the steps
files-step :
    (selections : Dict String (List String)) (s : InstallStep) (r : ResolveResult) (b : Bool)
    (next : ResolveResult → ResolveResult)
    → ((u : ResolveResult) → (rest : List FileInstall) × ((next u).files ≡ u.files ++ rest))
    → (rest : List FileInstall) × ((next (
          if b
          then resolve_groups s.name (selections_of selections s.name) s.groups r
          else r)).files
        ≡ r.files ++ rest)
files-step selections s r true next next_files =
    let sel = selections_of selections s.name in
    let (own, e) = files-groups s.name sel s.groups r in
    let (rest, e') = next_files (resolve_groups s.name sel s.groups r) in
    (own ++ rest, e' ∙ ap (λ (fs : List FileInstall). fs ++ rest) e ∙ append_assoc r.files own rest)
files-step selections s r false next next_files = next_files r

files-steps :
    (selections : Dict String (List String)) (ss : List InstallStep) (r : ResolveResult)
    → (rest : List FileInstall) × ((resolve_steps selections ss r).files ≡ r.files ++ rest)
unfolding resolve_steps
files-steps selections [] r = ([], sym (append-nil r.files))
files-steps selections (s ∷ ss) r =
    files-step selections s r (is_step_visible s r.flags) (resolve_steps selections ss)
      (files-steps selections ss)

files-collect :
    (c : FomodConfig) (selections : Dict String (List String))
    → (rest : List FileInstall) × ((collect c selections).files ≡ c.required_files ++ rest)
unfolding collect
files-collect c selections =
    let start : ResolveResult = record {
      files = c.required_files;
      pending_decisions = [];
      flags = [];
    } in
    let (rest, e) = files-steps selections c.install_steps start in
    let extra =
      conditional_files c.conditional_installs
        (resolve_steps selections c.install_steps start).flags in
    (
      rest ++ extra,
      ap (λ (fs : List FileInstall). fs ++ extra) e ∙ append_assoc c.required_files rest extra,
    )

keep-append_files :
    (p : FileInstall → Bool) (xs ys : List FileInstall) → keep p (xs ++ ys) ≡ keep p xs ++ keep p ys
keep-append_files p [] ys = refl
keep-append_files p (x ∷ xs) ys = ground (arith, keep-append_files p xs ys)

-- The files of a result are sorted by priority; they are those collected from the required files,
-- the steps and the conditional installs, those of one priority in the order in which they were
-- collected; and among the files of one priority the required files come first, all of them.
pub resolve_files :
    (c : FomodConfig) (selections : Dict String (List String)) (k : ℤ)
    → IsSorted (resolve c selections).files
      × (keep (has_priority k) (resolve c selections).files
          ≡ keep (has_priority k) (collect c selections).files)
      × ((rest : List FileInstall) × (keep (has_priority k) (resolve c selections).files
            ≡ keep (has_priority k) c.required_files ++ rest))
unfolding resolve
resolve_files c selections k =
    let fs = (collect c selections).files in
    let (rest, e) = files-collect c selections in
    (
      sort_files-IsSorted fs,
      keep-sort_files k fs,
      (
        keep (has_priority k) rest,
        keep-sort_files k fs
            ∙ ap (keep (has_priority k)) e
            ∙ keep-append_files (has_priority k) c.required_files rest,
      ),
    )
