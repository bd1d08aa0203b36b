-- ===== src/Fomod/Groups.antt =====
-- What one group installs, and when it leaves a decision.
use sky_claw_gravity.Prelude.{
  ==-eq, ==-refl, All, Bool, Bool-cases, List, String, [], ap, append-nil, append_assoc, arith,
  false, if◌then◌else◌, inl, inr, keep, refl, sym, true, ◌&&◌, ◌++◌, ◌==◌, ◌||◌, ◌↔◌, ◌∙◌, ◌∷◌, ◌≡◌,
  ◌≢◌, ◌⊎◌, nat_eq, string_eq,
}
use sky_claw_gravity.Fomod.{
  FileInstall, Group, GroupType, Plugin, ResolveResult, contains, install_plugin, install_plugins,
  is_select_all, pending_for, plugin_names, resolve_group, select_at_least_one, select_exactly_one,
  selected_in,
}

-- the files of the plugins that a test takes, in order
abbrev pub files_of : (Plugin → Bool) → List Plugin → List FileInstall
files_of takes [] = []
files_of takes (p ∷ ps) = let rest = files_of takes ps in if takes p then p.files ++ rest else rest

-- the plugins that a group installs: all of a "SelectAll" group, else those that the user chose
abbrev pub takes : Group → List String → Plugin → Bool
takes g step_selections p = is_select_all g.group_type || contains step_selections p.name

contains-keep :
    (names xs : List String) (s : String)
    → contains (keep (contains names) xs) s ≡ (contains names s && contains xs s)
unfolding contains
contains-keep names [] s = ground arith
contains-keep names (x ∷ xs) s =
    let ih = contains-keep names xs s in
    elim (Bool-cases (x == s)) [
      | inl e ↦
          let same : x ≡ s = ==-eq x s e in
          elim (Bool-cases (contains names x)) [
            | inl p ↦ let q : contains names s ≡ true = rw (← same) p in rw (p, e) (rw q)
            | inr p ↦ let q : contains names s ≡ false = rw (← same) p in rw p (ih ∙ rw q)
          ]
      | inr e ↦ elim (Bool-cases (contains names x)) [ inl p ↦ rw (p, e) ih | inr p ↦ rw (p, e) ih ]
    ]

files-install_plugin :
    (b : Bool) (p : Plugin) (r : ResolveResult) (rest : List FileInstall)
    → (install_plugin b p r).files ++ rest ≡ r.files ++ (if b then p.files ++ rest else rest)
unfolding install_plugin
files-install_plugin true p r rest = append_assoc r.files p.files rest
files-install_plugin false p r rest = refl

files-install :
    (selected : List String) (ps : List Plugin) (r : ResolveResult)
    → (install_plugins selected ps r).files ≡ r.files ++ files_of (λ p. contains selected p.name) ps
unfolding install_plugins
files-install selected [] r = sym (append-nil r.files)
files-install selected (p ∷ ps) r =
    files-install selected ps (install_plugin (contains selected p.name) p r)
    ∙ files-install_plugin (contains selected p.name) p r
        (files_of (λ q. contains selected q.name) ps)

-- what holds of every plugin of a group whose names are among `names`
abbrev Named : List String → List Plugin → Type 0
Named names ps = All (λ p. contains names p.name ≡ true) ps

Named-cons :
    (n : String) (names : List String) (ps : List Plugin) → Named names ps → Named (n ∷ names) ps
unfolding contains
Named-cons n names [] h = tt
Named-cons n names (p ∷ ps) h = (ground (arith, h.0), Named-cons n names ps h.1)

plugin_names-Named : (ps : List Plugin) → Named (plugin_names ps) ps
unfolding contains
plugin_names-Named [] = tt
plugin_names-Named (p ∷ ps) =
    (rw (==-refl p.name), Named-cons p.name (plugin_names ps) ps (plugin_names-Named ps))

files_of-all :
    (names : List String) (ps : List Plugin)
    → Named names ps
    → files_of (λ p. contains names p.name) ps ≡ files_of (λ p. true) ps
files_of-all names [] h = refl
files_of-all names (p ∷ ps) h = rw (h.0, files_of-all names ps h.1)

files_of-chosen :
    (names xs : List String) (ps : List Plugin)
    → Named names ps
    → files_of (λ p. contains (keep (contains names) xs) p.name) ps
      ≡ files_of (λ p. contains xs p.name) ps
files_of-chosen names xs [] h = refl
files_of-chosen names xs (p ∷ ps) h =
    rw (contains-keep names xs p.name, h.0, files_of-chosen names xs ps h.1)

group_files_at :
    (b : Bool) (names sel : List String) (ps : List Plugin) (r : ResolveResult)
    → Named names ps
    → (install_plugins (if b then names else keep (contains names) sel) ps r).files
      ≡ r.files ++ files_of (λ p. b || contains sel p.name) ps
group_files_at true names sel ps r h =
    files-install names ps r
    ∙ ap (λ (fs : List FileInstall). r.files ++ fs) (files_of-all names ps h)
group_files_at false names sel ps r h =
    files-install (keep (contains names) sel) ps r
    ∙ ap (λ (fs : List FileInstall). r.files ++ fs) (files_of-chosen names sel ps h)

-- A group adds to the files those of every plugin, if it is a "SelectAll" group, and else exactly
-- those of the plugins that the user chose for the step, in the order of the group.
pub group_files :
    (step : String) (g : Group) (step_selections : List String) (r : ResolveResult)
    → (install_plugins (resolve_group step g step_selections).0 g.plugins r).files
      ≡ r.files ++ files_of (takes g step_selections) g.plugins
unfolding resolve_group selected_in
group_files step g sel r =
    group_files_at (is_select_all g.group_type) (plugin_names g.plugins) sel g.plugins r
      (plugin_names-Named g.plugins)

pending_lem :
    (t : GroupType) (step group : String) (xs : List String)
    → (pending_for t step group xs ≢ [])
      ↔ (((t ≡ select_exactly_one) ⊎ (t ≡ select_at_least_one)) × (xs ≡ []))
unfolding pending_for
pending_lem t step group [] = ground arith
pending_lem t step group (x ∷ xs) = ground arith

-- A group leaves a decision to the user exactly when it wants at least one plugin, or exactly one,
-- and the user chose none of its plugins. So an "exactly one" group with two plugins chosen leaves
-- none.
group_pending :
    (step : String) (g : Group) (step_selections : List String)
    → ((resolve_group step g step_selections).1 ≢ []) ↔ (
        ((g.group_type ≡ select_exactly_one) ⊎ (g.group_type ≡ select_at_least_one))
        × (selected_in (plugin_names g.plugins) step_selections ≡ []))
unfolding resolve_group
group_pending step g sel =
    pending_lem g.group_type step g.name (selected_in (plugin_names g.plugins) sel)
