-- ===== src/Fomod.antt =====
-- sky_claw/local/fomod/resolver.py over the models of sky_claw/local/fomod/models.py: from the
-- choices of a user to the files that an installer copies. A set of names is a list whose order and
-- repetitions do not show.
mod Models
pub mod Conditions
pub mod Groups
pub mod Sorting
pub mod Files
pub use Models.*
use sky_claw_gravity.Prelude.{
  Bool, List, String, [], false, if◌then◌else◌, keep, leb_ℤ, none, not, some, suc, true, ℕ, ◌&&◌,
  ◌++◌, ◌==◌, ◌||◌, ◌∷◌, nat_eq, string_eq,
}
use sky_claw_gravity.Dict
use sky_claw_gravity.Dict.{Dict}
use sky_claw_gravity.Fomod.Models.{
  ConditionFlag, ConditionalPattern, FileInstall, FomodConfig, Group, GroupType, InstallStep,
  Plugin, evaluate, is_select_all, select_at_least_one, select_exactly_one,
}

-- a text of `pending_decisions`, with the names of its step and group
pub data Pending : Type 0 where
  must_select_exactly_one : String → String → Pending
  must_select_at_least_one : String → String → Pending

pub record ResolveResult : Type 0 where
  pub files : List FileInstall
  pub pending_decisions : List Pending
  pub flags : Dict String String

unfoldable pub contains : List String → String → Bool
contains [] s = false
contains (x ∷ xs) s = x == s || contains xs s

-- `{s for s in xs if s in names}`
unfoldable pub selected_in : List String → List String → List String
unfolding contains
selected_in names xs = keep (contains names) xs

-- `len` of a set that a list stands for
unfoldable pub set_size : List String → ℕ
unfolding contains
set_size [] = 0
set_size (x ∷ xs) = let n = set_size xs in if contains xs x then n else suc n

unfoldable pub is_empty : List String → Bool
is_empty [] = true
is_empty (x ∷ xs) = false

abbrev pub plugin_names : List Plugin → List String
plugin_names [] = []
plugin_names (p ∷ ps) = p.name ∷ plugin_names ps

-- the tests of `_resolve_group`, with the decision that it adds
unfoldable pub pending_for : GroupType → String → String → List String → List Pending
unfolding set_size is_empty
pending_for select_exactly_one step group selected =
    if not (set_size selected == 1) && is_empty selected
    then must_select_exactly_one step group ∷ []
    else []
pending_for select_at_least_one step group selected =
    if is_empty selected then must_select_at_least_one step group ∷ [] else []
pending_for _ step group selected = []

-- `_resolve_group`: the selected names, and the decisions added
unfoldable pub resolve_group : String → Group → List String → List String × List Pending
unfolding selected_in pending_for
resolve_group step g step_selections =
    let names = plugin_names g.plugins in
    let selected = selected_in names step_selections in
    (
      if is_select_all g.group_type then names else selected,
      pending_for g.group_type step g.name selected,
    )

-- `flags[cf.name] = cf.value` for each
unfoldable pub set_flags : Dict String String → List ConditionFlag → Dict String String
set_flags flags [] = flags
set_flags flags (cf ∷ cfs) = set_flags (Dict.put flags cf.name cf.value) cfs

-- one turn of the loop over the plugins of a group; the flag is `plugin.name in selected_plugins`
unfoldable pub install_plugin : Bool → Plugin → ResolveResult → ResolveResult
unfolding set_flags
install_plugin true p r = record r {
  files = r.files ++ p.files;
  flags = set_flags r.flags p.condition_flags;
}
install_plugin false p r = r

unfoldable pub install_plugins : List String → List Plugin → ResolveResult → ResolveResult
unfolding contains install_plugin
install_plugins selected [] r = r
install_plugins selected (p ∷ ps) r =
    install_plugins selected ps (install_plugin (contains selected p.name) p r)

unfoldable pub resolve_groups : String → List String → List Group → ResolveResult → ResolveResult
unfolding resolve_group install_plugins
resolve_groups step step_selections [] r = r
resolve_groups step step_selections (g ∷ gs) r =
    let (selected, pending) = resolve_group step g step_selections in
    resolve_groups step step_selections gs (
      install_plugins selected g.plugins
        (record r { pending_decisions = r.pending_decisions ++ pending }))

-- `selections.get(name, [])`
unfoldable pub selections_of : Dict String (List String) → String → List String
selections_of selections name = elim (Dict.get selections name) [ none ↦ [] | some xs ↦ xs ]

-- `_is_step_visible`
unfoldable pub is_step_visible : InstallStep → Dict String String → Bool
unfolding evaluate
is_step_visible step flags = elim step.visibility [ none ↦ true | some c ↦ evaluate c flags ]

unfoldable pub resolve_steps :
    Dict String (List String) → List InstallStep → ResolveResult → ResolveResult
unfolding is_step_visible resolve_groups selections_of
resolve_steps selections [] r = r
resolve_steps selections (s ∷ ss) r = resolve_steps selections ss (
    if is_step_visible s r.flags
    then resolve_groups s.name (selections_of selections s.name) s.groups r
    else r)

-- the loop over the conditional installs
unfoldable pub conditional_files : List ConditionalPattern → Dict String String → List FileInstall
unfolding evaluate
conditional_files [] flags = []
conditional_files (p ∷ ps) flags =
    let rest = conditional_files ps flags in
    if evaluate p.conditions flags then p.files ++ rest else rest

-- `files.sort(key=priority)`: Python's sort is stable
unfoldable pub insert_file : FileInstall → List FileInstall → List FileInstall
insert_file f [] = f ∷ []
insert_file f (g ∷ gs) =
    let rest = insert_file f gs in if leb_ℤ f.priority g.priority then f ∷ g ∷ gs else g ∷ rest

unfoldable pub sort_files : List FileInstall → List FileInstall
unfolding insert_file
sort_files [] = []
sort_files (f ∷ fs) = insert_file f (sort_files fs)

-- `resolve` before the sort
unfoldable pub collect : FomodConfig → Dict String (List String) → ResolveResult
unfolding resolve_steps conditional_files
collect c selections =
    let r =
      resolve_steps selections c.install_steps
        (record { files = c.required_files; pending_decisions = []; flags = [] }) in
    record r { files = r.files ++ conditional_files c.conditional_installs r.flags }

unfoldable pub resolve : FomodConfig → Dict String (List String) → ResolveResult
unfolding collect sort_files
resolve c selections = let r = collect c selections in record r { files = sort_files r.files }
