-- ===== src/Tests/Installers.antt =====
-- FOMOD installers.
use sky_claw_gravity.Prelude.{
  List, String, [], keep, negsuc, none, pos, ℤ, ◌++◌, ◌∷◌, ◌≡◌, nat_eq, string_eq,
}
use sky_claw_gravity.Dict.{Dict}
use sky_claw_gravity.Fomod.{
  CompositeDependency, FileDependency, FileInstall, FlagDependency, FomodConfig, Group, Plugin,
  ResolveResult, and_op, collect, composite, missing, nil, resolve, select_exactly_one,
}
use sky_claw_gravity.Fomod.Sorting.{IsSorted, has_priority}
use sky_claw_gravity.Fomod.Files.{resolve_files}

abbrev install_file : String → ℤ → FileInstall
install_file name priority = record { source = name; destination = name; priority = priority }

abbrev plugin : String → List FileInstall → Plugin
plugin name files = record {
  name = name;
  description = "";
  image = "";
  condition_flags = record { name = name; value = "On" } ∷ [];
  files = files;
  type_descriptor = "Optional";
}

abbrev textures : Group
textures = record {
  name = "Textures";
  group_type = select_exactly_one;
  plugins =
      plugin "2K" (install_file "2k.bsa" (pos 1) ∷ [])
      ∷ plugin "4K" (install_file "4k.bsa" (negsuc 0) ∷ [])
      ∷ [];
}

abbrev two_k_condition : CompositeDependency
two_k_condition = composite and_op (record { flag = "2K"; value = "On" } ∷ []) [] nil

abbrev installer : FomodConfig
installer = record {
  module_name = "Better Rocks";
  required_files = install_file "core.esp" (pos 1) ∷ install_file "core.bsa" (pos 0) ∷ [];
  install_steps = record { name = "Main"; visibility = none; groups = textures ∷ [] } ∷ [];
  conditional_installs =
      record { conditions = two_k_condition; files = install_file "patch.esp" (pos 0) ∷ [] } ∷ [];
}

abbrev selections : Dict String (List String)
selections = ("Main", "2K" ∷ []) ∷ []

resolve_files_example :
    IsSorted (resolve installer selections).files
    × (keep (has_priority (pos 1)) (resolve installer selections).files
        ≡ keep (has_priority (pos 1)) (collect installer selections).files)
    × ((rest : List FileInstall) × (keep (has_priority (pos 1)) (resolve installer selections).files
          ≡ keep (has_priority (pos 1)) installer.required_files ++ rest))
resolve_files_example = resolve_files installer selections (pos 1)

abbrev nothing_yet : ResolveResult
nothing_yet = record { files = []; pending_decisions = []; flags = [] }

abbrev flag_condition : List FlagDependency
flag_condition = record { flag = "4K"; value = "On" } ∷ []

abbrev file_condition : List FileDependency
file_condition = record { file = "Skyrim.esm"; state = missing } ∷ []
