-- ===== src/Tests/Modlists.antt =====
-- The profile lists of Mod Organizer.
use mathlib.Core.List.{map}
use sky_claw_gravity.Prelude.{List, [], false, inr, refl, some, true, ℕ, ◌++◌, ◌∷◌, ◌≡◌}
use sky_claw_gravity.Result.{ok}
use sky_claw_gravity.Text.{codes_beq, ends_line, lines_of, newline, strip}
use sky_claw_gravity.Modlist.{
  ModlistFile, add_mod, check_names, entries, is_mark, is_present, mod_line, remove_mod, toggle_mod,
}
use sky_claw_gravity.Paths.{assert_safe_component}
use sky_claw_gravity.Modlist.Edits.{set_enabled}
use sky_claw_gravity.Modlist.Toggling.{toggle_mod-entries}
use sky_claw_gravity.Modlist.Adding.{remove_mod-add_mod}
use sky_claw_gravity.Modlist.Gluing.{add_mod_glues}

abbrev usvfs : List ℕ
usvfs = b'u' ∷ b's' ∷ []

abbrev skyui : List ℕ
skyui = b'S' ∷ b'k' ∷ b'y' ∷ []

abbrev profile : List ℕ
profile = b'P' ∷ []

-- a comment, a mod that is disabled, and one that is enabled, the last line with its newline or not
abbrev lead : List ℕ
lead = b'#' ∷ b'c' ∷ newline ∷ mod_line b'-' skyui

abbrev whole : ModlistFile
whole = record { has_bom = true; text = lead ++ mod_line b'+' usvfs }

abbrev cut : ModlistFile
cut = record { has_bom = true; text = lead ++ b'+' ∷ usvfs }

read_whole : entries whole.text ≡ (skyui, false) ∷ (usvfs, true) ∷ []
unfolding entries lines_of strip codes_beq
read_whole = refl

toggle_mod-entries_example :
    let (file, answer) = toggle_mod (some whole) skyui profile true true false in
    (answer ≡ ok tt)
    × ((g : ModlistFile) × (file ≡ some g)
        × (entries g.text ≡ map (set_enabled skyui true) (entries whole.text)))
unfolding check_names assert_safe_component codes_beq
toggle_mod-entries_example = toggle_mod-entries whole skyui profile true true refl

abbrev loot : List ℕ
loot = b'L' ∷ []

remove_mod-add_mod_example :
    let (file, answer) = add_mod (some whole) loot profile true in
    (answer ≡ ok tt)
    × ((g : ModlistFile) × (file ≡ some g)
        × (entries g.text ≡ entries whole.text ++ (loot, true) ∷ []))
    × ((g : ModlistFile) × ((remove_mod file loot profile true false).0 ≡ some g)
        × (entries g.text ≡ entries whole.text))
unfolding check_names assert_safe_component codes_beq strip ends_line is_present lines_of
remove_mod-add_mod_example = remove_mod-add_mod whole loot profile true refl (inr refl) refl refl

add_mod_glues_example :
    let (file, answer) = add_mod (some cut) loot profile true in
    (answer ≡ ok tt)
    × (entries cut.text ≡ entries lead ++ (usvfs, true) ∷ [])
    × ((g : ModlistFile) × (file ≡ some g)
        × (entries g.text ≡ entries lead ++ (usvfs ++ b'+' ∷ loot, true) ∷ []))
unfolding check_names assert_safe_component codes_beq strip ends_line is_present lines_of is_mark
add_mod_glues_example =
    add_mod_glues cut lead usvfs loot profile b'+' true refl refl refl (inr refl) refl refl refl
      refl
