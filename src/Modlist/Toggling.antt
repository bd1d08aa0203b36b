-- ===== src/Modlist/Toggling.antt =====
-- What `toggle_mod_in_modlist` leaves of the entries.
use mathlib.Core.Option
use mathlib.Core.List.{map}
use sky_claw_gravity.Prelude.{
  All, Bool, Bool-cases, List, Option, [], ap, arith, false, inl, inr, none, refl, some, sym, true,
  ℕ, ◌∙◌, ◌∷◌, ◌≡◌, ◌≢◌,
}
use sky_claw_gravity.Result.{ok}
use sky_claw_gravity.Text.{lines_of, newline, strip}
use sky_claw_gravity.Text.Lines.{IsLine, lines_of-IsLine}
use sky_claw_gravity.Modlist.{
  ModlistFile, check_names, collect, entries, is_changed, is_toggled, mark_of, parse_line,
  toggle_lines, toggle_mod, yielded,
}
use sky_claw_gravity.Modlist.Entries.{IsBare, IsBare-snoc, entries-written}
use sky_claw_gravity.Modlist.Names.{assert_safe_component-IsBare, check_names-name}
use sky_claw_gravity.Modlist.Edits.{set_enabled, toggle_line-entry}

map-yielded :
    (f : List ℕ × Bool → List ℕ × Bool) (o : Option (List ℕ × Bool)) (rest : List (List ℕ × Bool))
    → map f (yielded o rest) ≡ yielded (Option.map f o) (map f rest)
unfolding yielded
map-yielded f none rest = refl
map-yielded f (some e) rest = refl

collect-toggle_lines :
    (name : List ℕ) (enable : Bool) (lines : List (List ℕ))
    → name ≢ []
    → collect (toggle_lines (mark_of enable) name lines)
      ≡ map (set_enabled name enable) (collect lines)
unfolding collect toggle_lines
collect-toggle_lines name enable [] n = refl
collect-toggle_lines name enable (raw ∷ lines) n =
    ap (λ o. yielded o (collect (toggle_lines (mark_of enable) name lines)))
      (toggle_line-entry name raw enable n)
    ∙ ap (yielded (Option.map (set_enabled name enable) (parse_line (strip raw))))
        (collect-toggle_lines name enable lines n)
    ∙ sym (map-yielded (set_enabled name enable) (parse_line (strip raw)) (collect lines))

mark_of-ne-newline : (enable : Bool) → mark_of enable ≢ newline
mark_of-ne-newline true = λ p. ground (arith, p)
mark_of-ne-newline false = λ p. ground (arith, p)

toggle_lines-IsLine :
    (name : List ℕ) (enable : Bool) (lines : List (List ℕ))
    → IsBare name
    → All IsLine lines
    → All IsLine (toggle_lines (mark_of enable) name lines)
unfolding toggle_lines
toggle_lines-IsLine name enable [] b i = tt
toggle_lines-IsLine name enable (raw ∷ lines) b i =
    elim (Bool-cases (is_toggled (mark_of enable) name raw)) [
      | inl p ↦ rw p (
        IsBare-snoc (mark_of enable ∷ name) (mark_of-ne-newline enable, b),
        toggle_lines-IsLine name enable lines b i.1,
      )
      | inr p ↦ rw p (i.0, toggle_lines-IsLine name enable lines b i.1)
    ]

unchanged_lines :
    (mark : ℕ) (name : List ℕ) (lines : List (List ℕ))
    → is_changed mark name lines ≡ false
    → toggle_lines mark name lines ≡ lines
unfolding is_changed toggle_lines
unchanged_lines mark name [] h = refl
unchanged_lines mark name (raw ∷ lines) h = ground (arith, h, unchanged_lines mark name lines)

-- For a list that exists, a permitted path and safe names, when the write succeeds: `toggle_mod`
-- succeeds, and the new list is read as the old one, entry by entry in the same order, with each
-- entry of the mod enabled or disabled as asked and every other entry as it was.
pub toggle_mod-entries :
    (f : ModlistFile) (name profile : List ℕ) (enable is_inside : Bool)
    → check_names name profile is_inside ≡ none
    → let (file, answer) = toggle_mod (some f) name profile enable is_inside false in
      (answer ≡ ok tt)
      × ((g : ModlistFile) × (file ≡ some g)
          × (entries g.text ≡ map (set_enabled name enable) (entries f.text)))
unfolding toggle_mod entries
toggle_mod-entries f name profile enable is_inside h =
    let (nonempty, bare) =
      assert_safe_component-IsBare name (check_names-name name profile is_inside h) in
    let toggled = collect-toggle_lines name enable (lines_of f.text) nonempty in
    elim (Bool-cases (is_changed (mark_of enable) name (lines_of f.text))) [
      | inl p ↦
          rw (h, p, toggle_mod)
            (
              refl,
              (
                _,
                refl,
                entries-written (toggle_lines (mark_of enable) name (lines_of f.text)) (
                      toggle_lines-IsLine name enable (lines_of f.text) bare
                        (lines_of-IsLine f.text))
                    ∙ toggled,
              ),
            )
      | inr p ↦
          rw (h, p, toggle_mod)
            (
              refl,
              (f, refl, ap collect (sym (unchanged_lines _ name (lines_of f.text) p)) ∙ toggled),
            )
    ]
