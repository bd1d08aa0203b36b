-- ===== src/Modlist/Removal.antt =====
-- What `remove_mod_from_modlist` and `add_mod_to_modlist` leave of the entries.
use sky_claw_gravity.Prelude.{
  ==-refl, All, Bool, Bool-cases, List, [], ap, arith, false, inl, inr, keep, none, not, refl, some,
  sym, true, ℕ, ◌==◌, ◌∙◌, ◌∷◌, ◌≡◌, ◌≢◌, nat_eq, string_eq,
}
use sky_claw_gravity.Result.{ok}
use sky_claw_gravity.Text.{lines_of, strip, codes_eq}
use sky_claw_gravity.Text.Lines.{IsLine, lines_of-IsLine}
use sky_claw_gravity.Modlist.{
  ModlistFile, check_names, collect, entries, is_found, is_mod_line, lines_without, parse_line,
  remove_mod, yielded,
}
use sky_claw_gravity.Modlist.Entries.{entries-written}
use sky_claw_gravity.Modlist.Names.{assert_safe_component-IsBare, check_names-name}
use sky_claw_gravity.Modlist.Edits.{parse_line-mod}

-- an entry of another mod
abbrev pub is_other : List ℕ → List ℕ × Bool → Bool
is_other name (other, enabled) = not (other == name)

-- the entries of one line, kept or not
keep-other :
    (name : List ℕ) (s : List ℕ) (rest : List (List ℕ × Bool))
    → is_mod_line name s ≡ false
    → keep (is_other name) (yielded (parse_line s) rest)
      ≡ yielded (parse_line s) (keep (is_other name) rest)
unfolding parse_line is_mod_line yielded
keep-other name [] rest h = refl
keep-other name (c ∷ cs) rest h = ground (arith, h)

keep-mod :
    (name : List ℕ) (s : List ℕ) (rest : List (List ℕ × Bool))
    → name ≢ []
    → is_mod_line name s ≡ true
    → keep (is_other name) (yielded (parse_line s) rest) ≡ keep (is_other name) rest
unfolding yielded
keep-mod name s rest n h = rw (parse_line-mod name s n h) (rw (==-refl name) refl)

collect-lines_without :
    (name : List ℕ) (lines : List (List ℕ))
    → name ≢ []
    → collect (lines_without name lines) ≡ keep (is_other name) (collect lines)
unfolding collect lines_without
collect-lines_without name [] n = refl
collect-lines_without name (raw ∷ lines) n = elim (Bool-cases (is_mod_line name (strip raw))) [
  | inl p ↦
      rw p
        (collect-lines_without name lines n ∙ sym (keep-mod name (strip raw) (collect lines) n p))
  | inr p ↦ rw p (
      ap (yielded (parse_line (strip raw))) (collect-lines_without name lines n)
      ∙ sym (keep-other name (strip raw) (collect lines) p))
]

lines_without-IsLine :
    (name : List ℕ) (lines : List (List ℕ))
    → All IsLine lines
    → All IsLine (lines_without name lines)
unfolding lines_without
lines_without-IsLine name [] i = tt
lines_without-IsLine name (raw ∷ lines) i = elim (Bool-cases (is_mod_line name (strip raw))) [
  | inl p ↦ rw p (lines_without-IsLine name lines i.1)
  | inr p ↦ rw p (i.0, lines_without-IsLine name lines i.1)
]

nothing_removed :
    (name : List ℕ) (lines : List (List ℕ))
    → is_found name lines ≡ false
    → lines_without name lines ≡ lines
unfolding is_found lines_without
nothing_removed name [] h = refl
nothing_removed name (raw ∷ lines) h = ground (arith, h, nothing_removed name lines)

-- For a list that exists, a permitted path and safe names, when the write succeeds: `remove_mod`
-- succeeds, and the new list is read as the old one without the entries of the mod.
pub remove_mod-entries :
    (f : ModlistFile) (name profile : List ℕ) (is_inside : Bool)
    → check_names name profile is_inside ≡ none
    → let (file, answer) = remove_mod (some f) name profile is_inside false in
      (answer ≡ ok tt)
      × ((g : ModlistFile) × (file ≡ some g)
          × (entries g.text ≡ keep (is_other name) (entries f.text)))
unfolding remove_mod entries
remove_mod-entries f name profile is_inside h =
    let (nonempty, bare) =
      assert_safe_component-IsBare name (check_names-name name profile is_inside h) in
    let removed = collect-lines_without name (lines_of f.text) nonempty in
    elim (Bool-cases (is_found name (lines_of f.text))) [
      | inl p ↦
          rw (h, p, remove_mod)
            (
              refl,
              (
                _,
                refl,
                entries-written (lines_without name (lines_of f.text))
                      (lines_without-IsLine name (lines_of f.text) (lines_of-IsLine f.text))
                    ∙ removed,
              ),
            )
      | inr p ↦
          rw (h, p, remove_mod)
            (refl, (f, refl, ap collect (sym (nothing_removed name (lines_of f.text) p)) ∙ removed))
    ]
