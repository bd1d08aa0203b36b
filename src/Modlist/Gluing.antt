-- ===== src/Modlist/Gluing.antt =====
-- What `add_mod_to_modlist` does to a list whose last line has no newline.
use sky_claw_gravity.Modlist.Names.{assert_safe_component-IsBare, check_names-name}
use sky_claw_gravity.Paths.{assert_safe_component}
use sky_claw_gravity.Result.{ok}
use sky_claw_gravity.Prelude.{
  ==-ne, Bool, Bool-cases, List, [], ap, append_assoc, arith, false, inl, inr, length, none, refl,
  some, suc, sym, true, ℕ, ◌++◌, ◌==◌, ◌∙◌, ◌∷◌, ◌≡◌, ◌≢◌, ◌≤◌, nat_eq, string_eq,
}
use sky_claw_gravity.Text.{
  before, is_space, lines_of, lstrip, newline, onto_first, rstrip, strip, codes_eq,
}
use sky_claw_gravity.Modlist.{
  ModlistFile, add_mod, check_names, collect, entries, is_mark, is_present, mod_line, parse_line,
  yielded,
}
use sky_claw_gravity.Modlist.Entries.{IsBare}
use sky_claw_gravity.Modlist.Edits.{is_mark-space, parse_line-marked}
use sky_claw_gravity.Modlist.Adding.{
  IsEnded, IsTrimmed, entries-ended, entries-marked, trimmed-rstrip,
}

before-nonempty : (drops : ℕ → Bool) (c : ℕ) (r : List ℕ) → r ≢ [] → before drops c r ≡ c ∷ r
unfolding before
before-nonempty drops c [] h = absurd (h refl)
before-nonempty drops c (d ∷ ds) h = refl

append-nonempty : (xs r : List ℕ) → r ≢ [] → (xs ++ r) ≢ []
append-nonempty [] r h = h
append-nonempty (x ∷ xs) r h = λ p. ground (arith, p)

rstrip-append :
    (drops : ℕ → Bool) (xs r : List ℕ)
    → r ≢ []
    → rstrip drops r ≡ r
    → rstrip drops (xs ++ r) ≡ xs ++ r
unfolding rstrip
rstrip-append drops [] r n h = h
rstrip-append drops (x ∷ xs) r n h =
    ap (before drops x) (rstrip-append drops xs r n h)
    ∙ before-nonempty drops x (xs ++ r) (append-nonempty xs r n)

length-lstrip : (t : List ℕ) → length (lstrip t) ≤ length t
unfolding lstrip
length-lstrip [] = omega arith
length-lstrip (c ∷ cs) = ground (arith, length-lstrip cs)

lstrip-head : (c : ℕ) (cs : List ℕ) → lstrip (c ∷ cs) ≡ c ∷ cs → is_space c ≡ false
unfolding lstrip
lstrip-head c cs h = elim (Bool-cases (is_space c)) [
  | inl p ↦
      let e : length (lstrip cs) ≡ suc (length cs) = ap length (rw (p, lstrip) at h) in
      absurd (omega (arith, e, length-lstrip cs))
  | inr p ↦ p
]

lstrip-append : (r ys : List ℕ) → r ≢ [] → lstrip r ≡ r → lstrip (r ++ ys) ≡ r ++ ys
unfolding lstrip
lstrip-append [] ys n h = absurd (n refl)
lstrip-append (c ∷ cs) ys n h = rw (lstrip-head c cs h) refl

trimmed-lstrip : (name : List ℕ) → IsTrimmed name → lstrip name ≡ name
unfolding strip
trimmed-lstrip name t = ap lstrip (sym (trimmed-rstrip name t)) ∙ t

-- two names around a mark
IsTrimmed-glued :
    (old name : List ℕ)
    → old ≢ []
    → IsTrimmed old
    → name ≢ []
    → IsTrimmed name
    → let glued = old ++ b'+' ∷ name in IsTrimmed glued × (rstrip is_space glued ≡ glued)
unfolding strip rstrip
IsTrimmed-glued old name o t n u =
    let tail = rstrip-append is_space (b'+' ∷ []) name n (trimmed-rstrip name u) in
    let whole = rstrip-append is_space old (b'+' ∷ name) (λ p. ground (arith, p)) tail in
    (ap lstrip whole ∙ lstrip-append old (b'+' ∷ name) o (trimmed-lstrip old t), whole)

IsBare-append : (xs ys : List ℕ) → IsBare xs → IsBare ys → IsBare (xs ++ ys)
IsBare-append [] ys a b = b
IsBare-append (x ∷ xs) ys a b = (a.0, IsBare-append xs ys a.1 b)

lines_of-bare : (c : ℕ) (cs : List ℕ) → IsBare (c ∷ cs) → lines_of (c ∷ cs) ≡ (c ∷ cs) ∷ []
unfolding lines_of onto_first
lines_of-bare c [] b = rw (==-ne c newline b.0) refl
lines_of-bare c (d ∷ ds) b = rw (==-ne c newline b.0) (rw (lines_of-bare d ds b.1) refl)

strip-marked :
    (mark : ℕ) (name : List ℕ)
    → is_mark mark ≡ true
    → name ≢ []
    → rstrip is_space name ≡ name
    → strip (mark ∷ name) ≡ mark ∷ name
unfolding strip lstrip
strip-marked mark name m n r =
    ap lstrip (rstrip-append is_space (mark ∷ []) name n r) ∙ rw (is_mark-space mark m) refl

-- a last line without its newline
entries-unended :
    (mark : ℕ) (name : List ℕ)
    → is_mark mark ≡ true
    → mark ≢ newline
    → name ≢ []
    → IsBare name
    → IsTrimmed name
    → collect (lines_of (mark ∷ name)) ≡ (name, mark == b'+') ∷ []
unfolding collect yielded
entries-unended mark name m k n b t =
    ap collect (lines_of-bare mark name (k, b))
    ∙ ap (λ s. yielded (parse_line s) []) (strip-marked mark name m n (trimmed-rstrip name t))
    ∙ ap (λ o. yielded o []) (parse_line-marked mark name m n t)

is_mark-newline : (mark : ℕ) → is_mark mark ≡ true → mark ≢ newline
unfolding is_mark
is_mark-newline mark m p = ground (arith, m, p)

-- For a list whose last line is that of a mod and has no newline at its end, a permitted path and safe
-- names without spaces at their ends, when the new mod has no line in the list: `add_mod` succeeds,
-- and of the two mods, the last and the new one, neither has an entry of its own. In their place
-- there is one mod whose name is the two names with a plus sign between them.
pub add_mod_glues :
    (f : ModlistFile) (lead old name profile : List ℕ) (mark : ℕ) (is_inside : Bool)
    → check_names name profile is_inside ≡ none
    → assert_safe_component old ≡ none
    → is_mark mark ≡ true
    → IsEnded lead
    → IsTrimmed old
    → IsTrimmed name
    → f.text ≡ lead ++ mark ∷ old
    → is_present name (lines_of f.text) ≡ false
    → let (file, answer) = add_mod (some f) name profile is_inside in
      (answer ≡ ok tt)
      × (entries f.text ≡ entries lead ++ (old, mark == b'+') ∷ [])
      × ((g : ModlistFile) × (file ≡ some g)
          × (entries g.text ≡ entries lead ++ (old ++ b'+' ∷ name, mark == b'+') ∷ []))
unfolding add_mod
add_mod_glues f lead old name profile mark is_inside h s m e t u q a =
    let (n, b) = assert_safe_component-IsBare name (check_names-name name profile is_inside h) in
    let (o, c) = assert_safe_component-IsBare old s in
    let k = is_mark-newline mark m in
    let glued : List ℕ = old ++ b'+' ∷ name in
    let (trimmed, _) = IsTrimmed-glued old name o t n u in
    let bare = IsBare-append old (b'+' ∷ name) c (λ p. ground (arith, p), b) in
    let ne = append-nonempty old (b'+' ∷ name) (λ p. ground (arith, p)) in
    let new : (f.text ++ mod_line b'+' name) ≡ lead ++ mod_line mark glued =
      ap (λ t. t ++ mod_line b'+' name) q ∙ simp append_assoc in
    rw (h, a, add_mod)
      (
        refl,
        ap entries q
            ∙ entries-ended lead (mark ∷ old) (old, mark == b'+') e
                (entries-unended mark old m k o c t),
        (
          _,
          refl,
          ap entries new
              ∙ entries-ended lead (mod_line mark glued) (glued, mark == b'+') e
                  (entries-marked mark glued m k ne bare trimmed),
        ),
      )
