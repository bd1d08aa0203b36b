-- ===== src/Modlist/Edits.antt =====
-- What the edits of a line of a modlist leave of its entry.
use sky_claw_gravity.Text.Strip.{rstrip-strip, strip-line, strip_idem}
use mathlib.Core.Option
use sky_claw_gravity.Prelude.{
  ==-eq, ==-ne, ==-refl, Bool, Bool-cases, List, [], ap, arith, false, if◌then◌else◌, inl, inr,
  refl, some, subst, sym, true, ℕ, ◌==◌, ◌∙◌, ◌∷◌, ◌≡◌, ◌≢◌, ◌⊎◌, nat_eq, string_eq,
}
use sky_claw_gravity.Text.{is_space, rstrip, strip, codes_eq}
use sky_claw_gravity.Modlist.{
  first_char, is_mark, is_mod_line, is_toggled, mark_of, mod_line, parse_line,
}

-- the entry of a mod is enabled or disabled
abbrev pub set_enabled : List ℕ → Bool → List ℕ × Bool → List ℕ × Bool
set_enabled name enable (other, enabled) = (other, if other == name then enable else enabled)

mark-cases : (c : ℕ) → is_mark c ≡ true → (c ≡ b'+') ⊎ (c ≡ b'-')
unfolding is_mark
mark-cases c h = ground arith

pub parse_line-other :
    (name : List ℕ) (enable : Bool) (s : List ℕ)
    → is_mod_line name s ≡ false
    → Option.map (set_enabled name enable) (parse_line s) ≡ parse_line s
unfolding parse_line is_mod_line
parse_line-other name enable [] h = refl
parse_line-other name enable (c ∷ cs) h = ground (arith, h)

pub parse_line-mod :
    (name : List ℕ) (s : List ℕ)
    → name ≢ []
    → is_mod_line name s ≡ true
    → parse_line s ≡ some (name, first_char s == b'+')
unfolding parse_line is_mod_line first_char
parse_line-mod name [] n h = cc
parse_line-mod name (c ∷ cs) n h = ground (arith, h, ==-eq (strip cs) name, ==-ne name [] n)

pub is_mark-space : (mark : ℕ) → is_mark mark ≡ true → is_space mark ≡ false
unfolding is_space
is_mark-space mark m = elim (mark-cases mark m) [ inl p ↦ rw p refl | inr p ↦ rw p refl ]

strip-mod_line :
    (mark : ℕ) (name : List ℕ)
    → is_mark mark ≡ true
    → rstrip is_space name ≡ name
    → strip (mod_line mark name) ≡ mark ∷ name
strip-mod_line mark name m r = strip-line mark name (is_mark-space mark m) ∙ ap (◌∷◌ mark) r

pub parse_line-marked :
    (mark : ℕ) (name : List ℕ)
    → is_mark mark ≡ true
    → name ≢ []
    → strip name ≡ name
    → parse_line (mark ∷ name) ≡ some (name, mark == b'+')
unfolding is_mod_line first_char
parse_line-marked mark name m n s =
    parse_line-mod name (mark ∷ name) n (rw s (rw (==-refl name) (rw m refl)))

-- the line of a mod is an entry
pub parse_line-mod_line :
    (mark : ℕ) (name : List ℕ)
    → is_mark mark ≡ true
    → name ≢ []
    → strip name ≡ name
    → rstrip is_space name ≡ name
    → parse_line (strip (mod_line mark name)) ≡ some (name, mark == b'+')
parse_line-mod_line mark name m n s r =
    ap parse_line (strip-mod_line mark name m r) ∙ parse_line-marked mark name m n s

is_mod_line-stripped :
    (name s : List ℕ)
    → is_mod_line name s ≡ true
    → (strip name ≡ name) × (rstrip is_space name ≡ name)
unfolding is_mod_line
is_mod_line-stripped name [] h = cc
is_mod_line-stripped name (c ∷ cs) h =
    let e : strip cs ≡ name = ==-eq (strip cs) name (ground (arith, h)) in
    (
      subst (λ t. strip t ≡ t) e (strip_idem cs),
      subst (λ t. rstrip is_space t ≡ t) e (rstrip-strip cs),
    )

pub mark_of-IsMark : (enable : Bool) → is_mark (mark_of enable) ≡ true
unfolding is_mark
mark_of-IsMark true = refl
mark_of-IsMark false = refl

mark_of-plus : (enable : Bool) → (mark_of enable == b'+') ≡ enable
mark_of-plus true = refl
mark_of-plus false = refl

-- the mark of a mod's line says whether it is enabled
first_char-mark :
    (name s : List ℕ) (enable : Bool)
    → is_mod_line name s ≡ true
    → (first_char s == mark_of enable) ≡ true
    → (first_char s == b'+') ≡ enable
first_char-mark name s enable h e =
    ap (λ c. c == b'+') (==-eq (first_char s) (mark_of enable) e) ∙ mark_of-plus enable

-- one line of the loop of `toggle_mod_in_modlist`
pub toggle_line-entry :
    (name raw : List ℕ) (enable : Bool)
    → name ≢ []
    → parse_line (
        strip
          (if is_toggled (mark_of enable) name raw then mod_line (mark_of enable) name else raw))
      ≡ Option.map (set_enabled name enable) (parse_line (strip raw))
unfolding is_toggled
toggle_line-entry name raw enable n = elim (Bool-cases (is_mod_line name (strip raw))) [
  | inr p ↦ rw p (sym (parse_line-other name enable (strip raw) p))
  | inl p ↦
      let old = parse_line-mod name (strip raw) n p in
      let enabled : Option.map (set_enabled name enable) (parse_line (strip raw))
          ≡ some (name, enable) =
        rw old (rw (==-refl name) refl) in
      elim (Bool-cases (first_char (strip raw) == mark_of enable)) [
        | inl q ↦
            rw (p, q)
              (old
                ∙ ap (λ b. some (name, b)) (first_char-mark name (strip raw) enable p q)
                ∙ sym enabled)
        | inr q ↦
            let (s, r) = is_mod_line-stripped name (strip raw) p in
            rw (p, q)
              (parse_line-mod_line (mark_of enable) name (mark_of-IsMark enable) n s r
                ∙ ap (λ b. some (name, b)) (mark_of-plus enable)
                ∙ sym enabled)
      ]
]
