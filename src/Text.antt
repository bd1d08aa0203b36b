-- ===== src/Text.antt =====
-- Texts as lists of code points, with what the program uses of Python's `str` on them.
pub mod Strip
pub mod Lines
use sky_claw_gravity.Prelude.{
  Bool, Eq, List, [], arith, false, if◌then◌else◌, leb, refl, subst, true, ℕ, ◌&&◌, ◌++◌, ◌==◌,
  ◌||◌, ◌↔◌, ◌∷◌, ◌≡◌, nat_eq, string_eq,
}

-- two texts are equal
unfoldable pub codes_beq : List ℕ → List ℕ → Bool
codes_beq [] [] = true
codes_beq [] (d ∷ ds) = false
codes_beq (c ∷ cs) [] = false
codes_beq (c ∷ cs) (d ∷ ds) = c == d && codes_beq cs ds

pub codes_beq_refl : (cs : List ℕ) → codes_beq cs cs ≡ true
unfolding codes_beq
codes_beq_refl [] = refl
codes_beq_refl (c ∷ cs) = ground (arith, codes_beq_refl cs)

codes_beq-eq : (cs ds : List ℕ) → codes_beq cs ds ≡ true → cs ≡ ds
unfolding codes_beq
codes_beq-eq [] [] h = refl
codes_beq-eq [] (d ∷ ds) h = cc
codes_beq-eq (c ∷ cs) [] h = cc
codes_beq-eq (c ∷ cs) (d ∷ ds) h = ground (arith, codes_beq-eq cs ds)

pub codes_beq_iff : (cs ds : List ℕ) → (codes_beq cs ds ≡ true) ↔ (cs ≡ ds)
codes_beq_iff cs ds =
    (codes_beq-eq cs ds, λ p. subst (λ x. codes_beq cs x ≡ true) p (codes_beq_refl cs))

instance abbrev pub codes_eq : Eq (List ℕ)
codes_eq = record { beq = codes_beq; beq_iff = codes_beq_iff }

-- `c.isspace()`
unfoldable pub is_space : ℕ → Bool
is_space c =
    (leb 9 c && leb c 13)
    || (leb 28 c && leb c 32)
    || (c == 133)
    || (c == 160)
    || (c == 5760)
    || (leb 8192 c && leb c 8202)
    || (c == 8232)
    || (c == 8233)
    || (c == 8239)
    || (c == 8287)
    || (c == 12288)

-- `t.lstrip()`
unfoldable pub lstrip : List ℕ → List ℕ
unfolding is_space
lstrip [] = []
lstrip (c ∷ cs) = let rest = lstrip cs in if is_space c then rest else c ∷ cs

-- a character before what is left of a text
unfoldable pub before : (ℕ → Bool) → ℕ → List ℕ → List ℕ
before drops c [] = if drops c then [] else c ∷ []
before drops c (d ∷ ds) = c ∷ d ∷ ds

-- `t.rstrip(chars)`
unfoldable pub rstrip : (ℕ → Bool) → List ℕ → List ℕ
unfolding before
rstrip drops [] = []
rstrip drops (c ∷ cs) = before drops c (rstrip drops cs)

-- `t.strip()`
unfoldable pub strip : List ℕ → List ℕ
unfolding lstrip rstrip is_space
strip t = lstrip (rstrip is_space t)

-- the newline of a text that is read
abbrev pub newline : ℕ
newline = 10

-- `t.endswith("\n")`
unfoldable pub ends_line : List ℕ → Bool
ends_line [] = false
ends_line (c ∷ []) = c == newline
ends_line (c ∷ d ∷ cs) = ends_line (d ∷ cs)

-- a character in front of the first line
unfoldable pub onto_first : ℕ → List (List ℕ) → List (List ℕ)
onto_first c [] = (c ∷ []) ∷ []
onto_first c (l ∷ ls) = (c ∷ l) ∷ ls

-- `for line in file`: the lines of a text, each with its newline
unfoldable pub lines_of : List ℕ → List (List ℕ)
unfolding onto_first
lines_of [] = []
lines_of (c ∷ cs) = let ls = lines_of cs in if c == newline then (c ∷ []) ∷ ls else onto_first c ls

-- `file.writelines(lines)`
unfoldable pub joined : List (List ℕ) → List ℕ
joined [] = []
joined (l ∷ ls) = l ++ joined ls
