-- ===== src/Modlist/Entries.antt =====
-- What a list of lines yields when it is written and read again.
use sky_claw_gravity.Prelude.{
  ==-refl, All, Bool, Bool-cases, List, [], ap, arith, false, inl, inr, refl, true, ℕ, ◌++◌, ◌∙◌,
  ◌∷◌, ◌≡◌, ◌≢◌,
}
use sky_claw_gravity.Text.{before, ends_line, is_space, joined, lstrip, newline, rstrip, strip}
use sky_claw_gravity.Text.Strip.{rstrip-snoc}
use sky_claw_gravity.Text.Lines.{IsLine, lines_of-joined}
use sky_claw_gravity.Modlist.{
  collect, entries, is_line_end, normalise_all, normalised, parse_line, yielded,
}

-- a line end is a space
line_end-space : (c : ℕ) → is_line_end c ≡ true → is_space c ≡ true
unfolding is_line_end is_space
line_end-space c h = ground arith

before-line_end :
    (c : ℕ) (r : List ℕ)
    → rstrip is_space (before is_line_end c r) ≡ before is_space c (rstrip is_space r)
unfolding before rstrip
before-line_end c [] = elim (Bool-cases (is_line_end c)) [
  | inl p ↦ rw (p, before) (rw (line_end-space c p, before) refl)
  | inr p ↦ rw (p, before) refl
]
before-line_end c (d ∷ ds) = refl

rstrip-line_end : (l : List ℕ) → rstrip is_space (rstrip is_line_end l) ≡ rstrip is_space l
unfolding rstrip
rstrip-line_end [] = refl
rstrip-line_end (c ∷ cs) =
    before-line_end c (rstrip is_line_end cs) ∙ ap (before is_space c) (rstrip-line_end cs)

strip-normalised : (l : List ℕ) → strip (normalised l) ≡ strip l
unfolding normalised strip
strip-normalised l = elim (Bool-cases (ends_line l)) [
  | inl p ↦ rw p refl
  | inr p ↦
      rw p
        (ap lstrip (rstrip-snoc is_space (rstrip is_line_end l) newline refl ∙ rstrip-line_end l))
]

ends_line-snoc : (l : List ℕ) → ends_line (l ++ newline ∷ []) ≡ true
unfolding ends_line
ends_line-snoc [] = refl
ends_line-snoc (c ∷ []) = refl
ends_line-snoc (c ∷ d ∷ cs) = ends_line-snoc (d ∷ cs)

normalised-ends_line : (l : List ℕ) → ends_line (normalised l) ≡ true
unfolding normalised
normalised-ends_line l = elim (Bool-cases (ends_line l)) [
  | inl p ↦ rw p p
  | inr p ↦ rw p (ends_line-snoc (rstrip is_line_end l))
]

-- no newline at all
abbrev pub IsBare : List ℕ → Type 0
IsBare l = All (λ c. c ≢ newline) l

pub IsBare-snoc : (l : List ℕ) → IsBare l → IsLine (l ++ newline ∷ [])
IsBare-snoc [] h = tt
IsBare-snoc (c ∷ []) h = (h.0, tt)
IsBare-snoc (c ∷ d ∷ cs) h = (h.0, IsBare-snoc (d ∷ cs) h.1)

IsLine-IsBare : (l : List ℕ) → IsLine l → ends_line l ≡ false → IsBare l
unfolding ends_line
IsLine-IsBare [] i e = tt
IsLine-IsBare (c ∷ []) i e = (λ p. cc (p, e, ==-refl newline), tt)
IsLine-IsBare (c ∷ d ∷ cs) i e = (i.0, IsLine-IsBare (d ∷ cs) i.1 e)

before-IsBare :
    (drops : ℕ → Bool) (c : ℕ) (r : List ℕ) → c ≢ newline → IsBare r → IsBare (before drops c r)
unfolding before
before-IsBare drops c [] h b = elim (Bool-cases (drops c)) [
  | inl p ↦ rw p tt
  | inr p ↦ rw p (h, tt)
]
before-IsBare drops c (d ∷ ds) h b = (h, b)

rstrip-IsBare : (drops : ℕ → Bool) (l : List ℕ) → IsBare l → IsBare (rstrip drops l)
unfolding rstrip
rstrip-IsBare drops [] b = tt
rstrip-IsBare drops (c ∷ cs) b =
    before-IsBare drops c (rstrip drops cs) b.0 (rstrip-IsBare drops cs b.1)

normalised-IsLine : (l : List ℕ) → IsLine l → IsLine (normalised l)
unfolding normalised
normalised-IsLine l i = elim (Bool-cases (ends_line l)) [
  | inl p ↦ rw p i
  | inr p ↦
      rw p (IsBare-snoc (rstrip is_line_end l) (rstrip-IsBare is_line_end l (IsLine-IsBare l i p)))
]

normalise_all-lines :
    (ls : List (List ℕ))
    → All IsLine ls
    → All IsLine (normalise_all ls) × All (λ l. ends_line l ≡ true) (normalise_all ls)
unfolding normalise_all
normalise_all-lines [] i = (tt, tt)
normalise_all-lines (l ∷ ls) i =
    let (are_lines, end) = normalise_all-lines ls i.1 in
    ((normalised-IsLine l i.0, are_lines), (normalised-ends_line l, end))

collect-normalise_all : (ls : List (List ℕ)) → collect (normalise_all ls) ≡ collect ls
unfolding collect normalise_all
collect-normalise_all [] = refl
collect-normalise_all (l ∷ ls) =
    ap (λ t. yielded (parse_line t) (collect (normalise_all ls))) (strip-normalised l)
    ∙ ap (yielded (parse_line (strip l))) (collect-normalise_all ls)

-- the entries of a list that is written are those of its lines
pub entries-written :
    (ls : List (List ℕ)) → All IsLine ls → entries (joined (normalise_all ls)) ≡ collect ls
unfolding entries
entries-written ls i =
    let (are_lines, end) = normalise_all-lines ls i in
    ap collect (lines_of-joined (normalise_all ls) are_lines end) ∙ collect-normalise_all ls
