-- ===== src/Fomod/Sorting.antt =====
-- The sort by priority is stable.
use sky_claw_gravity.Prelude.{
  All, Bool, Bool-cases, List, [], arith, false, inl, inr, keep, leb_ℤ, refl, true, ℤ, ◌&&◌, ◌∙◌,
  ◌∷◌, ◌≡◌,
}
use sky_claw_gravity.Fomod.{FileInstall, insert_file, sort_files}

abbrev pub has_priority : ℤ → FileInstall → Bool
has_priority k f = leb_ℤ f.priority k && leb_ℤ k f.priority

abbrev pub Before : FileInstall → FileInstall → Type 0
Before f g = leb_ℤ f.priority g.priority ≡ true

abbrev pub IsSorted : List FileInstall → Type 0
IsSorted [] = Unit
IsSorted (f ∷ fs) = All (Before f) fs × IsSorted fs

Before-trans : (f g h : FileInstall) → Before f g → Before g h → Before f h
Before-trans f g h p q = ground arith

not-Before : (f g : FileInstall) → leb_ℤ f.priority g.priority ≡ false → Before g f
not-Before f g p = ground arith

All-Before :
    (f g : FileInstall) (gs : List FileInstall) → Before f g → All (Before g) gs → All (Before f) gs
All-Before f g [] p a = tt
All-Before f g (h ∷ hs) p a = (Before-trans f g h p a.0, All-Before f g hs p a.1)

All-insert :
    (g f : FileInstall) (fs : List FileInstall)
    → Before g f
    → All (Before g) fs
    → All (Before g) (insert_file f fs)
unfolding insert_file
All-insert g f [] p a = (p, tt)
All-insert g f (h ∷ hs) p a = elim (Bool-cases (leb_ℤ f.priority h.priority)) [
  | inl e ↦ rw e (p, a)
  | inr e ↦ rw e (a.0, All-insert g f hs p a.1)
]

insert_file-IsSorted :
    (f : FileInstall) (fs : List FileInstall) → IsSorted fs → IsSorted (insert_file f fs)
unfolding insert_file
insert_file-IsSorted f [] s = (tt, tt)
insert_file-IsSorted f (g ∷ gs) s = elim (Bool-cases (leb_ℤ f.priority g.priority)) [
  | inl e ↦ rw e ((e, All-Before f g gs e s.0), s)
  | inr e ↦ rw e (All-insert g f gs (not-Before f g e) s.0, insert_file-IsSorted f gs s.1)
]

pub sort_files-IsSorted : (fs : List FileInstall) → IsSorted (sort_files fs)
unfolding sort_files
sort_files-IsSorted [] = tt
sort_files-IsSorted (f ∷ fs) = insert_file-IsSorted f (sort_files fs) (sort_files-IsSorted fs)

keep-insert :
    (k : ℤ) (f : FileInstall) (fs : List FileInstall)
    → keep (has_priority k) (insert_file f fs) ≡ keep (has_priority k) (f ∷ fs)
unfolding insert_file
keep-insert k f [] = refl
keep-insert k f (g ∷ gs) = elim (Bool-cases (leb_ℤ f.priority g.priority)) [
  | inl e ↦ rw e
  | inr e ↦
      let apart : (has_priority k f && has_priority k g) ≡ false = ground arith in
      rw e (ground (arith, keep-insert k f gs))
]

-- among the files of one priority, the sort keeps all, and their order
pub keep-sort_files :
    (k : ℤ) (fs : List FileInstall)
    → keep (has_priority k) (sort_files fs) ≡ keep (has_priority k) fs
unfolding sort_files
keep-sort_files k [] = refl
keep-sort_files k (f ∷ fs) = keep-insert k f (sort_files fs) ∙ rw (keep-sort_files k fs)
