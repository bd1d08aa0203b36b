-- ===== src/Fomod/Conditions.antt =====
-- The meaning of a composite condition.
use sky_claw_gravity.Prelude.{
  Bool, List, String, [], arith, refl, true, ◌&&◌, ◌++◌, ◌||◌, ◌∙◌, ◌∷◌, ◌≡◌, nat_eq, string_eq,
}
use sky_claw_gravity.Dict.{Dict}
use sky_claw_gravity.Fomod.Models.{
  CompositeDependencies, FileDependency, FlagDependency, all, and_op, any, combine, composite,
  evaluate, evaluate_all, file_results, flag_results, or_op,
}

all-append : (xs ys : List Bool) → all (xs ++ ys) ≡ (all xs && all ys)
unfolding all
all-append [] ys = refl
all-append (x ∷ xs) ys = ground (arith, all-append xs ys)

any-append : (xs ys : List Bool) → any (xs ++ ys) ≡ (any xs || any ys)
unfolding any
any-append [] ys = refl
any-append (x ∷ xs) ys = ground (arith, any-append xs ys)

all-file_results : (fds : List FileDependency) → all (file_results fds) ≡ true
unfolding all file_results
all-file_results [] = refl
all-file_results (f ∷ fs) = all-file_results fs

combine-and : (bs : List Bool) → combine and_op bs ≡ all bs
unfolding combine
combine-and [] = refl
combine-and (b ∷ bs) = refl

-- A condition joined by "And" holds exactly when every flag condition and every nested condition
-- holds: the file conditions do not matter.
evaluate-and :
    (flag_deps : List FlagDependency) (file_deps : List FileDependency)
    (nested : CompositeDependencies) (flags : Dict String String)
    → evaluate (composite and_op flag_deps file_deps nested) flags
      ≡ (all (flag_results flags flag_deps) && all (evaluate_all nested flags))
unfolding evaluate
evaluate-and fl fi ne flags =
    combine-and (flag_results flags fl ++ (file_results fi ++ evaluate_all ne flags))
    ∙ all-append (flag_results flags fl) (file_results fi ++ evaluate_all ne flags)
    ∙ rw (all-append (file_results fi) (evaluate_all ne flags), all-file_results fi) refl

-- A condition joined by "Or" that has a file condition holds, whatever the state of the files, of
-- the flags and of the nested conditions.
pub evaluate-or_file :
    (flag_deps : List FlagDependency) (f : FileDependency) (file_deps : List FileDependency)
    (nested : CompositeDependencies) (flags : Dict String String)
    → evaluate (composite or_op flag_deps (f ∷ file_deps) nested) flags ≡ true
unfolding evaluate file_results combine any
evaluate-or_file [] f fi ne flags = refl
evaluate-or_file (d ∷ ds) f fi ne flags =
    let e =
      any-append (flag_results flags ds) (true ∷ (file_results fi ++ evaluate_all ne flags)) in
    ground (arith, e)

-- A condition joined by "Or" with a flag condition and no file condition holds exactly when some
-- flag condition or some nested condition holds.
evaluate-or :
    (d : FlagDependency) (flag_deps : List FlagDependency) (nested : CompositeDependencies)
    (flags : Dict String String)
    → evaluate (composite or_op (d ∷ flag_deps) [] nested) flags
      ≡ (any (flag_results flags (d ∷ flag_deps)) || any (evaluate_all nested flags))
unfolding evaluate file_results combine any
evaluate-or d ds ne flags =
    rw (any-append (flag_results flags ds) (evaluate_all ne flags)) (ground arith)
