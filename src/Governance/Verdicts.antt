-- ===== src/Governance/Verdicts.antt =====
-- The verdict on a file over the history of the manager.
use sky_claw_gravity.Dict.{get-put}
use sky_claw_gravity.Prelude.{
  ==-eq, Bool, Bool-cases, List, Option, String, [], arith, false, if◌then◌else◌, inl, inr, none,
  not, refl, some, subst, true, ℕ, ◌&&◌, ◌==◌, ◌||◌, ◌∙◌, ◌∷◌, ◌≡◌, nat_eq, string_eq,
}
use sky_claw_gravity.Governance.{
  Codec, Disk, Hardening, Manager, add_hash, approve_file, contains, is_clean_status,
  is_scanned_and_clean, update_scan_result,
}
use sky_claw_gravity.Dict

-- a call of the manager; what the save of an approval does to the disk is in `Crashes`
pub data Call : Type 0 where
  updates : Option String → String → Bool → Call
  approves : Option String → Hardening → String → Option ℕ → Call

module _ (c : Codec) where
  unfoldable pub step : Manager × Disk → Call → Manager × Disk
  step (m, d) (updates file_hash status db_error) =
      (update_scan_result m file_hash status db_error, d)
  step (m, d) (approves file_hash h fresh stop) =
      let (m', d', has_returned) = approve_file c m d file_hash h fresh stop in (m', d')

  unfoldable pub run : Manager × Disk → List Call → Manager × Disk
  unfolding step
  run s [] = s
  run s (call ∷ calls) = run (step s call) calls

-- what is known of one hash: whether a user approved it, and its last status
pub record Known : Type 0 where
  pub is_approved : Bool
  pub status : Option String

-- the hash of a call is this one
abbrev is_hash : String → Option String → Bool
is_hash file_hash none = false
is_hash file_hash (some other) = other == file_hash

-- one call, seen from one hash
abbrev pub learn : String → Known → Call → Known
learn file_hash k (updates other status db_error) =
    if is_hash file_hash other && not db_error then record k { status = some status } else k
learn file_hash k (approves other h fresh stop) =
    if is_hash file_hash other then record k { is_approved = true } else k

abbrev pub learn_all : String → Known → List Call → Known
learn_all file_hash k [] = k
learn_all file_hash k (call ∷ calls) = learn_all file_hash (learn file_hash k call) calls

abbrev pub Knows : String → Manager → Known → Type 0
Knows file_hash m k =
    (m.has_lifecycle ≡ true)
    × (contains file_hash m.whitelist ≡ k.is_approved)
    × (Dict.get m.scan_cache file_hash ≡ k.status)

contains-add_hash :
    (x y : String) (xs : List String) → contains y (add_hash x xs) ≡ (x == y || contains y xs)
unfolding add_hash contains
contains-add_hash x y xs = elim (Bool-cases (contains x xs)) [
  | inr p ↦ rw (p, add_hash) refl
  | inl p ↦ elim (Bool-cases (x == y)) [
    | inl q ↦ rw (p, add_hash) (rw q (subst (λ z. contains z xs ≡ true) (==-eq x y q) p))
    | inr q ↦ rw (p, add_hash) (rw q refl)
  ]
]

module _ (c : Codec) where
  step-Knows :
      (file_hash : String) (m : Manager) (d : Disk) (k : Known) (call : Call)
      → Knows file_hash m k
      → Knows file_hash (step c (m, d) call).0 (learn file_hash k call)
  unfolding step update_scan_result approve_file
  step-Knows file_hash m d k (updates none status db_error) h = h
  step-Knows file_hash m d k (updates (some other) status true) (l, w, s) =
      (ground (arith, l), ground (arith, l, w), ground (arith, l, s))
  step-Knows file_hash m d k (updates (some other) status false) (l, w, s) = (
    ground (arith, l),
    ground (arith, l, w),
    ground (arith, l, s, get-put m.scan_cache other file_hash status),
  )
  step-Knows file_hash m d k (approves none h fresh stop) i = i
  step-Knows file_hash m d k (approves (some other) h fresh stop) (l, w, s) =
      (l, contains-add_hash other file_hash m.whitelist ∙ ground (arith, w), ground (arith, s))

  run-Knows :
      (file_hash : String) (m : Manager) (d : Disk) (k : Known) (calls : List Call)
      → Knows file_hash m k
      → Knows file_hash (run c (m, d) calls).0 (learn_all file_hash k calls)
  unfolding run
  run-Knows file_hash m d k [] h = h
  run-Knows file_hash m d k (call ∷ calls) h =
      let s = step c (m, d) call in
      run-Knows file_hash s.0 s.1 (learn file_hash k call) calls (step-Knows file_hash m d k call h)

  -- After any calls of a manager whose database is set up, of any files, with any ends of the saves: a
  -- file that can be read, while the database answers, is clean exactly when a user approved its
  -- content, at any time and whether or not the save succeeded, or the last result that was stored
  -- for its content is CLEAN. While the database fails only an approved file is clean, and a file that
  -- cannot be read never is.
  pub is_scanned_and_clean-run :
      (file_hash : String) (m : Manager) (d : Disk) (k : Known) (calls : List Call)
      → Knows file_hash m k
      → let m' = (run c (m, d) calls).0 in
        let k' = learn_all file_hash k calls in
        (is_scanned_and_clean m' (some file_hash) false
          ≡ (k'.is_approved || is_clean_status k'.status))
        × (is_scanned_and_clean m' (some file_hash) true ≡ k'.is_approved)
        × (is_scanned_and_clean m' none false ≡ false)
  unfolding is_scanned_and_clean
  is_scanned_and_clean-run file_hash m d k calls h =
      let (l, w, s) = run-Knows file_hash m d k calls h in
      (ground (arith, l, w, s), ground (arith, l, w), refl)
