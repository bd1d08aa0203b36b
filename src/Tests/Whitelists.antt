-- ===== src/Tests/Whitelists.antt =====
-- The whitelist and the cache of scans.
use sky_claw_gravity.Prelude.{
  List, Option, String, [], false, if◌then◌else◌, none, refl, some, true, ◌==◌, ◌||◌, ◌∷◌, ◌≡◌,
  nat_eq, string_eq,
}
use sky_claw_gravity.Governance.{
  Codec, Disk, Manager, contains, crashed, hardened, is_clean_status, is_scanned_and_clean,
  load_whitelist, save_whitelist,
}
use sky_claw_gravity.Governance.Crashes.{OldOrNew, Saved, save_whitelist-load}
use sky_claw_gravity.Governance.Verdicts.{
  Call, Known, approves, is_scanned_and_clean-run, learn_all, run, updates,
}
use sky_claw_gravity.Dict

-- documents of at most one hash, and signatures that do not depend on the content
abbrev read_hashes : String → Option (List String)
read_hashes raw = if raw == "" then some [] else some (raw ∷ [])

abbrev codec : Codec
codec = record {
  dumps = λ hashes. elim hashes [ [] ↦ "" | h ∷ _ ↦ h ];
  loads = read_hashes;
  hmac = λ key raw. key;
  strip = λ t. t;
}

abbrev disk : Disk
disk = record {
  whitelist = some "";
  hmac_key = some "key";
  hmac_sig = some "key";
  json_tmp = none;
  sig_tmp = none;
}

-- the key was there
save_whitelist-load_example :
    let (d, has_returned) = save_whitelist codec disk ("a1" ∷ []) hardened "new" none in
    (has_returned ≡ true)
    × Saved codec disk ("a1" ∷ []) "new" d has_returned
    × OldOrNew codec
        (load_whitelist codec (crashed codec disk ("a1" ∷ []) hardened "new" 3))
        []
        ("a1" ∷ [])
    × OldOrNew codec
        (load_whitelist codec (save_whitelist codec disk ("a1" ∷ []) hardened "new" (some 3)).0)
        []
        ("a1" ∷ [])
unfolding load_whitelist
save_whitelist-load_example =
    save_whitelist-load codec disk [] ("a1" ∷ []) hardened "new" 3 refl (λ key raw. refl) refl

-- the first save of all has to make the key, and raises
first_save :
    save_whitelist codec (record disk { hmac_key = none }) ("a1" ∷ []) hardened "new" none
    ≡ (record disk { hmac_key = some "new" }, false)
unfolding save_whitelist
first_save = refl

abbrev manager : Manager
manager = record { whitelist = []; scan_cache = []; has_lifecycle = true }

abbrev nothing_known : Known
nothing_known = record { is_approved = false; status = none }

-- a file is found infected, another one clean, and the first is approved although the save raises
abbrev history : List Call
history =
    updates (some "a1") "INFECTED" false
    ∷ updates (some "b2") "CLEAN" false
    ∷ approves (some "a1") hardened "new" (some 2)
    ∷ []

is_scanned_and_clean-run_example :
    let m = (run codec (manager, disk) history).0 in
    let k = learn_all "a1" nothing_known history in
    (is_scanned_and_clean m (some "a1") false ≡ (k.is_approved || is_clean_status k.status))
    × (is_scanned_and_clean m (some "a1") true ≡ k.is_approved)
    × (is_scanned_and_clean m none false ≡ false)
unfolding Dict.get contains
is_scanned_and_clean-run_example =
    is_scanned_and_clean-run codec "a1" manager disk nothing_known history (refl, refl, refl)
