-- ===== src/Governance.antt =====
-- `GovernanceManager` of sky_claw/antigravity/security/governance.py: the whitelist on the disk with
-- its key and signature, and the cache of scans. What it takes from `json`, `hmac` and `str.strip` is
-- the record `Codec`. The write of a whitelist is a list of steps on the disk, so that it can stop
-- between any two of them. A failing read is not modelled. A set is a list.
pub mod Crashes
pub mod Verdicts
use sky_claw_gravity.Prelude.{
  Bool, List, Option, String, [], false, if◌then◌else◌, none, not, some, take, true, ℕ, ◌++◌, ◌==◌,
  ◌||◌, ◌∷◌, nat_eq, string_eq,
}
use sky_claw_gravity.Result.{Result, err, ok}
use sky_claw_gravity.Dict.{Dict}
use sky_claw_gravity.Dict
use sky_claw_gravity.Dict.{Dict}

-- `dumps` is the text of the JSON document of a whitelist, and `loads` its approved hashes, if it
-- parses and validates; `hmac` takes the key first.
pub record Codec : Type 0 where
  pub dumps : List String → String
  pub loads : String → Option (List String)
  pub hmac : String → String → String
  pub strip : String → String

-- the files of the manager, each with its content if it exists. The whitelist and the key have one
-- temporary file between them: `with_suffix` takes the paths of both to `.purple_whitelist.json.tmp`.
pub record Disk : Type 0 where
  pub whitelist : Option String
  pub hmac_key : Option String
  pub hmac_sig : Option String
  pub json_tmp : Option String
  pub sig_tmp : Option String

-- the `RuntimeError` of a load, by its cause
pub data LoadError : Type 0 where
  missing_signature bad_signature corrupt : LoadError

-- how `restrict_to_owner` ends for the key that is there: it hardens the key, or raises, and the key
-- is then removed or cannot be
pub data Hardening : Type 0 where
  hardened removed kept : Hardening

-- a change of the disk by `save_whitelist`
pub data Step : Type 0 where
  write_whitelist : String → Step
  drop_key : Step
  write_key : String → Step
  rename_key : Step
  write_sig : String → Step
  rename_whitelist : Step
  rename_sig : Step

-- `tmp.replace(path)` and what it makes of the disk; it raises if the temporary file is not there
unfoldable pub renamed : Option String → (String → Disk) → Option Disk
renamed none moved = none
renamed (some content) moved = some (moved content)

-- a step; none where it raises
unfoldable pub apply : Step → Disk → Option Disk
unfolding renamed
apply (write_whitelist raw) d = some (record d { json_tmp = some raw })
apply drop_key d = some (record d { hmac_key = none })
apply (write_key key) d = some (record d { json_tmp = some key })
apply rename_key d = renamed d.json_tmp (λ key. record d { hmac_key = some key; json_tmp = none })
apply (write_sig sig) d = some (record d { sig_tmp = some sig })
apply rename_whitelist d =
    renamed d.json_tmp (λ raw. record d { whitelist = some raw; json_tmp = none })
apply rename_sig d = renamed d.sig_tmp (λ sig. record d { hmac_sig = some sig; sig_tmp = none })

-- the steps up to one that raises, and whether none did
unfoldable pub apply_all : List Step → Disk → Disk × Bool
unfolding apply
apply_all [] d = (d, true)
apply_all (s ∷ ss) d = elim (apply s d) [ none ↦ (d, false) | some d' ↦ apply_all ss d' ]

-- the `finally` clause
unfoldable pub cleaned : Disk × Bool → Disk × Bool
cleaned (d, true) = (d, true)
cleaned (d, false) = (record d { json_tmp = none; sig_tmp = none }, false)

-- `_get_or_create_hmac_key`: its steps, and the key that it returns
unfoldable pub key_steps : Option String → Hardening → String → List Step × String
key_steps none h fresh = (write_key fresh ∷ rename_key ∷ [], fresh)
key_steps (some key) hardened fresh = ([], key)
key_steps (some key) removed fresh = (drop_key ∷ write_key fresh ∷ rename_key ∷ [], fresh)
key_steps (some key) kept fresh = (write_key fresh ∷ rename_key ∷ [], fresh)

module _ (c : Codec) where
  -- the end of `_load_whitelist`
  unfoldable pub parse_whitelist : String → Result LoadError (List String)
  parse_whitelist raw = elim (c.loads raw) [ none ↦ err corrupt | some hashes ↦ ok hashes ]

  unfoldable pub check_signature : String → String → Option String → Result LoadError (List String)
  unfolding parse_whitelist
  check_signature raw key none = err missing_signature
  check_signature raw key (some sig) =
      if c.strip sig == c.hmac key raw then parse_whitelist raw else err bad_signature

  unfoldable pub load_content :
      Option String → Option String → Option String → Result LoadError (List String)
  unfolding check_signature
  load_content none key sig = ok []
  load_content (some raw) none sig = parse_whitelist raw
  load_content (some raw) (some key) sig = check_signature raw key sig

  -- `_load_whitelist`
  unfoldable pub load_whitelist : Disk → Result LoadError (List String)
  unfolding load_content
  load_whitelist d = load_content d.whitelist d.hmac_key d.hmac_sig

  -- the steps of `save_whitelist`
  unfoldable pub save_steps : Disk → List String → Hardening → String → List Step
  unfolding key_steps
  save_steps d hashes h fresh =
      let raw = c.dumps hashes in
      let (steps, key) = key_steps d.hmac_key h fresh in
      write_whitelist raw
      ∷ (steps ++ write_sig (c.hmac key raw) ∷ rename_whitelist ∷ rename_sig ∷ [])

  -- the disk when the process stops after some of the steps, or at one that raises
  unfoldable pub crashed : Disk → List String → Hardening → String → ℕ → Disk
  unfolding save_steps apply_all
  crashed d hashes h fresh n = (apply_all (take n (save_steps d hashes h fresh)) d).0

  -- `save_whitelist`, and whether it returns; with a number it raises after so many of its steps
  unfoldable pub save_whitelist : Disk → List String → Hardening → String → Option ℕ → Disk × Bool
  unfolding save_steps apply_all crashed cleaned
  save_whitelist d hashes h fresh none = cleaned (apply_all (save_steps d hashes h fresh) d)
  save_whitelist d hashes h fresh (some n) = cleaned (crashed d hashes h fresh n, false)

-- the manager: its whitelist, the status of each file hash in the table `scan_cache`, and whether
-- `set_lifecycle` was called
pub record Manager : Type 0 where
  pub whitelist : List String
  pub scan_cache : Dict String String
  pub has_lifecycle : Bool

-- `file_hash in self.whitelist`
unfoldable pub contains : String → List String → Bool
contains x [] = false
contains x (y ∷ ys) = y == x || contains x ys

unfoldable pub is_clean_status : Option String → Bool
is_clean_status none = false
is_clean_status (some status) = status == "CLEAN"

-- `is_scanned_and_clean` from the hash of the file, which is none if it cannot be read
unfoldable pub is_scanned_and_clean : Manager → Option String → Bool → Bool
unfolding contains is_clean_status
is_scanned_and_clean m none db_error = false
is_scanned_and_clean m (some file_hash) db_error =
    if contains file_hash m.whitelist
    then true
    else if not m.has_lifecycle
    then false
    else if db_error
    then false
    else is_clean_status (Dict.get m.scan_cache file_hash)

-- `update_scan_result` from the hash of the file
unfoldable pub update_scan_result : Manager → Option String → String → Bool → Manager
update_scan_result m none status db_error = m
update_scan_result m (some file_hash) status db_error =
    if not m.has_lifecycle
    then m
    else if db_error
    then m
    else record m { scan_cache = Dict.put m.scan_cache file_hash status }

-- `self.whitelist.add(file_hash)`
unfoldable pub add_hash : String → List String → List String
unfolding contains
add_hash x xs = if contains x xs then xs else x ∷ xs

-- `approve_file` from the hash of the file; it has returned if the flag is true
unfoldable pub approve_file :
    Codec → Manager → Disk → Option String → Hardening → String → Option ℕ → Manager × Disk × Bool
unfolding add_hash save_whitelist
approve_file c m d none h fresh stop = (m, d, true)
approve_file c m d (some file_hash) h fresh stop =
    let hashes = add_hash file_hash m.whitelist in
    let (d', has_returned) = save_whitelist c d hashes h fresh stop in
    (record m { whitelist = hashes }, d', has_returned)
