-- ===== src/Governance/Crashes.antt =====
-- What a load finds after a save that stopped anywhere.
use sky_claw_gravity.Prelude.{
  ==-refl, Bool, Bool-cases, List, Option, String, [], ap, arith, false, inl, inr, none, refl, some,
  suc, take, true, zero, ℕ, ◌++◌, ◌==◌, ◌∙◌, ◌∷◌, ◌≡◌, ◌⊎◌, nat_eq, string_eq,
}
use sky_claw_gravity.Prelude.{
  ==-refl, Bool, Bool-cases, List, Option, String, [], ap, arith, false, inl, inr, none, refl, some,
  suc, take, true, zero, ℕ, ◌++◌, ◌==◌, ◌∙◌, ◌∷◌, ◌≡◌, ◌⊎◌, nat_eq, string_eq,
}
use sky_claw_gravity.Result.{Result, err, ok}
use sky_claw_gravity.Governance.{
  Codec, Disk, Hardening, LoadError, apply, apply_all, bad_signature, check_signature, cleaned,
  crashed, hardened, kept, key_steps, load_content, load_whitelist, missing_signature,
  parse_whitelist, removed, rename_key, rename_sig, rename_whitelist, renamed, save_steps,
  save_whitelist, write_key, write_sig, write_whitelist,
}

module _ (c : Codec) where
  -- the load gives the hashes, or raises
  abbrev pub GivesOr : Result LoadError (List String) → List String → Type 0
  GivesOr answer hashes = (answer ≡ ok hashes) ⊎ ((e : LoadError) × (answer ≡ err e))

  parsed :
      (raw : String) (hashes : List String)
      → c.loads raw ≡ some hashes
      → parse_whitelist c raw ≡ ok hashes
  unfolding parse_whitelist
  parsed raw hashes h = rw (h, parse_whitelist) refl

  -- a content that parses gives its hashes or raises, whatever the key and the signature
  content-GivesOr :
      (raw : String) (key sig : Option String) (hashes : List String)
      → c.loads raw ≡ some hashes
      → GivesOr (load_content c (some raw) key sig) hashes
  unfolding load_content check_signature
  content-GivesOr raw none sig hashes h = inl (parsed raw hashes h)
  content-GivesOr raw (some key) none hashes h = inr (missing_signature, refl)
  content-GivesOr raw (some key) (some sig) hashes h =
      elim (Bool-cases (c.strip sig == c.hmac key raw)) [
        | inl p ↦ rw p (inl (parsed raw hashes h))
        | inr p ↦ rw p (inr (bad_signature, refl))
      ]

  parse_whitelist-ok :
      (raw : String) (hashes : List String)
      → parse_whitelist c raw ≡ ok hashes
      → c.loads raw ≡ some hashes
  unfolding parse_whitelist
  parse_whitelist-ok raw hashes h = ground (arith, h)

  -- what loads, parses
  load_content-ok :
      (raw : String) (key sig : Option String) (hashes : List String)
      → load_content c (some raw) key sig ≡ ok hashes
      → c.loads raw ≡ some hashes
  unfolding load_content check_signature
  load_content-ok raw none sig hashes h = parse_whitelist-ok raw hashes h
  load_content-ok raw (some key) none hashes h = ground (arith, h)
  load_content-ok raw (some key) (some sig) hashes h =
      elim (Bool-cases (c.strip sig == c.hmac key raw)) [
        | inl p ↦ parse_whitelist-ok raw hashes (rw p at h)
        | inr p ↦ ground (arith, rw p at h)
      ]

  -- the same whitelist under another key and signature
  same_whitelist :
      (w key sig key' sig' : Option String) (hashes : List String)
      → load_content c w key sig ≡ ok hashes
      → GivesOr (load_content c w key' sig') hashes
  unfolding load_content
  same_whitelist none key sig key' sig' hashes h = inl h
  same_whitelist (some raw) key sig key' sig' hashes h =
      content-GivesOr raw key' sig' hashes (load_content-ok raw key sig hashes h)

  -- the load gives the old hashes or the new ones, or raises
  abbrev pub OldOrNew : Result LoadError (List String) → List String → List String → Type 0
  OldOrNew answer old new =
      (answer ≡ ok old) ⊎ (answer ≡ ok new) ⊎ ((e : LoadError) × (answer ≡ err e))

  between-OldOrNew :
      (d d' : Disk) (raw : String) (old new : List String)
      → c.loads raw ≡ some new
      → load_whitelist c d ≡ ok old
      → (d'.whitelist ≡ d.whitelist) ⊎ (d'.whitelist ≡ some raw)
      → OldOrNew (load_whitelist c d') old new
  unfolding load_whitelist
  between-OldOrNew d d' raw old new h l (inl p) =
      elim (same_whitelist d.whitelist d.hmac_key d.hmac_sig d'.hmac_key d'.hmac_sig old l) [
        | inl q ↦ inl (ap (λ w. load_content c w d'.hmac_key d'.hmac_sig) p ∙ q)
        | inr (e, q) ↦ inr (inr (e, ap (λ w. load_content c w d'.hmac_key d'.hmac_sig) p ∙ q))
      ]
  between-OldOrNew d d' raw old new h l (inr p) =
      elim (content-GivesOr raw d'.hmac_key d'.hmac_sig new h) [
        | inl q ↦ inr (inl (ap (λ w. load_content c w d'.hmac_key d'.hmac_sig) p ∙ q))
        | inr (e, q) ↦ inr (inr (e, ap (λ w. load_content c w d'.hmac_key d'.hmac_sig) p ∙ q))
      ]

  -- a disk whose whitelist is the old one or the new one
  abbrev Either : Option String → String → Disk → Type 0
  Either old raw d = (d.whitelist ≡ old) ⊎ (d.whitelist ≡ some raw)

  -- the signed whitelist goes into place while the key stays
  signed-Either :
      (d : Disk) (raw sig : String) (n : ℕ)
      → Either d.whitelist raw
          (apply_all
            (take n (write_whitelist raw ∷ write_sig sig ∷ rename_whitelist ∷ rename_sig ∷ []))
            d).0
  unfolding apply_all apply renamed
  signed-Either d raw sig zero = inl refl
  signed-Either d raw sig (suc zero) = inl refl
  signed-Either d raw sig (suc (suc zero)) = inl refl
  signed-Either d raw sig (suc (suc (suc zero))) = inr refl
  signed-Either d raw sig (suc (suc (suc (suc zero)))) = inr refl
  signed-Either d raw sig (suc (suc (suc (suc (suc n))))) = inr refl

  -- a new key takes the temporary file of the whitelist with it, so that the rename raises
  new_key-Either :
      (d : Disk) (raw key sig : String) (n : ℕ)
      → (apply_all
          (take n (write_key key ∷ rename_key ∷ write_sig sig ∷ rename_whitelist ∷ rename_sig ∷ []))
          d).0.whitelist
        ≡ d.whitelist
  unfolding apply_all apply renamed
  new_key-Either d raw key sig zero = refl
  new_key-Either d raw key sig (suc zero) = refl
  new_key-Either d raw key sig (suc (suc zero)) = refl
  new_key-Either d raw key sig (suc (suc (suc zero))) = refl
  new_key-Either d raw key sig (suc (suc (suc (suc n)))) = refl

  crashed_steps :
      (d : Disk) (raw sig : String) (key : Option String) (h : Hardening) (fresh : String) (n : ℕ)
      → Either d.whitelist raw
          (apply_all
            (take n (
              write_whitelist raw
              ∷ ((key_steps key h fresh).0 ++ write_sig sig ∷ rename_whitelist ∷ rename_sig ∷ [])))
            d).0
  unfolding apply_all apply key_steps
  crashed_steps d raw sig key h fresh zero = inl refl
  crashed_steps d raw sig none h fresh (suc n) =
      inl (new_key-Either (record d { json_tmp = some raw }) raw fresh sig n)
  crashed_steps d raw sig (some key) hardened fresh (suc n) = signed-Either d raw sig (suc n)
  crashed_steps d raw sig (some key) removed fresh (suc zero) = inl refl
  crashed_steps d raw sig (some key) removed fresh (suc (suc n)) =
      inl (new_key-Either (record d { json_tmp = some raw; hmac_key = none }) raw fresh sig n)
  crashed_steps d raw sig (some key) kept fresh (suc n) =
      inl (new_key-Either (record d { json_tmp = some raw }) raw fresh sig n)

  crashed-whitelist :
      (d : Disk) (new : List String) (h : Hardening) (fresh : String) (n : ℕ)
      → Either d.whitelist (c.dumps new) (crashed c d new h fresh n)
  unfolding crashed save_steps
  crashed-whitelist d new h fresh n = crashed_steps d (c.dumps new) _ d.hmac_key h fresh n

  signed_content :
      (raw key : String) (new : List String)
      → c.loads raw ≡ some new
      → c.strip (c.hmac key raw) ≡ c.hmac key raw
      → load_content c (some raw) (some key) (some (c.hmac key raw)) ≡ ok new
  unfolding load_content check_signature
  signed_content raw key new h s = rw s (rw (==-refl (c.hmac key raw)) (parsed raw new h))

  -- the key is there and can be read
  abbrev pub is_keyed : Option String → Hardening → Bool
  is_keyed (some key) hardened = true
  is_keyed _ _ = false

  -- what a save that met no other error leaves, by whether it returned: the new whitelist and its
  -- signature, or the old whitelist with a new key
  abbrev pub Saved : Disk → List String → String → Disk → Bool → Type 0
  Saved d new fresh d' true = load_whitelist c d' ≡ ok new
  Saved d new fresh d' false =
      (d'.whitelist ≡ d.whitelist) × (d'.hmac_key ≡ some fresh) × (d'.hmac_sig ≡ d.hmac_sig)

  saved :
      (w k sig tmp sig_tmp : Option String) (new : List String) (h : Hardening) (fresh : String)
      → c.loads (c.dumps new) ≡ some new
      → ((key raw : String) → c.strip (c.hmac key raw) ≡ c.hmac key raw)
      → let d : Disk = record {
        whitelist = w;
        hmac_key = k;
        hmac_sig = sig;
        json_tmp = tmp;
        sig_tmp = sig_tmp;
      } in
        let (d', has_returned) = save_whitelist c d new h fresh none in
        (has_returned ≡ is_keyed k h) × Saved d new fresh d' has_returned
  unfolding load_whitelist save_whitelist save_steps apply_all apply renamed key_steps cleaned
  saved w none sig tmp sig_tmp new h fresh l s = (refl, (refl, refl, refl))
  saved w (some key) sig tmp sig_tmp new hardened fresh l s =
      (refl, signed_content (c.dumps new) key new l (s key (c.dumps new)))
  saved w (some key) sig tmp sig_tmp new removed fresh l s = (refl, (refl, refl, refl))
  saved w (some key) sig tmp sig_tmp new kept fresh l s = (refl, (refl, refl, refl))

  -- When the manager could load its whitelist before, the JSON of a whitelist parses to it and a
  -- signature has no spaces at its ends: a `save_whitelist` that meets no other error returns exactly
  -- if the key was there and could be hardened, and a load then gives the new whitelist. If it has to
  -- make a key, it raises: the key is the new one, and the whitelist and the signature are the old
  -- ones. After any number of its steps at which the process stops, or at which it raises, a load
  -- gives the old whitelist, or the new one, or raises; it never gives another one.
  pub save_whitelist-load :
      (d : Disk) (old new : List String) (h : Hardening) (fresh : String) (n : ℕ)
      → c.loads (c.dumps new) ≡ some new
      → ((key raw : String) → c.strip (c.hmac key raw) ≡ c.hmac key raw)
      → load_whitelist c d ≡ ok old
      → let (d', has_returned) = save_whitelist c d new h fresh none in
        (has_returned ≡ is_keyed d.hmac_key h)
        × Saved d new fresh d' has_returned
        × OldOrNew (load_whitelist c (crashed c d new h fresh n)) old new
        × OldOrNew (load_whitelist c (save_whitelist c d new h fresh (some n)).0) old new
  unfolding save_whitelist cleaned
  save_whitelist-load d old new h fresh n l s o =
      let between = crashed-whitelist d new h fresh n in
      let (r, v) = saved d.whitelist d.hmac_key d.hmac_sig d.json_tmp d.sig_tmp new h fresh l s in
      (
        r,
        v,
        between-OldOrNew d (crashed c d new h fresh n) (c.dumps new) old new l o between,
        between-OldOrNew d (save_whitelist c d new h fresh (some n)).0 (c.dumps new) old new l o
            between,
      )
