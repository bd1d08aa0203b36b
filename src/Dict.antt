-- ===== src/Dict.antt =====
-- Python's `dict`: an association list that keeps the order of first insertion.
use sky_claw_gravity.Prelude.{
  Bool-cases, Eq, List, Option, [], arith, if◌then◌else◌, inl, inr, none, refl, some, ◌==◌, ◌∙◌,
  ◌∷◌, ◌≡◌, nat_eq, string_eq,
}

abbrev pub Dict {ℓ κ} : Type ℓ → Type κ → Type (ℓ ⊔ κ)
Dict K V = List (K × V)

module _ {ℓ κ} {K : Type ℓ} {V : Type κ} ⦃e : Eq K⦄ where
  -- `d.get(k)`
  unfoldable pub get : Dict K V → K → Option V
  get [] k = none
  get ((j, v) ∷ d) k = if j == k then some v else get d k

  -- `d[k] = v`
  unfoldable pub put : Dict K V → K → V → Dict K V
  put [] k v = (k, v) ∷ []
  put ((j, w) ∷ d) k v = let rest = put d k v in if j == k then (j, v) ∷ d else (j, w) ∷ rest

  -- `d.pop(k, None)`
  unfoldable pub remove : Dict K V → K → Dict K V
  remove [] k = []
  remove ((j, w) ∷ d) k = let rest = remove d k in if j == k then rest else (j, w) ∷ rest

  pub get-put :
      (d : Dict K V) (k j : K) (v : V) → get (put d k v) j ≡ (if k == j then some v else get d j)
  unfolding get put
  get-put [] k j v = refl
  get-put ((i, w) ∷ d) k j v =
      ground (arith, get-put d k j v, e.beq_iff i k, e.beq_iff i j, e.beq_iff k j)

  pub get-remove :
      (d : Dict K V) (k j : K) → get (remove d k) j ≡ (if k == j then none else get d j)
  unfolding get remove
  get-remove [] k j = ground arith
  get-remove ((i, w) ∷ d) k j =
      ground (arith, get-remove d k j, e.beq_iff i k, e.beq_iff i j, e.beq_iff k j)

pub ruleset dict_laws = (get-put, get-remove)

-- A `dict` holds each key once.
module _ {ℓ κ} {K : Type ℓ} {V : Type κ} ⦃e : Eq K⦄ where
  abbrev pub Unique : Dict K V → Type κ
  Unique [] = Unit
  Unique ((k, v) ∷ d) = (get d k ≡ none) × Unique d

  pub put-Unique : (d : Dict K V) (k : K) (v : V) → Unique d → Unique (put d k v)
  unfolding put get
  put-Unique [] k v h = (refl, tt)
  put-Unique ((i, w) ∷ d) k v h = elim (Bool-cases (i == k)) [
    | inl p ↦ rw p h
    | inr p ↦
        rw p (
          get-put d k i v ∙ ground (arith, e.beq_iff i k, e.beq_iff k i, h.0),
          put-Unique d k v h.1,
        )
  ]

  pub remove-Unique : (d : Dict K V) (k : K) → Unique d → Unique (remove d k)
  unfolding remove get
  remove-Unique [] k h = tt
  remove-Unique ((i, w) ∷ d) k h = elim (Bool-cases (i == k)) [
    | inl p ↦ rw p (remove-Unique d k h.1)
    | inr p ↦ rw p (get-remove d k i ∙ ground (arith, h.0), remove-Unique d k h.1)
  ]
