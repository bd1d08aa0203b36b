-- ===== src/Journal/Rows.antt =====
-- What holds of the rows of the journal when one is added or changed.
use sky_claw_gravity.Prelude.{
  ==-eq, All, Bool-cases, List, [], arith, inl, inr, none, refl, subst, ℕ, ◌&&◌, ◌++◌, ◌<◌, ◌==◌,
  ◌∙◌, ◌∷◌, ◌≡◌, ◌≢◌, ◌⊎◌, nat_eq, string_eq,
}
use sky_claw_gravity.Journal.{
  JournalEntry, OperationStatus, Transaction, get_transaction, is_pending, set_committed,
  set_reverted, set_status,
}
use sky_claw_gravity.Journal.Recorded.{IdsBelow}

-- a transaction of this id is there
abbrev pub Known : List Transaction → ℕ → Type 0
Known ts id = get_transaction ts id ≢ none

-- the ids rise from row to row
abbrev pub Rising : List JournalEntry → Type 0
Rising [] = Unit
Rising (e ∷ es) = All (λ f. e.id < f.id) es × Rising es

pub All-map :
    {A : Type 0} {P Q : A → Type 0} (f : (a : A) → P a → Q a) (xs : List A) → All P xs → All Q xs
All-map f [] h = tt
All-map f (x ∷ xs) (h, hs) = (f x h, All-map f xs hs)

pub All-append :
    {A : Type 0} (P : A → Type 0) (xs : List A) (x : A) → All P xs → P x → All P (xs ++ x ∷ [])
All-append P [] x h p = (p, tt)
All-append P (y ∷ xs) x (h, hs) p = (h, All-append P xs x hs p)

Known-here : (t : Transaction) (ts : List Transaction) → Known (t ∷ ts) t.transaction_id
unfolding get_transaction
Known-here t ts h = ground (arith, h)

Known-there : (t : Transaction) (ts : List Transaction) (id : ℕ) → Known ts id → Known (t ∷ ts) id
unfolding get_transaction
Known-there t ts id k h = ground (arith, k, h)

Known-cases :
    (t : Transaction) (ts : List Transaction) (id : ℕ)
    → Known (t ∷ ts) id
    → (t.transaction_id ≡ id) ⊎ Known ts id
unfolding get_transaction
Known-cases t ts id k = elim (Bool-cases (t.transaction_id == id)) [
  | inl p ↦ inl (==-eq _ _ p)
  | inr p ↦ inr (λ h. k (rw p h))
]

pub Known-append :
    (ts : List Transaction) (t : Transaction) (id : ℕ) → Known ts id → Known (ts ++ t ∷ []) id
Known-append [] t id h = Known-there t [] id h
Known-append (x ∷ ts) t id h = elim (Known-cases x ts id h) [
  | inl p ↦ subst (Known (x ∷ ts ++ t ∷ [])) p (Known-here x (ts ++ t ∷ []))
  | inr k ↦ Known-there x (ts ++ t ∷ []) id (Known-append ts t id k)
]

pub Known-new : (ts : List Transaction) (t : Transaction) → Known (ts ++ t ∷ []) t.transaction_id
Known-new [] t = Known-here t []
Known-new (x ∷ ts) t = Known-there x (ts ++ t ∷ []) t.transaction_id (Known-new ts t)

-- a row that keeps its id, and rows that keep the transactions known
Known-cons :
    (t t' : Transaction) (ts ts' : List Transaction) (id : ℕ)
    → t'.transaction_id ≡ t.transaction_id
    → (Known ts id → Known ts' id)
    → Known (t ∷ ts) id
    → Known (t' ∷ ts') id
Known-cons t t' ts ts' id e f k = elim (Known-cases t ts id k) [
  | inl p ↦ subst (Known (t' ∷ ts')) (e ∙ p) (Known-here t' ts')
  | inr h ↦ Known-there t' ts' id (f h)
]

pub Known-set_committed :
    (now done : ℕ) (ts : List Transaction) (id : ℕ)
    → Known ts id
    → Known (set_committed now done ts).0 id
unfolding set_committed
Known-set_committed now done [] id h = h
Known-set_committed now done (x ∷ ts) id h =
    elim (Bool-cases (x.transaction_id == done && is_pending x.status)) [
      | inl p ↦ rw p (Known-cons x _ ts _ id refl (Known-set_committed now done ts id) h)
      | inr p ↦ rw p (Known-cons x _ ts _ id refl (Known-set_committed now done ts id) h)
    ]

pub Known-set_reverted :
    (now done : ℕ) (ts : List Transaction) (id : ℕ)
    → Known ts id
    → Known (set_reverted now done ts) id
unfolding set_reverted
Known-set_reverted now done [] id h = h
Known-set_reverted now done (x ∷ ts) id h = elim (Bool-cases (x.transaction_id == done)) [
  | inl p ↦ rw p (Known-cons x _ ts _ id refl (Known-set_reverted now done ts id) h)
  | inr p ↦ rw p (Known-cons x _ ts _ id refl (Known-set_reverted now done ts id) h)
]

pub Rising-append :
    (es : List JournalEntry) (e : JournalEntry) (last : ℕ)
    → IdsBelow last es
    → Rising es
    → last < e.id
    → Rising (es ++ e ∷ [])
Rising-append [] e last b r h = (tt, tt)
Rising-append (x ∷ es) e last (b, bs) (r, rs) h =
    (All-append (λ f. x.id < f.id) es e r (omega (arith, b, h)), Rising-append es e last bs rs h)

-- a status that is set leaves what holds of the ids and the transactions
pub set_status-All :
    (P : ℕ → ℕ → Type 0) (id : ℕ) (status : OperationStatus) (es : List JournalEntry)
    → All (λ e. P e.id e.transaction_id) es
    → All (λ e. P e.id e.transaction_id) (set_status id status es)
unfolding set_status
set_status-All P id status [] h = tt
set_status-All P id status (e ∷ es) (h, hs) = elim (Bool-cases (e.id == id)) [
  | inl p ↦ rw p (h, set_status-All P id status es hs)
  | inr p ↦ rw p (h, set_status-All P id status es hs)
]

pub set_status-Rising :
    (id : ℕ) (status : OperationStatus) (es : List JournalEntry)
    → Rising es
    → Rising (set_status id status es)
unfolding set_status
set_status-Rising id status [] h = tt
set_status-Rising id status (e ∷ es) (h, hs) = elim (Bool-cases (e.id == id)) [
  | inl p ↦
      rw p (set_status-All (λ i t. e.id < i) id status es h, set_status-Rising id status es hs)
  | inr p ↦
      rw p (set_status-All (λ i t. e.id < i) id status es h, set_status-Rising id status es hs)
]
