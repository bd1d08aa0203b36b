-- ===== src/Locks/Retries.antt =====
-- The retry loop of `acquire_lock`.
use sky_claw_gravity.Prelude.{
  ==-refl, Bool-cases, List, Option, Option-cases, String, [], arith, false, inl, inr, none, refl,
  some, suc, true, zero, ℕ, ◌+◌, ◌<◌, ◌∙◌, ◌∷◌, ◌≡◌, ◌≤◌, ◌⊎◌, nat_eq, string_eq,
}
use sky_claw_gravity.Dict
use sky_claw_gravity.Dict.{get-put}
use sky_claw_gravity.Result.{err, ok}
use sky_claw_gravity.Locks.{
  Attempt, LockInfo, Manager, Table, acquire_lock, acquire_loop, acquisition_error, attempts, lease,
  seconds, try_acquire,
}

-- can the agent take the resource in this attempt, when the table is `t` before it?
abbrev pub Free : Table → String → Attempt → Type 0
Free t r a =
    (a.db_error ≡ false)
    × ((Dict.get (a.others t) r ≡ none)
        ⊎ ((l : LockInfo) × (Dict.get (a.others t) r ≡ some l) × (l.expires_at < a.now)))

try-Free :
    (t : Table) (a : Attempt) (r agent : String) (ttl : ℕ)
    → Free t r a
    → try_acquire t a r agent ttl ≡ (Dict.put (a.others t) r (lease r agent a.now ttl), true)
unfolding try_acquire
try-Free t a r agent ttl (e, inl p) = ground arith
try-Free t a r agent ttl (e, inr (l, p, h)) = ground arith

try_taken :
    (t : Table) (a : Attempt) (r agent : String) (ttl : ℕ)
    → (try_acquire t a r agent ttl).1 ≡ true
    → Free t r a
      × ((try_acquire t a r agent ttl).0 ≡ Dict.put (a.others t) r (lease r agent a.now ttl))
unfolding try_acquire
try_taken t a r agent ttl h = elim (Option-cases (Dict.get (a.others t) r)) [
  | inl p ↦ ((ground arith, inl p), ground arith)
  | inr (l, p) ↦ ((ground arith, inr (l, p, ground arith)), ground arith)
]

-- When `acquire_lock` succeeds, there was an attempt at which the resource had no lease or an
-- expired one; the lease returned is the one that the table now holds, and lasts the time asked for
-- from the clock of that attempt.
acquired_lease :
    (t : Table) (as' : List Attempt) (r agent : String) (ttl : ℕ) (l : LockInfo)
    → (acquire_loop t as' r agent ttl).1 ≡ ok l
    → (t' : Table) × (a : Attempt) × Free t' r a
      × (l ≡ lease r agent a.now ttl)
      × (Dict.get (acquire_loop t as' r agent ttl).0 r ≡ some l)
unfolding acquire_loop
acquired_lease t [] r agent ttl l h = cc
acquired_lease t (a ∷ as') r agent ttl l h = elim (Bool-cases (try_acquire t a r agent ttl).1) [
  | inl p ↦
      let (free, table) = try_taken t a r agent ttl p in
      let e : l ≡ lease r agent a.now ttl = ground arith in
      (
        t,
        a,
        free,
        e,
        rw (p, table)
            (get-put (a.others t) r r (lease r agent a.now ttl) ∙ rw (==-refl r) (ground arith)),
      )
  | inr p ↦
      let (t', b, free, e, g) =
        acquired_lease (try_acquire t a r agent ttl).0 as' r agent ttl l (rw p at h) in
      (t', b, free, e, rw p g)
]

-- When `acquire_lock` succeeds, there was an attempt at which the resource had no lease or an
-- expired one and the database raised no error; the lease returned is the one that the table now
-- holds for the resource, it names the agent, and it lasts the time asked for, or the default time,
-- from the clock of that attempt.
pub acquire_lock-lease :
    (m : Manager) (t : Table) (environment : ℕ → Attempt) (r agent : String) (ttl : Option ℕ)
    (l : LockInfo)
    → (acquire_lock m t environment r agent ttl).1 ≡ ok l
    → (t' : Table) × (a : Attempt) × Free t' r a
      × (l ≡ lease r agent a.now (seconds m ttl))
      × (Dict.get (acquire_lock m t environment r agent ttl).0 r ≡ some l)
unfolding acquire_lock
acquire_lock-lease m t environment r agent ttl l h =
    acquired_lease t (attempts environment 0 m.max_retries) r agent (seconds m ttl) l h

-- the statement of every attempt finds a lease that has not expired, or fails
abbrev pub Blocked : LockInfo → Attempt → Type 0
Blocked l a =
    ((t : Table) → Dict.get t l.resource_id ≡ some l → Dict.get (a.others t) l.resource_id ≡ some l)
    × (a.now ≤ l.expires_at)

Blocked-loop :
    (t : Table) (l : LockInfo) (agent : String) (ttl : ℕ) (environment : ℕ → Attempt) (i n : ℕ)
    → Dict.get t l.resource_id ≡ some l
    → ((j : ℕ) → Blocked l (environment j))
    → let (t', answer) = acquire_loop t (attempts environment i n) l.resource_id agent ttl in
      (answer ≡ err (acquisition_error l.resource_id agent)) × (Dict.get t' l.resource_id ≡ some l)
unfolding acquire_loop attempts
Blocked-loop t l agent ttl environment i zero e b = (refl, e)
Blocked-loop t l agent ttl environment i (suc n) e b =
    let a = environment i in
    let kept = (b i).0 t e in
    let lost : try_acquire t a l.resource_id agent ttl ≡ (a.others t, false) =
      unfold try_acquire in ground (arith, (b i).1) in
    rw lost (Blocked-loop (a.others t) l agent ttl environment (i + 1) n kept b)

-- While another's lease stays in the table over all the attempts and none of them is later than its
-- expiry, `acquire_lock` raises for the resource and the agent, and the lease is still there.
pub acquire_lock-Blocked :
    (m : Manager) (t : Table) (l : LockInfo) (environment : ℕ → Attempt) (agent : String)
    (ttl : Option ℕ)
    → Dict.get t l.resource_id ≡ some l
    → ((j : ℕ) → Blocked l (environment j))
    → let (t', answer) = acquire_lock m t environment l.resource_id agent ttl in
      (answer ≡ err (acquisition_error l.resource_id agent)) × (Dict.get t' l.resource_id ≡ some l)
unfolding acquire_lock
acquire_lock-Blocked m t l environment agent ttl e b =
    Blocked-loop t l agent (seconds m ttl) environment 0 m.max_retries e b
