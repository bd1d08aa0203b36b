-- ===== src/Locks/Leases.antt =====
-- A lease that is held keeps every other agent out until it expires or its holder releases it.
use sky_claw_gravity.Result.{ok}
use sky_claw_gravity.Prelude.{
  ==-eq, ==-refl, All, Bool, Bool-cases, List, Option-cases, String, [], arith, false, inl, inr,
  refl, some, string_eq, true, ℕ, ◌&&◌, ◌==◌, ◌||◌, ◌↔◌, ◌∷◌, ◌≡◌, ◌≢◌, ◌≤◌, ◌⊎◌, nat_eq,
}
use sky_claw_gravity.Dict
use sky_claw_gravity.Dict.{get-put, get-remove}
use sky_claw_gravity.Locks.{
  LockInfo, Table, acquire_sql, cleanup_expired, delete_expired, is_expired, release_any_sql,
  release_lock, release_sql,
}

-- a statement of any agent
pub data Op : Type 0 where
  acquire : LockInfo → Op
  release : String → String → Op
  force : String → Op
  cleanup : ℕ → Op

-- the table after a statement, and whether the statement was an acquisition that succeeded
unfoldable pub apply : Table → Op → Table × Bool
apply t (acquire row) = acquire_sql t row
apply t (release resource_id agent_id) = ((release_sql t resource_id agent_id).0, false)
apply t (force resource_id) = ((release_any_sql t resource_id).0, false)
apply t (cleanup now) = ((cleanup_expired t now).0, false)

unfoldable pub run : Table → List Op → Table
run t [] = t
run t (o ∷ os) = run (apply t o).0 os

-- is an acquisition of the resource among the statements, and did it succeed?
unfoldable pub acquired : String → Table → List Op → Bool
acquired r t [] = false
acquired r t (acquire row ∷ os) =
    (row.resource_id == r && (apply t (acquire row)).1) || acquired r (apply t (acquire row)).0 os
acquired r t (o ∷ os) = acquired r (apply t o).0 os

-- statements at times up to the expiry of the lease, none of them a release by its holder or a forced
-- release of its resource
abbrev pub Respects : LockInfo → Op → Type 0
Respects l (acquire row) = row.acquired_at ≤ l.expires_at
Respects l (release resource_id agent_id) = (resource_id ≢ l.resource_id) ⊎ (agent_id ≢ l.agent_id)
Respects l (force resource_id) = resource_id ≢ l.resource_id
Respects l (cleanup now) = now ≤ l.expires_at

get-delete_expired :
    (t : Table) (now : ℕ) (k : String) (l : LockInfo)
    → Dict.get t k ≡ some l
    → now ≤ l.expires_at
    → Dict.get (delete_expired t now).0 k ≡ some l
unfolding delete_expired Dict.get
get-delete_expired [] now k l e h = e
get-delete_expired ((j, row) ∷ t) now k l e h = ground (arith, get-delete_expired t now k l)

apply_keeps :
    (t : Table) (o : Op) (l : LockInfo)
    → Dict.get t l.resource_id ≡ some l
    → Respects l o
    → Dict.get (apply t o).0 l.resource_id ≡ some l
unfolding apply acquire_sql release_sql release_any_sql cleanup_expired
apply_keeps t (acquire row) l e h = ground (
  arith,
  get-put t row.resource_id l.resource_id row,
  string_eq.beq_iff row.resource_id l.resource_id,
)
apply_keeps t (release r a) l e h = ground (
  arith,
  get-remove t r l.resource_id,
  string_eq.beq_iff r l.resource_id,
  string_eq.beq_iff l.agent_id a,
)
apply_keeps t (force r) l e h =
    ground (arith, h, get-remove t r l.resource_id, string_eq.beq_iff r l.resource_id)
apply_keeps t (cleanup now) l e h = get-delete_expired t now l.resource_id l e h

refused :
    (t : Table) (row l : LockInfo)
    → Dict.get t l.resource_id ≡ some l
    → row.acquired_at ≤ l.expires_at
    → ((row.resource_id == l.resource_id) && (apply t (acquire row)).1) ≡ false
unfolding apply acquire_sql
refused t row l e h = ground (arith, string_eq.beq_iff row.resource_id l.resource_id)

-- Under a lease, whatever statements follow at times up to its expiry, with no release by its holder
-- and no forced release of its resource, the lease stays and no acquisition of the resource succeeds,
-- not even one by the holder.
pub lease_excludes :
    (t : Table) (os : List Op) (l : LockInfo)
    → Dict.get t l.resource_id ≡ some l
    → All (Respects l) os
    → (Dict.get (run t os) l.resource_id ≡ some l) × (acquired l.resource_id t os ≡ false)
unfolding run acquired
lease_excludes t [] l e h = (e, refl)
lease_excludes t (acquire row ∷ os) l e h =
    let o : Op = acquire row in
    let rest = lease_excludes (apply t o).0 os l (apply_keeps t o l e h.0) h.1 in
    (rest.0, rw (refused t row l e h.0, rest.1))
lease_excludes t (release r a ∷ os) l e h =
    let o : Op = release r a in lease_excludes (apply t o).0 os l (apply_keeps t o l e h.0) h.1
lease_excludes t (force r ∷ os) l e h =
    let o : Op = force r in lease_excludes (apply t o).0 os l (apply_keeps t o l e h.0) h.1
lease_excludes t (cleanup now ∷ os) l e h =
    let o : Op = cleanup now in lease_excludes (apply t o).0 os l (apply_keeps t o l e h.0) h.1

-- At the very moment of its expiry a lease counts as expired for a reader, and yet another agent
-- cannot take it and a cleanup does not delete it.
expiry_moment :
    (t : Table) (l row : LockInfo)
    → Dict.get t l.resource_id ≡ some l
    → row.resource_id ≡ l.resource_id
    → row.acquired_at ≡ l.expires_at
    → (is_expired l row.acquired_at ≡ true)
      × (acquire_sql t row ≡ (t, false))
      × (Dict.get (cleanup_expired t row.acquired_at).0 l.resource_id ≡ some l)
unfolding is_expired acquire_sql cleanup_expired
expiry_moment t l row e r m = (
  ground arith,
  ground arith,
  get-delete_expired t row.acquired_at l.resource_id l e (omega arith),
)

-- When the database raises no error, a release by the agent that the table names deletes the
-- lease and answers true; one by any other agent, or of a resource without a lease, changes
-- nothing and answers false. After either, the agent holds no lease on the resource.
pub release_lem :
    (t : Table) (resource_id agent_id : String)
    → let (t', answer) = release_lock t false resource_id agent_id in
      ((answer ≡ ok true)
        ↔ ((l : LockInfo) × (Dict.get t resource_id ≡ some l) × (l.agent_id ≡ agent_id)))
      × (answer ≡ ok false → t' ≡ t)
      × ((l : LockInfo) → Dict.get t' resource_id ≡ some l → l.agent_id ≢ agent_id)
unfolding release_lock
release_lem t r a = elim (Option-cases (Dict.get t r)) [
  | inl p ↦ (ground arith, ground arith, λ l q. ground arith)
  | inr (l, p) ↦ elim (Bool-cases (l.agent_id == a)) [
    | inl q ↦ (
      (λ x. (l, p, ==-eq l.agent_id a q), λ x. ground arith),
      ground arith,
      λ l' q'. ground (arith, get-remove t r r, ==-refl r),
    )
    | inr q ↦ (
      ground (arith, string_eq.beq_iff l.agent_id a),
      ground arith,
      λ l' q'. ground (arith, string_eq.beq_iff l.agent_id a),
    )
  ]
]
