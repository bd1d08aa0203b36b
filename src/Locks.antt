-- ===== src/Locks.antt =====
-- `DistributedLockManager` of sky_claw/antigravity/db/locks.py: leases on resources, in the table
-- `resource_locks`. Each SQL statement is one atomic step on the table, as SQLite documents for a
-- statement that it commits; one that raises leaves the table as it was. `time.time()` is an
-- argument, in ticks.
pub mod Leases
pub mod Retries
pub mod Transaction
use sky_claw_gravity.Prelude.{
  Bool, List, Option, String, [], false, if◌then◌else◌, leb, ltb, max, min, none, some, suc, true,
  zero, ℕ, ◌*◌, ◌+◌, ◌-◌, ◌==◌, ◌^◌, ◌∷◌, nat_eq, string_eq,
}
use sky_claw_gravity.Dict
use sky_claw_gravity.Dict.{Dict}
use sky_claw_gravity.Result.{Result, err, ok}

pub record LockInfo : Type 0 where
  pub resource_id : String
  pub agent_id : String
  pub acquired_at : ℕ
  pub expires_at : ℕ

-- the rows, by their primary key
abbrev pub Table : Type 0
Table = Dict String LockInfo

pub data LockError : Type 0 where
  acquisition_error : String → String → LockError
  release_error : LockError

pub record Manager : Type 0 where
  pub default_ttl : ℕ
  pub max_retries : ℕ
  pub backoff_base : ℕ
  pub backoff_max : ℕ

-- the properties of `LockInfo`
unfoldable pub remaining_ttl : LockInfo → ℕ → ℕ
remaining_ttl l now = max 0 (l.expires_at - now)

unfoldable pub is_expired : LockInfo → ℕ → Bool
is_expired l now = leb l.expires_at now

-- `_ACQUIRE_SQL`, with the row count as a `Bool`
unfoldable pub acquire_sql : Table → LockInfo → Table × Bool
acquire_sql t row = elim (Dict.get t row.resource_id) [
  | none ↦ (Dict.put t row.resource_id row, true)
  | some old ↦
      if ltb old.expires_at row.acquired_at
      then (Dict.put t row.resource_id row, true)
      else (t, false)
]

-- `_RELEASE_SQL`
unfoldable pub release_sql : Table → String → String → Table × Bool
release_sql t resource_id agent_id = elim (Dict.get t resource_id) [
  | none ↦ (t, false)
  | some row ↦ if row.agent_id == agent_id then (Dict.remove t resource_id, true) else (t, false)
]

-- `_RELEASE_ANY_SQL`
unfoldable pub release_any_sql : Table → String → Table × Bool
release_any_sql t resource_id = elim (Dict.get t resource_id) [
  | none ↦ (t, false)
  | some row ↦ (Dict.remove t resource_id, true)
]

-- `DELETE FROM resource_locks WHERE expires_at < ?`, with the rows deleted counted
unfoldable pub delete_expired : Table → ℕ → Table × ℕ
delete_expired [] now = ([], 0)
delete_expired ((k, row) ∷ t) now =
    let (t', n) = delete_expired t now in
    if ltb row.expires_at now then (t', suc n) else ((k, row) ∷ t', n)

-- what happens around one attempt of `acquire_lock`: what others made of the table during the
-- sleep before it, the clock, and whether the statement raises a database error
pub record Attempt : Type 0 where
  pub others : Table → Table
  pub now : ℕ
  pub db_error : Bool

-- the attempts number i, i + 1, …, n in all
unfoldable pub attempts : (ℕ → Attempt) → ℕ → ℕ → List Attempt
attempts environment i zero = []
attempts environment i (suc n) = environment i ∷ attempts environment (i + 1) n

-- `min(backoff_base * 2**attempt, backoff_max)`
unfoldable pub backoff_delay : Manager → ℕ → ℕ
backoff_delay m attempt = min (m.backoff_base * 2 ^ attempt) m.backoff_max

unfoldable pub seconds : Manager → Option ℕ → ℕ
seconds m none = m.default_ttl
seconds m (some ttl) = ttl

abbrev pub lease : String → String → ℕ → ℕ → LockInfo
lease resource_id agent_id now ttl = record {
  resource_id = resource_id;
  agent_id = agent_id;
  acquired_at = now;
  expires_at = now + ttl;
}

-- one attempt: the table after it, and whether it got the lock
unfoldable pub try_acquire : Table → Attempt → String → String → ℕ → Table × Bool
unfolding acquire_sql
try_acquire t a resource_id agent_id ttl =
    if a.db_error
    then (a.others t, false)
    else acquire_sql (a.others t) (lease resource_id agent_id a.now ttl)

-- the loop of `acquire_lock`, over the attempts that are left
unfoldable pub acquire_loop :
    Table → List Attempt → String → String → ℕ → Table × Result LockError LockInfo
acquire_loop t [] resource_id agent_id ttl = (t, err (acquisition_error resource_id agent_id))
acquire_loop t (a ∷ as') resource_id agent_id ttl =
    let (t', got) = try_acquire t a resource_id agent_id ttl in
    let rest = acquire_loop t' as' resource_id agent_id ttl in
    if got then (t', ok (lease resource_id agent_id a.now ttl)) else rest

-- `acquire_lock`: `range(max_retries)` attempts, with what the environment does in each
unfoldable pub acquire_lock :
    Manager → Table → (ℕ → Attempt) → String → String → Option ℕ → Table × Result LockError LockInfo
unfolding seconds attempts
acquire_lock m t environment resource_id agent_id ttl =
    acquire_loop t (attempts environment 0 m.max_retries) resource_id agent_id (seconds m ttl)

-- `release_lock` and `force_release`; the flag is a database error
unfoldable pub release_lock : Table → Bool → String → String → Table × Result LockError Bool
unfolding release_sql
release_lock t db_error resource_id agent_id =
    if db_error
    then (t, err release_error)
    else (let (t', deleted) = release_sql t resource_id agent_id in (t', ok deleted))

unfoldable pub force_release : Table → Bool → String → Table × Result LockError Bool
unfolding release_any_sql
force_release t db_error resource_id =
    if db_error
    then (t, err release_error)
    else (let (t', deleted) = release_any_sql t resource_id in (t', ok deleted))

-- `get_lock_info`
unfoldable pub get_lock_info : Table → String → Option LockInfo
get_lock_info t resource_id = Dict.get t resource_id

-- `cleanup_expired`
unfoldable pub cleanup_expired : Table → ℕ → Table × ℕ
unfolding delete_expired
cleanup_expired t now = delete_expired t now
