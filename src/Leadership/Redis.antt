-- ===== src/Leadership/Redis.antt =====
-- The leadership key of mesh/state/redis_store.py, as the three members of its JSON text. A method
-- first reads the key and then writes it, and another driver can write in between: `seen` is what
-- the method has read, the last argument is what the key holds when it writes.
use cluster_mesh.Prelude.{
  ℕ, ◌+◌, String, Bool, true, false, ◌&&◌, ◌||◌, not, some, none, ◌==◌, ltb, leb, eqb,
  if◌then◌else◌,
}
use cluster_mesh.Leadership.Lease.{Row, new_lease}

unfoldable pub try_acquire_leadership : ℕ → String → ℕ → ℕ → (seen row : Row) → Bool × Row
try_acquire_leadership now driver_id term ttl_seconds none none =
    (true, some (new_lease driver_id term ttl_seconds now))
try_acquire_leadership now driver_id term ttl_seconds none (some row) = (false, some row)
try_acquire_leadership now driver_id term ttl_seconds (some seen) row =
    if ltb seen.expires_at now || ltb seen.term term
    then (true, some (new_lease driver_id term ttl_seconds now))
    else (seen.driver_id == driver_id && leb seen.term term, row)

unfoldable pub renew_leadership : ℕ → String → ℕ → ℕ → (seen row : Row) → Bool × Row
renew_leadership now driver_id term ttl_seconds none row = (false, row)
renew_leadership now driver_id term ttl_seconds (some seen) row =
    if not (seen.driver_id == driver_id) || not (eqb seen.term term)
    then (false, row)
    else (true, some (record seen { expires_at = now + ttl_seconds }))
