-- ===== src/Leadership/Postgres.antt =====
-- The leadership row of mesh/state/postgres_store.py. Every statement commits by itself, and another
-- driver can write between a method's SELECT and what follows: `seen` is what the method has read,
-- the last argument is what the table holds then. A second INSERT of the row raises, which is none.
use cluster_mesh.Prelude.{
  ℕ, ◌+◌, String, Bool, true, false, ◌&&◌, ◌||◌, not, Option, some, none, ◌==◌, ltb, leb, eqb,
  if◌then◌else◌,
}
use cluster_mesh.Leadership.Lease.{Lease, Row, new_lease}

-- `UPDATE … WHERE id = 1`
abbrev update : (Lease → Lease) → Row → Row
update change none = none
update change (some lease) = some (change lease)

unfoldable pub try_acquire_leadership : ℕ → String → ℕ → ℕ → (seen row : Row) → Option Bool × Row
try_acquire_leadership now driver_id term ttl_seconds none none =
    (some true, some (new_lease driver_id term ttl_seconds now))
try_acquire_leadership now driver_id term ttl_seconds none (some row) = (none, some row)
try_acquire_leadership now driver_id term ttl_seconds (some seen) row =
    if ltb seen.expires_at now || ltb seen.term term
    then (some true, update (λ lease. new_lease driver_id term ttl_seconds now) row)
    else (some (seen.driver_id == driver_id && leb seen.term term), row)

unfoldable pub renew_leadership : ℕ → String → ℕ → ℕ → (seen row : Row) → Bool × Row
renew_leadership now driver_id term ttl_seconds none row = (false, row)
renew_leadership now driver_id term ttl_seconds (some seen) row =
    if not (seen.driver_id == driver_id) || not (eqb seen.term term)
    then (false, row)
    else (true, update (λ lease. record lease { expires_at = now + ttl_seconds }) row)
