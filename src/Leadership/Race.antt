-- ===== src/Leadership/Race.antt =====
-- The leadership of the three stores, without other drivers in between and with one.
use cluster_mesh.Prelude.{ℕ, ◌<◌, String, ◌≡◌, refl, true, some, none, arith}
use cluster_mesh.Leadership.Lease
use cluster_mesh.Leadership.Lease.{Row, Lease, get_leader}
use cluster_mesh.Leadership.Redis
use cluster_mesh.Leadership.Postgres

-- When no other driver writes between the look and the write, Redis and Postgres answer a claim and a
-- renewal of the leadership, and change the row, as SQLite does.
pub undisturbed_agree :
    (now : ℕ) (driver_id : String) (term ttl_seconds : ℕ) (row : Row)
    → (Redis.try_acquire_leadership now driver_id term ttl_seconds row row
        ≡ Lease.try_acquire_leadership now driver_id term ttl_seconds row)
      × (Redis.renew_leadership now driver_id term ttl_seconds row row
          ≡ Lease.renew_leadership now driver_id term ttl_seconds row)
      × (Postgres.try_acquire_leadership now driver_id term ttl_seconds row row ≡ (
          let (won, row') = Lease.try_acquire_leadership now driver_id term ttl_seconds row in
          (some won, row')))
      × (Postgres.renew_leadership now driver_id term ttl_seconds row row
          ≡ Lease.renew_leadership now driver_id term ttl_seconds row)
unfolding Redis.try_acquire_leadership Redis.renew_leadership Postgres.try_acquire_leadership
    Postgres.renew_leadership Lease.try_acquire_leadership Lease.renew_leadership
undisturbed_agree now driver_id term ttl_seconds none = (refl, refl, refl, refl)
undisturbed_agree now driver_id term ttl_seconds (some row) =
    (ground arith, ground arith, ground arith, ground arith)

-- Two drivers that both look at a lease that has expired, and then write one after the other, are
-- both told that they lead, in Redis and in Postgres; the store names the second.
both_acquire :
    (now : ℕ) (a b : String) (term_a term_b ttl_seconds : ℕ) (lease : Lease)
    → lease.expires_at < now
    → (let (won_a, row_a) =
          Redis.try_acquire_leadership now a term_a ttl_seconds (some lease) (some lease) in
        let (won_b, row_b) =
          Redis.try_acquire_leadership now b term_b ttl_seconds (some lease) row_a in
        (won_a ≡ true) × (won_b ≡ true) × (get_leader now row_b ≡ some (b, term_b)))
      × (let (won_a, row_a) =
            Postgres.try_acquire_leadership now a term_a ttl_seconds (some lease) (some lease) in
          let (won_b, row_b) =
            Postgres.try_acquire_leadership now b term_b ttl_seconds (some lease) row_a in
          (won_a ≡ some true) × (won_b ≡ some true) × (get_leader now row_b ≡ some (b, term_b)))
unfolding Redis.try_acquire_leadership Postgres.try_acquire_leadership get_leader
both_acquire now a b term_a term_b ttl_seconds lease expired =
    ((ground arith, ground arith, ground arith), (ground arith, ground arith, ground arith))
