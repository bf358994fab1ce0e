-- ===== src/Tests/Leadership.antt =====
-- Two drivers with leases of 10 s.
use cluster_mesh.Prelude.{ℕ, String, ◌≡◌, refl, arith, [], some, true, false}
use cluster_mesh.Leadership.Redis
use cluster_mesh.Leadership.Postgres
use cluster_mesh.Leadership.Race.{undisturbed_agree}
use cluster_mesh.Leadership.Tenure
use cluster_mesh.Leadership.Tenure.{World, Reach, here, next, Exclusive, Reach-Exclusive}
use cluster_mesh.Leadership.Lease
use cluster_mesh.Leadership.Lease.{Lease, renew_leadership, get_leader}
use cluster_mesh.Leadership.Election.{Driver, renew_round}
use cluster_mesh.Leadership.Usurp.{Leads, two_leaders}
use cluster_mesh.Tests.Data.{texts_differ}

abbrev lease : Lease
lease = record { driver_id = "a"; term = 3; expires_at = 15_000 }

abbrev leader : Driver
leader = record {
  driver_id = "a";
  lease_seconds = 10_000;
  term = 3;
  is_leader = true;
  stopped = false;
  told = [];
}

abbrev follower : ℕ → Driver
follower term = record {
  driver_id = "b";
  lease_seconds = 10_000;
  term = term;
  is_leader = false;
  stopped = false;
  told = [];
}

leads : Leads 6_000 leader lease
leads = record { running = refl; called = refl; owned = refl; in_term = refl; live = omega arith }

apart : ◌≡◌ {A = String} "a" "b" → ⊥
apart same = texts_differ "a" "b" refl same

two_leaders_example :
    (leader.is_leader ≡ true)
    × ((renew_round 6_000 (follower 3) (some lease)).0.is_leader ≡ true)
    × (get_leader 6_000 (renew_round 6_000 (follower 3) (some lease)).1 ≡ some ("b", 4))
two_leaders_example =
    two_leaders 6_000 leader (follower 3) lease leads refl refl apart (omega arith)

-- A lease that ended at 40.
abbrev ended : Lease
ended = record { driver_id = "c"; term = 3; expires_at = 40 }

undisturbed_agree_example :
    (Redis.try_acquire_leadership 50 "a" 3 10 (some ended) (some ended)
      ≡ Lease.try_acquire_leadership 50 "a" 3 10 (some ended))
    × (Redis.renew_leadership 50 "a" 3 10 (some ended) (some ended)
        ≡ Lease.renew_leadership 50 "a" 3 10 (some ended))
    × (Postgres.try_acquire_leadership 50 "a" 3 10 (some ended) (some ended) ≡ (
        let (won, row) = Lease.try_acquire_leadership 50 "a" 3 10 (some ended) in (some won, row)))
    × (Postgres.renew_leadership 50 "a" 3 10 (some ended) (some ended)
        ≡ Lease.renew_leadership 50 "a" 3 10 (some ended))
undisturbed_agree_example = undisturbed_agree 50 "a" 3 10 (some ended)

-- While "a" leads until 15 s, "b" claims its term, the clock runs, and "a" renews.
abbrev at_five : World
at_five = record { now = 5_000; row = some lease }

abbrev claimed : World
claimed = record at_five { row = (Lease.try_acquire_leadership 5_000 "b" 3 10_000 (some lease)).1 }

abbrev renewed : World
renewed = record { now = 9_000; row = (Lease.renew_leadership 9_000 "a" 3 10_000 claimed.row).1 }

contested : Reach (λ _. 10_000) 3 at_five renewed
contested =
    next (next (next here (Tenure.claim at_five "b" 3 (omega arith))) (Tenure.wait claimed 4_000))
      (Tenure.renew (record claimed { now = 9_000 }) "a" 3)

Reach-Exclusive_example : Exclusive (λ _. 10_000) lease renewed
Reach-Exclusive_example =
    Reach-Exclusive (λ _. 10_000) lease at_five renewed refl (omega arith) contested (omega arith)
