-- ===== src/Leadership/Usurp.antt =====
-- Who leads when two drivers share the row.
use cluster_mesh.Prelude.{ℕ, zero, suc, ◌+◌, ◌≤◌, ◌<◌, ◌≡◌, ◌≢◌, true, false, some, arith, eq_iff}
use cluster_mesh.Leadership.Lease.{Lease, try_acquire_leadership, renew_leadership, get_leader}
use cluster_mesh.Leadership.Election.{Driver, renew_round, rounds}

-- A driver that calls itself leader and holds the row's lease, which has not expired.
pub record Leads (now : ℕ) (d : Driver) (lease : Lease) : Type 0 where
  pub running : d.stopped ≡ false
  pub called : d.is_leader ≡ true
  pub owned : lease.driver_id ≡ d.driver_id
  pub in_term : lease.term ≡ d.term
  pub live : now ≤ lease.expires_at

-- A round of the leader renews its lease and changes nothing else.
renew_round_keeps :
    (now : ℕ) (d : Driver) (lease : Lease)
    → Leads now d lease
    → renew_round now d (some lease)
      ≡ (d, some (record lease { expires_at = now + d.lease_seconds }))
unfolding renew_round renew_leadership
renew_round_keeps now d lease l = ground (arith, eq_iff lease.driver_id d.driver_id)

-- A follower whose term is below the lease's is turned away, and comes back with the next term.
follower_round :
    (now : ℕ) (d : Driver) (lease : Lease)
    → d.stopped ≡ false
    → d.is_leader ≡ false
    → lease.driver_id ≢ d.driver_id
    → now ≤ lease.expires_at
    → d.term < lease.term
    → renew_round now d (some lease) ≡ (record d { term = d.term + 1 }, some lease)
unfolding renew_round try_acquire_leadership
follower_round now d lease r f other live low = ground (arith, eq_iff lease.driver_id d.driver_id)

usurping_round :
    (now : ℕ) (d : Driver) (lease : Lease)
    → d.stopped ≡ false
    → d.is_leader ≡ false
    → lease.term ≤ d.term
    → (renew_round now d (some lease)).0.is_leader ≡ true
unfolding renew_round try_acquire_leadership
usurping_round now d lease r f high = ground arith

-- A running follower takes the leadership over while another driver's lease is live: after `n + 1`
-- rounds, `n` being how far its term is below the lease's, it calls itself leader.
rounds_usurp :
    (n now : ℕ) (d : Driver) (lease : Lease)
    → d.stopped ≡ false
    → d.is_leader ≡ false
    → lease.driver_id ≢ d.driver_id
    → now ≤ lease.expires_at
    → d.term + n ≡ lease.term
    → (rounds (suc n) now d (some lease)).0.is_leader ≡ true
unfolding rounds
rounds_usurp zero now d lease r f other live e = usurping_round now d lease r f (omega arith)
rounds_usurp (suc n) now d lease r f other live e =
    rw (follower_round now d lease r f other live (omega arith), rounds)
      (rounds_usurp n now (record d { term = d.term + 1 }) lease r f other live (omega arith))

-- While a leader holds a live lease, a running follower of the same or a later term becomes leader
-- in one round; both call themselves leader, and the store names the second.
pub two_leaders :
    (now : ℕ) (a b : Driver) (lease : Lease)
    → Leads now a lease
    → b.stopped ≡ false
    → b.is_leader ≡ false
    → a.driver_id ≢ b.driver_id
    → a.term ≤ b.term
    → (a.is_leader ≡ true)
      × ((renew_round now b (some lease)).0.is_leader ≡ true)
      × (get_leader now (renew_round now b (some lease)).1 ≡ some (b.driver_id, b.term + 1))
unfolding renew_round try_acquire_leadership get_leader
two_leaders now a b lease l r f other high = (l.called, ground arith, ground arith)
