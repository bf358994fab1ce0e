-- ===== src/Leadership/Tenure.antt =====
-- The leadership row over time: any drivers claim and renew it, in any order.
use cluster_mesh.Prelude.{
  ℕ, ◌+◌, ◌≤◌, String, ◌≡◌, ◌≢◌, refl, true, false, some, arith, eq_iff, sym, ◌==◌, eqb, Bool-cases,
  ◌⊎◌, inl, inr, ap, ◌∙◌,
}
use cluster_mesh.Leadership.Lease.{Lease, Row, try_acquire_leadership, renew_leadership, get_leader}

-- The clock and the row.
pub record World : Type 0 where
  pub now : ℕ
  pub row : Row

-- What can happen when each driver has its `lease_seconds` and no claim has a term above `limit`.
pub data Step (lease_seconds : String → ℕ) (limit : ℕ) : World → World → Type 0 where
  wait : (w : World) (n : ℕ) → Step lease_seconds limit w (record w { now = w.now + n })
  claim :
      (w : World) (driver_id : String) (term : ℕ)
      → term ≤ limit
      → Step lease_seconds limit w (record w {
        row = (try_acquire_leadership w.now driver_id term (lease_seconds driver_id) w.row).1;
      })
  renew :
      (w : World) (driver_id : String) (term : ℕ)
      → Step lease_seconds limit w (record w {
        row = (renew_leadership w.now driver_id term (lease_seconds driver_id) w.row).1;
      })

pub data Reach (lease_seconds : String → ℕ) (limit : ℕ) (w : World) : World → Type 0 where
  here : Reach lease_seconds limit w w
  next :
      {u v : World}
      → Reach lease_seconds limit w u
      → Step lease_seconds limit u v
      → Reach lease_seconds limit w v

-- The row holds the lease, or a later one of the same driver and term, and no longer than for the
-- driver's lease time.
pub record Holds (lease_seconds : String → ℕ) (lease : Lease) (w : World) : Type 0 where
  pub held : Lease
  pub in_row : w.row ≡ some held
  pub same_driver : held.driver_id ≡ lease.driver_id
  pub same_term : held.term ≡ lease.term
  pub not_shorter : lease.expires_at ≤ held.expires_at
  pub recent : held.expires_at ≤ w.now + lease_seconds lease.driver_id

Step-later :
    {lease_seconds : String → ℕ} {limit : ℕ} {v w : World}
    → Step lease_seconds limit v w
    → v.now ≤ w.now
Step-later (wait w n) = omega arith
Step-later (claim w driver_id term h) = omega arith
Step-later (renew w driver_id term) = omega arith

-- A claim that is too low, or the holder's own, changes nothing while the lease is live.
claim-row :
    (now : ℕ) (driver_id : String) (term ttl_seconds : ℕ) (held : Lease)
    → now ≤ held.expires_at
    → term ≤ held.term
    → (try_acquire_leadership now driver_id term ttl_seconds (some held)).1 ≡ some held
unfolding try_acquire_leadership
claim-row now driver_id term ttl_seconds held live low = ground arith

renew-row :
    (now : ℕ) (driver_id : String) (term ttl_seconds : ℕ) (held : Lease)
    → ((renew_leadership now driver_id term ttl_seconds (some held)).1 ≡ some held)
      ⊎ ((driver_id ≡ held.driver_id)
          × ((renew_leadership now driver_id term ttl_seconds (some held)).1
              ≡ some (record held { expires_at = now + ttl_seconds })))
unfolding renew_leadership
renew-row now driver_id term ttl_seconds held = elim (Bool-cases (held.driver_id == driver_id)) [
  | inl own ↦ elim (Bool-cases (eqb held.term term)) [
    | inl e ↦ inr (sym ((eq_iff held.driver_id driver_id).0 own), ground arith)
    | inr e ↦ inl (ground arith)
  ]
  | inr other ↦ inl (ground arith)
]

module _ {lease_seconds : String → ℕ} {lease : Lease} where
  Step-Holds :
      {v w : World}
      → Step lease_seconds lease.term v w
      → w.now ≤ lease.expires_at
      → Holds lease_seconds lease v
      → Holds lease_seconds lease w
  Step-Holds (wait w n) live h = record {
    held = h.held;
    in_row = h.in_row;
    same_driver = h.same_driver;
    same_term = h.same_term;
    not_shorter = h.not_shorter;
    recent = omega (arith, h.recent);
  }
  Step-Holds (claim w driver_id term low) live h = record {
    held = h.held;
    in_row = rw h.in_row (
        claim-row w.now driver_id term (lease_seconds driver_id) h.held
          (omega (arith, h.not_shorter)) (omega (arith, h.same_term)));
    same_driver = h.same_driver;
    same_term = h.same_term;
    not_shorter = h.not_shorter;
    recent = h.recent;
  }
  Step-Holds (renew w driver_id term) live h =
      elim (renew-row w.now driver_id term (lease_seconds driver_id) h.held) [
        | inl same ↦ record {
          held = h.held;
          in_row = rw h.in_row same;
          same_driver = h.same_driver;
          same_term = h.same_term;
          not_shorter = h.not_shorter;
          recent = h.recent;
        }
        | inr (own, renewed) ↦
            let ttl : lease_seconds driver_id ≡ lease_seconds lease.driver_id =
              ap lease_seconds (own ∙ h.same_driver) in
            record {
              held = record h.held { expires_at = w.now + lease_seconds driver_id };
              in_row = rw h.in_row renewed;
              same_driver = h.same_driver;
              same_term = h.same_term;
              not_shorter = omega (arith, h.recent, h.not_shorter);
              recent = omega arith;
            }
      ]

  Reach-Holds :
      {v w : World}
      → Holds lease_seconds lease v
      → Reach lease_seconds lease.term v w
      → w.now ≤ lease.expires_at
      → Holds lease_seconds lease w
  Reach-Holds h here live = h
  Reach-Holds h (next r st) live =
      Step-Holds st live (Reach-Holds h r (omega (arith, Step-later st)))

-- What the store answers a lease's holder, and everybody else, in a state.
pub record Exclusive (lease_seconds : String → ℕ) (lease : Lease) (w : World) : Type 0 where
  pub named : get_leader w.now w.row ≡ some (lease.driver_id, lease.term)
  pub renewed :
      (renew_leadership w.now lease.driver_id lease.term (lease_seconds lease.driver_id) w.row).0
      ≡ true
  pub refused :
      (driver_id : String) (term ttl_seconds : ℕ)
      → driver_id ≢ lease.driver_id
      → term ≤ lease.term
      → ((try_acquire_leadership w.now driver_id term ttl_seconds w.row).0 ≡ false)
        × ((renew_leadership w.now driver_id term ttl_seconds w.row).0 ≡ false)

Holds-Exclusive :
    {lease_seconds : String → ℕ} {lease : Lease} {w : World}
    → Holds lease_seconds lease w
    → w.now ≤ lease.expires_at
    → Exclusive lease_seconds lease w
unfolding try_acquire_leadership renew_leadership get_leader
Holds-Exclusive {lease_seconds} {lease} {w} h live = record {
  named = rw h.in_row (ground arith);
  renewed = rw h.in_row (ground (arith, eq_iff h.held.driver_id lease.driver_id));
  refused = λ driver_id term ttl_seconds other low.
      let differs : (h.held.driver_id == driver_id) ≡ false =
        ground (arith, eq_iff h.held.driver_id driver_id) in
      (rw h.in_row (ground arith), rw h.in_row (ground arith));
}

-- From a state whose row holds a lease of no more than its driver's lease time, whatever drivers claim
-- and renew in whatever order: as long as no claim has a term above the lease's and the clock is not
-- past its end, the store names its driver as the leader, renews the lease for it, and refuses every
-- other driver's renewal and every other claim of a term that is not higher.
pub Reach-Exclusive :
    (lease_seconds : String → ℕ) (lease : Lease) (v w : World)
    → v.row ≡ some lease
    → lease.expires_at ≤ v.now + lease_seconds lease.driver_id
    → Reach lease_seconds lease.term v w
    → w.now ≤ lease.expires_at
    → Exclusive lease_seconds lease w
Reach-Exclusive lease_seconds lease v w in_row recent r live =
    let start : Holds lease_seconds lease v = record {
      held = lease;
      in_row = in_row;
      same_driver = refl;
      same_term = refl;
      not_shorter = omega arith;
      recent = recent;
    } in
    Holds-Exclusive (Reach-Holds start r live) live
