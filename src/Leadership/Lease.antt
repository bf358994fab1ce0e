-- ===== src/Leadership/Lease.antt =====
-- The leadership row of the store: `try_acquire_leadership`, `renew_leadership`, `get_leader`.
use cluster_mesh.Prelude.{
  ℕ, ◌+◌, ◌≤◌, ◌<◌, String, ◌≡◌, ◌≢◌, refl, Bool, true, false, ◌&&◌, ◌||◌, not, Option, none, some,
  ◌⊎◌, arith, ◌==◌, eq_iff, ltb, leb, eqb, if◌then◌else◌,
}

pub record Lease : Type 0 where
  pub driver_id : String
  pub term : ℕ
  pub expires_at : ℕ

-- The row, if it was ever inserted.
abbrev pub Row : Type 0
Row = Option Lease

abbrev pub new_lease : String → ℕ → ℕ → ℕ → Lease
new_lease driver_id term ttl_seconds now = record {
  driver_id = driver_id;
  term = term;
  expires_at = now + ttl_seconds;
}

unfoldable pub try_acquire_leadership : ℕ → String → ℕ → ℕ → Row → Bool × Row
try_acquire_leadership now driver_id term ttl_seconds none =
    (true, some (new_lease driver_id term ttl_seconds now))
try_acquire_leadership now driver_id term ttl_seconds (some row) =
    if ltb row.expires_at now || ltb row.term term
    then (true, some (new_lease driver_id term ttl_seconds now))
    else (row.driver_id == driver_id && leb row.term term, some row)

unfoldable pub renew_leadership : ℕ → String → ℕ → ℕ → Row → Bool × Row
renew_leadership now driver_id term ttl_seconds none = (false, none)
renew_leadership now driver_id term ttl_seconds (some row) =
    if not (row.driver_id == driver_id) || not (eqb row.term term)
    then (false, some row)
    else (true, some (record row { expires_at = now + ttl_seconds }))

unfoldable pub get_leader : ℕ → Row → Option (String × ℕ)
get_leader now none = none
get_leader now (some row) = if leb now row.expires_at then some (row.driver_id, row.term) else none

-- A driver that is told it leads is the leader that the store names at that moment, in that term.
acquired-is_leader :
    (now : ℕ) (driver_id : String) (term ttl_seconds : ℕ) (row : Row)
    → (try_acquire_leadership now driver_id term ttl_seconds row).0 ≡ true
    → get_leader now (try_acquire_leadership now driver_id term ttl_seconds row).1
      ≡ some (driver_id, term)
unfolding try_acquire_leadership get_leader
acquired-is_leader now driver_id term ttl_seconds none h = ground arith
acquired-is_leader now driver_id term ttl_seconds (some row) h =
    ground (arith, eq_iff row.driver_id driver_id)

-- A driver that is turned away leaves the row as it was; the row holds a lease that has not
-- expired, of at least the driver's term, which is another driver's or is of a later term.
turned_away :
    (now : ℕ) (driver_id : String) (term ttl_seconds : ℕ) (row : Row)
    → (try_acquire_leadership now driver_id term ttl_seconds row).0 ≡ false
    → ((try_acquire_leadership now driver_id term ttl_seconds row).1 ≡ row)
      × (lease : Lease) × (row ≡ some lease)
      × (now ≤ lease.expires_at)
      × (term ≤ lease.term)
      × ((lease.driver_id ≢ driver_id) ⊎ (term < lease.term))
unfolding try_acquire_leadership
turned_away now driver_id term ttl_seconds none h = cc
turned_away now driver_id term ttl_seconds (some row) h = (
  ground arith,
  row,
  refl,
  ground arith,
  ground arith,
  ground (arith, eq_iff row.driver_id driver_id),
)

-- A renewal succeeds for the driver and the term in the row and for no other, so no two drivers can
-- both renew.
renew_leadership_unique :
    (now ttl_a ttl_b : ℕ) (a b : String) (term_a term_b : ℕ) (row : Row)
    → (renew_leadership now a term_a ttl_a row).0 ≡ true
    → (renew_leadership now b term_b ttl_b row).0 ≡ true
    → (a ≡ b) × (term_a ≡ term_b)
unfolding renew_leadership
renew_leadership_unique now ttl_a ttl_b a b term_a term_b none p q = cc
renew_leadership_unique now ttl_a ttl_b a b term_a term_b (some row) p q =
    ground (arith, eq_iff row.driver_id a, eq_iff row.driver_id b)
