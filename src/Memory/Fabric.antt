-- ===== src/Memory/Fabric.antt =====
-- `MemoryFabric` of mesh/memory/fabric.py. Sizes are thousandths of a GB. A new allocation's id, a
-- fresh `uuid4()` in the source, is the argument `new_id`.
pub mod Loop
pub mod Grants
pub mod Ledger
pub mod Capacity
pub mod Return
use cluster_mesh.Prelude.{
  ℕ, ◌+◌, ◌-◌, String, Bool, true, false, ◌&&◌, Option, none, some, List, [], ◌∷◌, ◌++◌, map, min,
  leb, ltb, eqb, length, sum_of, select, if◌then◌else◌,
}
use cluster_mesh.Prelude.Dict.{Dict, get, get_or, has, put, remove, values}
use cluster_mesh.Prelude.Sort.{sort_by}
use cluster_mesh.Models.{Node, same_state, healthy}

pub record MemorySegment : Type 0 where
  pub node_id : String
  pub hostname : String
  pub size_gb : ℕ
  pub location : String

pub record MemoryAllocation : Type 0 where
  pub allocation_id : String
  pub total_gb : ℕ
  pub segments : List MemorySegment
  pub owner : String
  pub pinned : Bool

pub record MemoryPoolStats : Type 0 where
  pub total_gb : ℕ
  pub free_gb : ℕ
  pub allocated_gb : ℕ
  pub node_count : ℕ
  pub segment_count : ℕ

pub record MemoryFabric : Type 0 where
  pub allocations : Dict MemoryAllocation
  pub reserved : Dict ℕ

abbrev pub init : MemoryFabric
init = record { allocations = []; reserved = [] }

abbrev pub is_healthy : Node → Bool
is_healthy n = same_state n.state healthy

abbrev pub eligible_nodes : List Node → List Node
eligible_nodes nodes = select is_healthy nodes

unfoldable pub free_on_node : MemoryFabric → Node → ℕ
free_on_node m n = n.resources.ram_gb_free - get_or 0 n.node_id m.reserved

unfoldable pub pool_stats : MemoryFabric → List Node → MemoryPoolStats
pool_stats m nodes =
    let eligible = eligible_nodes nodes in
    record {
      total_gb = sum_of (λ n. n.resources.ram_gb_total) eligible;
      free_gb = sum_of (free_on_node m) eligible;
      allocated_gb = sum_of (λ a. a.total_gb) (values m.allocations);
      node_count = length eligible;
      segment_count = sum_of (λ a. length a.segments) (values m.allocations);
    }

-- A node with the memory that was free on it when `allocate` began.
abbrev pub Free : Type 0
Free = Node × ℕ

abbrev pub less_free : Free → Free → Bool
less_free a b = leb a.1 b.1

abbrev pub more_free : Free → Free → Bool
more_free a b = leb b.1 a.1

-- `available`: sorted by the free memory, least first.
unfoldable pub available : MemoryFabric → List Node → ℕ → List Free
available m nodes min_segment_gb = sort_by less_free (
    map (λ n. (n, free_on_node m n))
      (select (λ n. leb min_segment_gb (free_on_node m n)) (eligible_nodes nodes)))

abbrev pub segment : Node → ℕ → MemorySegment
segment n take = record {
  node_id = n.node_id;
  hostname = n.hostname;
  size_gb = take;
  location = n.location;
}

-- `reserved[id] = reserved.get(id, 0) + size`, and the same with `max(0, … - size)`.
abbrev pub reserve : MemorySegment → Dict ℕ → Dict ℕ
reserve s reserved = put s.node_id (get_or 0 s.node_id reserved + s.size_gb) reserved

abbrev pub unreserve : MemorySegment → Dict ℕ → Dict ℕ
unreserve s reserved = put s.node_id (get_or 0 s.node_id reserved - s.size_gb) reserved

-- What the loop of `allocate` changes.
pub record Taken : Type 0 where
  pub remaining : ℕ
  pub segments : List MemorySegment
  pub reserved : Dict ℕ

-- What a round appends, reserves and subtracts.
abbrev pub take_piece : Node → ℕ → Taken → Taken
take_piece n free t =
    let take = min free t.remaining in
    record {
      remaining = t.remaining - take;
      segments = t.segments ++ segment n take ∷ [];
      reserved = reserve (segment n take) t.reserved;
    }

-- The loop: it ends early when nothing remains, and `continue`s past a piece that is too small.
unfoldable pub take_from : ℕ → List Free → Taken → Taken
take_from min_segment_gb [] t = t
take_from min_segment_gb ((n, free) ∷ rest) t =
    let take = min free t.remaining in
    let skipped = take_from min_segment_gb rest t in
    let taken = take_from min_segment_gb rest (take_piece n free t) in
    if eqb t.remaining 0
    then t
    else if ltb take min_segment_gb && ltb min_segment_gb t.remaining
    then skipped
    else taken

-- The loops of the rollback and of `release`.
unfoldable pub give_back : List MemorySegment → Dict ℕ → Dict ℕ
give_back [] reserved = reserved
give_back (s ∷ rest) reserved = give_back rest (unreserve s reserved)

-- The part of `allocate` after its loop; 0.01 GB is 10.
unfoldable pub settle :
    String → ℕ → String → MemoryFabric → Taken → Option MemoryAllocation × MemoryFabric
unfolding give_back
settle new_id size_gb owner m t =
    let alloc : MemoryAllocation = record {
      allocation_id = new_id;
      total_gb = size_gb;
      segments = t.segments;
      owner = owner;
      pinned = false;
    } in
    if ltb 10 t.remaining
    then (none, record m { reserved = give_back t.segments t.reserved })
    else (
      some alloc,
      record { allocations = put new_id alloc m.allocations; reserved = t.reserved },
    )

unfoldable pub allocate :
    String → ℕ → List Node → String → ℕ → MemoryFabric → Option MemoryAllocation × MemoryFabric
unfolding available take_from settle
allocate new_id size_gb nodes owner min_segment_gb m =
    let free_nodes = available m nodes min_segment_gb in
    let start : Taken = record { remaining = size_gb; segments = []; reserved = m.reserved } in
    if eqb size_gb 0
    then (none, m)
    else if ltb (sum_of (λ x. x.1) free_nodes) size_gb
    then (none, m)
    else settle new_id size_gb owner m
        (take_from min_segment_gb (sort_by more_free free_nodes) start)

unfoldable pub release : String → MemoryFabric → Bool × MemoryFabric
unfolding give_back
release id m = elim (get id m.allocations) [
  | none ↦ (false, m)
  | some alloc ↦ (
    true,
    record {
      allocations = remove id m.allocations;
      reserved = give_back alloc.segments m.reserved;
    },
  )
]
