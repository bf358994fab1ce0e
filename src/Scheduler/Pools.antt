-- ===== src/Scheduler/Pools.antt =====
-- mesh/scheduler/pools.py. `datetime.now().hour` is the argument `hour`.
use cluster_mesh.Prelude.{
  ℕ, Bool, true, false, not, ◌&&◌, ◌||◌, Option, none, some, List, [], leb, ltb, select,
  if◌then◌else◌,
}
use cluster_mesh.Prelude.Sort.{sort_by}
use cluster_mesh.Models.{Node, ResourcePool, cpu, memory, gpu, night}

pub record PoolRouter : Type 0 where
  pub night_start_hour : ℕ
  pub night_end_hour : ℕ
  pub battery_min_pct : ℕ

abbrev pub default_router : PoolRouter
default_router = record { night_start_hour = 18; night_end_hour = 8; battery_min_pct = 60_000 }

unfoldable pub is_night_window : PoolRouter → ℕ → Bool
is_night_window p hour =
    if ltb p.night_end_hour p.night_start_hour
    then leb p.night_start_hour hour || ltb hour p.night_end_hour
    else leb p.night_start_hour hour && ltb hour p.night_end_hour

unfoldable pub passes_battery_gate : PoolRouter → Node → Bool
passes_battery_gate p n = elim n.resources.battery_pct [
  | none ↦ true
  | some battery ↦ leb p.battery_min_pct battery
]

abbrev pub has_cuda : Node → Bool
has_cuda n = elim n.resources.cuda_version [ none ↦ false | some _ ↦ true ]

-- `key=lambda n: n.resources.ram_gb_free, reverse=True`: equal keys keep their order.
abbrev pub more_free_ram : Node → Node → Bool
more_free_ram m n = leb n.resources.ram_gb_free m.resources.ram_gb_free

unfoldable pub eligible_nodes : PoolRouter → List Node → Option ResourcePool → ℕ → List Node
unfolding is_night_window passes_battery_gate
eligible_nodes p nodes none hour = nodes
eligible_nodes p nodes (some night) hour =
    if not (is_night_window p hour)
    then []
    else select (λ n. n.preemptible && passes_battery_gate p n) nodes
eligible_nodes p nodes (some gpu) hour =
    select (λ n. ltb 0 n.resources.gpu_count && (has_cuda n && passes_battery_gate p n)) nodes
eligible_nodes p nodes (some memory) hour =
    sort_by more_free_ram (select (passes_battery_gate p) nodes)
eligible_nodes p nodes (some cpu) hour =
    select (λ n. not n.preemptible && passes_battery_gate p n) nodes
