-- ===== src/Recovery/Speculation.antt =====
-- `SpeculativeExecutor` of mesh/recovery/speculation.py. Times are natural numbers of one unit, and
-- `multiplier` is in thousandths. `statistics.median` is a parameter.
use mathlib.Core.Path.{subst}
use cluster_mesh.Prelude.{
  ℕ, ◌-◌, ◌*◌, ◌≤◌, max, String, Bool, true, false, not, ◌&&◌, Option, none, some, List, [], ◌∷◌,
  ◌≡◌, ◌↔◌, refl, arith, length, ltb, ltb-eq_false→le, eqb, select, if◌then◌else◌, Bool-cases, inl,
  inr,
}
use cluster_mesh.Prelude.Dict.{Dict, get, put, remove, has}
use cluster_mesh.Prelude.Sort.{Has, Has-select_iff}
use cluster_mesh.Models.{TaskSpec, is_running}

pub record SpeculativeExecutor : Type 0 where
  pub multiplier : ℕ
  pub min_runtime_seconds : ℕ
  pub start_times : Dict ℕ
  pub speculative : Dict String

unfoldable pub record_start : ℕ → String → SpeculativeExecutor → SpeculativeExecutor
record_start now id s = record s { start_times = put id now s.start_times }

unfoldable pub clear : String → SpeculativeExecutor → SpeculativeExecutor
clear id s = record s {
  start_times = remove id s.start_times;
  speculative = remove id s.speculative;
}

unfoldable pub mark_speculative : String → String → SpeculativeExecutor → SpeculativeExecutor
mark_speculative original dup s = record s { speculative = put original dup s.speculative }

unfoldable pub duplicate_id : String → SpeculativeExecutor → Option String
duplicate_id original s = get original s.speculative

-- `if start: now - start`: a start of 0 counts as none.
unfoldable pub runtime : ℕ → SpeculativeExecutor → TaskSpec → Option ℕ
runtime now s t = elim (get t.task_id s.start_times) [
  | none ↦ none
  | some start ↦ if eqb start 0 then none else some (now - start)
]

unfoldable pub runtimes : ℕ → SpeculativeExecutor → List TaskSpec → List ℕ
runtimes now s [] = []
runtimes now s (t ∷ ts) = elim (runtime now s t) [
  | none ↦ runtimes now s ts
  | some r ↦ r ∷ runtimes now s ts
]

-- In thousandths of the unit.
abbrev pub threshold : (List ℕ → ℕ) → SpeculativeExecutor → List ℕ → ℕ
threshold median s rs = max (s.min_runtime_seconds * 1000) (median rs * s.multiplier)

abbrev pub is_straggler : ℕ → ℕ → SpeculativeExecutor → TaskSpec → Bool
is_straggler now limit s t = elim (runtime now s t) [
  | none ↦ false
  | some r ↦ ltb limit (r * 1000) && not (has t.task_id s.speculative)
]

abbrev stragglers_among :
    (List ℕ → ℕ) → ℕ → SpeculativeExecutor → List TaskSpec → List ℕ → List TaskSpec
stragglers_among median now s running [] = []
stragglers_among median now s running (r ∷ rs) =
    select (is_straggler now (threshold median s (r ∷ rs)) s) running

unfoldable pub find_stragglers :
    (List ℕ → ℕ) → ℕ → SpeculativeExecutor → List TaskSpec → List TaskSpec
unfolding runtimes
find_stragglers median now s tasks =
    let running = select (λ (t : TaskSpec). is_running t.state) tasks in
    if ltb (length running) 2
    then []
    else stragglers_among median now s running (runtimes now s running)

first_none :
    (o : Option ℕ) (rest : List ℕ)
    → (elim o as (λ _. List ℕ) [ none ↦ rest | some r ↦ r ∷ rest ]) ≡ []
    → o ≡ none
first_none o rest h = ground arith

rest_none :
    (o : Option ℕ) (rest : List ℕ)
    → (elim o as (λ _. List ℕ) [ none ↦ rest | some r ↦ r ∷ rest ]) ≡ []
    → rest ≡ []
rest_none o rest h = ground arith

too_few : {n : ℕ} → ltb n 2 ≡ true → 2 ≤ n → ⊥
too_few h k = ground arith

module _ (median : List ℕ → ℕ) (now : ℕ) (s : SpeculativeExecutor) (tasks : List TaskSpec) where
  abbrev run : List TaskSpec
  run = select (λ (t : TaskSpec). is_running t.state) tasks

  no_runtime :
      (t : TaskSpec) (l : List TaskSpec) → Has t l → runtimes now s l ≡ [] → runtime now s t ≡ none
  unfolding runtimes
  no_runtime t [] h e = elim h [ ]
  no_runtime t (u ∷ l) (inl same) e =
      subst (λ v. runtime now s v ≡ none) same (first_none (runtime now s u) (runtimes now s l) e)
  no_runtime t (u ∷ l) (inr h) e =
      no_runtime t l h (rest_none (runtime now s u) (runtimes now s l) e)

  stragglers_iff :
      (t : TaskSpec) (l : List TaskSpec) (rs : List ℕ)
      → runtimes now s l ≡ rs
      → Has t (stragglers_among median now s l rs)
        ↔ (Has t l × (is_straggler now (threshold median s rs) s t ≡ true))
  stragglers_iff t l (r ∷ rs) e = Has-select_iff _ t l
  stragglers_iff t l [] e = (λ h. elim h [ ], λ h. absurd (idle (no_runtime t l h.0 e) h.1))
    where
      idle : runtime now s t ≡ none → is_straggler now (threshold median s []) s t ≡ true → ⊥
      idle none_is slow = ground arith

  -- A task is reported as a straggler exactly when at least two tasks run, it is one of them, it has
  -- no duplicate, and its runtime exceeds the least runtime and the median's multiple.
  find_stragglers_iff :
      (t : TaskSpec)
      → Has t (find_stragglers median now s tasks) ↔ (
          (2 ≤ length run)
          × Has t tasks
          × (is_running t.state ≡ true)
          × (is_straggler now (threshold median s (runtimes now s run)) s t ≡ true))
  unfolding find_stragglers
  find_stragglers_iff t =
      let found = stragglers_iff t run (runtimes now s run) refl in
      let kept = Has-select_iff (λ (u : TaskSpec). is_running u.state) t tasks in
      elim (Bool-cases (ltb (length run) 2)) [
        | inl few ↦ rw few (λ h. elim h [ ], λ h. absurd (too_few few h.0))
        | inr enough ↦ rw enough (
          λ h.
              let (ran, slow) = found.0 h in
              let (listed, runs) = kept.0 ran in
              (ltb-eq_false→le (length run) 2 enough, listed, runs, slow),
          λ h. found.1 (kept.1 (h.1, h.2), h.3),
        )
      ]
