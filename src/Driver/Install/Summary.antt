-- ===== src/Driver/Install/Summary.antt =====
-- What an installation answers, and which nodes it leaves tagged.
use cluster_mesh.Prelude.{
  ℕ, ◌≤◌, suc, String, Bool, true, false, List, [], ◌∷◌, ◌≡◌, ◌∙◌, ◌↔◌, refl, subst, sym, ap, inl,
  inr, length, select, eqb, Bool-cases, arith, All,
}
use cluster_mesh.Prelude.Sort.{Has, All_at, All_of}
use cluster_mesh.Prelude.Words.{IsWord}
use cluster_mesh.Driver.Cluster.{Cluster}
use cluster_mesh.Driver.Installer.{Target, driver, agent}
use cluster_mesh.Driver.Install.{
  Pip, installed, pip_failed, Ack, acked, not_acked, driver_result, agent_result, merge_library_tag,
  run_one, run_all, summary,
}
use cluster_mesh.Driver.Install.Tags.{
  KeepsWords, IsTagged, IsKnown, merge-IsTagged, merge-IsTagged_too, merge-IsKnown,
}

module _ {A : Type 0} (test : A → Bool) where
  length-select_le : (xs : List A) → length (select test xs) ≤ length xs
  unfolding select
  length-select_le [] = omega arith
  length-select_le (x ∷ xs) = ground (arith, length-select_le xs)

  length-select_iff :
      (xs : List A) → (length (select test xs) ≡ length xs) ↔ All (λ x. test x ≡ true) xs
  unfolding select
  length-select_iff [] = ground arith
  length-select_iff (x ∷ xs) = elim (Bool-cases (test x)) [
    | inl e ↦ rw e (
      (λ h. (refl, (length-select_iff xs).0 (omega (arith, h)))),
      (λ h. ap suc ((length-select_iff xs).1 h.1)),
    )
    | inr e ↦ rw e ((λ h. absurd (omega (arith, h, length-select_le xs))), (λ h. absurd (cc h.0)))
  ]

pub eqb-eq : (m n : ℕ) → eqb m n ≡ true → m ≡ n
eqb-eq m n h = ground arith

eq-eqb : (m n : ℕ) → m ≡ n → eqb m n ≡ true
eq-eqb m n h = ground arith

-- All targets' threads end, in some order.
pub record IsCompletion (order : List Target → List Target) (targets : List Target) : Type 0 where
  pub as_many : length (order targets) ≡ length targets
  pub no_other : (t : Target) → Has t (order targets) → Has t targets
  pub each : (t : Target) → Has t targets → Has t (order targets)

abbrev is_installed : Pip → Bool
is_installed (installed name version log) = true
is_installed (pip_failed err) = false

abbrev is_acked : Ack → Bool
is_acked (acked ok message) = ok
is_acked (not_acked err) = false

module _ (lower : String → String) (pip : (package_name version : String) → Pip)
    (call : (node_id package_name version : String) → Ack) (shown : ℕ → String)
    (repr : String → String) (package_name version : String) where
  -- Does pip end well on the target?
  abbrev pub works : Target → Bool
  works (driver host) = is_installed (pip package_name version)
  works (agent host id) = is_acked (call id package_name version)

  driver_result-ok :
      (host : String) (p : Pip)
      → (driver_result lower pip call shown repr host p).ok ≡ is_installed p
  driver_result-ok host (installed name ver log) = refl
  driver_result-ok host (pip_failed err) = refl

  agent_result-ok :
      (host id : String) (a : Ack)
      → (agent_result lower pip call shown repr host id a).ok ≡ is_acked a
  agent_result-ok host id (acked true message) = refl
  agent_result-ok host id (acked false message) = refl
  agent_result-ok host id (not_acked err) = refl

  run_one-works :
      (t : Target) (env : Cluster)
      → (run_one lower pip call shown repr package_name version t env).0.ok ≡ works t
  unfolding run_one
  run_one-works (driver host) env = driver_result-ok host (pip package_name version)
  run_one-works (agent host id) env = agent_result-ok host id (call id package_name version)

  ok_count-run_all :
      (ts : List Target) (env : Cluster)
      → length
          (select (λ r. r.ok) (run_all lower pip call shown repr package_name version ts env).0)
        ≡ length (select works ts)
  unfolding run_all select
  ok_count-run_all [] env = refl
  ok_count-run_all (t ∷ ts) env =
      let after = (run_one lower pip call shown repr package_name version t env).1 in
      ground (arith, run_one-works t env, ok_count-run_all ts after)

  all_work_iff :
      (order : List Target → List Target) (ts : List Target)
      → IsCompletion order ts
      → (length (select works (order ts)) ≡ length ts) ↔ ((t : Target) → Has t ts → works t ≡ true)
  all_work_iff order ts c =
      let counted = length-select_iff works (order ts) in
      (
        λ h t found.
            All_at (λ t. works t ≡ true) t (order ts) (counted.0 (h ∙ sym c.as_many))
              (c.each t found),
        λ works_all.
            counted.1 (
              All_of (λ t. works t ≡ true) (order ts) (λ t found. works_all t (c.no_other t found)))
            ∙ c.as_many,
      )

  -- The answer is ok exactly when there is a target and pip ends well on each.
  pub summary_of_run_iff :
      (order : List Target → List Target) (ts : List Target) (env : Cluster)
      → IsCompletion order ts
      → ((summary lower pip call shown repr package_name version
            (length ts)
            (run_all lower pip call shown repr package_name version (order ts) env).0).ok
          ≡ true)
        ↔ ((t : Target) → Has t ts → works t ≡ true)
  unfolding summary
  summary_of_run_iff order ts env c =
      let all = all_work_iff order ts c in
      let counted = ok_count-run_all (order ts) env in
      (
        λ h. all.0 (sym counted ∙ eqb-eq _ (length ts) h),
        λ h. eq-eqb _ (length ts) (counted ∙ all.1 h),
      )

-- A fact about the cluster that every merge keeps.
module _ (lower : String → String) (pip : (package_name version : String) → Pip)
    (call : (node_id package_name version : String) → Ack) (shown : ℕ → String)
    (repr : String → String) (package_name version : String) (P : Cluster → Type 0)
    (merge_keeps : (j : String) (env : Cluster)
      → P env
      → P (merge_library_tag lower j package_name env)) where
  run_one_keeps :
      (t : Target) (env : Cluster)
      → P env
      → P (run_one lower pip call shown repr package_name version t env).1
  unfolding run_one
  run_one_keeps (driver host) env k = k
  run_one_keeps (agent host j) env k =
      elim (Bool-cases
        (agent_result lower pip call shown repr host j (call j package_name version)).ok) [
          | inl e ↦ rw e (merge_keeps j env k)
          | inr e ↦ rw e k
        ]

  run_all_keeps :
      (ts : List Target) (env : Cluster)
      → P env
      → P (run_all lower pip call shown repr package_name version ts env).1
  unfolding run_all
  run_all_keeps [] env k = k
  run_all_keeps (t ∷ ts) env k = run_all_keeps ts _ (run_one_keeps t env k)

module _ (lower : String → String) (pip : (package_name version : String) → Pip)
    (call : (node_id package_name version : String) → Ack) (shown : ℕ → String)
    (repr : String → String) (package_name version : String) (keeps : KeepsWords lower)
    (word : IsWord package_name) where
  run_one-IsTagged :
      (host id : String) (env : Cluster)
      → IsKnown id env
      → works lower pip call shown repr package_name version (agent host id) ≡ true
      → IsTagged lower package_name id
          (run_one lower pip call shown repr package_name version (agent host id) env).1
  unfolding run_one
  run_one-IsTagged host id env known ok =
      let answered =
        agent_result-ok lower pip call shown repr package_name version host id
          (call id package_name version) in
      rw (answered ∙ ok) (merge-IsTagged lower package_name keeps word id env known)

  pub run_all-IsTagged :
      (host id : String) (ts : List Target) (env : Cluster)
      → Has (agent host id) ts
      → IsKnown id env
      → works lower pip call shown repr package_name version (agent host id) ≡ true
      → IsTagged lower package_name id
          (run_all lower pip call shown repr package_name version ts env).1
  unfolding run_all
  run_all-IsTagged host id [] env h known ok = absurd h
  run_all-IsTagged host id (t ∷ ts) env (inl e) known ok =
      run_all_keeps lower pip call shown repr package_name version (IsTagged lower package_name id)
        (merge-IsTagged_too lower package_name keeps word id) ts _
        (subst
          (λ x.
            IsTagged lower package_name id
              (run_one lower pip call shown repr package_name version x env).1)
          (sym e) (run_one-IsTagged host id env known ok))
  run_all-IsTagged host id (t ∷ ts) env (inr h) known ok =
      run_all-IsTagged host id ts _ h
        (run_one_keeps lower pip call shown repr package_name version (IsKnown id)
          (merge-IsKnown lower package_name keeps word id) t env known)
        ok
