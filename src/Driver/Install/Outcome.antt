-- ===== src/Driver/Install/Outcome.antt =====
-- `install` as a whole: its answer, and the tags of the nodes that it reached.
use cluster_mesh.Prelude.{
  ℕ, String, Bool, true, false, Option, List, [], ◌∷◌, ◌≡◌, ◌≢◌, ◌∙◌, ◌↔◌, ap, inl, inr, length,
  eqb, Bool-cases, arith,
}
use cluster_mesh.Prelude.Dict.{get}
use cluster_mesh.Prelude.Sort.{Has}
use cluster_mesh.Prelude.Text.{strip}
use cluster_mesh.Prelude.Words.{IsWord, strip-IsWord}
use cluster_mesh.Scheduler.Pools.{PoolRouter}
use cluster_mesh.Driver.Cluster.{Cluster}
use cluster_mesh.Driver.Live.{live_nodes-eq}
use cluster_mesh.Driver.Installer.{Target, agent, resolve_targets, chosen_nodes}
use cluster_mesh.Driver.Install.{Pip, Ack, version_of, install}
use cluster_mesh.Driver.Install.Tags.{KeepsWords, IsTagged, IsKnown}
use cluster_mesh.Driver.Install.Summary.{
  IsCompletion, works, summary_of_run_iff, run_all-IsTagged, eqb-eq,
}

no_targets : (ts : List Target) (t : Target) → Has t ts → eqb (length ts) 0 ≡ false
no_targets [] t h = absurd h
no_targets (x ∷ ts) t h = ground arith

resolve_targets-IsKnown :
    (router : PoolRouter) (now hour : ℕ) (driver_host pool : String)
    (node_ids : Option (List String)) (include_driver : Bool) (env : Cluster) (id : String)
    → IsKnown id env
    → IsKnown id (resolve_targets router now hour driver_host pool node_ids include_driver env).1
unfolding resolve_targets chosen_nodes
resolve_targets-IsKnown router now hour driver_host pool node_ids include_driver env id (n, known) =
    (n, ap (λ w. get id w.nodes) (live_nodes-eq now env).1 ∙ known)

module _ (lower : String → String) (pip : (package_name version : String) → Pip)
    (call : (node_id package_name version : String) → Ack) (shown : ℕ → String)
    (repr : String → String) (order : List Target → List Target) (router : PoolRouter)
    (now hour : ℕ) (driver_host package_name version pool : String) (include_driver : Bool)
    (node_ids : Option (List String)) (env : Cluster) where
  abbrev targets : List Target
  targets = (resolve_targets router now hour driver_host pool node_ids include_driver env).0

  abbrev pub AllWork : Type 0
  AllWork =
      (t : Target)
      → Has t targets
      → works lower pip call shown repr (strip package_name) (version_of lower version) t ≡ true

  -- An installation answers ok exactly when there is a target and pip ends well on each, in whatever
  -- order the targets' threads end.
  pub install_ok_iff :
      IsCompletion order targets
      → ((install lower pip call shown repr order router now hour driver_host package_name version
            pool include_driver node_ids env).0.ok
          ≡ true)
        ↔ ((length targets ≢ 0) × AllWork)
  unfolding install
  install_ok_iff completion =
      let env₁ = (resolve_targets router now hour driver_host pool node_ids include_driver env).1 in
      let told =
        summary_of_run_iff lower pip call shown repr (strip package_name) (version_of lower version)
          order targets env₁ completion in
      elim (Bool-cases (eqb (length targets) 0)) [
        | inl e ↦
            rw (e, install)
              ((λ h. absurd (cc h)), (λ h. absurd (h.0 (eqb-eq (length targets) 0 e))))
        | inr e ↦
            rw (e, install)
              ((λ h. ((λ z. absurd (ground (arith, e, z))), told.0 h)), (λ h. told.1 h.1))
      ]

  -- A registered node whose agent is a target, and answers that pip ended well there, is tagged with
  -- the library's name in lower case afterwards, in whatever order the targets' threads end, if the
  -- name has no comma and lowering brings none in.
  pub install-IsTagged :
      (host id : String)
      → KeepsWords lower
      → IsWord package_name
      → IsCompletion order targets
      → Has (agent host id) targets
      → IsKnown id env
      → works lower pip call shown repr
          (strip package_name)
          (version_of lower version)
          (agent host id)
        ≡ true
      → IsTagged lower
          (strip package_name)
          id
          (install lower pip call shown repr order router now hour driver_host package_name version
            pool include_driver node_ids env).1
  unfolding install
  install-IsTagged host id keeps word completion target known ok =
      let env₁ = (resolve_targets router now hour driver_host pool node_ids include_driver env).1 in
      rw (no_targets targets (agent host id) target, install)
        (run_all-IsTagged lower pip call shown repr (strip package_name) (version_of lower version)
          keeps (strip-IsWord package_name word) host id (order targets) env₁
          (completion.each (agent host id) target)
          (resolve_targets-IsKnown router now hour driver_host pool node_ids include_driver env id
            known)
          ok)
