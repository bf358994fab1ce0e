-- ===== src/Tests/Install.antt =====
-- numpy on the driver's host "desk" and on the node "b", whose agent is the first to end.
use cluster_mesh.Prelude.{
  ℕ, String, true, none, List, [], ◌∷◌, ◌≡◌, ◌≢◌, ◌↔◌, refl, sym, subst, inl, inr, length,
}
use cluster_mesh.Prelude.Dict.{get}
use cluster_mesh.Prelude.Text.{strip}
use cluster_mesh.Scheduler.Pools.{default_router}
use cluster_mesh.Driver.Installer.{Target}
use cluster_mesh.Driver.Install.{Pip, installed, Ack, acked, install}
use cluster_mesh.Driver.Install.Tags.{IsTagged}
use cluster_mesh.Driver.Install.Summary.{IsCompletion}
use cluster_mesh.Driver.Install.Outcome.{AllWork, install_ok_iff, install-IsTagged}
use cluster_mesh.Tests.Data.{node}
use cluster_mesh.Tests.Api.{cluster, cpu_targets, targets_b, b_is_target}

-- The names of this example have no capitals.
abbrev lower : String → String
lower s = s

abbrev pip : String → String → Pip
pip package_name version = installed "numpy" "2.0" "done"

abbrev call : String → String → String → Ack
call node_id package_name version = acked true "done"

abbrev shown : ℕ → String
shown n = "two"

abbrev repr : String → String
repr id = "RemoteAgent"

abbrev agent_first : List Target → List Target
agent_first [] = []
agent_first (t ∷ []) = t ∷ []
agent_first (t ∷ u ∷ ts) = u ∷ t ∷ ts

b_ends_first : IsCompletion agent_first (cpu_targets cluster)
b_ends_first =
    subst (λ ts. IsCompletion agent_first ts) (sym targets_b)
      (record {
        as_many = refl;
        no_other = λ t h. elim h [
          | inl e ↦ inr (inl e)
          | inr r ↦ elim r [ inl e ↦ inl e | inr n ↦ absurd n ]
        ];
        each = λ t h. elim h [
          | inl e ↦ inr (inl e)
          | inr r ↦ elim r [ inl e ↦ inl e | inr n ↦ absurd n ]
        ];
      })

install_ok_iff_example :
    ((install lower pip call shown repr agent_first default_router 13_000 12 "desk" " numpy "
        "latest" "Cpu" true none cluster).0.ok
      ≡ true)
    ↔ ((length (cpu_targets cluster) ≢ 0)
        × AllWork lower pip call shown repr agent_first default_router 13_000 12 "desk" " numpy "
            "latest" "Cpu" true none cluster)
install_ok_iff_example =
    install_ok_iff lower pip call shown repr agent_first default_router 13_000 12 "desk" " numpy "
      "latest" "Cpu" true none cluster b_ends_first

install-IsTagged_example :
    IsTagged lower
      (strip " numpy ")
      "b"
      (install lower pip call shown repr agent_first default_router 13_000 12 "desk" " numpy "
        "latest" "Cpu" true none cluster).1
unfolding get
install-IsTagged_example =
    install-IsTagged lower pip call shown repr agent_first default_router 13_000 12 "desk" " numpy "
      "latest" "Cpu" true none cluster "b" "b" (λ s word. word)
      (refl, (refl, (refl, (refl, (refl, (refl, (refl, tt))))))) b_ends_first b_is_target
      (node "b" 8_000, refl) refl
