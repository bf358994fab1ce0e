-- ===== src/Mesh/Routes.antt =====
-- Where the agents of a site connect to.
use cluster_mesh.Prelude.{
  ℕ, String, Bool, false, ◌||◌, Option, none, some, [], ◌∷◌, ◌≡◌, refl, arith, ◌==◌, eq_refl,
}
use cluster_mesh.Prelude.Dict.{Dict, get, get-put, get-remove}
use cluster_mesh.Mesh.Coordinator.{
  SitePeer, MeshCoordinator, add_peer, remove_peer, probed, probe_all, probe_peers, best_peer_route,
  resolve_agent_driver,
}

-- Agents of this site, and of the site "default", connect to it directly.
abbrev pub is_local : String → MeshCoordinator → Bool
is_local site c = site == c.site_id || site == "default"

-- Of the peers of a site, the one registered last under its name is the one that its agents are sent
-- to, where it has an address, and after its removal they are sent to this site.
resolve-add_remove :
    (peer : SitePeer) (local_grpc : String) (c : MeshCoordinator)
    → is_local peer.site_id c ≡ false
    → peer.grpc_address == "" ≡ false
    → (resolve_agent_driver peer.site_id local_grpc (add_peer peer c) ≡ peer.grpc_address)
      × (resolve_agent_driver peer.site_id local_grpc (remove_peer peer.site_id (add_peer peer c))
          ≡ local_grpc)
unfolding resolve_agent_driver best_peer_route add_peer remove_peer
resolve-add_remove peer local_grpc c away addressed = ground (
  arith,
  eq_refl peer.site_id,
  get-put peer.site_id peer.site_id peer c.peers,
  get-remove peer.site_id peer.site_id (add_peer peer c).peers,
)

probe_all-route :
    (attempt : String → Option ℕ) (site : String) (d : Dict SitePeer)
    → get site (probe_all attempt d)
      ≡ (elim (get site d) [ none ↦ none | some p ↦ some (probed attempt p) ])
unfolding probe_all get
probe_all-route attempt site [] = refl
probe_all-route attempt site ((id, p) ∷ d) = ground (arith, probe_all-route attempt site d)

-- What the probes find changes no route: an unreachable peer is answered as a reachable one is.
resolve-probe_peers :
    (attempt : String → Option ℕ) (site local_grpc : String) (c : MeshCoordinator)
    → resolve_agent_driver site local_grpc (probe_peers attempt c)
      ≡ resolve_agent_driver site local_grpc c
unfolding resolve_agent_driver best_peer_route probe_peers
resolve-probe_peers attempt site local_grpc c = ground (arith, probe_all-route attempt site c.peers)
