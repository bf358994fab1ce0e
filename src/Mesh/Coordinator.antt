-- ===== src/Mesh/Coordinator.antt =====
-- The peer table and the routes of `MeshCoordinator`, mesh/meshvpn/coordinator.py. The relay and the
-- sockets are outside the model: `reachable` says what a connection attempt finds, with its latency.
use cluster_mesh.Prelude.{
  ℕ, String, Bool, true, false, ◌||◌, Option, none, some, List, [], ◌∷◌, ◌==◌, if◌then◌else◌,
}
use cluster_mesh.Prelude.Dict.{Dict, get, put, remove}

pub data PeerStatus : Type 0 where
  unknown reachable unreachable : PeerStatus

-- `SitePeer`; the latency is `none` where the source has -1.
pub record SitePeer : Type 0 where
  pub site_id : String
  pub relay_address : String
  pub grpc_address : String
  pub region : String
  pub status : PeerStatus
  pub latency_ms : Option ℕ

pub record MeshCoordinator : Type 0 where
  pub site_id : String
  pub peers : Dict SitePeer

-- `__init__`, from the configuration's site and peers.
abbrev peers_of : List SitePeer → Dict SitePeer → Dict SitePeer
peers_of [] d = d
peers_of (p ∷ ps) d = peers_of ps (put p.site_id p d)

unfoldable pub init : String → List SitePeer → MeshCoordinator
init site_id configured = record { site_id = site_id; peers = peers_of configured [] }

unfoldable pub add_peer : SitePeer → MeshCoordinator → MeshCoordinator
add_peer peer c = record c { peers = put peer.site_id peer c.peers }

unfoldable pub remove_peer : String → MeshCoordinator → MeshCoordinator
remove_peer site_id c = record c { peers = remove site_id c.peers }

abbrev pub probed : (String → Option ℕ) → SitePeer → SitePeer
probed attempt p = elim (attempt p.relay_address) [
  | none ↦ record p { latency_ms = none; status = unreachable }
  | some ms ↦ record p { latency_ms = some ms; status = reachable }
]

-- The loop of `probe_peers`.
unfoldable pub probe_all : (String → Option ℕ) → Dict SitePeer → Dict SitePeer
probe_all attempt [] = []
probe_all attempt ((id, p) ∷ rest) = (id, probed attempt p) ∷ probe_all attempt rest

unfoldable pub probe_peers : (String → Option ℕ) → MeshCoordinator → MeshCoordinator
unfolding probe_all
probe_peers attempt c = record c { peers = probe_all attempt c.peers }

abbrev is_reachable : PeerStatus → Bool
is_reachable reachable = true
is_reachable _ = false

-- Both branches of the source return the same.
unfoldable pub best_peer_route : String → MeshCoordinator → Option String
best_peer_route target c = elim (get target c.peers) [
  | none ↦ none
  | some peer ↦ if is_reachable peer.status then some peer.grpc_address else some peer.grpc_address
]

-- `route or local_grpc`: an empty address counts as none.
abbrev or_local : Option String → String → String
or_local none local_grpc = local_grpc
or_local (some route) local_grpc = if route == "" then local_grpc else route

unfoldable pub resolve_agent_driver : String → String → MeshCoordinator → String
unfolding best_peer_route
resolve_agent_driver agent_site local_grpc c =
    if agent_site == c.site_id || agent_site == "default"
    then local_grpc
    else or_local (best_peer_route agent_site c) local_grpc
