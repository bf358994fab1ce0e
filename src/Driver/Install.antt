-- ===== src/Driver/Install.antt =====
-- `install` and `_merge_library_tag` of mesh/driver/library_installer.py, without its log entries. What
-- pip answers on the driver's host, and a call of an agent, are parameters; so are Python's `lower` and
-- the texts of a number and of an agent's handle. The threads of the pool end in the order `order`, and
-- a target's thread is one step.
pub mod Tags
pub mod Summary
pub mod Outcome
use Prim.Native.String.{◌++◌}
use cluster_mesh.Prelude.{
  ℕ, String, Bool, true, false, ◌||◌, Option, none, some, List, [], ◌∷◌, ◌==◌, eqb, length, select,
  if◌then◌else◌,
}
use cluster_mesh.Prelude.Dict.{Dict, get, get_or, put, add}
use cluster_mesh.Prelude.Sort.{sort_by}
use cluster_mesh.Prelude.Text.{text_leb, strip}
use cluster_mesh.Prelude.Words.{split, join}
use cluster_mesh.Models.{Node}
use cluster_mesh.Scheduler.Pools.{PoolRouter}
use cluster_mesh.Driver.Cluster.{Cluster}
use cluster_mesh.Driver.Installer.{Target, driver, agent, resolve_targets}

pub record TargetResult : Type 0 where
  pub target : String
  pub hostname : String
  pub ok : Bool
  pub message : String
  pub log : String

-- `LibraryManager.install` on the driver's host: the library with its version and the log, or an
-- exception.
pub data Pip : Type 0 where
  installed : (name version log : String) → Pip
  pip_failed : String → Pip

-- An agent's answer, or the exception of the call.
pub data Ack : Type 0 where
  acked : (ok : Bool) (message : String) → Ack
  not_acked : String → Ack

pub record Answer : Type 0 where
  pub ok : Bool
  pub package_name : String
  pub version : String
  pub results : List TargetResult
  pub message : String

abbrev or_text : String → String → String
or_text s t = if s == "" then t else s

abbrev pub libraries_tag : Node → String
libraries_tag n = get_or "" "libraries" n.tags

module _ (lower : String → String) where
  -- `{p.strip().lower() for p in … if p.strip()}`
  unfoldable pub library_names : List String → List String
  library_names [] = []
  library_names (p ∷ ps) =
      let rest = library_names ps in if strip p == "" then rest else add (lower (strip p)) rest

  unfoldable pub with_library : String → Node → Node
  with_library package_name n =
      let libs = add (lower package_name) (library_names (split (libraries_tag n))) in
      record n { tags = put "libraries" (join (sort_by text_leb libs)) n.tags }

  unfoldable pub merge_library_tag : String → String → Cluster → Cluster
  unfolding with_library
  merge_library_tag node_id package_name env =
      let w = env.world in
      elim (get node_id w.nodes) [
        | none ↦ env
        | some node ↦ record env {
          world = record w { nodes = put node_id (with_library package_name node) w.nodes };
        }
      ]

  -- `version.strip()`, with none for the latest.
  abbrev pub version_of : String → String
  version_of version =
      if (lower (strip version) == "latest") || (lower (strip version) == "*")
      then ""
      else strip version

  module _ (pip : (package_name version : String) → Pip)
      (call : (node_id package_name version : String) → Ack) (shown : ℕ → String)
      (repr : String → String) where
    abbrev driver_result : String → Pip → TargetResult
    driver_result host (installed name version log) = record {
      target = "driver";
      hostname = host;
      ok = true;
      message = "Installed " ++ name ++ " " ++ version;
      log = log;
    }
    driver_result host (pip_failed err) = record {
      target = "driver";
      hostname = host;
      ok = false;
      message = err;
      log = err;
    }

    abbrev agent_result : String → String → Ack → TargetResult
    agent_result host node_id (acked true log) = record {
      target = node_id;
      hostname = host;
      ok = true;
      message = or_text log "installed";
      log = log;
    }
    agent_result host node_id (acked false log) = record {
      target = node_id;
      hostname = host;
      ok = false;
      message = or_text log "install failed";
      log = log;
    }
    agent_result host node_id (not_acked err) = record {
      target = repr node_id;
      hostname = host;
      ok = false;
      message = err;
      log = err;
    }

    unfoldable pub run_one : String → String → Target → Cluster → TargetResult × Cluster
    unfolding merge_library_tag
    run_one package_name version (driver host) env =
        (driver_result host (pip package_name version), env)
    run_one package_name version (agent host node_id) env =
        let result = agent_result host node_id (call node_id package_name version) in
        (result, if result.ok then merge_library_tag node_id package_name env else env)

    unfoldable pub run_all : String → String → List Target → Cluster → List TargetResult × Cluster
    unfolding run_one
    run_all package_name version [] env = ([], env)
    run_all package_name version (t ∷ ts) env =
        let (result, env₁) = run_one package_name version t env in
        let (results, env₂) = run_all package_name version ts env₁ in (result ∷ results, env₂)

    -- The answer for the results of all targets.
    unfoldable pub summary : String → String → ℕ → List TargetResult → Answer
    summary package_name version total results =
        let ok_count = length (select (λ r. r.ok) results) in
        record {
          ok = eqb ok_count total;
          package_name = package_name;
          version = or_text version "latest";
          results = results;
          message = "Installed on " ++ shown ok_count ++ "/" ++ shown total ++ " targets";
        }

    unfoldable pub install :
        (List Target → List Target)
        → PoolRouter
        → (now hour : ℕ) → (driver_host package_name version pool : String) → Bool
        → Option (List String)
        → Cluster
        → Answer × Cluster
    unfolding run_all summary
    install order router now hour driver_host package_name version pool include_driver node_ids
          env =
        let (targets, env₁) =
          resolve_targets router now hour driver_host pool node_ids include_driver env in
        let (results, env₂) =
          run_all (strip package_name) (version_of version) (order targets) env₁ in
        if eqb (length targets) 0
        then (
          record {
            ok = false;
            package_name = strip package_name;
            version = or_text (version_of version) "latest";
            results = [];
            message = "No targets available — start mesh-agent or enable driver install";
          },
          env₁,
        )
        else (summary (strip package_name) (version_of version) (length targets) results, env₂)
