-- ===== src/Api/Terminal.antt =====
-- The route POST /api/v1/nodes/{node_id}/shell of mesh/api/app.py. A body holds what `str` and `int`
-- make of the request's entries; a timeout of zero stands for one that is missing, null or zero too.
-- The network is a parameter, which says what a call of a node's agent answers; the machines and the
-- network have the state `S`. A message's id and time are given.
pub mod Remote
use Prim.Native.String.{◌++◌}
use cluster_mesh.Prelude.{
  ℕ, ltb, String, Bool, Option, none, some, List, [], ◌∷◌, ◌==◌, if◌then◌else◌,
}
use cluster_mesh.Prelude.Dict.{Dict, get, member}
use cluster_mesh.Prelude.Int.{ℤ, pos, negsuc}
use cluster_mesh.Prelude.Text.{strip, first_chars}
use cluster_mesh.Models.{Node}
use cluster_mesh.Driver.Cluster.{DriverCluster}
use cluster_mesh.Api.Events.{EventBus, LogEvent, LogLevel, info, error, emit}
use cluster_mesh.Agent.Shell.{
  System, ShellResult, ShellRequest, ShellResponse, run_shell_command, or_sixty, deadline,
}

pub record Body : Type 0 where
  pub command : String
  pub cwd : String
  pub timeout : ℤ

-- A response, or the text of an exception.
pub data Reply : Type 0 where
  answered : ShellResponse → Reply
  failed : String → Reply

-- `stub.RunShellCommand(req, timeout=…)` of a node's agent.
abbrev pub Network : Type 0 → Type 0
Network S = (node_id : String) → ShellRequest → (timeout : ℕ) → S → Reply × S

-- What the route answers; the last is an exception that leaves the handler.
pub data Answer : Type 0 where
  refused : String → Answer
  ran : (hostname node_id : String) → ShellResponse → Answer
  ran_here : (hostname node_id : String) → ShellResult → Answer
  not_reached : String → Answer
  crashed : Answer

pub record Desk (S : Type 0) : Type 0 where
  pub bus : EventBus
  pub machines : S

abbrev event : String → String → LogLevel → String → Dict String → LogEvent
event id timestamp level message metadata = record {
  id = id;
  timestamp = timestamp;
  level = level;
  source = "shell";
  message = message;
  metadata = metadata;
}

abbrev pub request_of : Body → ShellRequest
request_of body = record {
  command = strip body.command;
  working_dir = body.cwd;
  timeout_seconds = or_sixty body.timeout;
}

-- A protobuf field of type int32 takes the numbers from -2^31 up to 2^31 - 1.
abbrev pub fits_int32 : ℤ → Bool
fits_int32 (pos n) = ltb n 2_147_483_648
fits_int32 (negsuc n) = ltb n 2_147_483_648

-- Building a request raises an exception, with the text `out_of_range`, for any other timeout.
module _ {S : Type 0} (network : Network S) (os : System S)
    (own_name id timestamp out_of_range : String) where
  abbrev log : LogLevel → String → Dict String → EventBus → EventBus
  log level message metadata bus = emit (event id timestamp level message metadata) bus

  -- `remote.run_shell(mesh_pb2.ShellCommandRequest(…))`
  unfoldable pub call_agent : String → ShellRequest → S → Reply × S
  call_agent node_id request s =
      if fits_int32 request.timeout_seconds
      then network node_id request (deadline request.timeout_seconds) s
      else (failed out_of_range, s)

  -- `try: resp = …`
  unfoldable pub run_remote : Node → String → ShellRequest → Desk S → Answer × Desk S
  run_remote node node_id request d =
      let (reply, machines) = call_agent node_id request d.machines in
      elim reply [
        | answered r ↦ (
          ran node.hostname node_id r,
          record {
            bus =
                log info ("Ran on " ++ node.hostname ++ ": " ++ first_chars 120 request.command)
                  (("node_id", node_id) ∷ ("exit_code", os.shown r.exit_code) ∷ []) d.bus;
            machines = machines;
          },
        )
        | failed exc ↦ (
          not_reached exc,
          record {
            bus =
                log error ("Failed on " ++ node.hostname ++ ": " ++ exc) (("node_id", node_id) ∷ [])
                  d.bus;
            machines = machines;
          },
        )
      ]

  unfoldable pub run_locally : Node → String → ShellRequest → Desk S → Answer × Desk S
  run_locally node node_id request d =
      let (result, machines) =
        run_shell_command os request.command request.working_dir request.timeout_seconds
          d.machines in
      elim result [
        | none ↦ (crashed, record d { machines = machines })
        | some r ↦ (
          ran_here node.hostname node_id r,
          record {
            bus =
                log info
                  ("Ran locally on " ++ node.hostname ++ ": " ++ first_chars 120 request.command)
                  (("node_id", node_id) ∷ ("exit_code", os.shown r.exit_code) ∷ []) d.bus;
            machines = machines;
          },
        )
      ]

  unfoldable pub run_node_shell : DriverCluster → String → Body → Desk S → Answer × Desk S
  unfolding run_remote run_locally
  run_node_shell cluster node_id body d =
      let request = request_of body in
      if request.command == ""
      then (refused "command required", d)
      else elim (get node_id cluster.nodes) [
        | none ↦ (refused "node not found", d)
        | some node ↦
            if member node_id cluster.remote_agents
            then run_remote node node_id request d
            else if node.hostname == own_name
            then run_locally node node_id request d
            else (refused "node has no remote agent connection", d)
      ]
