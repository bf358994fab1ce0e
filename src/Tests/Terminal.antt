-- ===== src/Tests/Terminal.antt =====
-- Shell commands on two machines, one of which has an agent: `true` succeeds, and any other command is
-- killed with a byte of output. The machines' state counts the processes that were started.
use cluster_mesh.Prelude.{
  ℕ, String, true, false, none, some, Option, List, [], ◌∷◌, ◌+◌, ◌≤◌, ◌==◌, ◌≡◌, ◌↔◌, refl,
  if◌then◌else◌,
}
use cluster_mesh.Prelude.Int.{pos}
use cluster_mesh.Prelude.Dict.{get, member}
use cluster_mesh.Prelude.Text.{strip}
use cluster_mesh.Tests.Data.{node}
use cluster_mesh.Driver.Cluster.{DriverCluster}
use cluster_mesh.Agent.Shell.{
  System, Ending, ended, timed_out, run_shell_command, run_shell_request, or_sixty, bounded,
  deadline,
}
use cluster_mesh.Agent.Shell.Answers.{
  IsFlooded, IsSuccess, ending_of, run_shell_command_raises_iff, deadline-bounded,
}
use cluster_mesh.Api.Terminal.{Network, Body, Desk, fits_int32, run_node_shell}
use cluster_mesh.Api.Terminal.Remote.{replied, is_ok, run_node_shell_ok_iff}

abbrev run_process : String → String → ℕ → ℕ → Ending × ℕ × ℕ
run_process command directory timeout started =
    if command == "true"
    then (ended (pos 0) none none, 10, started + 1)
    else (timed_out (some (10 ∷ [])) none, 2_000, started + 1)

abbrev machine : System ℕ
machine = record {
  run = run_process;
  is_directory = λ directory started. directory == "/tmp";
  home = "/home/mesh";
  shown = λ n. "a number";
}

abbrev decode : List ℕ → Option String
decode bytes = some "bytes"

abbrev network : Network ℕ
network node_id request timeout started =
    replied "deadline exceeded" (run_shell_request decode machine request started)

abbrev cluster : DriverCluster
cluster = record {
  nodes = ("a", node "a" 8_000) ∷ ("b", node "b" 8_000) ∷ [];
  remote_agents = "b" ∷ [];
  tasks = [];
  state_changes = [];
}

abbrev desk : Desk ℕ
desk = record {
  bus = record { max_events = 10; events = []; subscribers = []; delivered = [] };
  machines = 0;
}

abbrev body : Body
body = record { command = " true "; cwd = "/tmp"; timeout = pos 600 }

run_shell_command_raises_iff_example :
    ((run_shell_command machine "sleep 100" "/tmp" (pos 2) 0).0 ≡ none) ↔ (
      ((strip "sleep 100" == "") ≡ false)
      × IsFlooded (ending_of machine "sleep 100" "/tmp" (pos 2) 0))
run_shell_command_raises_iff_example =
    run_shell_command_raises_iff machine "sleep 100" "/tmp" (pos 2) 0

deadline-bounded_example :
    (1 ≤ bounded (or_sixty (pos 600)))
    × (bounded (or_sixty (pos 600)) ≤ 300)
    × (bounded (or_sixty (pos 600)) + 5 ≤ deadline (pos 600))
deadline-bounded_example = deadline-bounded (pos 600)

run_node_shell_ok_iff_example :
    (is_ok
        (run_node_shell network machine "a" "e1" "09:00" "Value out of range" cluster "b" body
          desk).0
      ≡ true)
    ↔ ((fits_int32 (or_sixty body.timeout) ≡ true)
        × ((strip body.command == "") ≡ false)
        × IsSuccess (ending_of machine body.command body.cwd (or_sixty body.timeout) desk.machines))
unfolding get member
run_node_shell_ok_iff_example =
    run_node_shell_ok_iff network machine machine "a" "e1" "09:00" "Value out of range"
      "deadline exceeded" decode cluster (node "b" 8_000) "b" body desk (λ request timeout s. refl)
      refl refl
