-- ===== src/Api/Terminal/Remote.antt =====
-- The route for shell commands together with the terminal of the agent that it calls.
use cluster_mesh.Prelude.{
  ℕ, String, Bool, true, false, Option, none, some, List, ◌==◌, ◌≡◌, ◌∙◌, ◌↔◌, refl, sym,
  Bool-cases, Option-cases, subst, inl, inr, arith,
}
use cluster_mesh.Prelude.Dict.{get, member}
use cluster_mesh.Prelude.Int.{ℤ, pos, negsuc}
use cluster_mesh.Prelude.Text.{strip}
use cluster_mesh.Prelude.Strip.{strip-strip}
use cluster_mesh.Models.{Node}
use cluster_mesh.Driver.Cluster.{DriverCluster}
use cluster_mesh.Agent.Shell.{
  System, ShellRequest, ShellResponse, run_shell_request, or_sixty, deadline, directory, bounded,
}
use cluster_mesh.Agent.Shell.Answers.{
  IsSuccess, ending_of, distinct_answers, says_ok, run_shell_request_ok_iff,
}
use cluster_mesh.Api.Terminal.{
  Body, Reply, answered, failed, Network, Answer, refused, ran, ran_here, not_reached, crashed,
  Desk, request_of, fits_int32, call_agent, run_remote, run_node_shell,
}

-- What the caller of an agent sees: its answer, or an exception with the text `exc`.
abbrev reply_of : String → Option ShellResponse → Reply
reply_of exc none = failed exc
reply_of exc (some r) = answered r

abbrev pub replied : {S : Type 0} → String → Option ShellResponse × S → Reply × S
replied exc p = (reply_of exc p.0, p.1)

-- The network brings a node's requests to its agent, and the agent's answers back.
abbrev pub Delivers :
    {S : Type 0} → String → (List ℕ → Option String) → String → System S → Network S → Type 0
Delivers {S = S} exc decode node_id agent network =
    (request : ShellRequest) (timeout : ℕ) (s : S)
    → network node_id request timeout s ≡ replied exc (run_shell_request decode agent request s)

-- The `ok` of an answer.
abbrev pub is_ok : Answer → Bool
is_ok (refused why) = false
is_ok (ran hostname node_id r) = r.ok
is_ok (ran_here hostname node_id r) = r.ok
is_ok (not_reached exc) = false
is_ok crashed = false

or_sixty-or_sixty : (timeout : ℤ) → or_sixty (or_sixty timeout) ≡ or_sixty timeout
or_sixty-or_sixty (pos n) = ground arith
or_sixty-or_sixty (negsuc n) = refl

module _ {S : Type 0} (network : Network S) (os : System S)
    (own_name id timestamp out_of_range : String) (request : ShellRequest) where
  call_agent-fits :
      (node_id : String) (s : S)
      → fits_int32 request.timeout_seconds ≡ true
      → call_agent network os own_name id timestamp out_of_range node_id request s
        ≡ network node_id request (deadline request.timeout_seconds) s
  unfolding call_agent
  call_agent-fits node_id s fits = rw fits refl

  call_agent_too_long :
      (node_id : String) (s : S)
      → fits_int32 request.timeout_seconds ≡ false
      → call_agent network os own_name id timestamp out_of_range node_id request s
        ≡ (failed out_of_range, s)
  unfolding call_agent
  call_agent_too_long node_id s big = rw big refl

  run_remote-is_ok :
      (agent : System S) (exc : String) (decode : List ℕ → Option String) (node : Node)
      (node_id : String) (d : Desk S)
      → Delivers exc decode node_id agent network
      → fits_int32 request.timeout_seconds ≡ true
      → is_ok (run_remote network os own_name id timestamp out_of_range node node_id request d).0
        ≡ says_ok (run_shell_request decode agent request d.machines).0
  unfolding run_remote
  run_remote-is_ok agent exc decode node node_id d delivers fits =
      rw
        (
          call_agent-fits node_id d.machines fits,
          delivers request (deadline request.timeout_seconds) d.machines,
          is_ok,
        )
        elim (Option-cases (run_shell_request decode agent request d.machines).0) [
          | inl e ↦ rw e refl
          | inr (r, e) ↦ rw e refl
        ]

  run_remote_too_long :
      (node : Node) (node_id : String) (d : Desk S)
      → fits_int32 request.timeout_seconds ≡ false
      → is_ok (run_remote network os own_name id timestamp out_of_range node node_id request d).0
        ≡ false
  unfolding run_remote
  run_remote_too_long node node_id d big =
      rw (call_agent_too_long node_id d.machines big, is_ok) refl

abbrev Ends : {S : Type 0} → System S → String → String → ℤ → S → Type 0
Ends os stripped cwd timeout s =
    ((stripped == "") ≡ false)
    × IsSuccess (os.run stripped (directory os cwd s) (bounded timeout) s).0

-- The agent strips the command again, and puts in a missing timeout again.
agent_answers :
    {S : Type 0} (agent : System S) (decode : List ℕ → Option String) (body : Body) (s : S)
    → (says_ok (run_shell_request decode agent (request_of body) s).0 ≡ true)
      ↔ Ends agent (strip body.command) body.cwd (or_sixty body.timeout) s
agent_answers agent decode body s =
    let told = says_ok (run_shell_request decode agent (request_of body) s).0 ≡ true in
    subst (λ t. told ↔ Ends agent (strip body.command) body.cwd t s)
      (or_sixty-or_sixty body.timeout)
      (subst (λ c. told ↔ Ends agent c body.cwd (or_sixty (or_sixty body.timeout)) s)
        (strip-strip body.command) (run_shell_request_ok_iff agent decode (request_of body) s))

-- The route answers ok for a node with an agent, through a network that delivers, exactly when the
-- timeout fits into an int32, the command is not blank, and its process on the node's machine ends with
-- the return code 0 within its time.
pub run_node_shell_ok_iff :
    {S : Type 0} (network : Network S) (os agent : System S)
    (own_name id timestamp out_of_range exc : String) (decode : List ℕ → Option String)
    (cluster : DriverCluster) (node : Node) (node_id : String) (body : Body) (d : Desk S)
    → Delivers exc decode node_id agent network
    → get node_id cluster.nodes ≡ some node
    → member node_id cluster.remote_agents ≡ true
    → (is_ok (run_node_shell network os own_name id timestamp out_of_range cluster node_id body d).0
        ≡ true)
      ↔ ((fits_int32 (or_sixty body.timeout) ≡ true)
          × ((strip body.command == "") ≡ false)
          × IsSuccess (ending_of agent body.command body.cwd (or_sixty body.timeout) d.machines))
unfolding run_node_shell
run_node_shell_ok_iff network os agent own_name id timestamp out_of_range exc decode cluster node
      node_id body d delivers known remote =
    let request = request_of body in
    let answer =
      run_remote-is_ok network os own_name id timestamp out_of_range request agent exc decode node
        node_id d delivers in
    let too_long =
      run_remote_too_long network os own_name id timestamp out_of_range request node node_id d in
    let agrees = agent_answers agent decode body d.machines in
    elim (Bool-cases (strip body.command == "")) [
      | inl blank ↦
          rw blank ((λ h. absurd (distinct_answers (sym h))), (λ h. absurd (distinct_answers h.1)))
      | inr b ↦ elim (Bool-cases (fits_int32 (or_sixty body.timeout))) [
        | inl fits ↦
            rw (b, known, remote, answer fits)
              ((λ h. (fits, refl, (agrees.0 h).1)), (λ h. agrees.1 (b, h.2)))
        | inr big ↦
            rw (b, known, remote, too_long big)
              (
                (λ h. absurd (distinct_answers (sym h))),
                (λ h. absurd (distinct_answers (sym h.0 ∙ big))),
              )
      ]
    ]
