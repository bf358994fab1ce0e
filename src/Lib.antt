-- ===== src/Lib.antt =====
-- ClusterMesh: a driver that runs jobs on a cluster of office machines.
--
-- A driver keeps the nodes of the cluster (mesh/driver/cluster.py) and hears their heartbeats
-- (mesh/health/heartbeat.py). Its job manager (mesh/driver/job_manager.py) makes the tasks of a
-- job, asks the placement engine (mesh/scheduler) for nodes, starts the tasks there or in threads
-- of its own, and settles the job when its tasks end. When a node dies, the tasks on it are stolen
-- (mesh/recovery/work_stealing.py) and go on from their checkpoints; replicas and duplicates of slow
-- tasks are in mesh/recovery too. Several drivers share one store (mesh/state), elect a leader by its
-- lease (mesh/driver/ha/election.py), and only the leader writes. Beside that, the free memory
-- of the nodes is lent out as one pool (mesh/memory/fabric.py), agents watch for their machine's user
-- (mesh/agent/preemption.py), and sites find each other's drivers (mesh/meshvpn/coordinator.py).
--
-- The files, and the code that each is about:
--   Prelude      names passed on, Boolean tests, dictionaries, sorting, sums
--   Models       mesh/models: nodes, tasks, jobs, their states; Checkpoint
--   Health       mesh/health/heartbeat.py: Tracker is HeartbeatTracker, Registry is
--                NodeHealthRegistry; Deadlines, History, PerNode and Sweep hold the
--                proofs
--   Scheduler    mesh/scheduler: Scoring, Pools, Placement, Rebalancing; proofs in Placement/Best
--                and Placement/Capacity
--   Memory       mesh/memory/fabric.py; proofs in Fabric/Loop, Grants, Ledger, Return and Capacity
--   Leadership   Lease is the leadership row of mesh/state/sqlite_store.py, Redis and Postgres are that of
--                the other stores, Election is mesh/driver/ha/election.py; proofs in Usurp, Race and
--                Tenure
--   Recovery     mesh/recovery: Checkpoints, Replication, Stealing, Speculation; proofs in Spread
--   Jobs         mesh/driver/job_manager.py: Manager is the state, with what it persists and signals,
--                Submit is submit, Dispatch starts tasks, Outcome settles them, Death is
--                handle_node_death and handle_preemption, Periodic is run_rebalance and
--                check_speculation, Resume is resume_from_store, Named is submit_remote_by_name,
--                submit_notebook_cell and wait_for_job, and register_mesh_task of
--                mesh/tasks/registry.py is in Submit; proofs in Frames, Keeps, Completion, Raised, Failure,
--                Durability, Stranded, Idempotency, Waiting
--   State        mesh/state: Json and Serialize are serialize.py, Interface is store.py with the
--                libraries json, sqlite3 and redis, Sqlite and Redis are the stores, Contents is what
--                they promise; proofs in RoundTrip, Rows, Sqlite/Refinement and Redis/Refinement
--   Execution    mesh/execution/executor.py: Context is TaskContext and execute, Executor the table of
--                interrupts; proofs in Progress
--   Driver       mesh/driver/cluster.py (proofs in Live), server.py is Servicer, with proofs in Wire,
--                Ends and Alive, ha/coordinator.py is Ha, and library_installer.py is Installer and
--                Install, with the proofs in Targets and Install/Outcome
--   Agent        Preemption is mesh/agent/preemption.py, Client is what client.py and daemon.py report,
--                Runner is executor.py and server.py, Daemon is the loop of daemon.py, Shell is shell.py with its
--                calls; proofs in Handoff, Cancelled, Daemon/Punctual and Shell/Answers
--   Sim          mesh/sim: Agent, Cluster, Chaos and Stats; Tick is the loop of cluster.py with the
--                actions of chaos.py; proofs in Events, Ends and Work
--   Mesh         mesh/meshvpn/coordinator.py; proofs in Routes
--   Api          mesh/api: Events is events.py, Auth is auth.py, Context, Notebook, Pool and Terminal are routes of app.py
--                with their payloads of context.py; proofs in Events/History, Guard, Context/Sites,
--                Context/Tenants, Notebook/Runs, Pool/Accounts and Terminal/Remote
--   Tests        the theorems at concrete inputs
--
-- State is passed explicitly: a method is a function from its arguments and the object's record to
-- its result and the new record, and a method's helper loops are functions by recursion on the list
-- that they run over, so that only `run` of the simulation takes fuel: a round for each tick until its end
-- and one more are enough. `rounds` counts the rounds of the election's endless loop, and a wait for
-- a job runs over the looks that it takes. A Python dictionary is an association list in insertion order, with what the code
-- does on a missing key written out. Of one object that two places hold, the record of the owner is
-- the one copy, found by its id; `shared` says in the job manager where a task object is not the
-- stored one, and in a task's context whether the stored checkpoint holds the live state.
--
-- Quantities that the source holds as floats (cores, GB, Gbps, percent) are natural numbers of
-- thousandths, times are natural numbers of one unit, and the clock's reading is an argument. Where
-- the source divides and rounds, in scores and loads, floats are a parameter: a type with the
-- operations used, ordered where a proof needs it. So rounding errors of sums of quantities are not
-- modelled. Other parameters: fresh ids, the answers of remote agents, the registry of callables,
-- `statistics.median`, what a connection attempt finds, what pip answers, and the operating system and
-- the network under the remote shell. Concurrency is modelled as the sequence of
-- method calls under the locks; threads and remote calls are signals written down in order. A call to cancel a task may raise an
-- exception, which a parameter says, and the rest of the method is then left out as in the source; calls
-- to pause a task are taken to return.
--
-- Not modelled: the sockets, channels and servers of gRPC and HTTP, command line, notebooks, discovery,
-- the relay, the routes and payloads of the API that the list above leaves out, the objects in Postgres (they are jsonb, whose
-- keys have no order), and the worker's page.
pub mod Prelude
pub mod Models
pub mod Health
pub mod Scheduler
pub mod State
pub mod Memory
pub mod Leadership
pub mod Recovery
pub mod Execution
pub mod Jobs
pub mod Driver
pub mod Agent
pub mod Api
pub mod Mesh
pub mod Sim
pub mod Tests
