-- ===== src/Tests/State.antt =====
-- Stored objects at concrete inputs: a document is the object itself, a table and a key space are
-- dictionaries.
use cluster_mesh.Prelude.{
  String, none, some, List, [], ◌∷◌, ◌≡◌, ◌≢◌, refl, ◌↔◌, sym, ◌∙◌, arith, eq_iff, starts_with,
  select,
}
use cluster_mesh.Prelude.Dict.{Dict, get, put, keys, get-put}
use cluster_mesh.Prelude.Sort.{Has, Has-select_iff}
use cluster_mesh.Models.{JobState, TaskState}
use cluster_mesh.State.Json.{Members}
use cluster_mesh.State.Interface.{Json, Table, KeySpace}
use cluster_mesh.State.RoundTrip.{task_from_dict-task_to_dict}
use cluster_mesh.State.Serialize.Tasks.{task_from_dict, task_to_dict}
use cluster_mesh.State.Contents.{Write, Implements, write_all, note_all, nothing}
use cluster_mesh.State.Sqlite.{sqlite_store, init_schema}
use cluster_mesh.State.Sqlite.Refinement.{sqlite_refines}
use cluster_mesh.State.Redis.{redis_store, documents_at}
use cluster_mesh.State.Redis.Refinement.{redis_refines, Has-documents_at_iff}
use cluster_mesh.Tests.Data.{task, job, node}

abbrev json : Json
json = record { Document = Members; dumps = λ m. m; loads = λ m. some m; loads-dumps = λ m. refl }

get-empty : (k : String) → get {V = Members} k [] ≡ none
unfolding get
get-empty k = refl

none-some : (m : Members) → none ≢ some m
none-some m h = absurd (ground arith)

Has-keys_iff : (k : String) (d : Dict Members) → Has k (keys d) ↔ (get k d ≢ none)
unfolding keys get
Has-keys_iff k [] = (λ h. elim h [ ], λ h. absurd (h refl))
Has-keys_iff k ((j, m) ∷ d) = ground (arith, eq_iff j k, Has-keys_iff k d)

abbrev key_space : KeySpace Members
key_space = record {
  Db = Dict Members;
  empty = [];
  set = put;
  fetch = get;
  scan = λ prefix d. select (λ k. starts_with k prefix) (keys d);
  fetch-empty = get-empty;
  fetch-set = get-put {V = Members};
  scan_iff = λ prefix k d. (
    λ h.
        let (i, e) = (Has-select_iff (λ j. starts_with j prefix) k (keys d)).0 h in
        (e, (Has-keys_iff k d).0 i),
    λ (e, n). (Has-select_iff (λ j. starts_with j prefix) k (keys d)).1 ((Has-keys_iff k d).1 n, e),
  );
}

abbrev table : Table Members
table = record {
  Rows = Dict Members;
  empty = [];
  replace = put;
  select_row = get;
  all_rows = λ d. documents_at json key_space (keys d) d;
  select_row-empty = get-empty;
  select_row-replace = get-put {V = Members};
  all_rows_iff = λ m d. (
    λ h. let (k, i, e) = (Has-documents_at_iff json key_space m (keys d) d).0 h in (k, e),
    λ (k, e).
        (Has-documents_at_iff json key_space m (keys d) d).1
          (k, (Has-keys_iff k d).1 (λ n. none-some m (sym n ∙ e)), e),
  );
}

abbrev writes : List Write
writes =
    Write.job (job JobState.running)
    ∷ Write.task (task "t" 2_000 TaskState.running (some "a"))
    ∷ Write.node (node "a" 4_000)
    ∷ Write.checkpoint
        (record { task_id = "t"; progress = 300; state_data = ("epoch", "3") ∷ []; timestamp = 7 })
    ∷ Write.job (job JobState.completed)
    ∷ []

sqlite_refines_example :
    Implements
      (sqlite_store json table)
      (write_all (sqlite_store json table) writes (init_schema json table))
      (note_all writes nothing)
sqlite_refines_example = sqlite_refines json table writes

redis_refines_example :
    Implements
      (redis_store json key_space)
      (write_all (redis_store json key_space) writes [])
      (note_all writes nothing)
redis_refines_example = redis_refines json key_space writes

task_from_dict-task_to_dict_example :
    task_from_dict (task_to_dict (task "t" 2_000 TaskState.running (some "a")))
    ≡ some (record (task "t" 2_000 TaskState.running (some "a")) { fn = none })
task_from_dict-task_to_dict_example =
    task_from_dict-task_to_dict (task "t" 2_000 TaskState.running (some "a"))
