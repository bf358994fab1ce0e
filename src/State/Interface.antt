-- ===== src/State/Interface.antt =====
-- The protocol of mesh/state/store.py, and the libraries under the stores. A load that raises gives
-- `none`, one that finds no row gives `some none`.
use cluster_mesh.Prelude.{
  ◌>>=◌, String, Option, none, some, List, [], ◌∷◌, ◌≡◌, ◌≢◌, ◌↔◌, true, ◌==◌, if◌then◌else◌,
  starts_with,
}
use cluster_mesh.Prelude.Sort.{Has}
use cluster_mesh.Models.{Job, TaskSpec, Checkpoint, Node}
use cluster_mesh.State.Json.{Members}

-- The part of `StateStore` that stores objects; Leadership.Lease is about the rest.
pub record StateStore (S : Type 0) : Type 0 where
  pub save_job : Job → S → S
  pub load_job : String → S → Option (Option Job)
  pub list_jobs : S → Option (List Job)
  pub save_task : TaskSpec → S → S
  pub load_task : String → S → Option (Option TaskSpec)
  pub list_tasks : S → Option (List TaskSpec)
  pub save_checkpoint : Checkpoint → S → S
  pub load_checkpoint : String → S → Option (Option Checkpoint)
  pub save_node : Node → S → S
  pub load_node : String → S → Option (Option Node)
  pub list_nodes : S → Option (List Node)

-- The library json: what `dumps` wrote, `loads` reads.
pub record Json : Type 1 where
  pub Document : Type 0
  pub dumps : Members → Document
  pub loads : Document → Option Members
  pub loads-dumps : (m : Members) → loads (dumps m) ≡ some m

-- An SQL table with a text for its primary key: INSERT OR REPLACE, SELECT with a key, and SELECT
-- without one, which promises no order.
pub record Table (D : Type 0) : Type 1 where
  pub Rows : Type 0
  pub empty : Rows
  pub replace : String → D → Rows → Rows
  pub select_row : String → Rows → Option D
  pub all_rows : Rows → List D
  pub select_row-empty : (k : String) → select_row k empty ≡ none
  pub select_row-replace :
      (k j : String) (d : D) (rows : Rows)
      → select_row j (replace k d rows) ≡ (if k == j then some d else select_row j rows)
  pub all_rows_iff :
      (d : D) (rows : Rows) → Has d (all_rows rows) ↔ ((k : String) × (select_row k rows ≡ some d))

-- Redis: SET, GET, and SCAN with a pattern that is a prefix and a star.
pub record KeySpace (D : Type 0) : Type 1 where
  pub Db : Type 0
  pub empty : Db
  pub set : String → D → Db → Db
  pub fetch : String → Db → Option D
  pub scan : String → Db → List String
  pub fetch-empty : (k : String) → fetch k empty ≡ none
  pub fetch-set :
      (k j : String) (d : D) (db : Db)
      → fetch j (set k d db) ≡ (if k == j then some d else fetch j db)
  pub scan_iff :
      (prefix k : String) (db : Db)
      → Has k (scan prefix db) ↔ ((starts_with k prefix ≡ true) × (fetch k db ≢ none))

module _ (json : Json) {A : Type 0} (from : Members → Option A) where
  open json use {Document, loads}

  -- `from_dict(json.loads(row[0])) if row else None`
  abbrev pub read_row : Option Document → Option (Option A)
  read_row none = some none
  read_row (some d) = do m ← loads d; a ← from m; some (some a)

  -- `[from_dict(json.loads(r[0])) for r in rows]`
  unfoldable pub read_rows : List Document → Option (List A)
  read_rows [] = some []
  read_rows (d ∷ ds) = do m ← loads d; a ← from m; rest ← read_rows ds; some (a ∷ rest)
