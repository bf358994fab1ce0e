-- ===== src/State/Rows.antt =====
-- Reading back the documents of a store.
use cluster_mesh.Prelude.{
  String, Bool, true, false, Option, none, some, List, [], ◌∷◌, ◌≡◌, refl, subst, ◌↔◌, inl, inr,
  arith, if◌then◌else◌,
}
use cluster_mesh.Prelude.Dict.{Dict, get}
use cluster_mesh.Prelude.Sort.{Has}
use cluster_mesh.State.Json.{Members}
use cluster_mesh.State.Interface.{Json, read_row, read_rows}
use cluster_mesh.State.Contents.{Lists}

module _ (json : Json) {A : Type 0} (from : Members → Option A) where
  open json use {Document, dumps, loads, loads-dumps}

  -- The document reads as the object.
  abbrev pub Reads : Document → A → Type 0
  Reads doc a = read_row json from (some doc) ≡ some (some a)

  pub dumps-Reads : (m : Members) (a : A) → from m ≡ some a → Reads (dumps m) a
  dumps-Reads m a h = rw (loads-dumps m, h)

  pub read_row_saved :
      (b : Bool) (m : Members) (a : A) (o : Option Document) (g : Option A)
      → from m ≡ some a
      → read_row json from o ≡ some g
      → read_row json from (if b then some (dumps m) else o) ≡ some (if b then some a else g)
  read_row_saved true m a o g h k = dumps-Reads m a h
  read_row_saved false m a o g h k = k

  read_rows_step :
      (doc : Document) (docs : List Document) (a : A) (found : List A)
      → Reads doc a
      → read_rows json from docs ≡ some found
      → read_rows json from (doc ∷ docs) ≡ some (a ∷ found)
  unfolding read_rows
  read_rows_step doc docs a found h k = ground arith

  Reads-unique :
      (doc other : Document) (a b : A) → doc ≡ other → Reads doc a → Reads other b → a ≡ b
  Reads-unique doc other a b e r s = cc

  -- What the documents read as, in their order.
  abbrev Finds : List Document → List A → Type 0
  Finds docs found = (a : A) → Has a found ↔ ((doc : Document) × Has doc docs × Reads doc a)

  Finds-cons :
      (doc : Document) (docs : List Document) (a : A) (found : List A)
      → Reads doc a
      → Finds docs found
      → Finds (doc ∷ docs) (a ∷ found)
  Finds-cons doc docs a found r f b = (
    λ h. elim h [
      | inl e ↦ (doc, inl refl, subst (Reads doc) e r)
      | inr i ↦ (let (d, j, s) = (f b).0 i in (d, inr j, s))
    ],
    λ (d, h, s). elim h [
      | inl e ↦ inl (Reads-unique doc d a b e r s)
      | inr j ↦ inr ((f b).1 (d, j, s))
    ],
  )

  pub read_rows_found :
      (docs : List Document)
      → ((doc : Document) → Has doc docs → (a : A) × Reads doc a)
      → (found : List A) × (read_rows json from docs ≡ some found) × Finds docs found
  unfolding read_rows
  read_rows_found [] h = ([], refl, λ a. (λ i. elim i [ ], λ p. elim p.1 [ ]))
  read_rows_found (doc ∷ docs) h =
      let (a, r) = h doc (inl refl) in
      let (found, e, f) = read_rows_found docs (λ d i. h d (inr i)) in
      (a ∷ found, read_rows_step doc docs a found r e, Finds-cons doc docs a found r f)

  -- A row that is there is never read as a missing one.
  Reads-some :
      (doc : Document) (o : Option A)
      → read_row json from (some doc) ≡ some o
      → (a : A) × Reads doc a
  Reads-some doc none h = absurd (ground arith)
  Reads-some doc (some a) h = (a, h)

  Reads-entry :
      (doc : Document) (a : A) (o : Option A)
      → Reads doc a
      → read_row json from (some doc) ≡ some o
      → o ≡ some a
  Reads-entry doc a o r s = cc

  -- An entry is read from a row.
  pub row_of_entry :
      (o : Option Document) (g : Option A) (a : A)
      → read_row json from o ≡ some g
      → g ≡ some a
      → (doc : Document) × (o ≡ some doc) × Reads doc a
  row_of_entry none g a h e = absurd (ground arith)
  row_of_entry (some doc) g a h e = (doc, refl, rw e at h)

  -- Documents that are those of a dictionary's entries list the dictionary.
  pub Lists-read_rows :
      (docs : List Document) (d : Dict A)
      → ((doc : Document)
          → Has doc docs
          → (k : String) × (read_row json from (some doc) ≡ some (get k d)))
      → ((k : String) (a : A) → get k d ≡ some a → (doc : Document) × Has doc docs × Reads doc a)
      → Lists (read_rows json from docs) d
  Lists-read_rows docs d sound complete =
      let (found, e, f) =
        read_rows_found docs (λ doc h. let (k, r) = sound doc h in Reads-some doc (get k d) r) in
      (
        found,
        e,
        λ a. (
          λ h.
              let (doc, i, r) = (f a).0 h in
              let (k, s) = sound doc i in (k, Reads-entry doc a (get k d) r s),
          λ (k, h). let (doc, i, r) = complete k a h in (f a).1 (doc, i, r),
        ),
      )
