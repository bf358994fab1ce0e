-- ===== src/Api/Context/Sites.antt =====
-- What the counts of the sites add up to.
use cluster_mesh.Prelude.{
  ℕ, ◌+◌, ◌≤◌, String, Bool, true, Option, none, some, List, [], ◌∷◌, ◌==◌, ◌≡◌, sym, ◌∙◌, arith,
  sum_of, eq_iff, eq_refl, Option-cases, Bool-cases, ap, ◌&&◌, inl, inr,
}
use cluster_mesh.Prelude.Dict.{Dict, get, keys, get-put, Distinct}
use cluster_mesh.Prelude.Sort.{Has}
use cluster_mesh.Prelude.Sums.{keys-put-Distinct, Has-values, Has-values_of}
use cluster_mesh.Models.{Node, healthy, same_state}
use cluster_mesh.Api.Context.{Site, site_of, one_if, raised, count_node, count_nodes, sites_payload}
use cluster_mesh.Driver.Cluster.{Cluster, live_nodes}

-- The nodes at a site so far, and the healthy ones.
abbrev counted : Option Site → ℕ
counted none = 0
counted (some s) = s.nodes

abbrev counted_healthy : Option Site → ℕ
counted_healthy none = 0
counted_healthy (some s) = s.healthy_nodes

abbrev pub at_site : String → Node → Bool
at_site site n = site_of n == site

raised-counted :
    (n : Node) (sites : Dict Site)
    → ((raised n sites).nodes ≡ counted (get (site_of n) sites) + 1)
      × ((raised n sites).healthy_nodes
          ≡ counted_healthy (get (site_of n) sites) + one_if (same_state n.state healthy))
raised-counted n sites = (ground arith, ground arith)

-- `len([n for n in nodes if test(n)])`
abbrev pub number_of : (Node → Bool) → List Node → ℕ
number_of test nodes = sum_of (λ n. one_if (test n)) nodes

module _ (site : String) where
  count_node-counted :
      (n : Node) (sites : Dict Site)
      → (counted (get site (count_node n sites))
          ≡ one_if (at_site site n) + counted (get site sites))
        × (counted_healthy (get site (count_node n sites))
            ≡ one_if (at_site site n && same_state n.state healthy)
              + counted_healthy (get site sites))
  unfolding count_node
  count_node-counted n sites =
      let new = get-put (site_of n) site (raised n sites) sites in
      let (all, well) = raised-counted n sites in
      elim (Bool-cases (at_site site n)) [
        | inl e ↦
            let same : site_of n ≡ site = (eq_iff (site_of n) site).0 e in
            rw (new, e)
              (
                omega (arith, all, ap (λ k. counted (get k sites)) same),
                omega (arith, well, ap (λ k. counted_healthy (get k sites)) same),
              )
        | inr e ↦ rw (new, e) (omega arith, omega arith)
      ]

  -- The entry of a site counts its nodes and the healthy ones among them.
  count_nodes-counted :
      (nodes : List Node) (sites : Dict Site)
      → (counted (get site (count_nodes nodes sites))
          ≡ number_of (at_site site) nodes + counted (get site sites))
        × (counted_healthy (get site (count_nodes nodes sites))
            ≡ number_of (λ n. at_site site n && same_state n.state healthy) nodes
              + counted_healthy (get site sites))
  unfolding count_nodes sum_of
  count_nodes-counted [] sites = (omega arith, omega arith)
  count_nodes-counted (n ∷ nodes) sites =
      let one = count_node-counted n sites in
      let rest = count_nodes-counted nodes (count_node n sites) in
      (omega (arith, one.0, rest.0), omega (arith, one.1, rest.1))

none_has : (k : String) (s : Site) → get k [] ≡ some s → ⊥
unfolding get
none_has k s h = cc h

-- A node of the list is counted.
number_of_pos :
    (test : Node → Bool) (n : Node) (nodes : List Node)
    → Has n nodes
    → test n ≡ true
    → 1 ≤ number_of test nodes
unfolding sum_of
number_of_pos test n [] h ok = elim h [ ]
number_of_pos test n (m ∷ nodes) (inl e) ok =
    let counts : test m ≡ true = ap test e ∙ ok in ground arith
number_of_pos test n (m ∷ nodes) (inr h) ok = omega (arith, number_of_pos test n nodes h ok)

-- No two entries have a key in common, and each is named by its key.
record IsKeyed (sites : Dict Site) : Type 0 where
  distinct : Distinct (keys sites)
  named : (k : String) (s : Site) → get k sites ≡ some s → s.site ≡ k

raised-named : (n : Node) (sites : Dict Site) → IsKeyed sites → (raised n sites).site ≡ site_of n
raised-named n sites keyed = elim (Option-cases (get (site_of n) sites)) [
  | inl e ↦ ground arith
  | inr (s, e) ↦ ground (arith, keyed.named (site_of n) s e)
]

count_node-IsKeyed : (n : Node) (sites : Dict Site) → IsKeyed sites → IsKeyed (count_node n sites)
unfolding count_node
count_node-IsKeyed n sites keyed = record {
  distinct = keys-put-Distinct (site_of n) (raised n sites) sites keyed.distinct;
  named = λ k s found.
      let new = get-put (site_of n) k (raised n sites) sites in
      elim (Bool-cases (site_of n == k)) [
        | inl e ↦
            let here : raised n sites ≡ s = ground arith in
            ap (λ x. x.site) (sym here) ∙ raised-named n sites keyed ∙ (eq_iff (site_of n) k).0 e
        | inr e ↦ keyed.named k s (ground arith)
      ];
}

count_nodes-IsKeyed :
    (nodes : List Node) (sites : Dict Site) → IsKeyed sites → IsKeyed (count_nodes nodes sites)
unfolding count_nodes
count_nodes-IsKeyed [] sites keyed = keyed
count_nodes-IsKeyed (n ∷ nodes) sites keyed =
    count_nodes-IsKeyed nodes (count_node n sites) (count_node-IsKeyed n sites keyed)

-- The entry of every site that sites_payload lists counts the live nodes at that site and the HEALTHY
-- ones among them, and the site of every live node is listed; a node without a location is at the
-- site "default".
pub sites_payload_lem :
    (now : ℕ) (env : Cluster)
    → ((s : Site)
        → Has s (sites_payload now env).0
        → (s.nodes ≡ number_of (at_site s.site) (live_nodes now env).0)
          × (s.healthy_nodes
              ≡ number_of
                  (λ n. at_site s.site n && same_state n.state healthy)
                  (live_nodes now env).0))
      × ((n : Node)
          → Has n (live_nodes now env).0
          → (s : Site) × Has s (sites_payload now env).0 × (s.site ≡ site_of n))
unfolding sites_payload keys get
sites_payload_lem now env =
    let nodes = (live_nodes now env).0 in
    let sites = count_nodes nodes [] in
    let keyed =
      count_nodes-IsKeyed nodes []
        (record { distinct = tt; named = λ k s h. absurd (none_has k s h) }) in
    (
      λ s listed.
          let (k, found) = Has-values s sites keyed.distinct listed in
          let (all, well) = count_nodes-counted k nodes [] in
          rw (keyed.named k s found)
            (omega (arith, ap counted found, all), omega (arith, ap counted_healthy found, well)),
      λ n live. elim (Option-cases (get (site_of n) sites)) [
        | inl missing ↦
            let (all, well) = count_nodes-counted (site_of n) nodes [] in
            let here = number_of_pos (at_site (site_of n)) n nodes live (eq_refl (site_of n)) in
            absurd (omega (arith, ap counted missing, all, here))
        | inr (s, found) ↦
            (s, Has-values_of (site_of n) s sites found, keyed.named (site_of n) s found)
      ],
    )
