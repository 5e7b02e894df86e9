-- ===== src/Nodes/Registry.antt =====
-- The registry after `updateNodes`.
use custom_cloudstack_ccm.Prelude.{
  ◌+◌, ◌≤◌, ◌<◌, String, true, none, some, List, [], ◌∷◌, map, string_eq, contains, ◌≡◌, refl,
  arith, eq_iff, inl, inr, sym, subst, Option-cases, if◌then◌else◌, ◌∙◌, ◌⊎◌, ap,
}
use custom_cloudstack_ccm.Prelude.Dict.{Dict, lookup}
use custom_cloudstack_ccm.Prelude.Outcome.{Result-cases, ok}
use custom_cloudstack_ccm.Config.{CsCloud}
use custom_cloudstack_ccm.Kube.{Node}
use custom_cloudstack_ccm.Api.{Server}
use custom_cloudstack_ccm.World.{NodeInfo, NodeRegistry, World}
use custom_cloudstack_ccm.Nodes.{
  visit_nodes, remove_unvisited, keep_names, next_revision, update_nodes, u64,
}
use custom_cloudstack_ccm.Nodes.Update.{Evolves, IsSame, visit_nodes-Evolves}

abbrev pub node_names_of : List Node → List String
node_names_of = map (λ n. n.name)

-- Every node is under its name, with a revision that the registry has had.
abbrev pub IsWellFormed : NodeRegistry → Type 0
IsWellFormed r =
    (k : String) (i : NodeInfo)
    → lookup k r.nodes ≡ some i
    → (i.name ≡ k) × (i.revision ≤ r.revision)

module _ (cs : CsCloud) (srv : Server) where
  lookup-keep_names :
      (k : String) (names : List String) (m : Dict String NodeInfo)
      → lookup k (keep_names cs srv names m) ≡ (if contains k names then lookup k m else none)
  lookup-keep_names k names [] = ground arith
  lookup-keep_names k names ((j, v) ∷ m) = ground (arith, eq_iff j k, lookup-keep_names k names m)

  visited : List Node → World → World
  visited nodes w = (visit_nodes cs srv nodes (next_revision cs srv w)).1

  abbrev pub cut : List String → NodeRegistry → NodeRegistry
  cut names r = record r { nodes = keep_names cs srv names r.nodes }

  -- What the registry is afterwards.
  update_nodes-cases :
      (nodes : List Node) (w : World)
      → ((update_nodes cs srv nodes w).1.registry ≡ w.registry)
          × (¬ ((update_nodes cs srv nodes w).0 ≡ ok tt))
        ⊎ ((update_nodes cs srv nodes w).1.registry ≡ (visited nodes w).registry)
          × (¬ ((update_nodes cs srv nodes w).0 ≡ ok tt))
        ⊎ ((update_nodes cs srv nodes w).1.registry
            ≡ cut (node_names_of nodes) (visited nodes w).registry)
  unfolding update_nodes visited remove_unvisited
  update_nodes-cases [] w = inl (refl, λ h. cc)
  update_nodes-cases (n ∷ nodes) w =
      elim (Result-cases (visit_nodes cs srv (n ∷ nodes) (next_revision cs srv w)).0) [
        | inr (x, e) ↦ inr (inl (ground (arith, e), λ h. ground (arith, e, h)))
        | inl (x, e) ↦ inr (inr (ground (arith, e)))
      ]

  IsWellFormed-Evolves : (r r' : NodeRegistry) → IsWellFormed r → Evolves r r' → IsWellFormed r'
  IsWellFormed-Evolves r r' wf (same, old, new) k j e = elim (Option-cases (lookup k r.nodes)) [
    | inl missing ↦ ((new k j missing e).0, ground (arith, (new k j missing e).1, same))
    | inr (i, found) ↦
        let (l, g, (n, _, _, s)) = old k i found in
        (ground (arith, e, g, n, (wf k i found).0), ground (arith, e, g, s, same, (wf k i found).1))
  ]

  IsWellFormed-cut :
      (names : List String) (r : NodeRegistry) → IsWellFormed r → IsWellFormed (cut names r)
  IsWellFormed-cut names r wf k i e = wf k i (ground (arith, e, lookup-keep_names k names r.nodes))

  next_revision-IsWellFormed :
      (w : World)
      → w.registry.revision < 18446744073709551615
      → IsWellFormed w.registry
      → IsWellFormed (next_revision cs srv w).registry
  next_revision-IsWellFormed w small wf k i e = ((wf k i e).0, ground (arith, (wf k i e).1))

  visited-IsWellFormed :
      (nodes : List Node) (w : World)
      → w.registry.revision < 18446744073709551615
      → IsWellFormed w.registry
      → IsWellFormed (visited nodes w).registry
  unfolding visited
  visited-IsWellFormed nodes w small wf =
      IsWellFormed-Evolves (next_revision cs srv w).registry (visited nodes w).registry
        (next_revision-IsWellFormed w small wf)
        (visit_nodes-Evolves cs srv nodes (next_revision cs srv w))

  -- Whether it succeeds or not, `update_nodes` leaves every node of the registry under its own name and
  -- with a revision that is not above the registry's, if it was so before and the revision is not about
  -- to wrap around.
  pub update_nodes-IsWellFormed :
      (nodes : List Node) (w : World)
      → w.registry.revision < 18446744073709551615
      → IsWellFormed w.registry
      → IsWellFormed (update_nodes cs srv nodes w).1.registry
  update_nodes-IsWellFormed nodes w small wf = elim (update_nodes-cases nodes w) [
    | inl (e, _) ↦ subst IsWellFormed (sym e) wf
    | inr (inl (e, _)) ↦ subst IsWellFormed (sym e) (visited-IsWellFormed nodes w small wf)
    | inr (inr e) ↦ subst IsWellFormed (sym e) (
        IsWellFormed-cut (node_names_of nodes) (visited nodes w).registry
          (visited-IsWellFormed nodes w small wf))
  ]

  update_nodes-cut :
      (nodes : List Node) (w : World)
      → (update_nodes cs srv nodes w).0 ≡ ok tt
      → (update_nodes cs srv nodes w).1.registry
        ≡ cut (node_names_of nodes) (visited nodes w).registry
  update_nodes-cut nodes w h = elim (update_nodes-cases nodes w) [
    | inl (_, n) ↦ absurd (n h)
    | inr (inl (_, n)) ↦ absurd (n h)
    | inr (inr e) ↦ e
  ]

  -- When `update_nodes` succeeds, the registry has only nodes of the list; a node of the list that it
  -- had before is there with the same machine, network and revision, and one that it had not before,
  -- if it is there, has the new revision, the one before and 1, modulo 2 ^ 64.
  pub update_nodes_lem :
      (nodes : List Node) (w : World)
      → (update_nodes cs srv nodes w).0 ≡ ok tt
      → let r = (update_nodes cs srv nodes w).1.registry in
        ((k : String) (j : NodeInfo)
          → lookup k r.nodes ≡ some j
          → contains k (node_names_of nodes) ≡ true)
        × ((k : String) (i : NodeInfo)
            → contains k (node_names_of nodes) ≡ true
            → lookup k w.registry.nodes ≡ some i
            → (j : NodeInfo) × (lookup k r.nodes ≡ some j) × IsSame i j)
        × ((k : String) (j : NodeInfo)
            → lookup k w.registry.nodes ≡ none
            → lookup k r.nodes ≡ some j
            → (j.name ≡ k) × (j.revision ≡ u64 (w.registry.revision + 1)))
  unfolding visited
  update_nodes_lem nodes w h =
      let (same, old, new) = visit_nodes-Evolves cs srv nodes (next_revision cs srv w) in
      let e = update_nodes-cut nodes w h in
      let kept = λ (k : String).
        ap (λ r. lookup k r.nodes) e
        ∙ lookup-keep_names k (node_names_of nodes) (visited nodes w).registry.nodes in
      (
        λ k j f. ground (arith, f, kept k),
        λ k i c f. let (j, g, s) = old k i f in (j, ground (arith, g, c, kept k), s),
        λ k j f g. new k j f (ground (arith, g, kept k)),
      )
