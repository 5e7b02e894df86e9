-- ===== src/Queue/Revisions.antt =====
-- The revision that orders the queue.
use custom_cloudstack_ccm.Prelude.{
  ℕ, ◌≤◌, Bool, string_eq, sym, subst, true, List, [], ◌∷◌, ◌≡◌, refl, arith, inl, inr, All, any,
  ◌==◌, ◌⊎◌, Option-cases, Bool-cases, String, ltb,
}
use custom_cloudstack_ccm.Prelude.Dict.{lookup}
use custom_cloudstack_ccm.Kube.{ServiceKey}
use custom_cloudstack_ccm.World.{NodeInfo, NodeRegistry}
use custom_cloudstack_ccm.Endpoints.{nodes_containing_service, known_nodes, node_names}
use custom_cloudstack_ccm.Nodes.Registry.{IsWellFormed}
use custom_cloudstack_ccm.Queue.{top_revision, top_revision_from}

-- A bound on the revisions of some nodes.
abbrev pub IsBelow : ℕ → List NodeInfo → Type 0
IsBelow n nodes = All (λ (node : NodeInfo). node.revision ≤ n) nodes

abbrev pub has_revision : ℕ → List NodeInfo → Bool
has_revision n nodes = any (λ (node : NodeInfo). node.revision == n) nodes

top_revision_from-le : (top : ℕ) (nodes : List NodeInfo) → top ≤ top_revision_from top nodes
unfolding top_revision_from
top_revision_from-le top [] = omega arith
top_revision_from-le top (node ∷ nodes) =
    ground (arith, top_revision_from-le top nodes, top_revision_from-le node.revision nodes)

top_revision_from-IsBelow :
    (top : ℕ) (nodes : List NodeInfo) → IsBelow (top_revision_from top nodes) nodes
unfolding top_revision_from
top_revision_from-IsBelow top [] = tt
top_revision_from-IsBelow top (node ∷ nodes) = elim (Bool-cases (ltb top node.revision)) [
  | inl later ↦
      let same : top_revision_from top (node ∷ nodes) ≡ top_revision_from node.revision nodes =
        ground (arith, later) in
      (
        ground (arith, same, top_revision_from-le node.revision nodes),
        subst (λ n. IsBelow n nodes) (sym same) (top_revision_from-IsBelow node.revision nodes),
      )
  | inr before ↦
      let same : top_revision_from top (node ∷ nodes) ≡ top_revision_from top nodes =
        ground (arith, before) in
      (
        ground (arith, same, before, top_revision_from-le top nodes),
        subst (λ n. IsBelow n nodes) (sym same) (top_revision_from-IsBelow top nodes),
      )
]

top_revision_from-attained :
    (top : ℕ) (nodes : List NodeInfo)
    → (top_revision_from top nodes ≡ top)
      ⊎ (has_revision (top_revision_from top nodes) nodes ≡ true)
unfolding top_revision_from
top_revision_from-attained top [] = inl refl
top_revision_from-attained top (node ∷ nodes) =
    ground
      (arith, top_revision_from-attained top nodes, top_revision_from-attained node.revision nodes)

top_revision_from-bound :
    (top n : ℕ) (nodes : List NodeInfo)
    → top ≤ n
    → IsBelow n nodes
    → top_revision_from top nodes ≤ n
unfolding top_revision_from
top_revision_from-bound top n [] h below = h
top_revision_from-bound top n (node ∷ nodes) h below = ground (
  arith,
  top_revision_from-bound top n nodes h below.1,
  top_revision_from-bound node.revision n nodes below.0 below.1,
)

known_nodes-IsBelow :
    (r : NodeRegistry) (names : List String)
    → IsWellFormed r
    → IsBelow r.revision (known_nodes r.nodes names)
unfolding known_nodes
known_nodes-IsBelow r [] wf = tt
known_nodes-IsBelow r (name ∷ names) wf = elim (Option-cases (lookup name r.nodes)) [
  | inl missing ↦
      let same : known_nodes r.nodes (name ∷ names) ≡ known_nodes r.nodes names =
        ground (arith, missing) in
      subst (IsBelow r.revision) (sym same) (known_nodes-IsBelow r names wf)
  | inr (i, found) ↦
      let same : known_nodes r.nodes (name ∷ names) ≡ i ∷ known_nodes r.nodes names =
        ground (arith, found) in
      subst (IsBelow r.revision) (sym same) ((wf name i found).1, known_nodes-IsBelow r names wf)
]

-- The revision that orders a service in the queue is the greatest one among the nodes behind the
-- service, or 0 where there are none or all are 0, and it is at most the registry's own revision, in a
-- registry that keeps each node under its own name and not above its own revision.
pub top_revision_lem :
    (r : NodeRegistry) (key : ServiceKey)
    → IsWellFormed r
    → IsBelow (top_revision r key) (nodes_containing_service r key)
      × ((top_revision r key ≡ 0)
          ⊎ (has_revision (top_revision r key) (nodes_containing_service r key) ≡ true))
      × (top_revision r key ≤ r.revision)
unfolding top_revision nodes_containing_service
top_revision_lem r key wf =
    let nodes = nodes_containing_service r key in
    (
      top_revision_from-IsBelow 0 nodes,
      top_revision_from-attained 0 nodes,
      top_revision_from-bound 0 r.revision nodes (omega arith)
          (known_nodes-IsBelow r (node_names r key) wf),
    )
