-- ===== src/Nodes/Untouched.antt =====
-- The registry's operations leave the queue alone.
use custom_cloudstack_ccm.Prelude.{List, [], ◌∷◌, ◌≡◌, refl, arith, inl, inr, Option-cases}
use custom_cloudstack_ccm.Prelude.Dict.{lookup}
use custom_cloudstack_ccm.Prelude.Outcome.{Result-cases}
use custom_cloudstack_ccm.Prelude.{string_eq}
use custom_cloudstack_ccm.Config.{CsCloud}
use custom_cloudstack_ccm.Kube.{Node}
use custom_cloudstack_ccm.Api.{Server}
use custom_cloudstack_ccm.World.{World, api}
use custom_cloudstack_ccm.Nodes.{
  add_new, update_known, visit_node, visit_nodes, remove_unvisited, next_revision, update_nodes,
  new_node_info,
}

module _ (cs : CsCloud) (srv : Server) where
  visit_node-queue : (node : Node) (w : World) → (visit_node cs srv node w).1.queue ≡ w.queue
  unfolding visit_node add_new update_known
  visit_node-queue node w = elim (Option-cases (lookup node.name w.registry.nodes)) [
    | inr (info, e) ↦ ground (arith, e)
    | inl missing ↦ elim (Result-cases (api (new_node_info cs srv node) w).0) [
      | inr (x, e) ↦ ground (arith, missing, e)
      | inl (a, e) ↦ elim (Option-cases a) [
        | inl unknown ↦ ground (arith, missing, e, unknown)
        | inr (info, known) ↦ ground (arith, missing, e, known)
      ]
    ]
  ]

  visit_nodes-queue :
      (nodes : List Node) (w : World) → (visit_nodes cs srv nodes w).1.queue ≡ w.queue
  unfolding visit_nodes
  visit_nodes-queue [] w = refl
  visit_nodes-queue (n ∷ nodes) w =
      let w' = (visit_node cs srv n w).1 in
      elim (Result-cases (visit_node cs srv n w).0) [
        | inr (x, e) ↦ ground (arith, e, visit_node-queue n w)
        | inl (x, e) ↦ ground (arith, e, visit_node-queue n w, visit_nodes-queue nodes w')
      ]

  pub update_nodes-queue :
      (nodes : List Node) (w : World) → (update_nodes cs srv nodes w).1.queue ≡ w.queue
  unfolding update_nodes remove_unvisited
  update_nodes-queue [] w = refl
  update_nodes-queue (n ∷ nodes) w =
      let w' = next_revision cs srv w in
      elim (Result-cases (visit_nodes cs srv (n ∷ nodes) w').0) [
        | inr (x, e) ↦ ground (arith, e, visit_nodes-queue (n ∷ nodes) w')
        | inl (x, e) ↦ ground (arith, e, visit_nodes-queue (n ∷ nodes) w')
      ]
