-- ===== src/Nodes/Services.antt =====
-- Which nodes serve a service.
use custom_cloudstack_ccm.Prelude.{
  String, Bool, true, List, [], ◌∷◌, ◌≡◌, arith, eq_iff, keep, All, subst, ◌⊎◌,
}
use custom_cloudstack_ccm.Prelude.Dict.{values}
use custom_cloudstack_ccm.Prelude.Outcome.{ok}
use custom_cloudstack_ccm.Config.{CsCloud, environment_for_meta, project_for_meta}
use custom_cloudstack_ccm.Kube.{Service}
use custom_cloudstack_ccm.World.{NodeInfo, NodeRegistry}
use custom_cloudstack_ccm.Nodes.{nodes_for_service, serves, service_filter, some_nodes, or_zero}

keep-All : (test : NodeInfo → Bool) (l : List NodeInfo) → All (λ n. test n ≡ true) (keep test l)
keep-All test [] = tt
keep-All test (n ∷ l) = ground (arith, keep-All test l)

module _ (cs : CsCloud) (r : NodeRegistry) (service : Service) where
  some_nodes-All :
      (P : NodeInfo → Type 0) (l nodes : List NodeInfo)
      → All P l
      → some_nodes cs l ≡ ok nodes
      → All P nodes
  unfolding some_nodes
  some_nodes-All P [] nodes h e = absurd (ground (arith, e))
  some_nodes-All P (n ∷ l) nodes h e =
      let same : n ∷ l ≡ nodes = ground (arith, e) in subst (All P) same h

  in_environment :
      (filter_value environment project : String) (l : List NodeInfo)
      → All (λ n. serves cs filter_value environment project n ≡ true) l
      → All (λ n. (n.environment_id ≡ environment) × ((project ≡ "") ⊎ (n.project_id ≡ project))) l
  in_environment filter_value environment project [] h = tt
  in_environment filter_value environment project (n ∷ l) h = (
    (
      ground (arith, h.0, eq_iff n.environment_id environment),
      ground (arith, h.0, eq_iff project "", eq_iff n.project_id project),
    ),
    in_environment filter_value environment project l h.1,
  )

  -- The nodes that serve a service are in its environment, and in its project where it has one.
  pub nodes_for_service_lem :
      (nodes : List NodeInfo)
      → nodes_for_service cs r service ≡ ok nodes
      → let environment = environment_for_meta cs service.meta in
        let project = or_zero (project_for_meta cs service.meta environment) in
        All
          (λ n. (n.environment_id ≡ environment) × ((project ≡ "") ⊎ (n.project_id ≡ project)))
          nodes
  unfolding nodes_for_service
  nodes_for_service_lem nodes e =
      let environment = environment_for_meta cs service.meta in
      let project = or_zero (project_for_meta cs service.meta environment) in
      let test = serves cs (service_filter cs service) environment project in
      some_nodes-All _ (keep test (values r.nodes)) nodes
        (in_environment (service_filter cs service) environment project (keep test (values r.nodes))
          (keep-All test (values r.nodes)))
        e
