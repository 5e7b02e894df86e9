-- ===== src/Endpoints/Laws.antt =====
-- Which nodes are behind a service.
use custom_cloudstack_ccm.Prelude.{
  String, Bool, false, Option, none, some, List, [], ◌∷◌, string_eq, contains, contains-append, any,
  Option-cases, inl, inr, sym, Bool-cases, ◌≡◌, ◌≢◌, refl, arith, eq_iff, ◌||◌, map,
}
use custom_cloudstack_ccm.Prelude.Dict.{Dict, lookup, insert, lookup-insert}
use custom_cloudstack_ccm.Kube.{ServiceKey, service_key_eq, service_key_beq_iff}
use custom_cloudstack_ccm.World.{NodeInfo, NodeRegistry}
use custom_cloudstack_ccm.Nodes.{set_insert}
use custom_cloudstack_ccm.Endpoints.{
  Endpoints, endpoints_key, address_nodes, subset_nodes, update_endpoints_nodes, known_nodes,
  node_names, nodes_containing_service,
}

-- A node is the target of an address.
abbrev pub names_node : String → Option String → Bool
names_node a none = false
names_node a (some name) = string_eq.beq name a

contains-address_nodes :
    (a : String) (addresses : List (Option String)) (node_set : List String)
    → contains a (address_nodes addresses node_set)
      ≡ (contains a node_set || any (names_node a) addresses)
unfolding address_nodes
contains-address_nodes a [] node_set = ground arith
contains-address_nodes a (none ∷ addresses) node_set = contains-address_nodes a addresses node_set
contains-address_nodes a (some name ∷ addresses) node_set = ground (
  arith,
  contains-address_nodes a addresses (set_insert name node_set),
  contains-append a node_set (name ∷ []),
  eq_iff name a,
)

contains-subset_nodes :
    (a : String) (subsets : List (List (Option String))) (node_set : List String)
    → contains a (subset_nodes subsets node_set)
      ≡ (contains a node_set || any (any (names_node a)) subsets)
unfolding subset_nodes
contains-subset_nodes a [] node_set = ground arith
contains-subset_nodes a (addresses ∷ subsets) node_set = ground (
  arith,
  contains-subset_nodes a subsets (address_nodes addresses node_set),
  contains-address_nodes a addresses node_set,
)

contains-known_nodes :
    (a : String) (nodes : Dict String NodeInfo) (names : List String) (info : NodeInfo)
    → lookup a nodes ≡ some info
    → ((k : String) (i : NodeInfo) → lookup k nodes ≡ some i → i.name ≡ k)
    → contains a (map (λ i. i.name) (known_nodes nodes names)) ≡ contains a names
unfolding known_nodes
contains-known_nodes a nodes [] info e named = refl
contains-known_nodes a nodes (name ∷ names) info e named = elim (Option-cases (lookup name nodes)) [
  | inl missing ↦
      ground (arith, missing, eq_iff name a, contains-known_nodes a nodes names info e named)
  | inr (i, found) ↦ ground (
    arith,
    found,
    named name i found,
    eq_iff name a,
    contains-known_nodes a nodes names info e named,
  )
]

nodes_containing_service-insert :
    (k key : ServiceKey) (names : List String) (r : NodeRegistry)
    → key ≢ k
    → nodes_containing_service (record r { svc_nodes = insert k names r.svc_nodes }) key
      ≡ nodes_containing_service r key
unfolding nodes_containing_service node_names
nodes_containing_service-insert k key names r other = elim (Bool-cases (service_key_eq.beq k key)) [
  | inl same ↦ absurd (other (sym ((service_key_beq_iff k key).0 same)))
  | inr differs ↦ ground (arith, lookup-insert k key names r.svc_nodes, differs)
]

-- In a registry that has each node under its own name: after endpoints are updated, a registered node is behind their service exactly if an address of a
-- subset names it. What is behind any other service stays.
pub nodes_containing_service-update_endpoints_nodes :
    (endpoints : Endpoints) (r : NodeRegistry) (a : String) (info : NodeInfo)
    → lookup a r.nodes ≡ some info
    → ((k : String) (i : NodeInfo) → lookup k r.nodes ≡ some i → i.name ≡ k)
    → (contains a (
          map
            (λ i. i.name)
            (nodes_containing_service
              (update_endpoints_nodes endpoints r)
              (endpoints_key endpoints)))
        ≡ any (any (names_node a)) endpoints.subsets)
      × ((key : ServiceKey)
          → key ≢ endpoints_key endpoints
          → nodes_containing_service (update_endpoints_nodes endpoints r) key
            ≡ nodes_containing_service r key)
unfolding nodes_containing_service update_endpoints_nodes node_names
nodes_containing_service-update_endpoints_nodes endpoints r a info e named = (
  ground (
    arith,
    lookup-insert (endpoints_key endpoints) (endpoints_key endpoints)
        (subset_nodes endpoints.subsets []) r.svc_nodes,
    service_key_beq_iff (endpoints_key endpoints) (endpoints_key endpoints),
    contains-known_nodes a r.nodes (subset_nodes endpoints.subsets []) info e named,
    contains-subset_nodes a endpoints.subsets [],
  ),
  λ key other.
      nodes_containing_service-insert (endpoints_key endpoints) key
        (subset_nodes endpoints.subsets []) r other,
)
