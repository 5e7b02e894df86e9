-- ===== src/Endpoints.antt =====
-- The nodes behind each service, from its endpoints: the rest of cloudstack/nodes.go.
pub mod Laws
use custom_cloudstack_ccm.Prelude.{
  ℕ, String, Bool, Option, none, some, List, [], ◌∷◌, ◌++◌, if◌then◌else◌, string_eq, contains, ltb,
}
use custom_cloudstack_ccm.Prelude.Dict.{Dict, lookup, insert, erase}
use custom_cloudstack_ccm.Kube.{ServiceKey, service_key_eq}
use custom_cloudstack_ccm.World.{NodeInfo, NodeRegistry}
use custom_cloudstack_ccm.Nodes.{set_insert}

-- `v1.Endpoints`: the node names of the addresses of each subset, `none` where the pointer is nil
pub record Endpoints : Type 0 where
  pub namespace : String
  pub name : String
  pub subsets : List (List (Option String))

abbrev pub endpoints_key : Endpoints → ServiceKey
endpoints_key endpoints = record { namespace = endpoints.namespace; name = endpoints.name }

address_nodes : List (Option String) → List String → List String
address_nodes [] node_set = node_set
address_nodes (none ∷ addresses) node_set = address_nodes addresses node_set
address_nodes (some name ∷ addresses) node_set = address_nodes addresses (set_insert name node_set)

subset_nodes : List (List (Option String)) → List String → List String
unfolding address_nodes
subset_nodes [] node_set = node_set
subset_nodes (addresses ∷ subsets) node_set =
    subset_nodes subsets (address_nodes addresses node_set)

unfoldable pub update_endpoints_nodes : Endpoints → NodeRegistry → NodeRegistry
unfolding subset_nodes
update_endpoints_nodes endpoints r = record r {
  svc_nodes = insert (endpoints_key endpoints) (subset_nodes endpoints.subsets []) r.svc_nodes;
}

unfoldable pub delete_endpoints_nodes : Endpoints → NodeRegistry → NodeRegistry
delete_endpoints_nodes endpoints r = record r {
  svc_nodes = erase (endpoints_key endpoints) r.svc_nodes;
}

unfoldable pub known_nodes : Dict String NodeInfo → List String → List NodeInfo
known_nodes nodes [] = []
known_nodes nodes (name ∷ names) = elim (lookup name nodes) [
  | none ↦ known_nodes nodes names
  | some info ↦ info ∷ known_nodes nodes names
]

unfoldable pub node_names : NodeRegistry → ServiceKey → List String
node_names r key = elim (lookup key r.svc_nodes) [ none ↦ [] | some names ↦ names ]

unfoldable pub nodes_containing_service : NodeRegistry → ServiceKey → List NodeInfo
unfolding known_nodes node_names
nodes_containing_service r key = known_nodes r.nodes (node_names r key)

-- What an informer hands to a handler: endpoints, the last known state of deleted ones, or another
-- thing; and the handlers of `handleEndpoints`.
pub data Object : Type 0 where
  endpoints : Endpoints → Object
  tombstone : Option Endpoints → Object
  other : Object

pub data Notice : Type 0 where
  added updated deleted : Object → Notice

unfoldable pub handle_endpoints : Notice → NodeRegistry → NodeRegistry
unfolding update_endpoints_nodes delete_endpoints_nodes
handle_endpoints (added (endpoints e)) r = update_endpoints_nodes e r
handle_endpoints (updated (endpoints e)) r = update_endpoints_nodes e r
handle_endpoints (deleted (endpoints e)) r = delete_endpoints_nodes e r
handle_endpoints (deleted (tombstone (some e))) r = delete_endpoints_nodes e r
handle_endpoints _ r = r
