-- ===== src/Nodes.antt =====
-- cloudstack/nodes.go: the registry of nodes and of the nodes behind each service. The registry's
-- mutexes make each of these operations one step.
pub mod Update
pub mod Untouched
pub mod Services
pub mod Registry
use custom_cloudstack_ccm.Prelude.{
  ℕ, ◌+◌, ◌%◌, String, Bool, Option, none, some, List, [], ◌∷◌, ◌++◌, map, str_eq, if◌then◌else◌,
  ◌&&◌, ◌||◌, not, true, false, string_eq, contains, keep,
}
use custom_cloudstack_ccm.Prelude.Dict.{Dict, lookup, insert, erase, values}
use custom_cloudstack_ccm.Prelude.Sort.{sort}
use custom_cloudstack_ccm.Prelude.Text.{text_less}
use custom_cloudstack_ccm.Prelude.Outcome.{
  Error, Result, ok, err, failed, wrap, vm_not_found, Action, pure, throw, lift, gets, modify,
  throw_if, ◌>>=◌, ◌>>◌,
}
use custom_cloudstack_ccm.Config.{CsCloud, environment_for_meta, environment_of, project_for_meta}
use custom_cloudstack_ccm.Kube.{
  Node, Service, ServiceKey, service_key_eq, get_label_or_annotation, or_empty,
}
use custom_cloudstack_ccm.Cloudstack.{VirtualMachine, Nic}
use custom_cloudstack_ccm.Api.{Server, Api, History}
use custom_cloudstack_ccm.Machines.{virtual_machine_by_name, external_nic}
use custom_cloudstack_ccm.World.{NodeInfo, NodeRegistry, World, api}

abbrev pub u64 : ℕ → ℕ
u64 n = n % 18446744073709551616

-- `sets.String.Insert`
abbrev pub set_insert : String → List String → List String
set_insert a s = if contains a s then s else s ++ a ∷ []

-- The value or, with an error, the zero value.
abbrev pub or_zero : Result String → String
or_zero (ok s) = s
or_zero (err e) = ""

module _ (cs : CsCloud) where
  filter_value_of : String → Node → String → String
  filter_value_of label node old =
      if str_eq label "" then old else or_empty (get_label_or_annotation node.meta label)

  -- The fields that `updateLabels` writes before it can fail: the project is the empty text then.
  with_project : NodeInfo → Node → NodeInfo
  unfolding filter_value_of
  with_project n node =
      let environment_id = environment_for_meta cs node.meta in
      record n {
        environment_id = environment_id;
        filter_value = filter_value_of cs.config.global.node_filter_label node n.filter_value;
        project_id = or_zero (project_for_meta cs node.meta environment_id);
      }

  host_name_of : Node → String
  host_name_of node = elim (get_label_or_annotation node.meta cs.config.global.node_name_label) [
    | none ↦ node.name
    | some name ↦ name
  ]

  -- `updateLabels` changes the node that it is given, also where it returns an error.
  unfoldable pub update_labels : NodeInfo → Node → NodeInfo × Result (Unit {0})
  unfolding with_project host_name_of
  update_labels n node =
      let n' = with_project n node in
      elim (project_for_meta cs node.meta n'.environment_id) [
        | err e ↦ (
          n',
          err (Error.wrapped "unable to retrieve projectID for node %q in environment %q: %v" e),
        )
        | ok _ ↦ (record n' { host_name = host_name_of node }, ok tt)
      ]

  abbrev new_info : String → NodeInfo
  new_info name = record {
    name = name;
    vm_id = "";
    network_id = "";
    host_name = "";
    project_id = "";
    environment_id = "";
    filter_value = "";
    revision = 0;
  }

  module _ (srv : Server) where
    -- The machine of the node; `none` where CloudStack does not know it.
    machine_info : NodeInfo → Result VirtualMachine → Result (Option NodeInfo)
    machine_info n (err vm_not_found) = ok none
    machine_info n (err e) = err e
    machine_info n (ok vm) = elim (external_nic cs vm) [
      | err e ↦ err e
      | ok nic ↦ ok (some (record n { vm_id = vm.id; network_id = nic.networkid }))
    ]

    find_machine : NodeInfo → Api (Option NodeInfo)
    unfolding machine_info
    find_machine n history = elim (environment_of cs n.environment_id).client [
      | none ↦ (err (failed "unable to retrieve cloudstack manager for environment %q"), history)
      | some client ↦
          let (vm, history') =
            virtual_machine_by_name srv client n.host_name n.project_id history in
          (machine_info n vm, history')
    ]

    unfoldable pub new_node_info : Node → Api (Option NodeInfo)
    unfolding find_machine
    new_node_info node = do
      lift (update_labels (new_info node.name) node).1
      find_machine (update_labels (new_info node.name) node).0

    abbrev pub put_node : String → NodeInfo → World → World
    put_node name info w = record w {
      registry = record w.registry { nodes = insert name info w.registry.nodes };
    }

    -- A node that the registry has.
    update_known : NodeInfo → Node → Action World (Unit {0})
    update_known info node w =
        let (info', r) = update_labels info node in (r, put_node node.name info' w)

    -- A node that it has not.
    add_new : Node → Action World (Unit {0})
    add_new node w =
        let (r, w') = api (new_node_info node) w in
        elim r [
          | err e ↦ (err e, w')
          | ok none ↦ (ok tt, w')
          | ok (some info) ↦
              (ok tt, put_node node.name (record info { revision = w'.registry.revision }) w')
        ]

    pub visit_node : Node → Action World (Unit {0})
    unfolding update_known add_new
    visit_node node w = elim (lookup node.name w.registry.nodes) [
      | some info ↦ update_known info node w
      | none ↦ add_new node w
    ]

    -- The loop over the nodes.
    pub visit_nodes : List Node → Action World (Unit {0})
    unfolding visit_node
    visit_nodes [] = pure tt
    visit_nodes (n ∷ nodes) = visit_node n >> visit_nodes nodes

    abbrev pub keep_names : List String → Dict String NodeInfo → Dict String NodeInfo
    keep_names names = keep (λ e. contains e.0 names)

    -- The removal of the nodes that were not visited, and the check that some are left.
    pub remove_unvisited : List String → Action World (Unit {0})
    remove_unvisited names w =
        let left = keep_names names w.registry.nodes in
        let w' = record w { registry = record w.registry { nodes = left } } in
        elim left [
          | [] ↦ (
            err (failed "unable to map kubernetes nodes to cloudstack instances for nodes: %v"),
            w',
          )
          | _ ∷ _ ↦ (ok tt, w')
        ]

    abbrev pub next_revision : World → World
    next_revision w = record w {
      registry = record w.registry { revision = u64 (w.registry.revision + 1) };
    }

    abbrev pub no_nodes : List Node → Bool
    no_nodes [] = true
    no_nodes (_ ∷ _) = false

    unfoldable pub update_nodes : List Node → Action World (Unit {0})
    unfolding visit_nodes remove_unvisited
    update_nodes nodes = do
      throw_if (no_nodes nodes) (failed "no nodes available to add to load balancer")
      modify next_revision
      visit_nodes nodes
      remove_unvisited (map (λ n. n.name) nodes)

  -- The test of the loop in `nodesForService`.
  abbrev pub serves : String → String → String → NodeInfo → Bool
  serves filter_value environment project info =
      str_eq info.environment_id environment
      && (str_eq filter_value "" || str_eq info.filter_value filter_value)
      && (str_eq project "" || str_eq info.project_id project)

  service_filter : Service → String
  service_filter svc =
      let label = cs.config.global.service_filter_label in
      if str_eq label "" then "" else or_empty (get_label_or_annotation svc.meta label)

  some_nodes : List NodeInfo → Result (List NodeInfo)
  some_nodes [] = err (failed "no nodes available to add to service %s/%s")
  some_nodes (n ∷ nodes) = ok (n ∷ nodes)

  unfoldable pub nodes_for_service : NodeRegistry → Service → Result (List NodeInfo)
  unfolding service_filter some_nodes
  nodes_for_service r svc =
      let environment = environment_for_meta cs svc.meta in
      let project = or_zero (project_for_meta cs svc.meta environment) in
      some_nodes (keep (serves (service_filter svc) environment project) (values r.nodes))

-- The last node's project.
last_project : List NodeInfo → String → String
last_project [] project_id = project_id
last_project (n ∷ nodes) project_id = last_project nodes n.project_id

network_set : List NodeInfo → List String → List String
network_set [] networks = networks
network_set (n ∷ nodes) networks = network_set nodes (set_insert n.network_id networks)

-- The hosts, the networks and the project.
unfoldable pub ids_for_nodes : List NodeInfo → List String × List String × String
unfolding last_project network_set
ids_for_nodes nodes =
    (map (λ n. n.vm_id) nodes, sort text_less (network_set nodes []), last_project nodes "")

unfoldable ids_for_service :
    CsCloud → NodeRegistry → Service → Result (List String × List String × String)
ids_for_service cs r service = elim (nodes_for_service cs r service) [
  | err e ↦ err e
  | ok nodes ↦ ok (ids_for_nodes nodes)
]
