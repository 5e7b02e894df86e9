-- ===== src/Examples/Nodes.antt =====
-- The theorems on nodes and the queue, at work.
use custom_cloudstack_ccm.Prelude.{
  String, true, none, some, [], ◌∷◌, ◌≡◌, refl, ◌⊎◌, All, contains, string_eq, arith,
}
use custom_cloudstack_ccm.Prelude.Dict.{lookup, erase}
use custom_cloudstack_ccm.Prelude.Sort.{IsWeakOrder}
use custom_cloudstack_ccm.Prelude.Outcome.{err, wrapped, remote}
use custom_cloudstack_ccm.Kube.{ServiceKey, service_key_eq, svc_key}
use custom_cloudstack_ccm.Config.{environment_for_meta, is_lb_removal_enabled}
use custom_cloudstack_ccm.Tags.{should_manage_lb}
use custom_cloudstack_ccm.Api.{Server}
use custom_cloudstack_ccm.World.{World, QueueEntry, NodeInfo}
use custom_cloudstack_ccm.Nodes.{or_zero}
use custom_cloudstack_ccm.Nodes.Services.{nodes_for_service_lem}
use custom_cloudstack_ccm.Config.{project_for_meta}
use custom_cloudstack_ccm.Kube.{Service}
use custom_cloudstack_ccm.Balancer.Rules.{update_load_balancer_ip}
use custom_cloudstack_ccm.Nodes.{nodes_for_service, update_nodes}
use custom_cloudstack_ccm.Nodes.Update.{IsSame}
use custom_cloudstack_ccm.Nodes.Registry.{update_nodes_lem, update_nodes-IsWellFormed, IsWellFormed}
use custom_cloudstack_ccm.Queue.{pop, with_queue, candidates, less, push, work}
use custom_cloudstack_ccm.Queue.Order.{pop_lem, IsNext, IsWaiting, less-IsWeakOrder}
use custom_cloudstack_ccm.Queue.Entries.{work-retries}
use custom_cloudstack_ccm.Balancer.Client.{ProjectCloud, cloud_of, set_default_tags}
use custom_cloudstack_ccm.Balancer.Rules.{get_load_balancer, delete_load_balancer_rule}
use custom_cloudstack_ccm.Balancer.Members.{sync_nodes}
use custom_cloudstack_ccm.Prelude.Outcome.{ok}
use custom_cloudstack_ccm.Prelude.{String}
use custom_cloudstack_ccm.Prelude.Text.{append}
use custom_cloudstack_ccm.Provider.{provider_name}
use custom_cloudstack_ccm.Api.{
  Server, History, call, get_virtual_machine_by_id, get_virtual_machine_by_name, kubernetes,
  cloudstack, get_node,
}
use custom_cloudstack_ccm.Instances.{
  NodeId, get_node_by_name, instance_id, instance_by_provider_id, found_by_id,
}
use custom_cloudstack_ccm.Instances.Identity.{instance_by_provider_id-instance_id}
use custom_cloudstack_ccm.Examples.Data.{
  client, machine, cloud, service, up, waiting, idle, entry, registry, node, node_info,
}

-- A server that does not list instances.
abbrev deaf : Server
deaf = record up { instances = λ h. err (remote "down") }

pop_lem_example :
    ((e : QueueEntry) × IsNext 7 (candidates registry waiting.queue) e
      × (pop 7 waiting ≡ (some e, with_queue (erase (svc_key e.service) waiting.queue) waiting)))
    ⊎ (All (IsWaiting 7) (candidates registry waiting.queue) × (pop 7 waiting ≡ (none, waiting)))
pop_lem_example = pop_lem 7 waiting

less-IsWeakOrder_example : IsWeakOrder (less 7)
less-IsWeakOrder_example = less-IsWeakOrder 7

work-retries_example :
    lookup (svc_key service) (work (cloud true) deaf 3 7 60 8 9 waiting).queue
    ≡ some (record entry { backoff_until = 68; start = 9; lb = none })
unfolding pop svc_key custom_cloudstack_ccm.Queue.process_queue_entry nodes_for_service
    environment_for_meta custom_cloudstack_ccm.Kube.get_label_or_annotation
    custom_cloudstack_ccm.Config.project_for_meta get_load_balancer
    custom_cloudstack_ccm.Balancer.Client.get_client
    custom_cloudstack_ccm.Balancer.Rules.get_load_balancer_rule
    custom_cloudstack_ccm.Balancer.Rules.get_load_balancer_rule_by_name
    custom_cloudstack_ccm.Config.get_load_balancer_name should_manage_lb
    custom_cloudstack_ccm.Tags.get_tag sync_nodes custom_cloudstack_ccm.Pages.list_all_pages
work-retries_example =
    work-retries (cloud true) deaf 3 7 60 8 9 waiting entry idle
      (wrapped "error retrieving associated instances: %v" (remote "down")) (node_info ∷ []) refl
      refl refl

update_nodes_lem_example :
    let r = (update_nodes (cloud true) up (node ∷ []) idle).1.registry in
    ((k : String) (j : NodeInfo) → lookup k r.nodes ≡ some j → contains k ("node1" ∷ []) ≡ true)
    × ((k : String) (i : NodeInfo)
        → contains k ("node1" ∷ []) ≡ true
        → lookup k registry.nodes ≡ some i
        → (j : NodeInfo) × (lookup k r.nodes ≡ some j) × IsSame i j)
    × ((k : String) (j : NodeInfo)
        → lookup k registry.nodes ≡ none
        → lookup k r.nodes ≡ some j
        → (j.name ≡ k) × (j.revision ≡ 2))
unfolding update_nodes custom_cloudstack_ccm.Nodes.update_labels
    custom_cloudstack_ccm.Config.project_for_meta custom_cloudstack_ccm.Kube.get_label_or_annotation
    environment_for_meta
update_nodes_lem_example = update_nodes_lem (cloud true) up (node ∷ []) idle refl

abbrev no_registry : World
no_registry = record idle { registry = record { nodes = []; svc_nodes = []; revision = 1 } }

update_nodes-IsWellFormed_example :
    IsWellFormed (update_nodes (cloud true) up (node ∷ []) no_registry).1.registry
update_nodes-IsWellFormed_example =
    update_nodes-IsWellFormed (cloud true) up (node ∷ []) no_registry (omega arith) (λ k i e. cc)

nodes_for_service_lem_example :
    All
      (λ n.
        (n.environment_id ≡ environment_for_meta (cloud true) service.meta)
        × ((or_zero (
                project_for_meta
                  (cloud true)
                  service.meta
                  (environment_for_meta (cloud true) service.meta))
              ≡ "")
            ⊎ (n.project_id
                ≡ or_zero (
                    project_for_meta
                      (cloud true)
                      service.meta
                      (environment_for_meta (cloud true) service.meta)))))
      (node_info ∷ [])
unfolding nodes_for_service environment_for_meta custom_cloudstack_ccm.Kube.get_label_or_annotation
    project_for_meta
nodes_for_service_lem_example =
    nodes_for_service_lem (cloud true) registry service (node_info ∷ []) refl

-- A server that knows the node.
abbrev knowing : Server
knowing = record up { node = λ h. ok node }

abbrev known : NodeId
known = record { project_id = "p1"; name = "node1"; environment = "env"; vm_id = "" }

abbrev node_asked : History
node_asked = kubernetes (get_node "node1") ∷ []

abbrev machine_asked : History
machine_asked = cloudstack client (get_virtual_machine_by_name "node1" "p1") ∷ node_asked

instance_by_provider_id-instance_id_example :
    (id : String) × (instance_id (cloud true) knowing "node1" [] ≡ (ok id, machine_asked))
    × (instance_by_provider_id (cloud true) knowing (append (append provider_name "://") id) []
        ≡ call client
            (get_virtual_machine_by_id "vm1" "p1")
            (λ h. found_by_id (knowing.machine h))
            [])
unfolding get_node_by_name custom_cloudstack_ccm.Instances.new_node project_for_meta
    custom_cloudstack_ccm.Kube.get_label_or_annotation environment_for_meta
    custom_cloudstack_ccm.Config.client_for_environment
    custom_cloudstack_ccm.Instances.get_instance_for_node
instance_by_provider_id-instance_id_example =
    instance_by_provider_id-instance_id (cloud true) knowing "node1" known machine client []
      node_asked machine_asked [] refl refl refl refl refl refl
