-- ===== src/Controller.antt =====
-- The interface `cloudprovider.LoadBalancer` of cloudstack/loadbalancer.go. The lock of the service
-- (ServiceLock), which each of these but `UpdateLoadBalancer` holds while it runs, is not repeated
-- here.
pub mod Calls
pub mod Ensure
pub mod Clients
pub mod Queueing
pub mod Local
use custom_cloudstack_ccm.Prelude.{
  ℕ, String, Bool, true, false, Option, none, some, List, [], ◌∷◌, ◌++◌, str_eq, if◌then◌else◌, not,
  ◌&&◌, string_eq,
}
use custom_cloudstack_ccm.Prelude.Dict.{Dict, lookup, insert}
use custom_cloudstack_ccm.Prelude.Text.{append, join}
use custom_cloudstack_ccm.Prelude.Outcome.{
  Error, Result, ok, err, failed, panic, wrapping, pure, throw, throw_if, Action, lift, gets, ◌>>=◌,
  ◌>>◌,
}
use custom_cloudstack_ccm.Kube.{Service, ServicePort, Node, Ingress, lookup_nil, or_empty}
use custom_cloudstack_ccm.Config.{CsCloud, is_lb_removal_enabled, get_load_balancer_name}
use custom_cloudstack_ccm.Cloudstack.{LoadBalancer, LoadBalancerRule}
use custom_cloudstack_ccm.Tags.{should_manage_lb}
use custom_cloudstack_ccm.Api.{Server, Api, Event, kubernetes, patch_label}
use custom_cloudstack_ccm.World.{QueueEntry, World, api}
use custom_cloudstack_ccm.Nodes.{update_nodes, nodes_for_service, ids_for_nodes}
use custom_cloudstack_ccm.Balancer.Client.{cloud_of, assign_tags_to_rule}
use custom_cloudstack_ccm.Balancer.Addresses.{release_ip_if_managed}
use custom_cloudstack_ccm.Balancer.Rules.{
  get_load_balancer, load_load_balancer_ip, update_load_balancer_ip, check_load_balancer_rule,
  CheckLbResult, update_load_balancer_rule, create_load_balancer_rule, delete_load_balancer_rule,
}
use custom_cloudstack_ccm.Balancer.Members.{set_algorithm}
use custom_cloudstack_ccm.Queue.{push}

abbrev pub status_of : LoadBalancer → Ingress
status_of lb = record { ip = lb.ip.address; hostname = lb.name }

-- `service.Labels[label] = value`
abbrev pub label_service : String → String → Service → Result Service
label_service label value service = elim service.labels [
  | none ↦ err (panic "assignment to entry in nil map")
  | some labels ↦
      ok (record service {
        meta = record service.meta { labels = some (insert label value labels) };
      })
]

module _ (cs : CsCloud) (srv : Server) where
  abbrev pub status_of_rule : LoadBalancer → Option Ingress
  status_of_rule lb = elim lb.rule [ none ↦ none | some _ ↦ some (status_of lb) ]

  -- `GetLoadBalancer`: the status, `none` where the load balancer does not exist. A nil service is
  -- `none`, here and below.
  unfoldable pub get_load_balancer_status : Option Service → Api (Option Ingress)
  get_load_balancer_status none = throw (failed "GetLoadBalancer: service cannot be nil")
  get_load_balancer_status (some service) = do
    lb ← get_load_balancer cs srv service "" []
    pure (status_of_rule lb)

  -- Deletes the rule, and then the address if it is the service's own.
  abbrev pub delete_all : LoadBalancer → Api (Unit {0})
  delete_all lb = do
    lb' ← delete_load_balancer_rule cs srv lb
    if str_eq lb'.ip.id ""
        then pure tt
        else release_ip_if_managed cs srv (cloud_of lb') lb'.ip lb'.service

  abbrev pub delete_managed : LoadBalancer → Api (Unit {0})
  delete_managed lb = elim lb.rule [
    | none ↦ pure tt
    | some _ ↦
        if not (is_lb_removal_enabled cs lb.environment lb.service)
        then pure tt
        else elim (should_manage_lb lb) [ err _ ↦ pure tt | ok _ ↦ delete_all lb ]
  ]

  unfoldable pub ensure_load_balancer_deleted : Option Service → Api (Unit {0})
  ensure_load_balancer_deleted none =
      throw (failed "EnsureLoadBalancerDeleted: service cannot be nil")
  ensure_load_balancer_deleted (some service) = do
    lb ← get_load_balancer cs srv service "" []
    delete_managed lb

  -- The project's label is put on the service where the configuration has a label for it and the
  -- service has none.
  abbrev pub lacks_project_label : LoadBalancer → Bool
  lacks_project_label lb =
      let label = cs.config.global.project_id_label in
      not (str_eq lb.project_id "")
      && not (str_eq label "")
      && str_eq (or_empty (lookup_nil label lb.service.labels)) ""

  -- The call of `Patch`.
  abbrev pub patch_service : LoadBalancer → Api (Unit {0})
  patch_service lb history =
      let history' =
        kubernetes (
          patch_label lb.service.namespace lb.service.name cs.config.global.project_id_label
            lb.project_id)
        ∷ history in
      (srv.done history', history')

  unfoldable pub add_project_label : LoadBalancer → Api LoadBalancer
  add_project_label lb = if not (lacks_project_label lb) then pure lb else do
    service ← lift (label_service cs.config.global.project_id_label lb.project_id lb.service)
    wrapping "unable to patch service with project-id label: %v"
        (patch_service (record lb { service = service }))
    pure (record lb { service = service })

  -- A service that asks for another address gets it.
  abbrev pub move_ip : LoadBalancer → Api LoadBalancer
  move_ip lb =
      if not (str_eq lb.service.load_balancer_ip "")
        && not (str_eq lb.ip.address lb.service.load_balancer_ip)
      then update_load_balancer_ip cs srv lb
      else pure lb

  abbrev pub when : Bool → Api (Unit {0}) → Api (Unit {0})
  when b m = if b then m else pure tt

  -- The load balancer's rule, made where it does not exist.
  abbrev pub create_missing : CheckLbResult → LoadBalancer → Api LoadBalancer
  create_missing result lb = if result.exists then pure lb else do
    rule ← create_load_balancer_rule cs srv lb
    assign_tags_to_rule srv cs (record lb { rule = some rule })
    pure (record lb { rule = some rule })

  -- From the check of the rule on.
  unfoldable pub ensure_rule : LoadBalancer → Api LoadBalancer
  ensure_rule lb = do
    (result, lb') ← check_load_balancer_rule cs srv lb
    when result.needs_update (update_load_balancer_rule cs srv lb')
    when result.needs_tags (assign_tags_to_rule srv cs lb')
    create_missing result lb'

  -- From the address on: the part that needs a load balancer that is the service's own.
  unfoldable pub ensure_managed : ℕ → LoadBalancer → Api LoadBalancer
  ensure_managed fuel lb = do
    lb' ← load_load_balancer_ip cs srv fuel lb
    lb'' ← move_ip lb'
    ensure_rule lb''

  -- All the calls of `EnsureLoadBalancer`, for the networks and the project of the service's nodes.
  unfoldable pub ensure_calls : ℕ → Service → List String → String → Api LoadBalancer
  ensure_calls fuel service network_ids project_id = do
    found ← get_load_balancer cs srv service project_id network_ids
    labelled ← add_project_label found
    lb ← lift (set_algorithm labelled)
    lift (should_manage_lb lb)
    ensure_managed fuel lb

  abbrev pub no_ports : List ServicePort → Bool
  no_ports [] = true
  no_ports (_ ∷ _) = false

  abbrev pub queued : Service → Option LoadBalancer → Bool → ℕ → QueueEntry
  queued service lb update_pool now = record {
    service = service;
    lb = lb;
    update_pool = update_pool;
    start = now;
    backoff_until = 0;
  }

  unfoldable pub ensure_load_balancer : ℕ → ℕ → Option Service → List Node → Action World Ingress
  ensure_load_balancer fuel now none nodes =
      throw (failed "EnsureLoadBalancer: service cannot be nil")
  ensure_load_balancer fuel now (some service) nodes = do
    throw_if (no_ports service.ports) (failed "requested load balancer with no ports")
    update_nodes cs srv nodes
    registry ← gets (λ w. w.registry)
    infos ← lift (nodes_for_service cs registry service)
    lb ← api (ensure_calls fuel service (ids_for_nodes infos).1 (ids_for_nodes infos).2)
    push cs (queued lb.service (some lb) true now)
    pure (status_of lb)

  unfoldable pub update_load_balancer : ℕ → Option Service → List Node → Action World (Unit {0})
  update_load_balancer now none nodes = throw (failed "UpdateLoadBalancer: service cannot be nil")
  update_load_balancer now (some service) nodes =
      update_nodes cs srv nodes >> push cs (queued service none false now)
