-- ===== src/Examples/Queues.antt =====
-- The queue's invariant, its workers and the clients that they call, at work.
use custom_cloudstack_ccm.Prelude.{◌≤◌, true, [], ◌∷◌, eq_iff, ◌≡◌, ◌⊎◌, refl, arith}
use custom_cloudstack_ccm.Prelude.Outcome.{ok}
use custom_cloudstack_ccm.Kube.{Service, svc_key, ServiceKey}
use custom_cloudstack_ccm.Config.{environment_for_meta}
use custom_cloudstack_ccm.Cloudstack.{LoadBalancer}
use custom_cloudstack_ccm.World.{NodeRegistry, World}
use custom_cloudstack_ccm.Endpoints.{nodes_containing_service}
use custom_cloudstack_ccm.Trace.{Adds}
use custom_cloudstack_ccm.Balancer.Calls.{UsesClient}
use custom_cloudstack_ccm.Prelude.{some}
use custom_cloudstack_ccm.Prelude.Outcome.{Error, err}
use custom_cloudstack_ccm.Controller.Local.{Running-UsesClient, starts, goes_on, ensures}
use custom_cloudstack_ccm.Controller.{queued, ensure_calls, ensure_load_balancer, status_of}
use custom_cloudstack_ccm.Controller.Queueing.{ensure_load_balancer_lem, IsQueued}
use custom_cloudstack_ccm.World.{QueueEntry}
use custom_cloudstack_ccm.Examples.Data.{load_balancer, node}
use custom_cloudstack_ccm.Controller.Clients.{ensure_calls-UsesClient}
use custom_cloudstack_ccm.Queue.{top_revision, push, pop, work, process_queue_entry}
use custom_cloudstack_ccm.Queue.Keys.{IsKeyed, Turns-IsKeyed, none_yet, then_turn, pushes, pops}
use custom_cloudstack_ccm.Queue.Revisions.{top_revision_lem, IsBelow, has_revision}
use custom_cloudstack_ccm.Queue.Worker.{Round, stopped, timer}
use custom_cloudstack_ccm.Queue.Clients.{process_queue_entry-UsesClient}
use custom_cloudstack_ccm.Nodes.Registry.{IsWellFormed}
use custom_cloudstack_ccm.Examples.Data.{cloud, entry, idle, registry, service, up, waiting}

abbrev web : ServiceKey
web = record { namespace = "ns"; name = "web" }

-- A registry that knows the node behind the service.
abbrev behind : NodeRegistry
behind = record registry { svc_nodes = (web, "node1" ∷ []) ∷ [] }

behind-IsWellFormed : IsWellFormed behind
behind-IsWellFormed k i e = ground (arith, e, eq_iff "node1" k)

top_revision_lem_example :
    IsBelow (top_revision behind web) (nodes_containing_service behind web)
    × ((top_revision behind web ≡ 0)
        ⊎ (has_revision (top_revision behind web) (nodes_containing_service behind web) ≡ true))
    × (top_revision behind web ≤ 1)
top_revision_lem_example = top_revision_lem behind web behind-IsWellFormed

abbrev pushed_world : World
pushed_world = (push (cloud true) entry idle).1

Turns-IsKeyed_example : IsKeyed (pop 7 pushed_world).1.queue
Turns-IsKeyed_example =
    Turns-IsKeyed (cloud true) up 3 idle (pop 7 pushed_world).1
      (then_turn idle pushed_world (pop 7 pushed_world).1
        (then_turn idle idle pushed_world (none_yet idle) (pushes entry idle))
        (pops 7 pushed_world))
      (tt, tt)

abbrev told : Round
told = record { signal = stopped; now = 7; delay = 60; later = 8; last = 9 }

abbrev next : Round
next = record { signal = timer; now = 10; delay = 60; later = 11; last = 12 }

ensure_calls-UsesClient_example :
    let (r, h') = ensure_calls (cloud true) up 3 service ("net1" ∷ []) "p1" [] in
    Adds (UsesClient (cloud true) (environment_for_meta (cloud true) service.meta)) [] h'
    × ((lb : LoadBalancer)
        → r ≡ ok lb
        → (lb.environment ≡ environment_for_meta (cloud true) service.meta)
          × (svc_key lb.service ≡ svc_key service))
ensure_calls-UsesClient_example =
    ensure_calls-UsesClient (cloud true) up 3 service ("net1" ∷ []) "p1" []

-- An entry as `EnsureLoadBalancer` leaves it, with its load balancer.
abbrev carrying : QueueEntry
carrying = record entry { lb = some load_balancer }

process_queue_entry-UsesClient_example :
    Adds
      (UsesClient (cloud true) (environment_for_meta (cloud true) service.meta))
      []
      (process_queue_entry (cloud true) up 3 carrying registry []).1
unfolding environment_for_meta custom_cloudstack_ccm.Kube.get_label_or_annotation
process_queue_entry-UsesClient_example =
    process_queue_entry-UsesClient (cloud true) up 3 carrying registry []
      (λ lb e. ground (arith, e))

ensure_load_balancer_lem_example :
    let (r, w') = ensure_load_balancer (cloud true) up 3 7 (some service) (node ∷ []) waiting in
    ((lb : LoadBalancer) × (r ≡ ok (status_of lb))
      × IsQueued (cloud true) up 3 7 service (node ∷ []) waiting lb w')
    ⊎ ((e : Error) × (r ≡ err e) × (w'.queue ≡ waiting.queue))
ensure_load_balancer_lem_example =
    ensure_load_balancer_lem (cloud true) up 3 7 service (node ∷ []) waiting

-- The service with the label of its project is ensured with an empty queue, and then waits with its
-- load balancer.
abbrev labelled : Service
labelled = record service { meta = record service.meta { labels = some (("project", "p1") ∷ []) } }

abbrev ready : LoadBalancer
ready = record load_balancer { algorithm = "roundrobin"; service = labelled }

abbrev ensured : World
ensured = (ensure_load_balancer (cloud true) up 3 7 (some labelled) (node ∷ []) idle).1

Running-UsesClient_example :
    Adds
      (UsesClient (cloud true) (environment_for_meta (cloud true) labelled.meta))
      (pop 8 ensured).1.history
      (process_queue_entry
        (cloud true)
        up
        3
        (queued (cloud true) up labelled (some ready) true 7)
        (pop 8 ensured).1.registry
        (pop 8 ensured).1.history).1
unfolding pop ensure_load_balancer custom_cloudstack_ccm.Nodes.update_nodes
    custom_cloudstack_ccm.Nodes.update_labels custom_cloudstack_ccm.Config.project_for_meta
    custom_cloudstack_ccm.Kube.get_label_or_annotation environment_for_meta
    custom_cloudstack_ccm.Nodes.nodes_for_service ensure_calls
    custom_cloudstack_ccm.Balancer.Rules.get_load_balancer
    custom_cloudstack_ccm.Balancer.Client.get_client
    custom_cloudstack_ccm.Balancer.Rules.get_load_balancer_rule
    custom_cloudstack_ccm.Balancer.Rules.get_load_balancer_rule_by_name
    custom_cloudstack_ccm.Config.get_load_balancer_name
    custom_cloudstack_ccm.Controller.add_project_label custom_cloudstack_ccm.Nodes.ids_for_nodes
    custom_cloudstack_ccm.Balancer.Members.set_algorithm
    custom_cloudstack_ccm.Balancer.Rules.check_load_balancer_rule
    custom_cloudstack_ccm.Balancer.Rules.load_load_balancer_ip
    custom_cloudstack_ccm.Cloudstack.is_valid custom_cloudstack_ccm.Controller.ensure_managed
    custom_cloudstack_ccm.Controller.ensure_rule custom_cloudstack_ccm.Ports.additional_ports
    custom_cloudstack_ccm.Ports.compare_ports custom_cloudstack_ccm.Ports.private_port
    custom_cloudstack_ccm.Ports.public_port custom_cloudstack_ccm.Ports.service_to_lb_ports
    custom_cloudstack_ccm.Prelude.Text.itoa push custom_cloudstack_ccm.Tags.get_tag
    custom_cloudstack_ccm.Tags.has_missing_tags custom_cloudstack_ccm.Tags.should_manage_lb
Running-UsesClient_example =
    Running-UsesClient (cloud true) up 3 ensured (pop 8 ensured).1 8
      (queued (cloud true) up labelled (some ready) true 7) refl
      (goes_on idle ensured (starts idle refl) (ensures 7 labelled (node ∷ []) idle)) refl
