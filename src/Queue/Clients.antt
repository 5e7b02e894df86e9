-- ===== src/Queue/Clients.antt =====
-- Whose client a worker calls.
use custom_cloudstack_ccm.Prelude.{String, ℕ, List, Option, none, some, ◌≡◌, refl}
use custom_cloudstack_ccm.Prelude.Outcome.{ok, err, pure, lift}
use custom_cloudstack_ccm.Config.{CsCloud, environment_for_meta}
use custom_cloudstack_ccm.Cloudstack.{LoadBalancer}
use custom_cloudstack_ccm.Tags.{should_manage_lb}
use custom_cloudstack_ccm.World.{NodeInfo, NodeRegistry, QueueEntry}
use custom_cloudstack_ccm.Nodes.{nodes_for_service, ids_for_nodes}
use custom_cloudstack_ccm.Api.{Server, History}
use custom_cloudstack_ccm.Balancer.Pools.{update_load_balancer_pool}
use custom_cloudstack_ccm.Balancer.Calls.{
  UsesClient, Calls, Calls->>=, Calls-pure, Calls-lift, Does-get_load_balancer,
}
use custom_cloudstack_ccm.Balancer.Calls.Members.{Calls-sync_nodes, Calls-update_load_balancer_pool}
use custom_cloudstack_ccm.Trace.{Adds, Any, Does-if, Does->>=}
use custom_cloudstack_ccm.Queue.{process_queue_entry, sync_entry, sync_managed, look_up_and_sync}

-- The load balancer that an entry carries is in the environment of its service.
abbrev pub IsLocal : CsCloud → QueueEntry → Type 0
IsLocal cs entry =
    (lb : LoadBalancer)
    → entry.lb ≡ some lb
    → lb.environment ≡ environment_for_meta cs entry.service.meta

module _ (cs : CsCloud) (srv : Server) (fuel : ℕ) (entry : QueueEntry) (nodes : List NodeInfo) where
  abbrev environment : String
  environment = environment_for_meta cs entry.service.meta

  Calls-sync_entry :
      (lb : LoadBalancer)
      → lb.environment ≡ environment
      → Calls cs srv environment (sync_entry cs srv fuel entry nodes lb)
  Calls-sync_entry lb e =
      Calls->>= cs srv environment _ _
        (Calls-sync_nodes cs srv environment fuel lb (ids_for_nodes nodes).0 (ids_for_nodes nodes).1
          e)
        (λ _.
          Does-if (UsesClient cs environment) Any entry.update_pool
            (update_load_balancer_pool srv cs lb) (pure tt)
            (Calls-update_load_balancer_pool cs srv environment lb e)
            (Calls-pure cs srv environment tt))

  Calls-sync_managed :
      (lb : LoadBalancer)
      → lb.environment ≡ environment
      → Calls cs srv environment (sync_managed cs srv fuel entry nodes lb)
  Calls-sync_managed lb e =
      elim lb.rule
        as (λ x. Calls cs srv environment (elim x [
          | none ↦ pure tt
          | some _ ↦ elim (should_manage_lb lb) [
            | err _ ↦ pure tt
            | ok _ ↦ sync_entry cs srv fuel entry nodes lb
          ]
        ])) [
          | none ↦ Calls-pure cs srv environment tt
          | some rule ↦
              elim (should_manage_lb lb)
                as (λ x.
                  Calls cs srv environment
                    (elim x [ err _ ↦ pure tt | ok _ ↦ sync_entry cs srv fuel entry nodes lb ])) [
                      | err x ↦ Calls-pure cs srv environment tt
                      | ok x ↦ Calls-sync_entry lb e
                    ]
        ]

  Calls-look_up_and_sync : Calls cs srv environment (look_up_and_sync cs srv fuel entry nodes)
  Calls-look_up_and_sync =
      Does->>= (UsesClient cs environment) _ Any _ (sync_managed cs srv fuel entry nodes)
        (Does-get_load_balancer cs srv environment entry.service (ids_for_nodes nodes).2
          (ids_for_nodes nodes).1 refl)
        (λ lb e. Calls-sync_managed lb e.0)

  Calls-sync :
      IsLocal cs entry
      → (found : Option LoadBalancer) → entry.lb ≡ found
      → Calls cs srv environment (elim found [
        | none ↦ look_up_and_sync cs srv fuel entry nodes
        | some lb ↦ sync_entry cs srv fuel entry nodes lb
      ])
  Calls-sync local none e = Calls-look_up_and_sync
  Calls-sync local (some lb) e = Calls-sync_entry lb (local lb e)

-- Whatever CloudStack answers, a worker that processes an entry calls only the client of the
-- environment of the entry's service, if the load balancer that the entry may carry is in it.
pub process_queue_entry-UsesClient :
    (cs : CsCloud) (srv : Server) (fuel : ℕ) (entry : QueueEntry) (r : NodeRegistry) (h : History)
    → IsLocal cs entry
    → Adds
        (UsesClient cs (environment_for_meta cs entry.service.meta))
        h
        (process_queue_entry cs srv fuel entry r h).1
unfolding process_queue_entry
process_queue_entry-UsesClient cs srv fuel entry r h local =
    let environment = environment_for_meta cs entry.service.meta in
    (Calls->>= cs srv environment (lift (nodes_for_service cs r entry.service)) _
      (Calls-lift cs srv environment (nodes_for_service cs r entry.service))
      (λ nodes. Calls-sync cs srv fuel entry nodes local entry.lb refl) h).0
