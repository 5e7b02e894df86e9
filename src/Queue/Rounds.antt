-- ===== src/Queue/Rounds.antt =====
-- What a worker's round does to the load balancer of the service that it takes.
use custom_cloudstack_ccm.Prelude.{
  ℕ, suc, String, List, false, none, some, length, Distinct, string_eq, ◌≡◌, arith, ap, ◌∙◌,
}
use custom_cloudstack_ccm.Prelude.Dict.{lookup}
use custom_cloudstack_ccm.Prelude.Outcome.{ok}
use custom_cloudstack_ccm.Kube.{service_key_eq, svc_key}
use custom_cloudstack_ccm.Config.{CsCloud, Client}
use custom_cloudstack_ccm.Cloudstack.{LoadBalancer, LoadBalancerRule}
use custom_cloudstack_ccm.Tags.{should_manage_lb}
use custom_cloudstack_ccm.World.{NodeInfo, QueueEntry, World}
use custom_cloudstack_ccm.Api.{Server, History}
use custom_cloudstack_ccm.Nodes.{nodes_for_service, ids_for_nodes}
use custom_cloudstack_ccm.Balancer.Client.{cloud_of, get_client}
use custom_cloudstack_ccm.Balancer.Rules.{get_load_balancer}
use custom_cloudstack_ccm.Balancer.Members.{sync_nodes}
use custom_cloudstack_ccm.Balancer.Members.Contract.{KeepsMembers, ids, membership, set_members}
use custom_cloudstack_ccm.Balancer.Members.Refines.{sync_nodes-refines}
use custom_cloudstack_ccm.Queue.Entries.{lookup-pop}
use custom_cloudstack_ccm.Queue.{pop, work, process_queue_entry}

module _ (cs : CsCloud) {srv : Server} {client : Client}
    (k : KeepsMembers srv client cs.config.command.assign_networks) (now delay later last : ℕ) where
  -- A worker's round that takes a service with nodes, whose load balancer it looks up and finds with a
  -- rule that it should manage, makes the machines behind the rule exactly those of the service's
  -- nodes, changes no other rule, and leaves the service out of the queue: on a server that keeps its
  -- promises, for an entry that does not ask for the pools, and where the rule has no machine twice.
  pub work-refines :
      (w w' : World) (entry : QueueEntry) (nodes : List NodeInfo) (lb : LoadBalancer)
      (rule : LoadBalancerRule) (h : History)
      → pop now w ≡ (some entry, w')
      → entry.lb ≡ none
      → entry.update_pool ≡ false
      → nodes_for_service cs w'.registry entry.service ≡ ok nodes
      → get_load_balancer cs srv entry.service
          (ids_for_nodes nodes).2
          (ids_for_nodes nodes).1
          w'.history
        ≡ (ok lb, h)
      → lb.rule ≡ some rule
      → should_manage_lb lb ≡ ok tt
      → get_client cs (cloud_of lb) ≡ ok client
      → Distinct (ids (k.members h rule.id))
      → let fuel = suc (length (k.members h rule.id)) in
        let w'' = work cs srv fuel now delay later last w in
        ((rule_id a : String)
          → membership k w''.history rule_id a
            ≡ set_members rule.id (ids_for_nodes nodes).0 (membership k h) rule_id a)
        × (lookup (svc_key entry.service) w''.queue ≡ none)
  unfolding work process_queue_entry
  work-refines w w' entry nodes lb rule h popped unknown no_pools found looked_up has managed
        reached distinct =
      let fuel = suc (length (k.members h rule.id)) in
      let (host_ids, network_ids, _) = ids_for_nodes nodes in
      let (synced, made) =
        sync_nodes-refines cs k lb rule reached has host_ids network_ids h distinct in
      let done = (sync_nodes cs srv fuel lb host_ids network_ids h).1 in
      let processed : process_queue_entry cs srv fuel entry w'.registry w'.history ≡ (ok tt, done) =
        ground (arith, unknown, no_pools, found, looked_up, has, managed, synced) in
      let worked : work cs srv fuel now delay later last w ≡ record w' { history = done } =
        ground (arith, popped, processed) in
      (
        λ rule_id a. ap (λ x. membership k x.history rule_id a) worked ∙ made rule_id a,
        ap (λ x. lookup (svc_key entry.service) x.queue) worked ∙ lookup-pop now w entry w' popped,
      )
