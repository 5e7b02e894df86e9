-- ===== src/Balancer/Calls/Members.antt =====
-- Whose client is called for the hosts and the pools of a load balancer.
use custom_cloudstack_ccm.Prelude.{
  ◌≡◌, ℕ, map, String, List, [], ◌∷◌, none, some, str_eq, arith, inl, inr, Bool-cases,
}
use custom_cloudstack_ccm.Prelude.Outcome.{ok, pure, ◌>>=◌}
use custom_cloudstack_ccm.Config.{CsCloud, Client}
use custom_cloudstack_ccm.Cloudstack.{LoadBalancer, LoadBalancerRule, GloboNetworkPool}
use custom_cloudstack_ccm.Hosts.{symmetric_difference}
use custom_cloudstack_ccm.Ports.{LbPortInfo}
use custom_cloudstack_ccm.Api.{Server, Params, custom}
use custom_cloudstack_ccm.Balancer.Client.{cloud_of, rule_of, await, forgive}
use custom_cloudstack_ccm.Balancer.Pools.{
  update_load_balancer_pool, change_pools, update_pools, update_pool, needs_pools, pool_params,
  generate_globo_network_pool, keep_job,
}
use custom_cloudstack_ccm.Balancer.Members.{
  sync_nodes, add_hosts, drop_hosts, assign_hosts_to_rule, remove_hosts_from_rule,
  assign_networks_to_rule, assign_each_network, assign_network_to_rule, await_mapping,
}
use custom_cloudstack_ccm.Balancer.Calls.{
  UsesClient, Calls, IsClient, Calls->>=, Calls-pure, Calls-lift, Calls-call, Does-get_client,
}
use custom_cloudstack_ccm.Balancer.Calls.Jobs.{
  Calls-ends, Calls-wrapping, Calls-await, Calls-wait_job, Calls-throw_if,
}
use custom_cloudstack_ccm.Balancer.Calls.Ports.{Calls-service_to_lb_ports}
use custom_cloudstack_ccm.Trace.{nothing, Any, Does-if, Does-list_all_pages}

module _ (cs : CsCloud) (srv : Server) (environment : String) where
  -- A call on the rule of the load balancer, with the client of its environment.
  Calls-assign_hosts_to_rule :
      (lb : LoadBalancer) (host_ids : List String)
      → lb.environment ≡ environment
      → Calls cs srv environment (assign_hosts_to_rule cs srv lb host_ids)
  unfolding assign_hosts_to_rule
  Calls-assign_hosts_to_rule lb host_ids e =
      Does-get_client cs srv environment Any (cloud_of lb) e _ (λ client c.
        Calls->>= cs srv environment _ _ (Calls-lift cs srv environment (rule_of lb)) (λ rule.
          Calls-wrapping cs srv environment _ _
            (Calls-call cs srv environment client _ srv.done c)))

  Calls-remove_hosts_from_rule :
      (lb : LoadBalancer) (host_ids : List String)
      → lb.environment ≡ environment
      → Calls cs srv environment (remove_hosts_from_rule cs srv lb host_ids)
  unfolding remove_hosts_from_rule
  Calls-remove_hosts_from_rule lb host_ids e =
      Does-get_client cs srv environment Any (cloud_of lb) e _ (λ client c.
        Calls->>= cs srv environment _ _ (Calls-lift cs srv environment (rule_of lb)) (λ rule.
          Calls-wrapping cs srv environment _ _
            (Calls-call cs srv environment client _ srv.done c)))

  Calls-await_mapping :
      (client : Client) (job_id : String)
      → IsClient cs srv environment client
      → Calls cs srv environment (await_mapping cs srv client job_id)
  unfolding await_mapping
  Calls-await_mapping client job_id c h = elim (Bool-cases (str_eq job_id "")) [
    | inl blank ↦
        Calls-ends cs srv environment (await_mapping cs srv client job_id) h (ok tt, h)
          (ground (arith, blank)) nothing
    | inr given ↦
        let r = await srv client job_id h in
        Calls-ends cs srv environment (await_mapping cs srv client job_id) h
          (forgive srv "is already mapped" r.0, r.1) (ground (arith, given))
          (Calls-await cs srv environment client job_id c h).0
  ]

  Calls-assign_network_to_rule :
      (lb : LoadBalancer) (network_id : String)
      → lb.environment ≡ environment
      → Calls cs srv environment (assign_network_to_rule cs srv lb network_id)
  unfolding assign_network_to_rule
  Calls-assign_network_to_rule lb network_id e =
      Calls->>= cs srv environment _ _ (Calls-lift cs srv environment (rule_of lb)) (λ rule.
        Does-get_client cs srv environment Any (cloud_of lb) e _ (λ client c.
          Calls->>= cs srv environment _ _
            (Calls-wrapping cs srv environment _ _
              (Calls-call cs srv environment client _ srv.job_response c))
            (λ job_id. Calls-await_mapping client job_id c)))

  Calls-assign_each_network :
      (lb : LoadBalancer) (network_ids : List String)
      → lb.environment ≡ environment
      → Calls cs srv environment (assign_each_network cs srv lb network_ids)
  unfolding assign_each_network
  Calls-assign_each_network lb [] e = Calls-pure cs srv environment tt
  Calls-assign_each_network lb (n ∷ ns) e =
      Calls->>= cs srv environment _ _ (Calls-assign_network_to_rule lb n e)
        (λ _. Calls-assign_each_network lb ns e)

  Calls-add_hosts :
      (lb : LoadBalancer) (network_ids assign : List String)
      → lb.environment ≡ environment
      → Calls cs srv environment (add_hosts cs srv lb network_ids assign)
  unfolding add_hosts assign_networks_to_rule
  Calls-add_hosts lb network_ids [] e = Calls-pure cs srv environment tt
  Calls-add_hosts lb network_ids (a ∷ assign) e =
      Calls->>= cs srv environment (assign_networks_to_rule cs srv lb network_ids) _
        (Does-if (UsesClient cs environment) Any (str_eq cs.config.command.assign_networks "")
          (pure tt) (assign_each_network cs srv lb network_ids) (Calls-pure cs srv environment tt)
          (Calls-assign_each_network lb network_ids e))
        (λ _. Calls-assign_hosts_to_rule lb (a ∷ assign) e)

  Calls-drop_hosts :
      (lb : LoadBalancer) (remove : List String)
      → lb.environment ≡ environment
      → Calls cs srv environment (drop_hosts cs srv lb remove)
  unfolding drop_hosts
  Calls-drop_hosts lb [] e = Calls-pure cs srv environment tt
  Calls-drop_hosts lb (a ∷ remove) e = Calls-remove_hosts_from_rule lb (a ∷ remove) e

  pub Calls-sync_nodes :
      (fuel : ℕ) (lb : LoadBalancer) (host_ids network_ids : List String)
      → lb.environment ≡ environment
      → Calls cs srv environment (sync_nodes cs srv fuel lb host_ids network_ids)
  unfolding sync_nodes
  Calls-sync_nodes fuel lb host_ids network_ids e =
      Does-get_client cs srv environment Any (cloud_of lb) e _ (λ client c.
        Calls->>= cs srv environment _ _ (Calls-lift cs srv environment (rule_of lb)) (λ rule.
          Calls->>= cs srv environment _ _
            (Calls-wrapping cs srv environment _ _ (
              Does-list_all_pages (UsesClient cs environment) (λ vm. vm.id) fuel _
                (λ page. Calls-call cs srv environment client _ srv.instances c)))
            (λ vms.
              Calls->>= cs srv environment _ _
                (Calls-add_hosts lb network_ids
                  (symmetric_difference host_ids (map (λ vm. vm.id) vms)).0 e)
                (λ _.
                  Calls-drop_hosts lb (symmetric_difference host_ids (map (λ vm. vm.id) vms)).1
                    e))))

  Calls-update_pool :
      (client : Client) (params : Params) (job_id : String)
      → IsClient cs srv environment client
      → Calls cs srv environment (update_pool srv client params job_id)
  unfolding update_pool
  Calls-update_pool client params job_id c =
      Calls->>= cs srv environment _ _
        (Calls-wrapping cs srv environment _ _ (
          Calls-call cs srv environment client (custom "updateGloboNetworkPool" params)
            srv.pool_response c))
        (λ answer.
          let job_id' = keep_job job_id answer in
          Does-if (UsesClient cs environment) Any (str_eq job_id' "") (pure "") _
            (Calls-pure cs srv environment "")
            (Calls-wrapping cs srv environment _ _
              (Calls-wait_job cs srv environment srv.unmarshal_pool client job_id' job_id' c)))

  Calls-update_pools :
      (client : Client) (lb : LoadBalancer) (rule : LoadBalancerRule) (protocol : String)
      → IsClient cs srv environment client
      → (ports : List LbPortInfo) (pools : List GloboNetworkPool) (params : Params)
        (job_id : String)
      → Calls cs srv environment
          (update_pools srv client lb rule protocol ports pools params job_id)
  unfolding update_pools
  Calls-update_pools client lb rule protocol c [] pools params job_id =
      Calls-pure cs srv environment tt
  Calls-update_pools client lb rule protocol c (port_info ∷ ports) pools params job_id =
      let chosen = generate_globo_network_pool protocol port_info lb.service pools in
      elim chosen.0
        as (λ x. Calls cs srv environment (elim x [
          | none ↦ update_pools srv client lb rule protocol ports chosen.1 params job_id
          | some pool ↦ update_pool srv client (pool_params rule pool params) job_id >>= λ job_id'.
              update_pools srv client lb rule protocol ports chosen.1 (pool_params rule pool params)
                job_id'
        ])) [
          | none ↦ Calls-update_pools client lb rule protocol c ports chosen.1 params job_id
          | some pool ↦
              let params' = pool_params rule pool params in
              Calls->>= cs srv environment (update_pool srv client params' job_id) _
                (Calls-update_pool client params' job_id c)
                (Calls-update_pools client lb rule protocol c ports chosen.1 params')
        ]

  Calls-change_pools :
      (client : Client) (lb : LoadBalancer) (rule : LoadBalancerRule)
      → IsClient cs srv environment client
      → Calls cs srv environment (change_pools srv client lb rule)
  unfolding change_pools
  Calls-change_pools client lb rule c =
      Calls->>= cs srv environment _ _
        (Calls-wrapping cs srv environment _ _ (Calls-call cs srv environment client _ srv.pools c))
        (λ answer. Calls->>= cs srv environment _ _ (Calls-throw_if cs srv environment _ _) (λ _.
          Calls->>= cs srv environment _ _ (Calls-service_to_lb_ports cs srv environment lb.service)
            (λ ports.
              Calls-update_pools client lb rule ports.protocol c ports.ports answer.1 [] "")))

  pub Calls-update_load_balancer_pool :
      (lb : LoadBalancer)
      → lb.environment ≡ environment
      → Calls cs srv environment (update_load_balancer_pool srv cs lb)
  unfolding update_load_balancer_pool
  Calls-update_load_balancer_pool lb e =
      Does-get_client cs srv environment Any (cloud_of lb) e _ (λ client c.
        Calls->>= cs srv environment _ _ (Calls-lift cs srv environment (rule_of lb)) (λ rule.
          Does-if (UsesClient cs environment) Any (needs_pools srv lb rule) _ (pure tt)
            (Calls-change_pools client lb rule c) (Calls-pure cs srv environment tt)))
