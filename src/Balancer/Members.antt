-- ===== src/Balancer/Members.antt =====
-- The hosts and networks behind a load balancer rule, and its algorithm: `syncNodes`, `setAlgorithm`
-- and what they call.
pub mod Sync
pub mod Contract
pub mod Refines
use custom_cloudstack_ccm.Prelude.{
  ℕ, String, Bool, List, [], ◌∷◌, map, str_eq, if◌then◌else◌, not, ltb, ◌||◌,
}
use custom_cloudstack_ccm.Prelude.Outcome.{
  Error, Result, ok, err, failed, wrapping, pure, lift, ◌>>=◌, ◌>>◌,
}
use custom_cloudstack_ccm.Config.{CsCloud, Client}
use custom_cloudstack_ccm.Cloudstack.{LoadBalancer, LoadBalancerRule, VirtualMachine}
use custom_cloudstack_ccm.Hosts.{symmetric_difference}
use custom_cloudstack_ccm.Pages.{Fetch, list_all_pages}
use custom_cloudstack_ccm.Api.{
  Server, Api, call, Value, Params, custom, assign_to_rule, remove_from_rule, list_rule_instances,
}
use custom_cloudstack_ccm.Balancer.Client.{
  cloud_of, set_project, rule_of, get_client, await, forgive,
}

unfoldable pub set_algorithm : LoadBalancer → Result LoadBalancer
set_algorithm lb =
    let affinity = lb.service.session_affinity in
    if str_eq affinity "None" || str_eq affinity ""
    then ok (record lb { algorithm = "roundrobin" })
    else if str_eq affinity "ClientIP"
    then ok (record lb { algorithm = "source" })
    else err (failed "unsupported load balancer affinity: %v")

module _ (cs : CsCloud) (srv : Server) where
  unfoldable pub assign_hosts_to_rule : LoadBalancer → List String → Api (Unit {0})
  assign_hosts_to_rule lb host_ids = do
    client ← lift (get_client cs (cloud_of lb))
    rule ← lift (rule_of lb)
    wrapping "error assigning hosts to %v: %v"
        (call client (assign_to_rule rule.id host_ids) srv.done)

  unfoldable pub remove_hosts_from_rule : LoadBalancer → List String → Api (Unit {0})
  remove_hosts_from_rule lb host_ids = do
    client ← lift (get_client cs (cloud_of lb))
    rule ← lift (rule_of lb)
    wrapping "error removing hosts from %v: %v"
        (call client (remove_from_rule rule.id host_ids) srv.done)

  -- That a network is mapped already is no error.
  unfoldable pub await_mapping : Client → String → Api (Unit {0})
  await_mapping client job_id history =
      if str_eq job_id ""
      then (ok tt, history)
      else let (r, history') = await srv client job_id history in
        (forgive srv "is already mapped" r, history')

  unfoldable pub assign_network_to_rule : LoadBalancer → String → Api (Unit {0})
  unfolding await_mapping
  assign_network_to_rule lb network_id = do
    rule ← lift (rule_of lb)
    client ← lift (get_client cs (cloud_of lb))
    job_id ← wrapping "error assigning networks to %v using cmd %q: %v " (
        call client
          (custom cs.config.command.assign_networks (
            ("networkids", Value.texts (network_id ∷ []))
            ∷ ("id", Value.text rule.id)
            ∷ set_project lb.project_id []))
          srv.job_response)
    await_mapping client job_id

  unfoldable pub assign_each_network : LoadBalancer → List String → Api (Unit {0})
  assign_each_network lb [] = pure tt
  assign_each_network lb (network_id ∷ network_ids) =
      assign_network_to_rule lb network_id >> assign_each_network lb network_ids

  unfoldable pub assign_networks_to_rule : LoadBalancer → List String → Api (Unit {0})
  unfolding assign_each_network
  assign_networks_to_rule lb network_ids =
      if str_eq cs.config.command.assign_networks ""
      then pure tt
      else assign_each_network lb network_ids

  -- A page of `ListLoadBalancerRuleInstances`, of 50 entries.
  abbrev pub instance_page : Client → String → Fetch VirtualMachine
  instance_page client rule_id page = call client (list_rule_instances rule_id page) srv.instances

  unfoldable pub add_hosts : LoadBalancer → List String → List String → Api (Unit {0})
  add_hosts lb network_ids [] = pure tt
  add_hosts lb network_ids (h ∷ assign) =
      assign_networks_to_rule lb network_ids >> assign_hosts_to_rule lb (h ∷ assign)

  unfoldable pub drop_hosts : LoadBalancer → List String → Api (Unit {0})
  drop_hosts lb [] = pure tt
  drop_hosts lb (h ∷ remove) = remove_hosts_from_rule lb (h ∷ remove)

  -- `fuel` bounds the number of pages.
  unfoldable pub sync_nodes : ℕ → LoadBalancer → List String → List String → Api (Unit {0})
  unfolding add_hosts drop_hosts
  sync_nodes fuel lb host_ids network_ids = do
    client ← lift (get_client cs (cloud_of lb))
    rule ← lift (rule_of lb)
    vms ←
        wrapping "error retrieving associated instances: %v"
          (list_all_pages (λ vm. vm.id) fuel (instance_page client rule.id))
    add_hosts lb network_ids (symmetric_difference host_ids (map (λ vm. vm.id) vms)).0
    drop_hosts lb (symmetric_difference host_ids (map (λ vm. vm.id) vms)).1
