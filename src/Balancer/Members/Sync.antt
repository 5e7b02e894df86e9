-- ===== src/Balancer/Members/Sync.antt =====
-- Hosts that are all there are left alone.
use custom_cloudstack_ccm.Prelude.{
  ℕ, String, false, some, List, [], ◌∷◌, map, ◌≡◌, refl, arith, eq_iff, contains, Distinct,
  string_eq,
}
use custom_cloudstack_ccm.Prelude.Outcome.{ok}
use custom_cloudstack_ccm.Config.{CsCloud, Client}
use custom_cloudstack_ccm.Cloudstack.{LoadBalancer, LoadBalancerRule, VirtualMachine}
use custom_cloudstack_ccm.Hosts.{symmetric_difference}
use custom_cloudstack_ccm.Hosts.Laws.{symmetric_difference_lem}
use custom_cloudstack_ccm.Pages.{list_all_pages}
use custom_cloudstack_ccm.Api.{Server, History}
use custom_cloudstack_ccm.Balancer.Client.{cloud_of, get_client}
use custom_cloudstack_ccm.Balancer.Members.{sync_nodes, instance_page, add_hosts, drop_hosts}

empty_of_contains : (l : List String) → ((a : String) → contains a l ≡ false) → l ≡ []
empty_of_contains [] none_in = refl
empty_of_contains (a ∷ l) none_in = absurd (ground (arith, none_in a, eq_iff a a))

module _ (cs : CsCloud) (srv : Server) (fuel : ℕ) where
  -- When the instances of a load balancer's rule are exactly the hosts, synchronizing calls nothing
  -- after the instances are listed, and succeeds.
  sync_nodes_settled :
      (lb : LoadBalancer) (rule : LoadBalancerRule) (client : Client)
      (host_ids network_ids : List String) (vms : List VirtualMachine) (h h' : History)
      → get_client cs (cloud_of lb) ≡ ok client
      → lb.rule ≡ some rule
      → list_all_pages (λ vm. vm.id) fuel (instance_page cs srv client rule.id) h ≡ (ok vms, h')
      → Distinct (map (λ vm. vm.id) vms)
      → ((a : String) → contains a host_ids ≡ contains a (map (λ vm. vm.id) vms))
      → sync_nodes cs srv fuel lb host_ids network_ids h ≡ (ok tt, h')
  unfolding sync_nodes add_hosts drop_hosts
  sync_nodes_settled lb rule client host_ids network_ids vms h h' known has listed distinct same =
      let ids = map (λ vm. vm.id) vms in
      let assign =
        empty_of_contains (symmetric_difference host_ids ids).0
          (λ a. ground (arith, symmetric_difference_lem host_ids ids distinct a, same a)) in
      let remove =
        empty_of_contains (symmetric_difference host_ids ids).1
          (λ a. ground (arith, symmetric_difference_lem host_ids ids distinct a, same a)) in
      ground (arith, known, has, listed, assign, remove)
