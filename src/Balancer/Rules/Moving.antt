-- ===== src/Balancer/Rules/Moving.antt =====
-- The order in which a load balancer changes its address.
use custom_cloudstack_ccm.Prelude.{some, ◌≡◌, arith, false, true}
use custom_cloudstack_ccm.Prelude.Outcome.{Error, ok, err}
use custom_cloudstack_ccm.Config.{CsCloud}
use custom_cloudstack_ccm.Cloudstack.{CloudstackIp, LoadBalancer, LoadBalancerRule, is_valid}
use custom_cloudstack_ccm.Api.{Server, History}
use custom_cloudstack_ccm.Balancer.Client.{cloud_of}
use custom_cloudstack_ccm.Balancer.Addresses.{get_public_ip_address_by_ip, release_ip_if_managed}
use custom_cloudstack_ccm.Balancer.Rules.{update_load_balancer_ip, delete_load_balancer_rule}

module _ (cs : CsCloud) (srv : Server) where
  -- When the address that a service asks for exists, and the load balancer has a rule: if the rule
  -- cannot be deleted, changing the address fails with that error, and the old address is not
  -- released; if it is deleted, the calls after the deletion are those of the release of the old
  -- address, where there is one.
  pub update_load_balancer_ip_lem :
      (lb : LoadBalancer) (rule : LoadBalancerRule) (ip : CloudstackIp) (h h' : History)
      → lb.rule ≡ some rule
      → get_public_ip_address_by_ip cs srv (cloud_of lb) lb.service.load_balancer_ip h ≡ (ok ip, h')
      → let deletion = delete_load_balancer_rule cs srv (record lb { ip = ip }) h' in
        ((e : Error)
          → deletion.0 ≡ err e
          → update_load_balancer_ip cs srv lb h ≡ (err e, deletion.1))
        × ((lb' : LoadBalancer)
            → deletion.0 ≡ ok lb'
            → is_valid lb.ip ≡ true
            → (update_load_balancer_ip cs srv lb h).1
              ≡ (release_ip_if_managed cs srv (cloud_of lb') lb.ip lb'.service deletion.1).1)
        × ((lb' : LoadBalancer)
            → deletion.0 ≡ ok lb'
            → is_valid lb.ip ≡ false
            → update_load_balancer_ip cs srv lb h ≡ (ok lb', deletion.1))
  unfolding update_load_balancer_ip
  update_load_balancer_ip_lem lb rule ip h h' has found = (
    λ e failed. ground (arith, has, found, failed),
    λ lb' deleted valid. ground (arith, has, found, deleted, valid),
    λ lb' deleted invalid. ground (arith, has, found, deleted, invalid),
  )
