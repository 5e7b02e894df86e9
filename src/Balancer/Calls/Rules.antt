-- ===== src/Balancer/Calls/Rules.antt =====
-- Whose client is called to check, make, change and move the rule of a load balancer.
use custom_cloudstack_ccm.Prelude.{ℕ, String, none, some, ◌≡◌, str_eq, ◌&&◌, if◌then◌else◌}
use custom_cloudstack_ccm.Prelude.Outcome.{pure, ◌>>=◌}
use custom_cloudstack_ccm.Kube.{Service}
use custom_cloudstack_ccm.Config.{CsCloud, Client}
use custom_cloudstack_ccm.Cloudstack.{LoadBalancer, LoadBalancerRule, is_valid}
use custom_cloudstack_ccm.Ports.{LbPorts, service_to_lb_ports, compare_ports}
use custom_cloudstack_ccm.Api.{Server, Api, RuleResponse}
use custom_cloudstack_ccm.Balancer.Client.{cloud_of, rule_of}
use custom_cloudstack_ccm.Balancer.Rules.{
  CheckLbResult, load_load_balancer_ip, update_load_balancer_ip, delete_any_rule,
  delete_load_balancer_rule, check_load_balancer_rule, found_rule, missing_rule,
  update_load_balancer_rule, create_load_balancer_rule, settle_rule,
}
use custom_cloudstack_ccm.Balancer.Calls.{
  UsesClient, Calls, IsClient, Calls->>=, Calls-pure, Calls-lift, Calls-call, Does-get_client,
  Calls-release_ip_if_managed, Does-delete_load_balancer_rule,
}
use custom_cloudstack_ccm.Balancer.Calls.Ports.{Calls-service_to_lb_ports}
use custom_cloudstack_ccm.Balancer.Calls.Jobs.{Calls-wrapping, Calls-wait_job}
use custom_cloudstack_ccm.Balancer.Calls.Addresses.{
  Calls-get_public_ip_address_by_ip, Calls-get_load_balancer_ip,
}
use custom_cloudstack_ccm.Trace.{Does, Any, Does-pure, Does-if, Does->>=, Does->>}

module _ (cs : CsCloud) (srv : Server) (environment : String) where
  pub Calls-update_load_balancer_rule :
      (lb : LoadBalancer)
      → lb.environment ≡ environment
      → Calls cs srv environment (update_load_balancer_rule cs srv lb)
  unfolding update_load_balancer_rule
  Calls-update_load_balancer_rule lb e =
      Does-get_client cs srv environment Any (cloud_of lb) e _ (λ client c.
        Calls->>= cs srv environment _ _ (Calls-lift cs srv environment (rule_of lb)) (λ rule.
          Calls-wrapping cs srv environment _ _
            (Calls-call cs srv environment client _ srv.done c)))

  Calls-settle_rule :
      (client : Client) (r : RuleResponse)
      → IsClient cs srv environment client
      → Calls cs srv environment (settle_rule cs srv client r)
  Calls-settle_rule client r c =
      Does-if (UsesClient cs environment) Any (str_eq r.job_id "") _ _
        (Calls-pure cs srv environment r)
        (Calls-wrapping cs srv environment _ _
          (Calls-wait_job cs srv environment srv.unmarshal_rule client r.job_id r c))

  pub Calls-create_load_balancer_rule :
      (lb : LoadBalancer)
      → lb.environment ≡ environment
      → Calls cs srv environment (create_load_balancer_rule cs srv lb)
  unfolding create_load_balancer_rule
  Calls-create_load_balancer_rule lb e =
      Does-get_client cs srv environment Any (cloud_of lb) e _ (λ client c.
        Calls->>= cs srv environment _ _ (Calls-service_to_lb_ports cs srv environment lb.service)
          (λ ports.
            Calls->>= cs srv environment _ _
              (Calls-wrapping cs srv environment _ _
                (Calls-call cs srv environment client _ srv.rule_response c))
              (λ r.
                Calls->>= cs srv environment _ _ (Calls-settle_rule client r c)
                  (λ r'. Calls-pure cs srv environment _))))

module _ (cs : CsCloud) (srv : Server) (environment : String) (IsOurs : Service → Type 0) where
  -- The load balancer stays in the environment, and what is said of its service stays true.
  abbrev pub Stays : LoadBalancer → Type 0
  Stays lb = (lb.environment ≡ environment) × IsOurs lb.service

  abbrev pub Keeps : Api LoadBalancer → Type 0
  Keeps m = Does (UsesClient cs environment) Stays m

  -- A load balancer without its rule stays.
  Keeps-delete_load_balancer_rule :
      (lb : LoadBalancer) → Stays lb → Keeps (delete_load_balancer_rule cs srv lb)
  Keeps-delete_load_balancer_rule lb e =
      Does-delete_load_balancer_rule cs srv environment Stays lb e.0 e

  pub Keeps-load_load_balancer_ip :
      (fuel : ℕ) (lb : LoadBalancer) → Stays lb → Keeps (load_load_balancer_ip cs srv fuel lb)
  unfolding load_load_balancer_ip
  Keeps-load_load_balancer_ip fuel lb e =
      Does-if (UsesClient cs environment) Stays (is_valid lb.ip) (pure lb) _
        (Does-pure (UsesClient cs environment) Stays lb e)
        (Does->>= (UsesClient cs environment) Any Stays _ _
          (Calls-get_load_balancer_ip cs srv environment fuel (cloud_of lb) lb.service
            lb.main_network_id e.0)
          (λ ip _.
            Does-pure (UsesClient cs environment) Stays
              (record lb { ip = ip; main_network_id = ip.networkid }) e))

  Keeps-delete_any_rule : (lb : LoadBalancer) → Stays lb → Keeps (delete_any_rule cs srv lb)
  Keeps-delete_any_rule lb e =
      elim lb.rule
        as (λ x. Keeps (elim x [ none ↦ pure lb | some _ ↦ delete_load_balancer_rule cs srv lb ])) [
          | none ↦ Does-pure (UsesClient cs environment) Stays lb e
          | some rule ↦ Keeps-delete_load_balancer_rule lb e
        ]

  -- What follows the ports of a load balancer with a rule.
  abbrev after_ports :
      LoadBalancer → LoadBalancerRule → LbPorts → Api (CheckLbResult × LoadBalancer)
  after_ports lb rule new_ports =
      if compare_ports new_ports rule && str_eq lb.name rule.name
      then pure (found_rule lb rule, lb)
      else do lb' ← delete_load_balancer_rule cs srv lb; pure (missing_rule, lb')

  abbrev pub StaysChecked : CheckLbResult × LoadBalancer → Type 0
  StaysChecked x = Stays x.1

  Does-after_ports :
      (lb : LoadBalancer) (rule : LoadBalancerRule) (new_ports : LbPorts)
      → Stays lb
      → Does (UsesClient cs environment) StaysChecked (after_ports lb rule new_ports)
  Does-after_ports lb rule new_ports e =
      Does-if (UsesClient cs environment) StaysChecked
        (compare_ports new_ports rule && str_eq lb.name rule.name) (pure (found_rule lb rule, lb)) _
        (Does-pure (UsesClient cs environment) StaysChecked (found_rule lb rule, lb) e)
        (Does->>= (UsesClient cs environment) Stays StaysChecked
          (delete_load_balancer_rule cs srv lb) (λ lb'. pure (missing_rule, lb'))
          (Keeps-delete_load_balancer_rule lb e)
          (λ lb' e'. Does-pure (UsesClient cs environment) StaysChecked (missing_rule, lb') e'))

  pub Keeps-update_load_balancer_ip :
      (lb : LoadBalancer) → Stays lb → Keeps (update_load_balancer_ip cs srv lb)
  unfolding update_load_balancer_ip
  Keeps-update_load_balancer_ip lb e =
      Does->>= (UsesClient cs environment) Any Stays _ _
        (Calls-get_public_ip_address_by_ip cs srv environment (cloud_of lb)
          lb.service.load_balancer_ip e.0)
        (λ public_ip _.
          Does->>= (UsesClient cs environment) Stays Stays
            (delete_any_rule cs srv (record lb { ip = public_ip })) _
            (Keeps-delete_any_rule (record lb { ip = public_ip }) e)
            (λ lb' e'.
              Does->> (UsesClient cs environment) Stays _ (pure lb')
                (Does-if (UsesClient cs environment) Any (is_valid lb.ip) _ (pure tt)
                  (Calls-release_ip_if_managed cs srv environment (cloud_of lb') lb.ip lb'.service
                    e'.0)
                  (Calls-pure cs srv environment tt))
                (Does-pure (UsesClient cs environment) Stays lb' e')))

  pub Does-check_load_balancer_rule :
      (lb : LoadBalancer)
      → Stays lb
      → Does (UsesClient cs environment) StaysChecked (check_load_balancer_rule cs srv lb)
  unfolding check_load_balancer_rule
  Does-check_load_balancer_rule lb e =
      elim lb.rule
        as (λ x. Does (UsesClient cs environment) StaysChecked (elim x [
          | none ↦ pure (missing_rule, lb)
          | some rule ↦ service_to_lb_ports srv lb.service >>= after_ports lb rule
        ])) [
          | none ↦ Does-pure (UsesClient cs environment) StaysChecked (missing_rule, lb) e
          | some rule ↦
              Does->>= (UsesClient cs environment) Any StaysChecked
                (service_to_lb_ports srv lb.service) (after_ports lb rule)
                (Calls-service_to_lb_ports cs srv environment lb.service)
                (λ new_ports _. Does-after_ports lb rule new_ports e)
        ]
