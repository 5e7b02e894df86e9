-- ===== src/Balancer/Rules.antt =====
-- Load balancer rules: how they are found, checked, created, updated and deleted.
pub mod Moving
use custom_cloudstack_ccm.Prelude.{
  ℕ, String, Bool, true, false, Option, none, some, List, [], ◌∷◌, str_eq, if◌then◌else◌, not,
  string_eq, keep, ◌==◌, ◌&&◌,
}
use custom_cloudstack_ccm.Prelude.Dict.{Dict, lookup}
use custom_cloudstack_ccm.Prelude.Text.{join}
use custom_cloudstack_ccm.Prelude.Outcome.{
  Error, Result, ok, err, failed, wrapping, pure, lift, ◌>>=◌, ◌>>◌,
}
use custom_cloudstack_ccm.Kube.{Service}
use custom_cloudstack_ccm.Config.{
  CsCloud, Client, environment_for_meta, project_for_meta, get_load_balancer_name, to_map,
}
use custom_cloudstack_ccm.Cloudstack.{LoadBalancer, LoadBalancerRule, CloudstackIp, is_valid}
use custom_cloudstack_ccm.Tags.{tags_for_service, match_all_tags, has_missing_tags, service_tag}
use custom_cloudstack_ccm.Nodes.{or_zero}
use custom_cloudstack_ccm.Ports.{
  LbPorts, service_to_lb_ports, compare_ports, public_port, private_port, additional_ports,
}
use custom_cloudstack_ccm.Api.{Server, Api, call, Value, Params, custom, update_rule, RuleResponse}
use custom_cloudstack_ccm.Balancer.Client.{
  ProjectCloud, cloud_of, set_param, set_project, set_extra_params, or_default, rule_of, get_client,
  wait_job, await_some,
}
use custom_cloudstack_ccm.Balancer.Addresses.{
  get_load_balancer_ip, get_public_ip_address_by_ip, release_ip_if_managed,
}

-- The loop over the answer: the only rule that the test chooses.
sole_rule : Error → List LoadBalancerRule → Result (Option LoadBalancerRule)
sole_rule multiple [] = ok none
sole_rule multiple (rule ∷ []) = ok (some rule)
sole_rule multiple _ = err multiple

choose_rule :
    (LoadBalancerRule → Bool) → Error → ℕ × List LoadBalancerRule → Result (Option LoadBalancerRule)
unfolding sole_rule
choose_rule test multiple (count, rules) =
    if count == 0 then ok none else sole_rule multiple (keep test rules)

abbrev ip_of_rule : Option LoadBalancerRule → CloudstackIp
ip_of_rule none = record { id = ""; address = ""; networkid = "" }
ip_of_rule (some rule) = record {
  id = rule.publicipid;
  address = rule.publicip;
  networkid = rule.networkid;
}

abbrev main_network : Option LoadBalancerRule → List String → String
main_network (some rule) _ = rule.networkid
main_network none [] = ""
main_network none (network_id ∷ _) = network_id

-- `for k, v := range args { p.SetParam(k, v) }`
set_params : Dict String String → Params → Params
set_params [] params = params
set_params ((k, v) ∷ rest) params = set_params rest (set_param k (Value.text v) params)

-- `checkLBResult`
pub record CheckLbResult : Type 0 where
  pub needs_tags : Bool
  pub needs_update : Bool
  pub exists : Bool

abbrev pub missing_rule : CheckLbResult
missing_rule = record { needs_tags = false; needs_update = false; exists = false }

-- Why an existing rule has to change, where it can stay.
abbrev pub found_rule : LoadBalancer → LoadBalancerRule → CheckLbResult
found_rule lb rule = record {
  needs_tags = has_missing_tags rule;
  needs_update = not (str_eq rule.algorithm lb.algorithm);
  exists = true;
}

module _ (cs : CsCloud) (srv : Server) where
  unfoldable pub get_load_balancer_rule_by_name :
      Client → String → String → Api (Option LoadBalancerRule)
  unfolding choose_rule
  get_load_balancer_rule_by_name client lb_name project_id = do
    result ←
        call client
          (custom "listLoadBalancerRules" (
            set_project project_id
              (("keyword", Value.text lb_name) ∷ ("listall", Value.flag true) ∷ [])))
          srv.rules
    lift (
        choose_rule (λ rule. str_eq rule.name lb_name)
          (failed "lb %q too many rules associated: %#v") result)

  unfoldable pub get_load_balancer_by_tags :
      Client → Service → String → Api (Option LoadBalancerRule)
  unfolding choose_rule
  get_load_balancer_by_tags client service project_id = do
    result ←
        call client
          (custom "listLoadBalancerRules" (
            ("tags[0].value", Value.text service.name)
            ∷ ("tags[0].key", Value.text service_tag)
            ∷ set_project project_id (("listall", Value.flag true) ∷ [])))
          srv.rules
    lift (
        choose_rule (λ rule. match_all_tags rule.tags (tags_for_service service))
          (failed "tags %#v with too many rules associated: %#v") result)

  abbrev pub or_by_tags :
      Client → Service → String → Option LoadBalancerRule → Api (Option LoadBalancerRule)
  or_by_tags client service project_id (some rule) = pure (some rule)
  or_by_tags client service project_id none = get_load_balancer_by_tags client service project_id

  unfoldable pub get_load_balancer_rule :
      Client → Service → String → String → Api (Option LoadBalancerRule)
  get_load_balancer_rule client service lb_name project_id = do
    found ← get_load_balancer_rule_by_name client lb_name project_id
    or_by_tags client service project_id found

  -- The project that is given, or the one of the service.
  abbrev pub project_or_own : Service → String → String
  project_or_own service project_id =
      if str_eq project_id ""
      then or_zero (project_for_meta cs service.meta (environment_for_meta cs service.meta))
      else project_id

  abbrev service_cloud : Service → String → ProjectCloud
  service_cloud service project_id = record {
    project_id = project_or_own service project_id;
    environment = environment_for_meta cs service.meta;
  }

  abbrev pub new_load_balancer :
      Service → String → List String → Option LoadBalancerRule → LoadBalancer
  new_load_balancer service project_id network_ids rule = record {
    project_id = project_or_own service project_id;
    environment = environment_for_meta cs service.meta;
    name = get_load_balancer_name cs service;
    algorithm = "";
    main_network_id = main_network rule network_ids;
    ip = ip_of_rule rule;
    rule = rule;
    service = service;
  }

  unfoldable pub get_load_balancer : Service → String → List String → Api LoadBalancer
  get_load_balancer service project_id network_ids = do
    client ← lift (get_client cs (service_cloud service project_id))
    rule ← wrapping "load balancer %s for service %v/%v get rule error: %v" (
        get_load_balancer_rule client service (get_load_balancer_name cs service)
          (project_or_own service project_id))
    pure (new_load_balancer service project_id network_ids rule)

  abbrev delete_command : String
  delete_command = or_default cs.config.command.delete_lb_rule "deleteLoadBalancerRule"

  abbrev delete_args : Dict String String
  delete_args = elim (lookup delete_command cs.config.command_args) [
    | none ↦ []
    | some args ↦ to_map args
  ]

  -- The rule is deleted, and forgotten.
  unfoldable pub delete_load_balancer_rule : LoadBalancer → Api LoadBalancer
  unfolding set_params
  delete_load_balancer_rule lb = do
    client ← lift (get_client cs (cloud_of lb))
    rule ← lift (rule_of lb)
    job_id ← wrapping "error deleting load balancer rule %v: %v" (
        call client
          (custom delete_command (set_params delete_args (("id", Value.text rule.id) ∷ [])))
          srv.job_response)
    await_some srv client job_id
    pure (record lb { rule = none })

  unfoldable pub load_load_balancer_ip : ℕ → LoadBalancer → Api LoadBalancer
  load_load_balancer_ip fuel lb = if is_valid lb.ip then pure lb else do
    ip ← get_load_balancer_ip cs srv fuel (cloud_of lb) lb.service lb.main_network_id
    pure (record lb { ip = ip; main_network_id = ip.networkid })

  -- A rule with the old address goes before the address.
  abbrev pub delete_any_rule : LoadBalancer → Api LoadBalancer
  delete_any_rule lb = elim lb.rule [ none ↦ pure lb | some _ ↦ delete_load_balancer_rule lb ]

  unfoldable pub update_load_balancer_ip : LoadBalancer → Api LoadBalancer
  update_load_balancer_ip lb = do
    public_ip ← get_public_ip_address_by_ip cs srv (cloud_of lb) lb.service.load_balancer_ip
    lb' ← delete_any_rule (record lb { ip = public_ip })
    if is_valid lb.ip
        then release_ip_if_managed cs srv (cloud_of lb') lb.ip lb'.service
        else pure tt
    pure lb'

  unfoldable pub check_load_balancer_rule : LoadBalancer → Api (CheckLbResult × LoadBalancer)
  check_load_balancer_rule lb = elim lb.rule [
    | none ↦ pure (missing_rule, lb)
    | some rule ↦ do
      new_ports ← service_to_lb_ports srv lb.service
      if compare_ports new_ports rule && str_eq lb.name rule.name
          then pure (found_rule lb rule, lb)
          else do lb' ← delete_load_balancer_rule lb; pure (missing_rule, lb')
  ]

  unfoldable pub update_load_balancer_rule : LoadBalancer → Api (Unit {0})
  update_load_balancer_rule lb = do
    client ← lift (get_client cs (cloud_of lb))
    rule ← lift (rule_of lb)
    wrapping "unable to update load balancer %v: %v"
        (call client (update_rule rule.id lb.algorithm) srv.done)

  abbrev create_params : LoadBalancer → LbPorts → Params
  create_params lb ports =
      let additional = additional_ports ports in
      let params =
        ("algorithm", Value.text lb.algorithm)
        ∷ ("name", Value.text lb.name)
        ∷ ("privateport", Value.number (private_port ports))
        ∷ ("publicport", Value.number (public_port ports))
        ∷ ("networkid", Value.text lb.main_network_id)
        ∷ ("publicipid", Value.text lb.ip.id)
        ∷ ("protocol", Value.text ports.protocol)
        ∷ [] in
      let more : Params = elim additional [
        | [] ↦ params
        | a ∷ as' ↦ set_param "additionalportmap" (Value.text (join "," (a ∷ as'))) params
      ] in
      set_extra_params lb.service "csccm.cloudprovider.io/createloadbalancer-extra-param-"
        (set_param "openfirewall" (Value.flag false) more)

  -- What the creation's job leaves of the answer.
  abbrev pub settle_rule : Client → RuleResponse → Api RuleResponse
  settle_rule client r =
      if str_eq r.job_id ""
      then pure r
      else wrapping "error waiting for load balancer rule job for %v: %v"
          (wait_job srv srv.unmarshal_rule client r.job_id r)

  -- The answer's tags and additional ports are not kept.
  unfoldable pub create_load_balancer_rule : LoadBalancer → Api LoadBalancerRule
  create_load_balancer_rule lb = do
    client ← lift (get_client cs (cloud_of lb))
    ports ← service_to_lb_ports srv lb.service
    r ←
        wrapping "error creating load balancer rule for %v: %v"
          (call client (custom "createLoadBalancerRule" (create_params lb ports)) srv.rule_response)
    r' ← settle_rule client r
    pure (record r'.rule { tags = []; additional_port_map = [] })
