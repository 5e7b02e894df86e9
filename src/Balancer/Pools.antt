-- ===== src/Balancer/Pools.antt =====
-- The pools of a load balancer and their health checks: `updateLoadBalancerPool`,
-- `generateGloboNetworkPool` and `portToHCProtocol`.
pub mod Choice
use Prim.Native.Char.{char}
use custom_cloudstack_ccm.Prelude.{
  ℕ, String, Bool, true, false, Option, none, some, List, [], ◌∷◌, str_eq, if◌then◌else◌, not,
  string_eq, ◌==◌, ◌&&◌, ◌||◌, is_some,
}
use custom_cloudstack_ccm.Prelude.Text.{append, split, to_upper}
use custom_cloudstack_ccm.Prelude.Outcome.{
  Error, Result, ok, err, failed, wrapping, pure, throw, throw_if, lift, ◌>>=◌, ◌>>◌,
}
use custom_cloudstack_ccm.Kube.{Service, get_label_or_annotation, or_empty}
use custom_cloudstack_ccm.Config.{CsCloud, Client}
use custom_cloudstack_ccm.Cloudstack.{LoadBalancer, LoadBalancerRule, GloboNetworkPool}
use custom_cloudstack_ccm.Ports.{LbPortInfo, LbPorts, service_to_lb_ports}
use custom_cloudstack_ccm.Api.{Server, Api, call, Value, Params, custom}
use custom_cloudstack_ccm.Balancer.Client.{cloud_of, set_param, rule_of, get_client, wait_job}

-- `hcPortInfo`
pub record HcPortInfo : Type 0 where
  pub protocol : String
  pub requires_msg : Bool

-- `strings.Split(name, "-")[0]`
first_part : List String → String
first_part [] = ""
first_part (part ∷ _) = part

abbrev pub service_prefix : String → String
unfolding first_part
service_prefix name = to_upper (first_part (split (char 45 tt) name))

unfoldable pub port_to_hc_protocol : String → LbPortInfo → HcPortInfo
port_to_hc_protocol protocol port_info =
    let prefix = service_prefix port_info.name in
    if str_eq prefix "HTTP" || str_eq prefix "HTTPS"
    then record { protocol = prefix; requires_msg = true }
    else if str_eq prefix "TCP" || str_eq prefix "UDP"
    then record { protocol = prefix; requires_msg = false }
    else record { protocol = protocol; requires_msg = false }

-- The health check that a port should have.
abbrev pub check_text : String → Service → LbPortInfo → String
check_text prefix service port_info =
    or_empty (get_label_or_annotation service.meta (append prefix port_info.name))

abbrev pub message_prefix : String
message_prefix = "csccm.cloudprovider.io/loadbalancer-custom-healthcheck-msg-"

abbrev pub response_prefix : String
response_prefix = "csccm.cloudprovider.io/loadbalancer-custom-healthcheck-rsp-"

abbrev pub with_check : String → String → String → GloboNetworkPool → GloboNetworkPool
with_check protocol message response pool = record pool {
  health_check = message;
  health_check_expected = response;
  health_check_type = protocol;
}

abbrev pub has_check : String → String → String → GloboNetworkPool → Bool
has_check protocol message response pool =
    str_eq pool.health_check message
    && str_eq pool.health_check_expected response
    && str_eq pool.health_check_type protocol

abbrev pub is_port_pool : LbPortInfo → GloboNetworkPool → Bool
is_port_pool port_info pool =
    pool.vip_port == port_info.public_port && pool.port == port_info.private_port

-- The loop over the pools: the first that serves the port with another check gets the check. The
-- pools are shared, so the change is kept in the list too.
change_first :
    LbPortInfo
    → String
    → String
    → String
    → List GloboNetworkPool
    → Option GloboNetworkPool × List GloboNetworkPool
change_first port_info protocol message response [] = (none, [])
change_first port_info protocol message response (pool ∷ pools) =
    let changed = with_check protocol message response pool in
    let rest = change_first port_info protocol message response pools in
    if is_port_pool port_info pool && not (has_check protocol message response pool)
    then (some changed, changed ∷ pools)
    else (rest.0, pool ∷ rest.1)

unfoldable pub generate_globo_network_pool :
    String
    → LbPortInfo
    → Service
    → List GloboNetworkPool
    → Option GloboNetworkPool × List GloboNetworkPool
unfolding change_first
generate_globo_network_pool protocol port_info service globo_pools =
    let hc = port_to_hc_protocol protocol port_info in
    let message = check_text message_prefix service port_info in
    if hc.requires_msg && str_eq message ""
    then (none, globo_pools)
    else change_first port_info hc.protocol message (check_text response_prefix service port_info)
        globo_pools

-- The parameters of an update, on top of the ones of the update before.
abbrev pub pool_params : LoadBalancerRule → GloboNetworkPool → Params → Params
pool_params rule pool params =
    let common = set_param "maxconn" (Value.number 0) (
      set_param "zoneid" (Value.text rule.zoneid) (
        set_param "expectedhealthcheck" (Value.text pool.health_check_expected) (
          set_param "healthcheck" (Value.text pool.health_check) (
            set_param "healthchecktype" (Value.text (to_upper pool.health_check_type)) (
              set_param "lbruleid" (Value.text rule.id)
                (set_param "poolids" (Value.number pool.id) params)))))) in
    if str_eq pool.health_check_type "UDP"
    then set_param "redeploy" (Value.flag true) (
        set_param "l7protocol" (Value.text "Outros")
          (set_param "l4protocol" (Value.text (to_upper pool.health_check_type)) common))
    else common

-- An answer without a job's id leaves the one that is there.
abbrev pub keep_job : String → Option String → String
keep_job job_id none = job_id
keep_job job_id (some job_id') = job_id'

module _ (srv : Server) where
  -- One update and its job. `job_id` is `r.JobID`, which stays from one round to the next.
  unfoldable pub update_pool : Client → Params → String → Api String
  update_pool client params job_id = do
    answer ←
        wrapping "error updating globo network pool for %v: %v"
          (call client (custom "updateGloboNetworkPool" params) srv.pool_response)
    if str_eq (keep_job job_id answer) ""
        then pure ""
        else wrapping "error waiting for globo network pool for rule for %v: %v" (
            wait_job srv srv.unmarshal_pool client (keep_job job_id answer)
              (keep_job job_id answer))

  -- The loop over the ports, with the pools, the parameters and the job's id so far.
  unfoldable pub update_pools :
      Client
      → LoadBalancer
      → LoadBalancerRule
      → String
      → List LbPortInfo
      → List GloboNetworkPool
      → Params
      → String
      → Api (Unit {0})
  unfolding update_pool
  update_pools client lb rule protocol [] pools params job_id = pure tt
  update_pools client lb rule protocol (port_info ∷ ports) pools params job_id =
      let (chosen, pools') = generate_globo_network_pool protocol port_info lb.service pools in
      elim chosen [
        | none ↦ update_pools client lb rule protocol ports pools' params job_id
        | some pool ↦ update_pool client (pool_params rule pool params) job_id >>= λ job_id'.
            update_pools client lb rule protocol ports pools' (pool_params rule pool params) job_id'
      ]

  -- Only a service with a custom health check, or a rule for UDP, has its pools changed.
  abbrev pub needs_pools : LoadBalancer → LoadBalancerRule → Bool
  needs_pools lb rule =
      is_some (
        get_label_or_annotation lb.service.meta
          "csccm.cloudprovider.io/loadbalancer-custom-healthcheck")
      || str_eq rule.protocol "UDP"

  unfoldable pub change_pools : Client → LoadBalancer → LoadBalancerRule → Api (Unit {0})
  unfolding update_pools
  change_pools client lb rule = do
    answer ← wrapping "error list load balancer pools for %v: %v" (
        call client
          (custom "listGloboNetworkPools"
            (("lbruleid", Value.text rule.id) ∷ ("zoneid", Value.text rule.zoneid) ∷ []))
          srv.pools)
    throw_if (answer.0 == 0) (failed "error list load balancer pools for %v: no LB pools found")
    ports ← service_to_lb_ports srv lb.service
    update_pools client lb rule ports.protocol ports.ports answer.1 [] ""

  unfoldable pub update_load_balancer_pool : CsCloud → LoadBalancer → Api (Unit {0})
  unfolding change_pools
  update_load_balancer_pool cs lb = do
    client ← lift (get_client cs (cloud_of lb))
    rule ← lift (rule_of lb)
    if needs_pools lb rule then change_pools client lb rule else pure tt
