-- ===== src/Cloudstack.antt =====
-- The CloudStack objects that the provider reads (github.com/xanzy/go-cloudstack), with the fields
-- that it uses, and the provider's own types for them in cloudstack/loadbalancer.go.
use custom_cloudstack_ccm.Prelude.{ℕ, String, Bool, Option, List, str_eq, ◌&&◌, not}
use custom_cloudstack_ccm.Kube.{Service}

-- `cloudstack.Tags`
pub record Tag : Type 0 where
  pub key : String
  pub value : String

-- `cloudstackIP`
pub record CloudstackIp : Type 0 where
  pub id : String
  pub address : String
  pub networkid : String

-- `cloudstack.PublicIpAddress`
pub record PublicIpAddress : Type 0 where
  pub id : String
  pub ipaddress : String
  pub networkid : String
  pub tags : List Tag

-- `loadBalancerRule`, with the fields of the `cloudstack.LoadBalancerRule` that it embeds
pub record LoadBalancerRule : Type 0 where
  pub id : String
  pub name : String
  pub algorithm : String
  pub cidrlist : String
  pub networkid : String
  pub privateport : String
  pub publicport : String
  pub publicip : String
  pub publicipid : String
  pub zoneid : String
  pub protocol : String
  pub tags : List Tag
  pub additional_port_map : List String

-- `globoNetworkPool`
pub record GloboNetworkPool : Type 0 where
  pub port : ℕ
  pub vip_port : ℕ
  pub health_check_type : String
  pub health_check : String
  pub health_check_expected : String
  pub id : ℕ

-- `cloudstack.Nic` and `cloudstack.VirtualMachine`
pub record Nic : Type 0 where
  pub ipaddress : String
  pub networkid : String

pub record VirtualMachine : Type 0 where
  pub id : String
  pub name : String
  pub hostname : String
  pub publicip : String
  pub state : String
  pub zonename : String
  pub serviceofferingid : String
  pub serviceofferingname : String
  pub nic : List Nic

-- `loadBalancer` with its `projectCloud`; the `CSCloud` in it is an argument of the functions.
pub record LoadBalancer : Type 0 where
  pub project_id : String
  pub environment : String
  pub name : String
  pub algorithm : String
  pub main_network_id : String
  pub ip : CloudstackIp
  pub rule : Option LoadBalancerRule
  pub service : Service

-- `cloudstackIP.isValid`
unfoldable pub is_valid : CloudstackIp → Bool
is_valid ip = not (str_eq ip.id "") && not (str_eq ip.address "")
