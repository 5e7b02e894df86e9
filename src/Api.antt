-- ===== src/Api.antt =====
-- The calls that the provider makes of CloudStack and Kubernetes. Both are outside the repository: a
-- `Server` answers each call with whatever it likes, from all the calls made so far. The history of
-- calls, newest first, is the state of the code that makes them.
use custom_cloudstack_ccm.Prelude.{ℕ, String, Bool, Option, List, ◌∷◌}
use custom_cloudstack_ccm.Prelude.Outcome.{Result, Action}
use custom_cloudstack_ccm.Config.{Client}
use custom_cloudstack_ccm.Cloudstack.{
  LoadBalancerRule, PublicIpAddress, GloboNetworkPool, VirtualMachine,
}
use custom_cloudstack_ccm.Kube.{Node, TargetPort}

-- The value of a parameter of a request.
pub data Value : Type 0 where
  text : String → Value
  number : ℕ → Value
  flag : Bool → Value
  texts : List String → Value

abbrev pub Params : Type 0
Params = List (String × Value)

pub data Request : Type 0 where
  custom : String → Params → Request
  list_public_ip_addresses : Params → Request
  list_rule_instances : String → ℕ → Request
  assign_to_rule : String → List String → Request
  remove_from_rule : String → List String → Request
  update_rule : String → String → Request
  create_tags : String → String → String → String → Request
  get_network : String → String → Request
  async_job : String → Request
  list_virtual_machines : String → String → Request
  get_virtual_machine_by_id : String → String → Request
  get_virtual_machine_by_name : String → String → Request
  patch_label : String → String → String → String → Request
  get_endpoints : String → String → Request
  get_node : String → Request

-- A call of the client of an environment, a machine put into the environment's cache, or a call of
-- Kubernetes.
pub data Event : Type 0 where
  cloudstack : Client → Request → Event
  cached : Client → String → VirtualMachine → Event
  kubernetes : Request → Event

abbrev pub History : Type 0
History = List Event

-- `cloudstack.AssociateIpAddressResponse`
pub record IpResponse : Type 0 where
  pub id : String
  pub ipaddress : String
  pub networkid : String
  pub job_id : String

-- `cloudstack.CreateLoadBalancerRuleResponse`
pub record RuleResponse : Type 0 where
  pub rule : LoadBalancerRule
  pub job_id : String

-- An endpoint's port, as Kubernetes reports it.
pub record EndpointPort : Type 0 where
  pub name : String
  pub port : ℕ

-- What comes back for the newest call of a history. `RawMessage` is a text. A list comes with the
-- count that CloudStack states; where one object is asked for, with how many there are.
pub record Server : Type 0 where
  pub rules : History → Result (ℕ × List LoadBalancerRule)
  pub addresses : History → Result (ℕ × List PublicIpAddress)
  pub instances : History → Result (ℕ × List VirtualMachine)
  pub pools : History → Result (ℕ × List GloboNetworkPool)
  pub ip_response : History → Result IpResponse
  pub rule_response : History → Result RuleResponse
  pub job_response : History → Result String  -- the job's id
  pub pool_response : History → Result (Option String)  -- the job's id, where the answer has one
  pub done : History → Result (Unit {0})
  pub network : History → ℕ × Result String  -- its VPC
  pub machine : History → ℕ × Result VirtualMachine
  pub job_result : History → Result String
  pub endpoint_subsets : History → Result (List (List EndpointPort))
  pub node : History → Result Node
  -- what the cache of an environment has under a key (github.com/dgraph-io/ristretto)
  pub cache_get : Client → String → History → Option VirtualMachine
  -- `IntOrString.IntValue`, 0 for what is not positive, and `IntOrString.String`
  pub int_value : TargetPort → ℕ
  pub port_text : TargetPort → String
  -- `json.Unmarshal` into a map, as the values in the order of a range, and into the responses: what
  -- is left in the response, and whether there was an error
  pub json_values : String → Result (List String)
  pub unmarshal_ip : String → IpResponse → IpResponse × Result (Unit {0})
  pub unmarshal_rule : String → RuleResponse → RuleResponse × Result (Unit {0})
  pub unmarshal_pool : String → String → String × Result (Unit {0})

abbrev pub Api : Type 0 → Type 0
Api = Action History

-- Makes a call, and takes the answer that the server gives to it.
abbrev pub ask : {A : Type 0} → Event → (History → A) → Api A
ask event answer history = let history' = event ∷ history in (Result.ok (answer history'), history')

abbrev pub call : {A : Type 0} → Client → Request → (History → Result A) → Api A
call client request answer history =
    let history' = Event.cloudstack client request ∷ history in (answer history', history')
