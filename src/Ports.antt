-- ===== src/Ports.antt =====
-- The ports of a service, as its load balancer has them: `serviceToLBPorts`, `getTargetPort`,
-- `sortPorts`, the methods of `lbPorts` and `comparePorts` of cloudstack/loadbalancer.go.
pub mod Laws
use custom_cloudstack_ccm.Prelude.{
  ℕ, String, Bool, Option, none, some, List, [], ◌∷◌, ◌++◌, map, str_eq, if◌then◌else◌, ltb, ◌&&◌,
  ◌||◌, not, true, false, is_some,
}
use custom_cloudstack_ccm.Prelude.Sort.{sort}
use custom_cloudstack_ccm.Prelude.Text.{append, text_less, itoa}
use custom_cloudstack_ccm.Prelude.Outcome.{
  Error, Result, ok, err, failed, wrapping, pure, throw, throw_if, lift, ◌>>=◌, ◌>>◌,
}
use custom_cloudstack_ccm.Kube.{Service, ServicePort, TargetPort, get_label_or_annotation}
use custom_cloudstack_ccm.Cloudstack.{LoadBalancerRule}
use custom_cloudstack_ccm.Api.{
  Server, Api, History, Event, kubernetes, Request, get_endpoints, EndpointPort,
}

-- `lbPortInfo` and `lbPorts`
pub record LbPortInfo : Type 0 where
  pub public_port : ℕ
  pub private_port : ℕ
  pub name : String

pub record LbPorts : Type 0 where
  pub ports : List LbPortInfo
  pub protocol : String

first_public : List LbPortInfo → ℕ
first_public [] = 0
first_public (p ∷ _) = p.public_port

first_private : List LbPortInfo → ℕ
first_private [] = 0
first_private (p ∷ _) = p.private_port

unfoldable pub public_port : LbPorts → ℕ
unfolding first_public
public_port p = first_public p.ports

unfoldable pub private_port : LbPorts → ℕ
unfolding first_private
private_port p = first_private p.ports

-- `fmt.Sprintf("%d:%d", port.publicPort, port.privatePort)`
abbrev pub port_pair : LbPortInfo → String
port_pair port = append (itoa port.public_port) (append ":" (itoa port.private_port))

additional_of : List LbPortInfo → List String
additional_of [] = []
additional_of (_ ∷ others) = sort text_less (map port_pair others)

-- A nil slice and an empty one are the same here: `comparePorts` makes the one of the other.
unfoldable pub additional_ports : LbPorts → List String
unfolding additional_of
additional_ports p = additional_of p.ports

abbrev pub texts_eq : List String → List String → Bool
texts_eq [] [] = true
texts_eq (a ∷ as') (b ∷ bs) = str_eq a b && texts_eq as' bs
texts_eq _ _ = false

-- That the rule's own list is left sorted is not in the result: nothing else reads it.
unfoldable pub compare_ports : LbPorts → LoadBalancerRule → Bool
compare_ports ports rule =
    texts_eq (additional_ports ports) (sort text_less rule.additional_port_map)
    && str_eq rule.privateport (itoa (private_port ports))
    && str_eq rule.publicport (itoa (public_port ports))
    && str_eq rule.protocol ports.protocol

abbrev pub port_less : ServicePort → ServicePort → Bool
port_less a b = ltb a.port b.port

-- `sortPorts`; it sorts the service's own slice, which is read nowhere else but through `sortPorts`.
abbrev pub sort_ports : List ServicePort → List ServicePort
sort_ports = sort port_less

abbrev pub lb_use_target_port : String
lb_use_target_port = "csccm.cloudprovider.io/loadbalancer-use-targetport"

find_port : List EndpointPort → String → Option ℕ
find_port [] name = none
find_port (port ∷ ports) name =
    if str_eq port.name name then some port.port else find_port ports name

named_port : List (List EndpointPort) → String → Result ℕ
unfolding find_port
named_port [] name = err (failed "no endpoints found for %v")
named_port (ports ∷ _) name = elim (find_port ports name) [
  | none ↦ err (failed "no port name \"%s\" found for endpoint for %v")
  | some port ↦ ok port
]

module _ (srv : Server) where
  unfoldable pub get_endpoint_subsets : Service → Api (List (List EndpointPort))
  get_endpoint_subsets service history =
      let history' = kubernetes (get_endpoints service.namespace service.name) ∷ history in
      (srv.endpoint_subsets history', history')

  unfoldable pub get_target_port : Service → TargetPort → Api ℕ
  unfolding named_port get_endpoint_subsets
  get_target_port service target_port =
      if ltb 0 (srv.int_value target_port) then pure (srv.int_value target_port) else do
        subsets ← wrapping "error get endpoints: %v" (get_endpoint_subsets service)
        lift (named_port subsets (srv.port_text target_port))

  -- The private port that stands for a port of the service.
  abbrev pub private_of : Service → Bool → ServicePort → Api ℕ
  private_of service use_target_port p =
      if use_target_port then get_target_port service p.target_port else pure p.node_port

  -- The loop over the sorted ports.
  unfoldable pub port_infos : Service → Bool → String → List ServicePort → Api (List LbPortInfo)
  port_infos service use_target_port protocol [] = pure []
  port_infos service use_target_port protocol (p ∷ ports) = do
    throw_if (not (str_eq p.protocol protocol))
        (failed "unsupported load balancer with multiple protocols: %q and %q")
    target_port ← private_of service use_target_port p
    infos ← port_infos service use_target_port protocol ports
    pure (record { public_port = p.port; private_port = target_port; name = p.name } ∷ infos)

  -- With the sorted ports.
  unfoldable pub to_lb_ports : Service → List ServicePort → Api LbPorts
  unfolding port_infos
  to_lb_ports service [] = throw (failed "service ports are empty")
  to_lb_ports service (p ∷ ports) = do
    throw_if (not (str_eq p.protocol "TCP") && not (str_eq p.protocol "UDP"))
        (failed "unsupported load balancer protocol: %v")
    infos ←
        port_infos service (is_some (get_label_or_annotation service.meta lb_use_target_port))
          p.protocol (p ∷ ports)
    pure (record { ports = infos; protocol = p.protocol })

  unfoldable pub service_to_lb_ports : Service → Api LbPorts
  unfolding to_lb_ports
  service_to_lb_ports service = to_lb_ports service (sort_ports service.ports)
