-- ===== src/Balancer/Calls/Ports.antt =====
-- No client is called for the ports of a service: only Kubernetes is asked.
use custom_cloudstack_ccm.Prelude.{String, List, [], ◌∷◌, Bool, ltb}
use custom_cloudstack_ccm.Prelude.Outcome.{pure}
use custom_cloudstack_ccm.Kube.{Service, ServicePort, TargetPort}
use custom_cloudstack_ccm.Config.{CsCloud}
use custom_cloudstack_ccm.Ports.{
  service_to_lb_ports, to_lb_ports, port_infos, private_of, get_target_port, get_endpoint_subsets,
  sort_ports,
}
use custom_cloudstack_ccm.Api.{Server}
use custom_cloudstack_ccm.Balancer.Calls.{UsesClient, Calls, Calls->>=, Calls-pure, Calls-lift}
use custom_cloudstack_ccm.Balancer.Calls.Jobs.{Calls-wrapping, Calls-throw_if}
use custom_cloudstack_ccm.Trace.{nothing, more, Any, Does-if}

module _ (cs : CsCloud) (srv : Server) (environment : String) where
  Calls-get_target_port :
      (service : Service) (target_port : TargetPort)
      → Calls cs srv environment (get_target_port srv service target_port)
  unfolding get_target_port get_endpoint_subsets UsesClient
  Calls-get_target_port service target_port =
      Does-if (UsesClient cs environment) Any (ltb 0 (srv.int_value target_port)) _ _
        (Calls-pure cs srv environment _)
        (Calls->>= cs srv environment _ _
          (Calls-wrapping cs srv environment _ (get_endpoint_subsets srv service)
            (λ h. (more _ tt nothing, λ _ _. tt)))
          (λ subsets. Calls-lift cs srv environment _))

  Calls-port_infos :
      (service : Service) (use_target_port : Bool) (protocol : String) (ports : List ServicePort)
      → Calls cs srv environment (port_infos srv service use_target_port protocol ports)
  unfolding port_infos
  Calls-port_infos service use_target_port protocol [] = Calls-pure cs srv environment []
  Calls-port_infos service use_target_port protocol (p ∷ ports) =
      Calls->>= cs srv environment _ _ (Calls-throw_if cs srv environment _ _) (λ _.
        Calls->>= cs srv environment (private_of srv service use_target_port p) _
          (Does-if (UsesClient cs environment) Any use_target_port
            (get_target_port srv service p.target_port) (pure p.node_port)
            (Calls-get_target_port service p.target_port)
            (Calls-pure cs srv environment p.node_port))
          (λ target_port.
            Calls->>= cs srv environment _ _
              (Calls-port_infos service use_target_port protocol ports)
              (λ infos. Calls-pure cs srv environment _)))

  Calls-to_lb_ports :
      (service : Service) (ports : List ServicePort)
      → Calls cs srv environment (to_lb_ports srv service ports)
  unfolding to_lb_ports
  Calls-to_lb_ports service [] = λ h. (nothing, λ _ _. tt)
  Calls-to_lb_ports service (p ∷ ports) =
      Calls->>= cs srv environment _ _ (Calls-throw_if cs srv environment _ _) (λ _.
        Calls->>= cs srv environment _ _ (Calls-port_infos service _ p.protocol (p ∷ ports))
          (λ infos. Calls-pure cs srv environment _))

  pub Calls-service_to_lb_ports :
      (service : Service) → Calls cs srv environment (service_to_lb_ports srv service)
  unfolding service_to_lb_ports
  Calls-service_to_lb_ports service = Calls-to_lb_ports service (sort_ports service.ports)
