-- ===== src/Instances/Identity.antt =====
-- The id that `InstanceID` gives names the instance that it was asked for.
use Prim.Native.Char.{char}
use custom_cloudstack_ccm.Prelude.{String, true, ◌≡◌, refl, arith}
use custom_cloudstack_ccm.Prelude.Text.{append, lacks}
use custom_cloudstack_ccm.Prelude.Outcome.{ok}
use custom_cloudstack_ccm.Provider.{provider_name}
use custom_cloudstack_ccm.Config.{CsCloud, Client, client_for_environment}
use custom_cloudstack_ccm.Cloudstack.{VirtualMachine}
use custom_cloudstack_ccm.Api.{Server, History, call, get_virtual_machine_by_id}
use custom_cloudstack_ccm.Instances.{
  NodeId, to_provider_id, get_node_by_name, get_instance_for_node, instance_id,
  instance_by_provider_id, found_by_id,
}
use custom_cloudstack_ccm.Instances.ProviderId.{parse_provider_id-to_provider_id}

module _ (cs : CsCloud) (srv : Server) where
  -- For a node that Kubernetes knows, whose environment has a client and whose instance CloudStack
  -- finds, `InstanceID` gives an id without a further call; and the provider id made of it leads, at
  -- any time, to one request: for just that machine, in the project and environment of the node. No
  -- id may have a slash.
  pub instance_by_provider_id-instance_id :
      (name : String) (n : NodeId) (vm : VirtualMachine) (client : Client) (h h1 h2 g : History)
      → get_node_by_name cs srv name h ≡ (ok n, h1)
      → client_for_environment cs n.environment ≡ ok client
      → get_instance_for_node cs srv n h1 ≡ (ok vm, h2)
      → lacks (char 47 tt) n.environment ≡ true
      → lacks (char 47 tt) n.project_id ≡ true
      → lacks (char 47 tt) vm.id ≡ true
      → (id : String) × (instance_id cs srv name h ≡ (ok id, h2))
        × (instance_by_provider_id cs srv (append (append provider_name "://") id) g
            ≡ call client
                (get_virtual_machine_by_id vm.id n.project_id)
                (λ h. found_by_id (srv.machine h))
                g)
  unfolding instance_id instance_by_provider_id to_provider_id
  instance_by_provider_id-instance_id name n vm client h h1 h2 g node reached found he hp hv =
      let named : NodeId = record n { name = ""; vm_id = vm.id } in
      let parsed = parse_provider_id-to_provider_id named refl he hp hv in
      (to_provider_id named, ground (arith, node, found), ground (arith, parsed, reached))
