-- ===== src/Instances/Zones.antt =====
-- cloudstack/zones.go: the zones of the instances behind the nodes.
use custom_cloudstack_ccm.Prelude.{String, str_eq}
use custom_cloudstack_ccm.Prelude.Outcome.{Result, ok, failed, pure, throw_if, ◌>>=◌, ◌>>◌}
use custom_cloudstack_ccm.Config.{CsCloud}
use custom_cloudstack_ccm.Cloudstack.{VirtualMachine}
use custom_cloudstack_ccm.Api.{Server, Api}
use custom_cloudstack_ccm.Instances.{known_instance, node_and_instance}

-- `cloudprovider.Zone`
pub record Zone : Type 0 where
  pub failure_domain : String
  pub region : String

abbrev pub zone_of : VirtualMachine → Zone
zone_of vm = record { failure_domain = vm.zonename; region = vm.zonename }

-- `GetZone`: the empty zone
unfoldable get_zone : Result Zone
get_zone = ok (record { failure_domain = ""; region = "" })

module _ (cs : CsCloud) (srv : Server) where
  unfoldable get_zone_by_provider_id : String → Api Zone
  get_zone_by_provider_id provider_id = do vm ← known_instance cs srv provider_id; pure (zone_of vm)

  unfoldable get_zone_by_node_name : String → Api Zone
  get_zone_by_node_name node_name = do
    throw_if (str_eq node_name "") (failed "empty providerID")
    (_, vm) ← node_and_instance cs srv "error retrieving zone: %v" node_name
    pure (zone_of vm)
