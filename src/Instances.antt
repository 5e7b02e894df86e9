-- ===== src/Instances.antt =====
-- cloudstack/instances.go: what Kubernetes asks of the instances behind its nodes.
pub mod ProviderId
pub mod Identity
pub mod Zones
use Prim.Native.Char.{char}
use custom_cloudstack_ccm.Prelude.{
  ℕ, String, Bool, true, false, Option, none, some, List, [], ◌∷◌, ◌++◌, str_eq, if◌then◌else◌, not,
  string_eq, contains, length, get_elem?, ◌==◌, ◌&&◌,
}
use custom_cloudstack_ccm.Prelude.Int.{ℤ, in_range, index}
use custom_cloudstack_ccm.Prelude.Text.{append, trim_prefix, split, join}
use custom_cloudstack_ccm.Prelude.Outcome.{
  Error, Result, ok, err, failed, wrapped, instance_not_found, wrapping, pure, throw, throw_if,
  lift, ◌>>=◌, ◌>>◌,
}
use custom_cloudstack_ccm.Kube.{Node, get_label_or_annotation}
use custom_cloudstack_ccm.Config.{
  CsCloud, environment_for_meta, project_for_meta, client_for_environment,
}
use custom_cloudstack_ccm.Provider.{provider_name}
use custom_cloudstack_ccm.Cloudstack.{Nic, VirtualMachine}
use custom_cloudstack_ccm.Api.{
  Server, Api, call, Event, kubernetes, get_node, get_virtual_machine_by_id,
  get_virtual_machine_by_name,
}

-- `node`
pub record NodeId : Type 0 where
  pub project_id : String
  pub name : String
  pub environment : String
  pub vm_id : String

unfoldable pub to_provider_id : NodeId → String
to_provider_id n = join "/" (n.environment ∷ n.project_id ∷ n.vm_id ∷ [])

three_parts : List String → Result NodeId
three_parts (environment ∷ project_id ∷ vm_id ∷ []) =
    ok (record { project_id = project_id; name = ""; environment = environment; vm_id = vm_id })
three_parts _ = err (failed "error parsing providerID: %q - %#v")

unfoldable pub parse_provider_id : String → Result NodeId
unfolding three_parts
parse_provider_id instance_id =
    three_parts (split (char 47 tt) (trim_prefix instance_id (append provider_name "://")))

-- `v1.NodeAddress`
pub data NodeAddress : Type 0 where
  internal_ip host_name external_ip : String → NodeAddress

-- The system's resolver: the names of an address and the addresses of a name, none on an error.
pub record Resolver : Type 0 where
  pub lookup_addr : String → List String
  pub lookup_host : String → List String

-- The names of an address that have the address.
proven_names : Resolver → String → List String → List NodeAddress
proven_names dns addr [] = []
proven_names dns addr (name ∷ names) =
    let rest = proven_names dns addr names in
    if contains addr (dns.lookup_host name) then host_name name ∷ rest else rest

-- The NIC at an index that is in range, with its index, and the first one otherwise.
abbrev pub internal_nic : List Nic → Nic → ℤ → ℕ × Nic
internal_nic nics first i = elim (get_elem? nics (index i)) [
  | none ↦ (0, first)
  | some nic ↦ if in_range i (length nics) then (index i, nic) else (0, first)
]

abbrev pub external_address : List Nic → ℕ → ℤ → List NodeAddress
external_address nics internal i = elim (get_elem? nics (index i)) [
  | none ↦ []
  | some nic ↦
      if in_range i (length nics) && not (index i == internal)
      then external_ip nic.ipaddress ∷ []
      else []
]

abbrev pub name_addresses : Resolver → VirtualMachine → String → List NodeAddress
unfolding proven_names
name_addresses dns vm addr =
    if str_eq vm.hostname ""
    then proven_names dns addr (dns.lookup_addr addr)
    else host_name vm.hostname ∷ []

abbrev pub public_address : VirtualMachine → List NodeAddress
public_address vm = if str_eq vm.publicip "" then [] else external_ip vm.publicip ∷ []

addresses_with : CsCloud → Resolver → VirtualMachine → ℕ × Nic → List NodeAddress
addresses_with cs dns vm (i, nic) =
    internal_ip nic.ipaddress ∷ name_addresses dns vm nic.ipaddress
    ++ external_address vm.nic i cs.config.global.external_ip_index
    ++ public_address vm

unfoldable pub node_addresses : CsCloud → Resolver → VirtualMachine → Result (List NodeAddress)
unfolding addresses_with
node_addresses cs dns vm = elim vm.nic [
  | [] ↦ err (failed "instance does not have an internal IP")
  | nic ∷ nics ↦
      ok (
        addresses_with cs dns vm (internal_nic (nic ∷ nics) nic cs.config.global.internal_ip_index))
]

-- The states in which an instance counts as shut down.
abbrev pub shutdown_states : List String
shutdown_states = "Stopping" ∷ "Stopped" ∷ "Destroyed" ∷ "Expunging" ∷ "Shutdowned" ∷ "Error" ∷ []

unfoldable pub is_shutdown : String → Result Bool
is_shutdown state =
    if contains state shutdown_states
    then ok true
    else if str_eq state "Unknown"
    then err (failed "unknown vm state in cloudstack")
    else ok false

-- `AddSSHKeyToAllInstances`, which there is not, and `CurrentNodeName`
unfoldable add_ssh_key_to_all_instances : String → List ℕ → Result (Unit {0})
add_ssh_key_to_all_instances user key_data = err (failed "AddSSHKeyToAllInstances not implemented")

unfoldable current_node_name : String → Result String
current_node_name hostname = ok hostname

-- `if err == cloudprovider.InstanceNotFound { return err }`, and other errors formatted
abbrev pub wrap_unless_missing {ℓ} : {A : Type ℓ} → String → Result A → Result A
wrap_unless_missing text (ok a) = ok a
wrap_unless_missing text (err instance_not_found) = err instance_not_found
wrap_unless_missing text (err e) = err (wrapped text e)

-- An instance with the count that comes with it.
abbrev pub found_by_id : ℕ × Result VirtualMachine → Result VirtualMachine
found_by_id (count, r) =
    if count == 0
    then err instance_not_found
    else elim r [ ok vm ↦ ok vm | err e ↦ err (wrapped "error retrieving instance: %v" e) ]

abbrev pub found_by_name : ℕ × Result VirtualMachine → Result VirtualMachine
found_by_name (count, ok vm) = ok vm
found_by_name (count, err e) =
    if count == 0 then err instance_not_found else err (wrapped "error instance for node %v: %v" e)

-- Where the instance does not exist the answer is no, and no error.
abbrev pub exists_of : Result VirtualMachine → Result Bool
exists_of (ok vm) = ok true
exists_of (err instance_not_found) = ok false
exists_of (err e) = err e

module _ (cs : CsCloud) where
  unfoldable pub new_node : Node → Result NodeId
  new_node kube_node =
      let environment = environment_for_meta cs kube_node.meta in
      elim (project_for_meta cs kube_node.meta environment) [
        | err e ↦ err (Error.wrapped "error processing node %#v: %v" e)
        | ok project_id ↦
            let name : String =
              elim (get_label_or_annotation kube_node.meta cs.config.global.node_name_label) [
                | none ↦ kube_node.name
                | some n ↦ n
              ] in
            ok (record {
              project_id = project_id;
              environment = environment;
              name = name;
              vm_id = kube_node.provider_id;
            })
      ]

  module _ (srv : Server) where
    -- The call of `Nodes().Get`.
    abbrev pub get_kube_node : String → Api Node
    get_kube_node name history =
        let history' = kubernetes (get_node name) ∷ history in (srv.node history', history')

    unfoldable pub get_node_by_name : String → Api NodeId
    get_node_by_name name = do kube_node ← get_kube_node name; lift (new_node kube_node)

    unfoldable pub get_instance_for_node : NodeId → Api VirtualMachine
    get_instance_for_node n = do
      client ← lift (client_for_environment cs n.environment)
      call client (get_virtual_machine_by_name n.name n.project_id)
          (λ h. found_by_name (srv.machine h))

    unfoldable pub instance_by_provider_id : String → Api VirtualMachine
    instance_by_provider_id provider_id = do
      n ← lift (parse_provider_id provider_id)
      client ← lift (client_for_environment cs n.environment)
      call client (get_virtual_machine_by_id n.vm_id n.project_id)
          (λ h. found_by_id (srv.machine h))

    -- The instance of a node, with the text that the errors are given.
    abbrev pub node_and_instance : String → String → Api (NodeId × VirtualMachine)
    node_and_instance text name = do
      n ← wrapping "error retrieving node by name %q: %v" (get_node_by_name name)
      (λ h.
          let (r, h') = get_instance_for_node n h in
          (wrap_unless_missing text (elim r [ ok vm ↦ ok (n, vm) | err e ↦ err e ]), h'))

    -- The instance of a provider id that is not empty.
    abbrev pub known_instance : String → Api VirtualMachine
    known_instance provider_id = do
      throw_if (str_eq provider_id "") (failed "empty providerID")
      instance_by_provider_id provider_id

    module _ (dns : Resolver) where
      -- `NodeAddresses` and `NodeAddressesByProviderID`
      unfoldable pub node_addresses_by_name : String → Api (List NodeAddress)
      node_addresses_by_name name = do
        (_, vm) ← node_and_instance "error retrieving node addresses: %v" name
        lift (node_addresses cs dns vm)

      unfoldable pub node_addresses_by_provider_id : String → Api (List NodeAddress)
      node_addresses_by_provider_id provider_id = do
        vm ← known_instance provider_id
        lift (node_addresses cs dns vm)

    -- `InstanceID`
    unfoldable pub instance_id : String → Api String
    instance_id name = do
      (n, vm) ← node_and_instance "error retrieving instance ID: %v" name
      pure (to_provider_id (record n { vm_id = vm.id }))

    -- `InstanceType` and `InstanceTypeByProviderID`, which read different fields
    unfoldable pub instance_type : String → Api String
    instance_type name = do
      (_, vm) ← node_and_instance "error retrieving instance type: %v" name
      pure vm.serviceofferingid

    unfoldable pub instance_type_by_provider_id : String → Api String
    instance_type_by_provider_id provider_id = do
      vm ← known_instance provider_id
      pure vm.serviceofferingname

    unfoldable pub instance_exists_by_provider_id : String → Api Bool
    instance_exists_by_provider_id provider_id =
        throw_if (str_eq provider_id "") (failed "empty providerID") >> λ h.
        let (r, h') = instance_by_provider_id provider_id h in (exists_of r, h')

    unfoldable pub instance_shutdown_by_provider_id : String → Api Bool
    instance_shutdown_by_provider_id provider_id = do
      vm ← known_instance provider_id
      lift (is_shutdown vm.state)
