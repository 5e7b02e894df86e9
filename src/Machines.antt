-- ===== src/Machines.antt =====
-- Virtual machines: `virtualMachineByName` with its cache (cloudstack/helpers.go) and `externalNIC`
-- (cloudstack/loadbalancer.go).
pub mod Key
use Prim.Native.Char.{char}
use Prim.Native.String.{◌∷◌ as push}
use custom_cloudstack_ccm.Prelude.{
  String, none, some, List, [], ◌∷◌, if◌then◌else◌, length, get_elem?,
}
use custom_cloudstack_ccm.Prelude.Int.{ℤ, in_range, index}
use custom_cloudstack_ccm.Prelude.Text.{join}
use custom_cloudstack_ccm.Prelude.Outcome.{
  Result, ok, err, failed, vm_not_found, pure, lift, modify, ◌>>=◌, ◌>>◌,
}
use custom_cloudstack_ccm.Config.{CsCloud, Client}
use custom_cloudstack_ccm.Cloudstack.{VirtualMachine, Nic}
use custom_cloudstack_ccm.Api.{Server, Api, call, list_virtual_machines, cached}

-- "\x00"
abbrev pub separator : String
separator = push (char 0 tt) String.[]

unfoldable pub vm_cache_key : String → String → String
vm_cache_key name project_id = join separator (name ∷ project_id ∷ [])

-- The answer to `ListVirtualMachines`, where exactly one machine is wanted.
the_machine : List VirtualMachine → Result VirtualMachine
the_machine [] = err vm_not_found
the_machine (vm ∷ []) = ok vm
the_machine _ = err (failed "more than one machine found with name %q in project %q")

module _ (srv : Server) where
  fetch_machine : Client → String → String → Api VirtualMachine
  unfolding the_machine vm_cache_key
  fetch_machine client name project_id = do
    response ← call client (list_virtual_machines name project_id) srv.instances
    vm ← lift (the_machine response.1)
    modify (λ history. cached client (vm_cache_key name project_id) vm ∷ history)
    pure vm

  unfoldable pub virtual_machine_by_name : Client → String → String → Api VirtualMachine
  unfolding fetch_machine vm_cache_key
  virtual_machine_by_name client name project_id history =
      elim (srv.cache_get client (vm_cache_key name project_id) history) [
        | some vm ↦ (ok vm, history)
        | none ↦ fetch_machine client name project_id history
      ]

nic_at : List Nic → ℤ → Result Nic
nic_at [] i = err (failed "instance does not have any nics")
nic_at (nic ∷ nics) i = elim (get_elem? (nic ∷ nics) (index i)) [
  | none ↦ ok nic
  | some chosen ↦ if in_range i (length (nic ∷ nics)) then ok chosen else ok nic
]

unfoldable pub external_nic : CsCloud → VirtualMachine → Result Nic
unfolding nic_at
external_nic cs instance_vm = nic_at instance_vm.nic cs.config.global.external_ip_index
