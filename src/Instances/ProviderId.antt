-- ===== src/Instances/ProviderId.antt =====
-- Reading a provider id gives back what was written.
use Prim.Native.Char.{char}
use custom_cloudstack_ccm.Prelude.{true, [], ◌∷◌, ◌≡◌, arith}
use custom_cloudstack_ccm.Prelude.Text.{append, lacks, join, split-join_three, trim_prefix-append}
use custom_cloudstack_ccm.Prelude.Outcome.{ok}
use custom_cloudstack_ccm.Provider.{provider_name}
use custom_cloudstack_ccm.Instances.{NodeId, to_provider_id, parse_provider_id, three_parts}

-- A node without a name, of an environment, a project and a machine whose ids have no slash, is what
-- `parse_provider_id` reads from its provider id, behind the provider's own prefix.
pub parse_provider_id-to_provider_id :
    (n : NodeId)
    → n.name ≡ ""
    → lacks (char 47 tt) n.environment ≡ true
    → lacks (char 47 tt) n.project_id ≡ true
    → lacks (char 47 tt) n.vm_id ≡ true
    → parse_provider_id (append (append provider_name "://") (to_provider_id n)) ≡ ok n
unfolding parse_provider_id to_provider_id three_parts
parse_provider_id-to_provider_id n unnamed he hp hv =
    rw
      (trim_prefix-append (append provider_name "://")
        (join "/" (n.environment ∷ n.project_id ∷ n.vm_id ∷ [])))
      (rw (split-join_three (char 47 tt) n.environment n.project_id n.vm_id he hp hv)
        (ground (arith, unnamed)))
