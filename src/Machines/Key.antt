-- ===== src/Machines/Key.antt =====
-- The key of the cache tells machines apart.
use Prim.Native.Char.{char}
use custom_cloudstack_ccm.Prelude.{String, true, ◌≡◌, arith, sym, ap, ◌∙◌}
use custom_cloudstack_ccm.Prelude.Text.{lacks, split, split-join_two}
use custom_cloudstack_ccm.Machines.{vm_cache_key}

-- Two machines have the same key in the cache only if they have the same name and the same project,
-- as long as no name and no project has the separator, the character 0.
pub vm_cache_key_inj :
    (name project_id name' project_id' : String)
    → lacks (char 0 tt) name ≡ true
    → lacks (char 0 tt) project_id ≡ true
    → lacks (char 0 tt) name' ≡ true
    → lacks (char 0 tt) project_id' ≡ true
    → vm_cache_key name project_id ≡ vm_cache_key name' project_id'
    → (name ≡ name') × (project_id ≡ project_id')
unfolding vm_cache_key
vm_cache_key_inj name project_id name' project_id' hn hp hn' hp' e =
    let parts =
      sym (split-join_two (char 0 tt) name project_id hn hp)
      ∙ ap (split (char 0 tt)) e
      ∙ split-join_two (char 0 tt) name' project_id' hn' hp' in
    (ground (arith, parts), ground (arith, parts))
