-- ===== src/Fake/Jobs.antt =====
-- What the jobs of the test server do when their result is asked for: the closures in
-- `ServeHTTP` of cloudstack/fake/cloudstack.go.
use custom_cloudstack_ccm.Prelude.{
  ℕ, String, Option, none, some, List, [], ◌∷◌, ◌++◌, string_eq, not, contains, keep, get_elem?,
}
use custom_cloudstack_ccm.Prelude.Dict.{Dict, insert, erase}
use custom_cloudstack_ccm.Cloudstack.{Tag, PublicIpAddress}
use custom_cloudstack_ccm.Api.{Value, IpResponse}
use custom_cloudstack_ccm.Fake.{
  Fake, FakeRule, FakePool, Job, associate_job, disassociate_job, update_rule_job, update_pool_job,
  create_rule_job, assign_network_job, create_tag_job, delete_tags_job, assign_hosts_job,
  remove_hosts_job, delete_rule_job, rule_at, with_object, set_nth, list_of, lb_name_by_id,
}

-- What a job returns, less the fields that are the same for every job of its kind.
pub data JobAnswer : Type 0 where
  associated : IpResponse → JobAnswer
  changed_rule : FakeRule → JobAnswer
  created : FakeRule → JobAnswer
  finished : JobAnswer

-- `delete(s.tags, id)` for each id
erase_all : List String → Dict String (List Tag) → Dict String (List Tag)
erase_all [] m = m
erase_all (id ∷ ids) m = erase_all ids (erase id m)

abbrev pub with_algorithm : String → FakeRule → FakeRule
with_algorithm algorithm r = record r { rule = insert "algorithm" (Value.text algorithm) r.rule }

abbrev pub with_check : String → String → String → FakePool → FakePool
with_check check_type check expected p = record p {
  health_check = check;
  health_check_type = check_type;
  health_check_expected = expected;
}

-- The closures, one by one. `none` is a panic: of a rule or a pool that has gone in the meantime.
abbrev pub associate_now : IpResponse → String → Fake → Option (JobAnswer × Fake)
associate_now obj address s =
    let obj' : IpResponse = record obj { ipaddress = address } in
    let ip : PublicIpAddress = record {
      id = obj.id;
      ipaddress = address;
      networkid = obj.networkid;
      tags = [];
    } in
    some (associated obj', record s { ips = insert obj.id ip s.ips })

abbrev pub disassociate_now : String → Fake → Option (JobAnswer × Fake)
disassociate_now ip_id s = some (finished, record s { ips = erase ip_id s.ips })

abbrev pub update_rule_now : String → String → Fake → Option (JobAnswer × Fake)
update_rule_now lb_name algorithm s = elim (rule_at lb_name s) [
  | none ↦ none
  | some (i, r) ↦
      some (changed_rule (with_algorithm algorithm r), with_object i (with_algorithm algorithm r) s)
]

abbrev pub update_pool_now :
    String → ℕ → String → String → String → Fake → Option (JobAnswer × Fake)
update_pool_now lb_name at check_type check expected s = elim (rule_at lb_name s) [
  | none ↦ none
  | some (i, r) ↦ elim (get_elem? r.pools at) [
    | none ↦ none
    | some p ↦
        let r' : FakeRule = record r {
          pools = set_nth at (with_check check_type check expected p) r.pools;
        } in
        some (changed_rule r', with_object i r' s)
  ]
]

abbrev pub create_rule_now : String → ℕ → Fake → Option (JobAnswer × Fake)
create_rule_now lb_name i s = elim (get_elem? s.objects i) [
  | none ↦ none
  | some r ↦ some (created r, record s { lb_rules = insert lb_name i s.lb_rules })
]

abbrev pub create_tag_now : String → String → String → Fake → Option (JobAnswer × Fake)
create_tag_now resource_id k v s =
    let tags = list_of resource_id s.tags ++ record { key = k; value = v } ∷ [] in
    some (finished, record s { tags = insert resource_id tags s.tags })

unfoldable pub delete_tags_now : List String → Fake → Option (JobAnswer × Fake)
unfolding erase_all
delete_tags_now ids s = some (finished, record s { tags = erase_all ids s.tags })

abbrev pub assign_hosts_now : String → List String → Fake → Option (JobAnswer × Fake)
assign_hosts_now rule_id vm_ids s =
    some (finished, record s { vms = insert rule_id (list_of rule_id s.vms ++ vm_ids) s.vms })

abbrev pub remove_hosts_now : String → List String → Fake → Option (JobAnswer × Fake)
remove_hosts_now rule_id vm_ids s =
    let left = keep (λ id. not (contains id vm_ids)) (list_of rule_id s.vms) in
    some (finished, record s { vms = insert rule_id left s.vms })

abbrev pub delete_rule_now : String → Fake → Option (JobAnswer × Fake)
delete_rule_now lb_id s = some (
  finished,
  record s { lb_rules = erase (lb_name_by_id lb_id s) s.lb_rules; tags = erase lb_id s.tags },
)

-- What a job does when it runs.
unfoldable pub run_job : Job → Fake → Option (JobAnswer × Fake)
unfolding delete_tags_now
run_job (associate_job obj address) s = associate_now obj address s
run_job (disassociate_job ip_id) s = disassociate_now ip_id s
run_job (update_rule_job lb_name algorithm) s = update_rule_now lb_name algorithm s
run_job (update_pool_job lb_name at check_type check expected) s =
    update_pool_now lb_name at check_type check expected s
run_job (create_rule_job lb_name i) s = create_rule_now lb_name i s
run_job assign_network_job s = some (finished, s)
run_job (create_tag_job resource_id k v) s = create_tag_now resource_id k v s
run_job (delete_tags_job ids) s = delete_tags_now ids s
run_job (assign_hosts_job rule_id vm_ids) s = assign_hosts_now rule_id vm_ids s
run_job (remove_hosts_job rule_id vm_ids) s = remove_hosts_now rule_id vm_ids s
run_job (delete_rule_job lb_id) s = delete_rule_now lb_id s
