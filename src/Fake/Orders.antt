-- ===== src/Fake/Orders.antt =====
-- The commands of the test server that start a job: cases of the switch of `ServeHTTP` of
-- cloudstack/fake/cloudstack.go.
use Prim.Native.Char.{char}
use custom_cloudstack_ccm.Prelude.{
  ℕ, ◌+◌, String, Bool, true, Option, none, some, List, [], ◌∷◌, ◌++◌, str_eq, if◌then◌else◌,
  string_eq, contains, length, ◌==◌,
}
use custom_cloudstack_ccm.Prelude.Dict.{Dict, lookup, insert}
use custom_cloudstack_ccm.Prelude.Text.{atoi, itoa, append, split}
use custom_cloudstack_ccm.Cloudstack.{PublicIpAddress}
use custom_cloudstack_ccm.Api.{Value, IpResponse}
use custom_cloudstack_ccm.Fake.{
  assign_network_job, delete_tags_job, delete_rule_job, list_of, Form, form_value, Fake, FakeRule,
  FakePool, Job, associate_job, disassociate_job, update_rule_job, update_pool_job, create_rule_job,
  create_tag_job, assign_hosts_job, remove_hosts_job, new_id, lb_name_by_id, rule_at,
}
use custom_cloudstack_ccm.Fake.Listings.{
  Reply, associating, rule_promised, started, failed, panicked,
}

-- `newID`, the job's id from its number, and the entry in `Jobs`.
unfoldable pub start : String → String → Job → Fake → Reply × Fake
unfolding new_id
start cmd prefix job s =
    let (n, s') = new_id cmd s in
    let job_id = append prefix (itoa n) in
    (started job_id, record s' { jobs = insert job_id job s'.jobs })

-- The case of "associateIpAddress"
unfoldable pub associate : Form → Fake → Reply × Fake
unfolding new_id
associate form s =
    let (n, s') = new_id "associateIpAddress" s in
    let job_id = append "job-ip-" (itoa n) in
    let obj : IpResponse = record {
      id = append "ip-" (itoa n);
      ipaddress = "";
      networkid = form_value "networkid" form;
      job_id = job_id;
    } in
    let job = associate_job obj (append "10.0.0." (itoa n)) in
    (associating obj, record s' { jobs = insert job_id job s'.jobs })

-- The case of "disassociateIpAddress"
unfoldable pub disassociate : Form → Fake → Reply × Fake
unfolding start
disassociate form s =
    let ip_id = form_value "id" form in
    elim (lookup ip_id s.ips) [
      | none ↦ (failed 404 "disassociateIpAddressResponse", s)
      | some _ ↦ start "disassociateIpAddress" "job-ip-disassociate-" (disassociate_job ip_id) s
    ]

-- The case of "updateLoadBalancerRule"
unfoldable pub update_rule : Form → Fake → Reply × Fake
unfolding start
update_rule form s =
    let lb_name = lb_name_by_id (form_value "id" form) s in
    if str_eq lb_name ""
    then (failed 404 "updateLoadBalancerRuleResponse", s)
    else let job = update_rule_job lb_name (form_value "algorithm" form) in
      start "updateLoadBalancerRule" "job-lbrule-update-" job s

-- The place of the first pool with an id, from `at` on.
pool_place : ℕ → ℕ → List FakePool → Option ℕ
pool_place pool_id at [] = none
pool_place pool_id at (p ∷ ps) =
    let rest = pool_place pool_id (at + 1) ps in if p.id == pool_id then some at else rest

pools_named : String → Fake → Option (List FakePool)
pools_named lb_name s = elim (rule_at lb_name s) [ none ↦ none | some (_, r) ↦ some r.pools ]

-- The case of "updateGloboNetworkPool". Where there are no pools the loop finds none, with the same
-- answer.
unfoldable pub update_pool : Form → Fake → Reply × Fake
unfolding start pool_place pools_named
update_pool form s =
    let lb_name = lb_name_by_id (form_value "lbruleid" form) s in
    if str_eq lb_name ""
    then (failed 404 "updateGloboNetworkPoolResponse", s)
    else elim (pools_named lb_name s) [
      | none ↦ (panicked, s)
      | some ps ↦ elim (pool_place (atoi (form_value "poolids" form)) 0 ps) [
        | none ↦ (failed 404 "updateGloboNetworkPoolResponse", s)
        | some at ↦
            let job =
              update_pool_job lb_name at (form_value "healthchecktype" form)
                (form_value "healthcheck" form) (form_value "expectedhealthcheck" form) in
            start "updateGloboNetworkPool" "job-lbrule-pool-update-" job s
      ]
    ]

abbrev copy_field : Form → String → Dict String Value → Dict String Value
copy_field form k rule = insert k (Value.text (form_value k form)) rule

-- `strconv.ParseBool`, false for what is not a truth value
unfoldable pub parse_bool : String → Bool
parse_bool t = contains t ("1" ∷ "t" ∷ "T" ∷ "TRUE" ∷ "true" ∷ "True" ∷ [])

copy_fields : Form → PublicIpAddress → Dict String Value → Dict String Value
unfolding parse_bool
copy_fields form ip rule =
    let r1 = copy_field form "algorithm" rule in
    let r2 = copy_field form "privateport" (copy_field form "name" r1) in
    let r3 = copy_field form "networkid" (copy_field form "publicport" r2) in
    let r4 = copy_field form "protocol" (copy_field form "publicipid" r3) in
    let r5 = insert "openfirewall" (Value.flag (parse_bool (form_value "openfirewall" form))) r4 in
    let r6 = insert "publicip" (Value.text ip.ipaddress) r5 in
    let additional = form_value "additionalportmap" form in
    if str_eq additional ""
    then r6
    else insert "additionalportmap" (Value.texts (split (char 44 tt) additional)) r6

-- The rule that "createLoadBalancerRule" makes at once, from the number it got.
unfoldable pub promised_rule : ℕ → Dict String Value
promised_rule n =
    ("id", Value.text (append "lbrule-" (itoa n)))
    ∷ ("jobid", Value.text (append "job-lbrule-" (itoa n)))
    ∷ []

-- The rule is an object already, which the job will put into the map of rules.
unfoldable pub promise_rule : Form → PublicIpAddress → ℕ → Fake → Reply × Fake
unfolding copy_fields
promise_rule form ip n s =
    let r : FakeRule = record {
      rule = copy_fields form ip (promised_rule n);
      listed_tags = [];
      pools = [];
      create_lb_pool = true;
    } in
    let job = create_rule_job (form_value "name" form) (length s.objects) in
    (
      rule_promised (promised_rule n),
      record s {
        objects = s.objects ++ r ∷ [];
        jobs = insert (append "job-lbrule-" (itoa n)) job s.jobs;
      },
    )

-- The case of "createLoadBalancerRule": where the address is missing, the read of its id panics.
unfoldable pub create_rule : Form → Fake → Reply × Fake
unfolding new_id
create_rule form s = elim (lookup (form_value "name" form) s.lb_rules) [
  | some _ ↦ (failed 409 "createLoadBalancerRuleResponse", s)
  | none ↦
      let (n, s') = new_id "createLoadBalancerRule" s in
      elim (lookup (form_value "publicipid" form) s'.ips) [
        | none ↦ (panicked, s')
        | some ip ↦
            if str_eq ip.id ""
            then (failed 500 "createLoadBalancerRuleResponse", s')
            else promise_rule form ip n s'
      ]
]

-- The case of "createTags"
unfoldable pub create_tags : Form → Fake → Reply × Fake
unfolding start
create_tags form s =
    let job =
      create_tag_job (form_value "resourceids" form) (form_value "tags[0].key" form)
        (form_value "tags[0].value" form) in
    start "createTags" "job-tags-" job s

-- The ids of the machines in a query.
unfoldable pub vm_ids : Form → List String
vm_ids form =
    let vms = form_value "virtualmachineids" form in
    if str_eq vms "" then [] else split (char 44 tt) vms

-- The cases of "assignToLoadBalancerRule" and "removeFromLoadBalancerRule"
unfoldable pub assign_hosts : Form → Fake → Reply × Fake
unfolding start vm_ids
assign_hosts form s =
    start "assignToLoadBalancerRule" "job-host-assign-"
      (assign_hosts_job (form_value "id" form) (vm_ids form)) s

unfoldable pub remove_hosts : Form → Fake → Reply × Fake
unfolding start vm_ids
remove_hosts form s =
    start "removeFromLoadBalancerRule" "job-host-remove-"
      (remove_hosts_job (form_value "id" form) (vm_ids form)) s

-- The cases of "assignNetworkToLBRule", "deleteTags" and "deleteLoadBalancerRule"
unfoldable pub assign_network : Form → Fake → Reply × Fake
unfolding start
assign_network form = start "assignNetworkToLBRule" "job-net-assign-" assign_network_job

unfoldable pub remove_tags : Form → Fake → Reply × Fake
unfolding start
remove_tags form =
    start "deleteTags" "job-delete-tags-" (delete_tags_job (list_of "resourceids" form))

unfoldable pub delete_rule : Form → Fake → Reply × Fake
unfolding start
delete_rule form =
    start "deleteLoadBalancerRule" "job-delete-lb-" (delete_rule_job (form_value "id" form))
