-- ===== src/Fake/Hosts.antt =====
-- The hosts that the test server keeps for each rule.
use custom_cloudstack_ccm.Prelude.{
  String, some, List, ◌++◌, str_eq, eq_iff, string_eq, ◌≡◌, refl, sym, ap, ◌∙◌, ◌+◌, arith,
  if◌then◌else◌, contains, keep, not,
}
use custom_cloudstack_ccm.Prelude.Dict.{Dict, lookup, insert, lookup-insert}
use custom_cloudstack_ccm.Prelude.Text.{append, itoa}
use custom_cloudstack_ccm.Hosts.Laws.{hosts_after}
use custom_cloudstack_ccm.Fake.{
  Fake, Form, Job, count_of, assign_hosts_job, remove_hosts_job, form_value, list_of,
}
use custom_cloudstack_ccm.Fake.Jobs.{run_job, finished}
use custom_cloudstack_ccm.Fake.Listings.{Reply, started, job_result}
use custom_cloudstack_ccm.Fake.Orders.{start, assign_hosts, remove_hosts, vm_ids}
use custom_cloudstack_ccm.Fake.Serve.{query_job, answer_of}

list_of-insert :
    {A : Type 0} (k j : String) (l : List A) (m : Dict String (List A))
    → list_of j (insert k l m) ≡ (if str_eq k j then l else list_of j m)
list_of-insert k j l m = ground (arith, lookup-insert k j l m)

lookup-insert_same :
    {V : Type 0} (k j : String) (v : V) (m : Dict String V)
    → k ≡ j
    → lookup j (insert k v m) ≡ some v
lookup-insert_same k j v m e = ground (arith, lookup-insert k j v m, eq_iff k j)

text_of : Reply → String
text_of (started t) = t
text_of _ = ""

vms-start : (cmd prefix : String) (job : Job) (s : Fake) → (start cmd prefix job s).1.vms ≡ s.vms
unfolding start
vms-start cmd prefix job s = refl

-- The query for a job that was just started runs it.
pub query_job-start :
    (cmd prefix job_id : String) (job : Job) (form : Form) (s : Fake)
    → (start cmd prefix job s).0 ≡ started job_id
    → form_value "jobid" form ≡ job_id
    → let s' = (start cmd prefix job s).1 in query_job form s' ≡ answer_of (run_job job s') s'
unfolding start query_job text_of custom_cloudstack_ccm.Fake.new_id
query_job-start cmd prefix job_id job form s e f =
    let n = count_of cmd s.idx + 1 in
    let found =
      lookup-insert_same (append prefix (itoa n)) (form_value "jobid" form) job s.jobs
        (ap text_of e ∙ sym f) in
    ground (arith, found)

-- The hosts of the rules once an order was given and its job queried.
abbrev pub vms_after : Reply × Fake → Form → String → List String
vms_after (reply, s) form r = list_of r (query_job form s).1.vms

module _ (form query : Form) (s : Fake) (job_id r : String)
    (asked : form_value "jobid" query ≡ job_id) where
  vms_after-assign_hosts :
      (assign_hosts form s).0 ≡ started job_id
      → ((query_job query (assign_hosts form s).1).0 ≡ job_result finished)
        × (vms_after (assign_hosts form s) query r ≡ (
            if str_eq (form_value "id" form) r
            then list_of r s.vms ++ vm_ids form
            else list_of r s.vms))
  unfolding assign_hosts run_job
  vms_after-assign_hosts e =
      let rule_id = form_value "id" form in
      let job = assign_hosts_job rule_id (vm_ids form) in
      let ran = query_job-start _ _ job_id job query s e asked in
      let l = list_of rule_id s.vms ++ vm_ids form in
      (
        ap (λ x. x.0) ran,
        ap (λ x. list_of r x.1.vms) ran
            ∙ ground (arith, list_of-insert rule_id r l s.vms, eq_iff rule_id r),
      )

  vms_after-remove_hosts :
      (remove_hosts form s).0 ≡ started job_id
      → ((query_job query (remove_hosts form s).1).0 ≡ job_result finished)
        × (vms_after (remove_hosts form s) query r ≡ (
            if str_eq (form_value "id" form) r
            then keep (λ id. not (contains id (vm_ids form))) (list_of r s.vms)
            else list_of r s.vms))
  unfolding remove_hosts run_job
  vms_after-remove_hosts e =
      let rule_id = form_value "id" form in
      let job = remove_hosts_job rule_id (vm_ids form) in
      let ran = query_job-start _ _ job_id job query s e asked in
      let l = keep (λ id. not (contains id (vm_ids form))) (list_of rule_id s.vms) in
      (
        ap (λ x. x.0) ran,
        ap (λ x. list_of r x.1.vms) ran
            ∙ ground (arith, list_of-insert rule_id r l s.vms, eq_iff rule_id r),
      )

-- An order to assign hosts to a rule and then one to remove hosts from it, each followed by the query
-- for its job: both queries succeed, the rule has the hosts that the two changes leave, and the other
-- rules have the hosts they had.
pub assign_then_remove :
    (adding query dropping query' : Form) (s : Fake) (job_id job_id' : String)
    → let ordered = assign_hosts adding s in
      let ran = query_job query ordered.1 in
      let ordered' = remove_hosts dropping ran.1 in
      let ran' = query_job query' ordered'.1 in
      ordered.0 ≡ started job_id
      → form_value "jobid" query ≡ job_id
      → ordered'.0 ≡ started job_id'
      → form_value "jobid" query' ≡ job_id'
      → form_value "id" dropping ≡ form_value "id" adding
      → (ran.0 ≡ job_result finished)
        × (ran'.0 ≡ job_result finished)
        × ((r : String)
            → list_of r ran'.1.vms ≡ (
                if str_eq (form_value "id" adding) r
                then hosts_after (list_of r s.vms) (vm_ids adding, vm_ids dropping)
                else list_of r s.vms))
assign_then_remove adding query dropping query' s job_id job_id' e q e' q' same =
    let s1 = (query_job query (assign_hosts adding s).1).1 in
    (
      (vms_after-assign_hosts adding query s job_id "" q e).0,
      (vms_after-remove_hosts dropping query' s1 job_id' "" q' e').0,
      λ r. ground (
        arith,
        same,
        (vms_after-assign_hosts adding query s job_id r q e).1,
        (vms_after-remove_hosts dropping query' s1 job_id' r q' e').1,
      ),
    )
