-- ===== src/Balancer/Members/Refines.antt =====
-- Synchronizing on a server that keeps its promises.
use custom_cloudstack_ccm.Prelude.{
  ℕ, suc, String, some, List, [], ◌∷◌, length, take, drop, ◌*◌, ◌-◌, contains, str_eq, string_eq,
  eq_iff, ◌≡◌, refl, arith, Distinct, ◌&&◌, ◌||◌, not, ◌∙◌, ap,
}
use custom_cloudstack_ccm.Prelude.Outcome.{ok}
use custom_cloudstack_ccm.Config.{CsCloud, Client}
use custom_cloudstack_ccm.Cloudstack.{LoadBalancer, LoadBalancerRule, VirtualMachine}
use custom_cloudstack_ccm.Hosts.{symmetric_difference}
use custom_cloudstack_ccm.Hosts.Laws.{symmetric_difference_lem}
use custom_cloudstack_ccm.Pages.{Fetch, list_all_pages}
use custom_cloudstack_ccm.Pages.Fetch.{list_all_pages-stored}
use custom_cloudstack_ccm.Pages.Agree.{list_all_pages-agree}
use custom_cloudstack_ccm.Api.{
  Params, Value, custom, async_job, Server, Api, History, cloudstack, list_rule_instances,
}
use custom_cloudstack_ccm.Balancer.Client.{cloud_of, get_client, await, set_project}
use custom_cloudstack_ccm.Balancer.Members.{
  sync_nodes, instance_page, add_hosts, drop_hosts, assign_hosts_to_rule, remove_hosts_from_rule,
  await_mapping, assign_network_to_rule, assign_networks_to_rule, assign_each_network,
}
use custom_cloudstack_ccm.Balancer.Members.Contract.{
  KeepsMembers, ids, membership, set_members, Membership,
}

module _ (cs : CsCloud) {srv : Server} {client : Client}
    (k : KeepsMembers srv client cs.config.command.assign_networks) (lb : LoadBalancer)
    (rule : LoadBalancerRule) (known : get_client cs (cloud_of lb) ≡ ok client)
    (has : lb.rule ≡ some rule) where
  -- The code succeeds, and afterwards the rules have the given machines.
  abbrev Makes : Membership → Api (Unit {0}) → History → Type 0
  Makes m code h = ((code h).0 ≡ ok tt) × ((r a : String) → membership k (code h).1 r a ≡ m r a)

  abbrev Unchanged : History → History → Type 0
  Unchanged h h' = (r : String) → k.members h' r ≡ k.members h r

  -- The pages of the machines that the rule has in a history, whatever was called since.
  abbrev page_in : History → Fetch VirtualMachine
  page_in h page h' = (
    ok (
      length (k.members h rule.id),
      take k.page_size (drop (k.page_size * (page - 1)) (k.members h rule.id)),
    ),
    cloudstack client (list_rule_instances rule.id page) ∷ h',
  )

  instance_page-agree :
      (h : History) (page : ℕ) (h' : History)
      → Unchanged h h'
      → (instance_page cs srv client rule.id page h' ≡ page_in h page h')
        × Unchanged h (instance_page cs srv client rule.id page h').1
  instance_page-agree h page h' u = (
    ground (arith, k.lists rule.id page h', u rule.id),
    λ r. ground (arith, k.quiet (cloudstack client (list_rule_instances rule.id page)) h' r, u r),
  )

  listed :
      (h : History)
      → Distinct (ids (k.members h rule.id))
      → let (r, h') =
          list_all_pages
            (λ vm. vm.id)
            (suc (length (k.members h rule.id)))
            (instance_page cs srv client rule.id)
            h in
        (r ≡ ok (k.members h rule.id)) × Unchanged h h'
  listed h d =
      let fuel = suc (length (k.members h rule.id)) in
      let (same, unchanged) =
        list_all_pages-agree (instance_page cs srv client rule.id) (page_in h) (Unchanged h)
          (instance_page-agree h) (λ vm. vm.id) fuel h (λ r. refl) in
      let stored =
        list_all_pages-stored (page_in h) k.page_size (k.members h rule.id) (λ page h'. refl)
          (λ vm. vm.id) h k.page_size_pos d in
      (ground (arith, same, stored), unchanged)

  assign_hosts_to_rule-Makes :
      (hosts : List String) (h : History)
      → Makes
          (λ r a. membership k h r a || (str_eq r rule.id && contains a hosts))
          (assign_hosts_to_rule cs srv lb hosts)
          h
  unfolding assign_hosts_to_rule
  assign_hosts_to_rule-Makes hosts h = (
    ground (arith, known, has, k.assigns rule.id hosts h),
    λ r a. ground (arith, known, has, k.assigns rule.id hosts h, k.assigned rule.id hosts h r a),
  )

  remove_hosts_from_rule-Makes :
      (hosts : List String) (h : History)
      → Makes
          (λ r a. membership k h r a && not (str_eq r rule.id && contains a hosts))
          (remove_hosts_from_rule cs srv lb hosts)
          h
  unfolding remove_hosts_from_rule
  remove_hosts_from_rule-Makes hosts h = (
    ground (arith, known, has, k.removes rule.id hosts h),
    λ r a. ground (arith, known, has, k.removes rule.id hosts h, k.removed rule.id hosts h r a),
  )

  -- The code succeeds, and changes no machines.
  abbrev IsQuiet : Api (Unit {0}) → History → Type 0
  IsQuiet code h = ((code h).0 ≡ ok tt) × Unchanged h (code h).1

  await_mapping-IsQuiet :
      (job_id : String) (h : History) → IsQuiet (await_mapping cs srv client job_id) h
  unfolding await_mapping await
  await_mapping-IsQuiet job_id h = (
    ground (arith, k.waits job_id h),
    λ r. ground (arith, k.waits job_id h, k.quiet (cloudstack client (async_job job_id)) h r),
  )

  abbrev mapping : String → Params
  mapping network_id =
      ("networkids", Value.texts (network_id ∷ []))
      ∷ ("id", Value.text rule.id)
      ∷ set_project lb.project_id []

  assign_network_to_rule-IsQuiet :
      (network_id : String) (h : History) → IsQuiet (assign_network_to_rule cs srv lb network_id) h
  unfolding assign_network_to_rule
  assign_network_to_rule-IsQuiet network_id h =
      let command = cs.config.command.assign_networks in
      let asked = cloudstack client (custom command (mapping network_id)) in
      let answer = k.maps (mapping network_id) h in
      let (done, unchanged) = await_mapping-IsQuiet (k.job_of (asked ∷ h)) (asked ∷ h) in
      (
        ground (arith, known, has, answer, done),
        λ r.
            ground
              (arith, known, has, answer, unchanged r, k.quiet asked h r, eq_iff command command),
      )

  assign_each_network-IsQuiet :
      (network_ids : List String) (h : History)
      → IsQuiet (assign_each_network cs srv lb network_ids) h
  unfolding assign_each_network
  assign_each_network-IsQuiet [] h = (refl, λ r. refl)
  assign_each_network-IsQuiet (n ∷ ns) h =
      let (done, unchanged) = assign_network_to_rule-IsQuiet n h in
      let (done', unchanged') =
        assign_each_network-IsQuiet ns (assign_network_to_rule cs srv lb n h).1 in
      (ground (arith, done, done'), λ r. ground (arith, done, unchanged r, unchanged' r))

  assign_networks_to_rule-IsQuiet :
      (network_ids : List String) (h : History)
      → IsQuiet (assign_networks_to_rule cs srv lb network_ids) h
  unfolding assign_networks_to_rule
  assign_networks_to_rule-IsQuiet ns h =
      let (done, unchanged) = assign_each_network-IsQuiet ns h in
      (ground (arith, done), λ r. ground (arith, unchanged r))

  add_hosts-Makes :
      (network_ids hosts : List String) (h : History)
      → Makes
          (λ r a. membership k h r a || (str_eq r rule.id && contains a hosts))
          (add_hosts cs srv lb network_ids hosts)
          h
  unfolding add_hosts
  add_hosts-Makes ns [] h = (refl, λ r a. ground arith)
  add_hosts-Makes ns (b ∷ bs) h =
      let (done, unchanged) = assign_networks_to_rule-IsQuiet ns h in
      let (done', made) =
        assign_hosts_to_rule-Makes (b ∷ bs) (assign_networks_to_rule cs srv lb ns h).1 in
      (ground (arith, done, done'), λ r a. ground (arith, done, unchanged r, made r a))

  drop_hosts-Makes :
      (hosts : List String) (h : History)
      → Makes
          (λ r a. membership k h r a && not (str_eq r rule.id && contains a hosts))
          (drop_hosts cs srv lb hosts)
          h
  unfolding drop_hosts
  drop_hosts-Makes [] h = (refl, λ r a. ground arith)
  drop_hosts-Makes (b ∷ bs) h = remove_hosts_from_rule-Makes (b ∷ bs) h

  -- On a server that keeps its promises, and where no machine is behind the rule twice, synchronizing
  -- the nodes succeeds and refines the abstract operation: the rule of the load balancer then has
  -- exactly the given hosts, and every other rule has the machines it had. One round more than there
  -- are machines is enough fuel for the listing.
  pub sync_nodes-refines :
      (host_ids network_ids : List String) (h : History)
      → Distinct (ids (k.members h rule.id))
      → let fuel = suc (length (k.members h rule.id)) in
        let (r, h') = sync_nodes cs srv fuel lb host_ids network_ids h in
        (r ≡ ok tt)
        × ((rule_id a : String)
            → membership k h' rule_id a ≡ set_members rule.id host_ids (membership k h) rule_id a)
  unfolding sync_nodes
  sync_nodes-refines host_ids ns h d =
      let fuel = suc (length (k.members h rule.id)) in
      let diff = symmetric_difference host_ids (ids (k.members h rule.id)) in
      let (shown, unchanged) = listed h d in
      let h1 = (list_all_pages (λ vm. vm.id) fuel (instance_page cs srv client rule.id) h).1 in
      let (added, with_new) = add_hosts-Makes ns diff.0 h1 in
      let h2 = (add_hosts cs srv lb ns diff.0 h1).1 in
      let (dropped, without_old) = drop_hosts-Makes diff.1 h2 in
      let path : sync_nodes cs srv fuel lb host_ids ns h ≡ drop_hosts cs srv lb diff.1 h2 =
        ground (arith, known, has, shown, added) in
      (
        ap (λ x. x.0) path ∙ dropped,
        λ r a.
            ap (λ x. membership k x.1 r a) path
            ∙ without_old r a
            ∙ ground (
              arith,
              with_new r a,
              unchanged r,
              symmetric_difference_lem host_ids (ids (k.members h rule.id)) d a,
              eq_iff r rule.id,
            ),
      )
