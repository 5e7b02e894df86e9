-- ===== src/Examples/Keeper.antt =====
-- A CloudStack that keeps the machines behind its rules, and a synchronization with it.
use custom_cloudstack_ccm.Prelude.{
  ℕ, ◌-◌, ◌*◌, String, true, List, [], ◌∷◌, ◌++◌, map, keep, not, length, take, drop, contains,
  str_eq, string_eq, eq_iff, if◌then◌else◌, ◌≡◌, ◌&&◌, ◌||◌, refl, arith,
}
use custom_cloudstack_ccm.Prelude.Outcome.{Result, ok, failed, err}
use custom_cloudstack_ccm.Config.{CsCloud}
use custom_cloudstack_ccm.Cloudstack.{VirtualMachine}
use custom_cloudstack_ccm.Api.{Server, Event, History, Request}
use custom_cloudstack_ccm.Balancer.Members.{sync_nodes}
use custom_cloudstack_ccm.Balancer.Members.Contract.{
  KeepsMembers, ids, is_quiet, membership, set_members,
}
use custom_cloudstack_ccm.Balancer.Members.Refines.{sync_nodes-refines}
use custom_cloudstack_ccm.Kube.{svc_key, service_key_eq}
use custom_cloudstack_ccm.Prelude.{none, false, suc}
use custom_cloudstack_ccm.Prelude.Dict.{lookup}
use custom_cloudstack_ccm.World.{QueueEntry, World}
use custom_cloudstack_ccm.Nodes.{ids_for_nodes}
use custom_cloudstack_ccm.Queue.{work, pop}
use custom_cloudstack_ccm.Queue.Rounds.{work-refines}
use custom_cloudstack_ccm.Balancer.Rules.{get_load_balancer}
use custom_cloudstack_ccm.Examples.Data.{
  client, cloud, config, entry, idle, load_balancer, machine, node_info, rule, service, up, waiting,
}

abbrev machine_of : String → VirtualMachine
machine_of id = record machine { id = id }

-- The machines behind a rule after some calls: at first one machine behind each rule.
kept : History → String → List VirtualMachine
kept [] r = machine ∷ []
kept (Event.cloudstack c (Request.assign_to_rule rule_id hosts) ∷ h) r =
    let before = kept h r in if str_eq r rule_id then before ++ map machine_of hosts else before
kept (Event.cloudstack c (Request.remove_from_rule rule_id hosts) ∷ h) r =
    let before = kept h r in
    if str_eq r rule_id then keep (λ vm. not (contains vm.id hosts)) before else before
kept (_ ∷ h) r = kept h r

shown : History → Result (ℕ × List VirtualMachine)
unfolding kept
shown (Event.cloudstack c (Request.list_rule_instances rule_id page) ∷ h) =
    ok (length (kept h rule_id), take 50 (drop (50 * (page - 1)) (kept h rule_id)))
shown _ = err (failed "not a listing")

keeper : Server
unfolding shown
keeper = record up {
  instances = shown;
  done = λ h. ok tt;
  job_response = λ h. ok "job";
  job_result = λ h. ok "{}";
}

contains-ids :
    (a : String) (hosts : List String) → contains a (ids (map machine_of hosts)) ≡ contains a hosts
contains-ids a [] = refl
contains-ids a (b ∷ hosts) = ground (arith, contains-ids a hosts)

ids-append :
    (a : String) (xs ys : List VirtualMachine)
    → contains a (ids (xs ++ ys)) ≡ (contains a (ids xs) || contains a (ids ys))
ids-append a [] ys = refl
ids-append a (x ∷ xs) ys = ground (arith, ids-append a xs ys)

ids-keep :
    (a : String) (hosts : List String) (xs : List VirtualMachine)
    → contains a (ids (keep (λ vm. not (contains vm.id hosts)) xs))
      ≡ (contains a (ids xs) && not (contains a hosts))
ids-keep a hosts [] = refl
ids-keep a hosts (x ∷ xs) = ground (arith, eq_iff x.id a, ids-keep a hosts xs)

kept-quiet :
    (e : Event) (h : History) (r : String)
    → is_quiet "assignNetwork" e ≡ true
    → kept (e ∷ h) r ≡ kept h r
unfolding kept
kept-quiet (Event.cached c k vm) h r q = refl
kept-quiet (Event.kubernetes request) h r q = refl
kept-quiet (Event.cloudstack c (Request.assign_to_rule rule_id hosts)) h r q =
    absurd (ground (arith, q))
kept-quiet (Event.cloudstack c (Request.remove_from_rule rule_id hosts)) h r q =
    absurd (ground (arith, q))
kept-quiet (Event.cloudstack c (Request.custom _ _)) h r q = refl
kept-quiet (Event.cloudstack c (Request.list_public_ip_addresses _)) h r q = refl
kept-quiet (Event.cloudstack c (Request.list_rule_instances _ _)) h r q = refl
kept-quiet (Event.cloudstack c (Request.update_rule _ _)) h r q = refl
kept-quiet (Event.cloudstack c (Request.create_tags _ _ _ _)) h r q = refl
kept-quiet (Event.cloudstack c (Request.get_network _ _)) h r q = refl
kept-quiet (Event.cloudstack c (Request.async_job _)) h r q = refl
kept-quiet (Event.cloudstack c (Request.list_virtual_machines _ _)) h r q = refl
kept-quiet (Event.cloudstack c (Request.get_virtual_machine_by_id _ _)) h r q = refl
kept-quiet (Event.cloudstack c (Request.get_virtual_machine_by_name _ _)) h r q = refl
kept-quiet (Event.cloudstack c (Request.patch_label _ _ _ _)) h r q = refl
kept-quiet (Event.cloudstack c (Request.get_endpoints _ _)) h r q = refl
kept-quiet (Event.cloudstack c (Request.get_node _)) h r q = refl

keeper-KeepsMembers : KeepsMembers keeper client "assignNetwork"
unfolding keeper shown kept
keeper-KeepsMembers = record {
  page_size = 50;
  page_size_pos = omega arith;
  members = kept;
  lists = λ rule_id page h. refl;
  quiet = kept-quiet;
  assigns = λ rule_id hosts h. refl;
  assigned = λ rule_id hosts h r a.
      ground (arith, ids-append a (kept h r) (map machine_of hosts), contains-ids a hosts);
  removes = λ rule_id hosts h. refl;
  removed = λ rule_id hosts h r a. ground (arith, ids-keep a hosts (kept h r));
  job_of = λ h. "job";
  maps = λ params h. refl;
  result_of = λ h. "{}";
  waits = λ job_id h. refl;
}

-- The cloud, which maps networks to the rules too.
abbrev mapping : CsCloud
mapping = record (cloud true) {
  config = record config { command = record config.command { assign_networks = "assignNetwork" } };
}

sync_nodes-refines_example :
    let (r, h') = sync_nodes mapping keeper 2 load_balancer ("vm2" ∷ "vm3" ∷ []) ("net1" ∷ []) [] in
    (r ≡ ok tt)
    × ((rule_id a : String)
        → membership keeper-KeepsMembers h' rule_id a
          ≡ set_members "rule1" ("vm2" ∷ "vm3" ∷ []) (membership keeper-KeepsMembers []) rule_id a)
unfolding custom_cloudstack_ccm.Balancer.Client.get_client kept keeper-KeepsMembers
sync_nodes-refines_example =
    sync_nodes-refines mapping keeper-KeepsMembers load_balancer rule refl refl ("vm2" ∷ "vm3" ∷ [])
      ("net1" ∷ []) [] (refl, tt)

-- The update of a service that waits for its members alone.
abbrev members_only : QueueEntry
members_only = record entry { update_pool = false }

abbrev due : World
due = record waiting { queue = (svc_key service, members_only) ∷ [] }

abbrev looked : History
looked = (get_load_balancer mapping keeper service "p1" ("net1" ∷ []) []).1

work-refines_example :
    let w'' = work mapping keeper (suc (length (kept looked "rule1"))) 7 60 8 9 due in
    ((rule_id a : String)
      → membership keeper-KeepsMembers w''.history rule_id a
        ≡ set_members "rule1"
            (ids_for_nodes (node_info ∷ [])).0
            (membership keeper-KeepsMembers looked)
            rule_id
            a)
    × (lookup (svc_key service) w''.queue ≡ none)
unfolding keeper-KeepsMembers pop svc_key custom_cloudstack_ccm.Nodes.nodes_for_service
    custom_cloudstack_ccm.Config.environment_for_meta
    custom_cloudstack_ccm.Kube.get_label_or_annotation custom_cloudstack_ccm.Config.project_for_meta
    get_load_balancer custom_cloudstack_ccm.Balancer.Client.get_client
    custom_cloudstack_ccm.Balancer.Rules.get_load_balancer_rule
    custom_cloudstack_ccm.Balancer.Rules.get_load_balancer_rule_by_name
    custom_cloudstack_ccm.Config.get_load_balancer_name ids_for_nodes
    custom_cloudstack_ccm.Tags.should_manage_lb custom_cloudstack_ccm.Tags.get_tag
work-refines_example =
    work-refines mapping keeper-KeepsMembers 7 60 8 9 due idle members_only (node_info ∷ [])
      load_balancer rule looked refl refl refl refl refl refl refl refl (refl, tt)
