-- ===== src/Balancer/Members/Contract.antt =====
-- What CloudStack promises of the machines behind a rule: which requests change them, and what a
-- listing shows.
use custom_cloudstack_ccm.Prelude.{
  ℕ, ◌<◌, ◌*◌, ◌-◌, String, Bool, true, false, List, ◌∷◌, map, length, take, drop, contains, str_eq,
  string_eq, ◌≡◌, ◌&&◌, ◌||◌, not, if◌then◌else◌,
}
use custom_cloudstack_ccm.Prelude.Outcome.{ok}
use custom_cloudstack_ccm.Config.{Client}
use custom_cloudstack_ccm.Cloudstack.{VirtualMachine}
use custom_cloudstack_ccm.Api.{
  Server, Event, History, Params, Request, cloudstack, custom, assign_to_rule, remove_from_rule,
  list_rule_instances, async_job,
}

abbrev pub ids : List VirtualMachine → List String
ids vms = map (λ vm. vm.id) vms

-- The calls of a synchronization that cannot change the machines behind a rule: the listing, the
-- command that maps a network to a rule, and the query for a job.
abbrev pub is_quiet : String → Event → Bool
is_quiet map_command (Event.cloudstack _ (Request.list_rule_instances _ _)) = true
is_quiet map_command (Event.cloudstack _ (Request.custom command _)) = str_eq command map_command
is_quiet map_command (Event.cloudstack _ (Request.async_job _)) = true
is_quiet map_command _ = false

-- A server that keeps the machines behind each rule, and does what a synchronization asks it to. The
-- command that maps a network to a rule is the configuration's. Nothing is said of other requests,
-- such as the deletion of a rule.
pub record KeepsMembers (srv : Server) (client : Client) (map_command : String) : Type 0 where
  pub page_size : ℕ
  pub page_size_pos : 0 < page_size
  pub members : History → String → List VirtualMachine
  pub lists :
      (rule_id : String) (page : ℕ) (h : History)
      → srv.instances (cloudstack client (list_rule_instances rule_id page) ∷ h)
        ≡ ok (
          length (members h rule_id),
          take page_size (drop (page_size * (page - 1)) (members h rule_id)),
        )
  pub quiet :
      (e : Event) (h : History) (r : String)
      → is_quiet map_command e ≡ true
      → members (e ∷ h) r ≡ members h r
  pub assigns :
      (rule_id : String) (hosts : List String) (h : History)
      → srv.done (cloudstack client (assign_to_rule rule_id hosts) ∷ h) ≡ ok tt
  pub assigned :
      (rule_id : String) (hosts : List String) (h : History) (r a : String)
      → contains a (ids (members (cloudstack client (assign_to_rule rule_id hosts) ∷ h) r))
        ≡ (contains a (ids (members h r)) || (str_eq r rule_id && contains a hosts))
  pub removes :
      (rule_id : String) (hosts : List String) (h : History)
      → srv.done (cloudstack client (remove_from_rule rule_id hosts) ∷ h) ≡ ok tt
  pub removed :
      (rule_id : String) (hosts : List String) (h : History) (r a : String)
      → contains a (ids (members (cloudstack client (remove_from_rule rule_id hosts) ∷ h) r))
        ≡ (contains a (ids (members h r)) && not (str_eq r rule_id && contains a hosts))
  pub job_of : History → String
  pub maps :
      (params : Params) (h : History)
      → srv.job_response (cloudstack client (custom map_command params) ∷ h)
        ≡ ok (job_of (cloudstack client (custom map_command params) ∷ h))
  pub result_of : History → String
  pub waits :
      (job_id : String) (h : History)
      → srv.job_result (cloudstack client (async_job job_id) ∷ h)
        ≡ ok (result_of (cloudstack client (async_job job_id) ∷ h))

-- The abstract state: which machines each rule has, without their order or how often they are there.
abbrev pub Membership : Type 0
Membership = String → String → Bool

-- The abstract operation: a rule gets the given machines, and no other rule changes.
abbrev pub set_members : String → List String → Membership → Membership
set_members rule_id hosts m r a = if str_eq r rule_id then contains a hosts else m r a

module _ {srv : Server} {client : Client} {map_command : String}
    (k : KeepsMembers srv client map_command) where
  -- What the abstract state is after some calls.
  abbrev pub membership : History → Membership
  membership h r a = contains a (ids (k.members h r))
