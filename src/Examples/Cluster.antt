-- ===== src/Examples/Cluster.antt =====
-- The theorems on load balancers, at work.
use custom_cloudstack_ccm.Prelude.{
  str_eq, true, false, none, some, [], ◌∷◌, ◌≡◌, refl, inl, inr, ◌⊎◌, string_eq,
}
use custom_cloudstack_ccm.Prelude.Outcome.{ok, err, Error}
use custom_cloudstack_ccm.Kube.{ServiceKey, service_key_eq, svc_key}
use custom_cloudstack_ccm.Config.{environment_for_meta, is_lb_removal_enabled}
use custom_cloudstack_ccm.Cloudstack.{LoadBalancer, LoadBalancerRule, CloudstackIp}
use custom_cloudstack_ccm.Tags.{should_manage_lb}
use custom_cloudstack_ccm.Api.{Server, Event, Value, cloudstack, list_public_ip_addresses}
use custom_cloudstack_ccm.Trace.{Adds}
use custom_cloudstack_ccm.Prelude.Outcome.{failed}
use custom_cloudstack_ccm.Config.{project_for_meta}
use custom_cloudstack_ccm.Cloudstack.{is_valid, PublicIpAddress}
use custom_cloudstack_ccm.Kube.{Service}
use custom_cloudstack_ccm.Api.{custom}
use custom_cloudstack_ccm.Balancer.Addresses.{release_ip_if_managed}
use custom_cloudstack_ccm.Balancer.Rules.{update_load_balancer_ip}
use custom_cloudstack_ccm.Balancer.Rules.Moving.{update_load_balancer_ip_lem}
use custom_cloudstack_ccm.Balancer.Calls.{UsesClient}
use custom_cloudstack_ccm.Balancer.Client.{ProjectCloud, cloud_of, set_default_tags}
use custom_cloudstack_ccm.Balancer.Addresses.{
  release_load_balancer_ip, status_or_new_ip, get_load_balancer_ip,
}
use custom_cloudstack_ccm.Balancer.Addresses.Rollback.{get_load_balancer_ip_rollback}
use custom_cloudstack_ccm.Balancer.Rules.{get_load_balancer, delete_load_balancer_rule}
use custom_cloudstack_ccm.Balancer.Members.{sync_nodes}
use custom_cloudstack_ccm.Controller.{ensure_calls, ensure_load_balancer_deleted}
use custom_cloudstack_ccm.Controller.Ensure.{ensure_calls_unmanaged, IsKubernetes}
use custom_cloudstack_ccm.Controller.Calls.{
  ensure_load_balancer_deleted-UsesClient, ensure_load_balancer_deleted_kept,
  ensure_load_balancer_deleted_lem,
}
use custom_cloudstack_ccm.Examples.Data.{cloud, client, service, up, down, load_balancer, rule}

-- The query by tags of the service.
abbrev asked_tags : Event
asked_tags = cloudstack client (
    list_public_ip_addresses (
      ("listall", Value.flag true)
      ∷ ("tags", Value.texts ("kubernetes_service" ∷ "web" ∷ []))
      ∷ ("pagesize", Value.number 50)
      ∷ ("projectid", Value.text "p1")
      ∷ ("page", Value.number 1)
      ∷ []))

abbrev new_ip : CloudstackIp
new_ip = record { id = "ip2"; address = "10.0.0.2"; networkid = "net1" }

ensure_load_balancer_deleted-UsesClient_example :
    Adds
      (UsesClient (cloud true) (environment_for_meta (cloud true) service.meta))
      []
      (ensure_load_balancer_deleted (cloud true) up (some service) []).1
ensure_load_balancer_deleted-UsesClient_example =
    ensure_load_balancer_deleted-UsesClient (cloud true) up service []

ensure_load_balancer_deleted_kept_example :
    ensure_load_balancer_deleted (cloud false) up (some service) []
    ≡ (ok tt, (get_load_balancer (cloud false) up service "" [] []).1)
unfolding get_load_balancer is_lb_removal_enabled custom_cloudstack_ccm.Balancer.Client.get_client
    environment_for_meta custom_cloudstack_ccm.Kube.get_label_or_annotation
    custom_cloudstack_ccm.Balancer.Rules.get_load_balancer_rule
    custom_cloudstack_ccm.Balancer.Rules.get_load_balancer_rule_by_name
    custom_cloudstack_ccm.Config.get_load_balancer_name
    custom_cloudstack_ccm.Config.project_for_meta
ensure_load_balancer_deleted_kept_example =
    ensure_load_balancer_deleted_kept (cloud false) up service [] load_balancer refl
      (inr (inl refl))

ensure_load_balancer_deleted_lem_example :
    let h' = (get_load_balancer (cloud true) down service "" [] []).1 in
    let (r, h'') = delete_load_balancer_rule (cloud true) down load_balancer h' in
    let result = ensure_load_balancer_deleted (cloud true) down (some service) [] in
    ((e : Error) × (r ≡ err e) × (result ≡ (err e, h'')))
    ⊎ ((r ≡ ok (record load_balancer { rule = none }))
        × (load_balancer.ip.id ≡ "")
        × (result ≡ (ok tt, h'')))
    ⊎ ((r ≡ ok (record load_balancer { rule = none }))
        × (str_eq load_balancer.ip.id "" ≡ false)
        × (result
            ≡ release_ip_if_managed
                (cloud true)
                down
                (cloud_of load_balancer)
                load_balancer.ip
                service
                h''))
unfolding get_load_balancer is_lb_removal_enabled should_manage_lb delete_load_balancer_rule
    custom_cloudstack_ccm.Balancer.Client.get_client environment_for_meta
    custom_cloudstack_ccm.Kube.get_label_or_annotation
    custom_cloudstack_ccm.Balancer.Rules.get_load_balancer_rule
    custom_cloudstack_ccm.Balancer.Rules.get_load_balancer_rule_by_name
    custom_cloudstack_ccm.Config.get_load_balancer_name
    custom_cloudstack_ccm.Config.project_for_meta custom_cloudstack_ccm.Tags.get_tag
ensure_load_balancer_deleted_lem_example =
    ensure_load_balancer_deleted_lem (cloud true) down service []
      (get_load_balancer (cloud true) down service "" [] []).1 load_balancer rule refl refl refl
      refl

get_load_balancer_ip_rollback_example :
    let pc : ProjectCloud = cloud_of load_balancer in
    let h3 = (status_or_new_ip (cloud true) down pc service "net1" none (asked_tags ∷ [])).1 in
    let tagged = set_default_tags down (cloud true) pc "PublicIpAddress" "ip2" service h3 in
    let result = get_load_balancer_ip (cloud true) down 3 pc service "net1" [] in
    ((tagged.0 ≡ ok tt) × (result ≡ (ok new_ip, tagged.1)))
    ⊎ ((e : Error) × (x : Error) × (tagged.0 ≡ err e)
        × (result.0 ≡ err x)
        × (result.1 ≡ (release_load_balancer_ip (cloud true) down pc new_ip tagged.1).1))
unfolding custom_cloudstack_ccm.Balancer.Addresses.try_public_ip_address_by_tags
    custom_cloudstack_ccm.Balancer.Client.get_client custom_cloudstack_ccm.Pages.list_all_pages
    custom_cloudstack_ccm.Balancer.Addresses.status_ip
    custom_cloudstack_ccm.Balancer.Addresses.associate_public_ip_address
get_load_balancer_ip_rollback_example =
    get_load_balancer_ip_rollback (cloud true) down 3 (cloud_of load_balancer) service "net1" []
      (asked_tags ∷ []) (asked_tags ∷ []) none new_ip refl refl refl refl

-- A load balancer that another provider's tag keeps from the service.
abbrev foreign_rule : LoadBalancerRule
foreign_rule = record rule { tags = record { key = "cloudprovider-ignore"; value = "1" } ∷ [] }

abbrev foreign : Server
foreign = record up { rules = λ h. ok (1, foreign_rule ∷ []) }

-- A service without the label of its project, which is put on it.
abbrev unlabelled : Service
unlabelled = record service { meta = record service.meta { labels = some (("color", "red") ∷ []) } }

abbrev foreign_balancer : LoadBalancer
foreign_balancer = record load_balancer { rule = some foreign_rule; service = unlabelled }

abbrev rules_asked : Event
rules_asked = cloudstack client (
    custom "listLoadBalancerRules" (
      ("keyword", Value.text "web.example")
      ∷ ("listall", Value.flag true)
      ∷ ("projectid", Value.text "p1")
      ∷ []))

ensure_calls_unmanaged_example :
    let (r, h'') = ensure_calls (cloud true) foreign 3 unlabelled ("net1" ∷ []) "p1" [] in
    ((x : Error) × (r ≡ err x)) × Adds IsKubernetes (rules_asked ∷ []) h''
unfolding get_load_balancer custom_cloudstack_ccm.Balancer.Client.get_client environment_for_meta
    custom_cloudstack_ccm.Kube.get_label_or_annotation
    custom_cloudstack_ccm.Balancer.Rules.get_load_balancer_rule
    custom_cloudstack_ccm.Balancer.Rules.get_load_balancer_rule_by_name
    custom_cloudstack_ccm.Config.get_load_balancer_name
    custom_cloudstack_ccm.Balancer.Members.set_algorithm should_manage_lb
    custom_cloudstack_ccm.Tags.get_tag
ensure_calls_unmanaged_example =
    ensure_calls_unmanaged (cloud true) foreign 3 unlabelled ("net1" ∷ []) "p1" []
      (rules_asked ∷ []) foreign_balancer (failed "should not manage %v, tag %q is set") refl refl

-- A server that has the address that the service asks for.
abbrev wanted : PublicIpAddress
wanted = record { id = "ip3"; ipaddress = "10.0.0.3"; networkid = "net1"; tags = [] }

abbrev with_wanted : Server
with_wanted = record up { addresses = λ h. ok (1, wanted ∷ []) }

abbrev moving : LoadBalancer
moving = record load_balancer { service = record service { load_balancer_ip = "10.0.0.3" } }

abbrev wanted_ip : CloudstackIp
wanted_ip = record { id = "ip3"; address = "10.0.0.3"; networkid = "net1" }

abbrev ip_asked : Event
ip_asked = cloudstack client (
    list_public_ip_addresses (
      ("ipaddress", Value.text "10.0.0.3")
      ∷ ("listall", Value.flag true)
      ∷ ("projectid", Value.text "p1")
      ∷ []))

update_load_balancer_ip_lem_example :
    let deletion =
      delete_load_balancer_rule
        (cloud true)
        with_wanted
        (record moving { ip = wanted_ip })
        (ip_asked ∷ []) in
    ((e : Error)
      → deletion.0 ≡ err e
      → update_load_balancer_ip (cloud true) with_wanted moving [] ≡ (err e, deletion.1))
    × ((lb' : LoadBalancer)
        → deletion.0 ≡ ok lb'
        → is_valid moving.ip ≡ true
        → (update_load_balancer_ip (cloud true) with_wanted moving []).1
          ≡ (release_ip_if_managed
              (cloud true)
              with_wanted
              (cloud_of lb')
              moving.ip
              lb'.service
              deletion.1).1)
    × ((lb' : LoadBalancer)
        → deletion.0 ≡ ok lb'
        → is_valid moving.ip ≡ false
        → update_load_balancer_ip (cloud true) with_wanted moving [] ≡ (ok lb', deletion.1))
unfolding custom_cloudstack_ccm.Balancer.Addresses.get_public_ip_address_by_ip
    custom_cloudstack_ccm.Balancer.Client.get_client
update_load_balancer_ip_lem_example =
    update_load_balancer_ip_lem (cloud true) with_wanted moving rule wanted_ip [] (ip_asked ∷ [])
      refl refl
