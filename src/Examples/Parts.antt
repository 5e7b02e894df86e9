-- ===== src/Examples/Parts.antt =====
-- The theorems on tags, ports, pages, hosts, pools, endpoints, machines and provider ids, at work.
use custom_cloudstack_ccm.Prelude.{
  ◌≤◌, String, true, false, none, some, List, [], ◌∷◌, map, ◌≡◌, ◌≢◌, refl, ◌⊎◌, All, contains,
  string_eq, arith, eq_iff, ◌&&◌, length, str_eq, take, drop, ◌*◌, ◌-◌,
}
use custom_cloudstack_ccm.Prelude.Outcome.{ok, err, out_of_fuel}
use custom_cloudstack_ccm.Kube.{ServiceKey, service_key_eq, Service, svc_key}
use custom_cloudstack_ccm.Cloudstack.{Tag, PublicIpAddress, GloboNetworkPool}
use custom_cloudstack_ccm.Tags.{
  tags_for_service, match_all_tags, should_manage_ip, has_missing_tags, get_tag,
}
use custom_cloudstack_ccm.Tags.Match.{match_all_tags-should_manage_ip, match_all_tags-blank}
use custom_cloudstack_ccm.Tags.Manage.{should_manage_lb_unique}
use custom_cloudstack_ccm.Machines.Key.{vm_cache_key_inj}
use custom_cloudstack_ccm.Pages.{Fetch, list_all_pages}
use custom_cloudstack_ccm.Pages.Fetch.{list_all_pages-stored, list_all_pages-ne-out_of_fuel}
use custom_cloudstack_ccm.Ports.{LbPorts, LbPortInfo, public_port, sort_ports, service_to_lb_ports}
use custom_cloudstack_ccm.Ports.Laws.{service_to_lb_ports_lem}
use custom_cloudstack_ccm.Endpoints.{
  Endpoints, endpoints_key, update_endpoints_nodes, nodes_containing_service,
}
use custom_cloudstack_ccm.Endpoints.Laws.{nodes_containing_service-update_endpoints_nodes}
use custom_cloudstack_ccm.Balancer.Pools.{generate_globo_network_pool}
use custom_cloudstack_ccm.Balancer.Pools.Choice.{
  generate_globo_network_pool_lem, Changed, Check, IsWanted, IsSettled,
}
use custom_cloudstack_ccm.Prelude.{Bool, false}
use custom_cloudstack_ccm.Prelude.Outcome.{Error, err, ok}
use custom_cloudstack_ccm.Kube.{Service, service_key_beq}
use custom_cloudstack_ccm.Tags.{should_manage_lb}
use custom_cloudstack_ccm.Examples.Data.{
  service, port, up, load_balancer, rule, registry, node_info, tags,
}

abbrev address : List Tag → PublicIpAddress
address tags = record { id = "ip1"; ipaddress = "10.0.0.1"; networkid = "net1"; tags = tags }

match_all_tags-should_manage_ip_example :
    match_all_tags tags (tags_for_service service) ≡ should_manage_ip (address tags) service
match_all_tags-should_manage_ip_example =
    match_all_tags-should_manage_ip (address tags) service (record {
      distinct = (refl, (refl, (refl, tt)));
      filled = (
        λ e. ground (arith, e, eq_iff "custom-cloudstack" ""),
        (λ e. ground (arith, e, eq_iff "web" ""), (λ e. ground (arith, e, eq_iff "ns" ""), tt)),
      );
    })

abbrev blank : String → Tag
blank k = record { key = k; value = "" }

match_all_tags-blank_example :
    (match_all_tags (blank "a" ∷ blank "b" ∷ blank "c" ∷ []) (tags_for_service service) ≡ true)
    × (should_manage_ip (address (blank "a" ∷ blank "b" ∷ blank "c" ∷ [])) service ≡ false)
unfolding tags_for_service
match_all_tags-blank_example =
    match_all_tags-blank (address (blank "a" ∷ blank "b" ∷ blank "c" ∷ [])) service "a" "b" "c" refl
      refl refl refl

-- Another service of the namespace.
abbrev neighbour : Service
neighbour = record service { meta = record service.meta { name = "neighbour" } }

should_manage_lb_unique_example :
    let result = should_manage_lb (record load_balancer { service = neighbour }) in
    ((result ≡ ok tt) × (svc_key neighbour ≡ svc_key service))
    ⊎ ((e : Error) × (result ≡ err e)
        × (service_key_beq (svc_key neighbour) (svc_key service) ≡ false))
unfolding has_missing_tags custom_cloudstack_ccm.Tags.should_manage_lb get_tag
should_manage_lb_unique_example =
    should_manage_lb_unique load_balancer rule service neighbour refl refl refl refl

-- A server that has two entries, in pages of one.
abbrev stored : List String
stored = "a" ∷ "b" ∷ []

abbrev two_pages : Fetch String
two_pages page h = (ok (length stored, take 1 (drop (1 * (page - 1)) stored)), h)

list_all_pages-stored_example : (list_all_pages (λ s. s) 3 two_pages []).0 ≡ ok ("a" ∷ "b" ∷ [])
list_all_pages-stored_example =
    list_all_pages-stored two_pages 1 stored (λ page h. refl) (λ s. s) [] (omega arith)
      (refl, (refl, tt))

-- A server that has more and more.
abbrev endless : Fetch String
endless page h = (ok (9, "a" ∷ []), h)

list_all_pages-ne-out_of_fuel_example : (list_all_pages (λ s. s) 10 endless []).0 ≢ err out_of_fuel
list_all_pages-ne-out_of_fuel_example =
    list_all_pages-ne-out_of_fuel (λ s. s) endless 9 10 [] (λ page h. omega arith) (omega arith)

abbrev info : LbPortInfo
info = record { public_port = 80; private_port = 30080; name = "http" }

abbrev ports : LbPorts
ports = record { ports = info ∷ []; protocol = "TCP" }

service_to_lb_ports_lem_example :
    All (λ p. p.protocol ≡ "TCP") (port ∷ [])
    × ((ports.protocol ≡ "TCP") ⊎ (ports.protocol ≡ "UDP"))
    × (map (λ i. i.public_port) ports.ports ≡ map (λ p. p.port) (sort_ports (port ∷ [])))
    × All (λ p. public_port ports ≤ p.port) (port ∷ [])
unfolding service_to_lb_ports custom_cloudstack_ccm.Kube.get_label_or_annotation
service_to_lb_ports_lem_example = service_to_lb_ports_lem up service [] ports refl

abbrev endpoints : Endpoints
endpoints = record { namespace = "ns"; name = "web"; subsets = (some "node1" ∷ none ∷ []) ∷ [] }

nodes_containing_service-update_endpoints_nodes_example :
    (contains "node1" (
        map
          (λ i. i.name)
          (nodes_containing_service
            (update_endpoints_nodes endpoints registry)
            (endpoints_key endpoints)))
      ≡ true)
    × ((key : ServiceKey)
        → key ≢ endpoints_key endpoints
        → nodes_containing_service (update_endpoints_nodes endpoints registry) key
          ≡ nodes_containing_service registry key)
nodes_containing_service-update_endpoints_nodes_example =
    nodes_containing_service-update_endpoints_nodes endpoints registry "node1" node_info refl
      (λ k i e. ground (arith, e, eq_iff "node1" k))

abbrev pool : GloboNetworkPool
pool = record {
  port = 30080;
  vip_port = 80;
  health_check_type = "TCP";
  health_check = "";
  health_check_expected = "";
  id = 1;
}

generate_globo_network_pool_lem_example :
    let result = generate_globo_network_pool "TCP" info service (pool ∷ []) in
    (c : Check) × (needs : Bool) × IsWanted "TCP" info service c needs
    × (((result ≡ (none, pool ∷ []))
          × (((needs ≡ true) × (c.message ≡ "")) ⊎ All (IsSettled info c) (pool ∷ [])))
        ⊎ (((needs && str_eq c.message "") ≡ false)
            × (chosen : GloboNetworkPool) × (result.0 ≡ some chosen)
            × Changed info c chosen (pool ∷ []) result.1))
generate_globo_network_pool_lem_example =
    generate_globo_network_pool_lem "TCP" info service (pool ∷ [])

abbrev machine_name : String
machine_name = "node1"

abbrev project : String
project = "p1"

vm_cache_key_inj_example : (machine_name ≡ machine_name) × (project ≡ project)
vm_cache_key_inj_example = vm_cache_key_inj "node1" "p1" "node1" "p1" refl refl refl refl refl
