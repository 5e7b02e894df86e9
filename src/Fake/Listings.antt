-- ===== src/Fake/Listings.antt =====
-- The commands of the test server that only list: cases of the switch of `ServeHTTP` of
-- cloudstack/fake/cloudstack.go. A range over a map visits it in the order of the list.
use custom_cloudstack_ccm.Prelude.{
  ℕ, String, Bool, true, false, Option, none, some, List, [], ◌∷◌, ◌++◌, str_eq, if◌then◌else◌,
  string_eq, not, keep, length, get_elem?, any, ltb, ◌&&◌, ◌||◌,
}
use custom_cloudstack_ccm.Prelude.Dict.{Dict, lookup}
use custom_cloudstack_ccm.Prelude.Text.{atoi, itoa, append, last_digit, has_part}
use custom_cloudstack_ccm.Kube.{or_empty}
use custom_cloudstack_ccm.Cloudstack.{Tag, PublicIpAddress}
use custom_cloudstack_ccm.Api.{Value, IpResponse}
use custom_cloudstack_ccm.Fake.{
  Form, form_value, Fake, FakeRule, FakePool, text_field, has_id, with_object, list_of,
}
use custom_cloudstack_ccm.Fake.Forms.{parse_tags}
use custom_cloudstack_ccm.Fake.Jobs.{JobAnswer}
use custom_cloudstack_ccm.Fake.Pools.{create_default_lb_pools}

-- What the server answers: the value that is marshalled, the status and the command of an error
-- (its code is always 999), or nothing at all, where the handler panics.
pub data Reply : Type 0 where
  machines : List (String × String × String) → Reply  -- name, id and network
  rules : List (Dict String Value × List Tag) → Reply
  pools : List FakePool → Reply
  networks : List String → Reply
  addresses : List PublicIpAddress → Reply
  associating : IpResponse → Reply
  rule_promised : Dict String Value → Reply
  started : String → Reply  -- the id of a job
  tags : List Tag → Reply
  instances : List String → Reply
  job_result : JobAnswer → Reply
  failed : ℕ → String → Reply
  panicked : Reply

-- The case of "listVirtualMachines"
unfoldable pub list_virtual_machines : Form → Reply
list_virtual_machines form =
    let name = form_value "name" form in
    if str_eq name "notfound"
    then machines []
    else let number : ℕ = elim (last_digit name) [ none ↦ 1 | some n ↦ n ] in
      machines ((name, append "vm" (itoa number), append "net" (itoa number)) ∷ [])

-- A tag that the query has with the same value; a key that the query lacks reads as "".
unfoldable pub query_has : Dict String String → Tag → Bool
query_has query tag = str_eq (or_empty (lookup tag.key query)) tag.value

-- Whether a rule is listed; `none` where a type assertion panics. The keyword is only read where no
-- tag matches.
abbrev rule_matches : String → Bool → FakeRule → String → Option Bool
rule_matches keyword by_tags r rule_id =
    if by_tags
    then some true
    else if str_eq keyword ""
    then some false
    else elim (text_field "name" r) [
      | none ↦ none
      | some name ↦ some (has_part name keyword || has_part rule_id keyword)
    ]

abbrev Rules : Type 0
Rules = List (Dict String Value × List Tag)

-- The loop over the rules, with those listed so far: `false` with a panic.
scan_rules : String → Dict String String → Dict String ℕ → Rules → Fake → Option Rules × Fake
scan_rules keyword query [] found s = (some found, s)
scan_rules keyword query ((_, i) ∷ rest) found s = elim (get_elem? s.objects i) [
  | none ↦ (none, s)
  | some r ↦ elim (text_field "id" r) [
    | none ↦ (none, s)
    | some rule_id ↦
        let lb_tags = list_of rule_id s.tags in
        elim (rule_matches keyword (any (query_has query) lb_tags) r rule_id) [
          | none ↦ (none, s)
          | some listed ↦
              let s' = if listed then with_object i (record r { listed_tags = lb_tags }) s else s in
              let found' = if listed then found ++ (r.rule, lb_tags) ∷ [] else found in
              scan_rules keyword query rest found' s'
        ]
  ]
]

-- The case of "listLoadBalancerRules"
unfoldable pub list_load_balancer_rules : Form → Fake → Reply × Fake
unfolding scan_rules
list_load_balancer_rules form s =
    let (found, s') = scan_rules (form_value "keyword" form) (parse_tags form) s.lb_rules [] s in
    elim found [ none ↦ (panicked, s') | some listed ↦ (rules listed, s') ]

-- The pools of the first rule with the id.
pools_with_id : String → List FakeRule → Dict String ℕ → List FakePool
pools_with_id lb_id objects [] = []
pools_with_id lb_id objects ((_, i) ∷ rest) =
    let others = pools_with_id lb_id objects rest in
    elim (get_elem? objects i) [
      | none ↦ others
      | some r ↦ if has_id lb_id r then r.pools else others
    ]

-- The case of "listGloboNetworkPools"
unfoldable pub list_globo_network_pools : Form → Fake → Reply × Fake
unfolding pools_with_id
list_globo_network_pools form s =
    let lb_id = form_value "lbruleid" form in
    elim (create_default_lb_pools lb_id s) [
      | none ↦ (panicked, s)
      | some s' ↦ (pools (pools_with_id lb_id s'.objects s'.lb_rules), s')
    ]

-- The case of "listNetworks"
abbrev pub list_networks : Reply
list_networks = networks ("net1" ∷ [])

-- The two filters of the loop over the addresses.
unfoldable pub is_asked_for : String → String → PublicIpAddress → Bool
is_asked_for address id ip =
    (str_eq address "" || str_eq ip.ipaddress address) && (str_eq id "" || str_eq ip.id id)

-- An address after the loop over its tags, which it gets once more at each listing.
unfoldable pub with_tags : List Tag → PublicIpAddress → PublicIpAddress
with_tags found ip = record ip { tags = ip.tags ++ found }

-- The loop over the addresses: what is listed, and the map after it.
unfoldable pub scan_ips :
    (PublicIpAddress → Bool)
    → Dict String String
    → Dict String (List Tag)
    → Dict String PublicIpAddress
    → List PublicIpAddress × Dict String PublicIpAddress
unfolding query_has with_tags
scan_ips asked query all_tags [] = ([], [])
scan_ips asked query all_tags ((k, ip) ∷ rest) =
    let (found, ips) = scan_ips asked query all_tags rest in
    if not (asked ip)
    then (found, (k, ip) ∷ ips)
    else let own = list_of ip.id all_tags in
      let ip' = with_tags own ip in
      let included = ltb (length query) 1 || any (query_has query) own in
      (if included then ip' ∷ found else found, (k, ip') ∷ ips)

-- The case of "listPublicIpAddresses"
unfoldable pub list_public_ip_addresses : Form → Fake → Reply × Fake
unfolding scan_ips is_asked_for
list_public_ip_addresses form s =
    if ltb 1 (atoi (form_value "page" form))
    then (addresses [], s)
    else let asked = is_asked_for (form_value "ipaddress" form) (form_value "id" form) in
      let (found, ips) = scan_ips asked (parse_tags form) s.tags s.ips in
      (addresses found, record s { ips = ips })

-- The case of "listTags"
unfoldable pub list_tags : Form → Fake → Reply
list_tags form s =
    let key = form_value "key" form in
    tags (
      keep (λ (t : Tag). str_eq key "" || str_eq t.key key)
        (list_of (form_value "resourceid" form) s.tags))

-- The case of "listLoadBalancerRuleInstances"
unfoldable pub list_rule_instances : Form → Fake → Reply
list_rule_instances form s =
    if ltb 1 (atoi (form_value "page" form))
    then instances []
    else instances (list_of (form_value "id" form) s.vms)
