-- ===== src/Fake.antt =====
-- cloudstack/fake/cloudstack.go: the CloudStack server of the tests, as a state and its operations. The
-- rules are objects that the map of rules and the jobs share, so they live in a store and are named by
-- their place in it; a job is what its closure will do. What `json.Marshal` makes of an answer is left
-- as the answer.
pub mod Forms
pub mod Pools
pub mod Jobs
pub mod Listings
pub mod Orders
pub mod Serve
pub mod Hosts
pub mod Addresses
use custom_cloudstack_ccm.Prelude.{
  ℕ, zero, suc, ◌+◌, String, Bool, true, false, Option, none, some, List, [], ◌∷◌, ◌++◌, str_eq,
  if◌then◌else◌, string_eq, contains, keep, not, length, get_elem?,
}
use custom_cloudstack_ccm.Prelude.Dict.{Dict, lookup, insert}
use custom_cloudstack_ccm.Cloudstack.{Tag, PublicIpAddress, GloboNetworkPool}
use custom_cloudstack_ccm.Api.{Value, IpResponse}

-- `url.Values`
abbrev pub Form : Type 0
Form = Dict String (List String)

abbrev first_text : List String → String
first_text [] = ""
first_text (v ∷ _) = v

-- `r.FormValue`
unfoldable pub form_value : String → Form → String
form_value k form = elim (lookup k form) [ none ↦ "" | some values ↦ first_text values ]

-- `MockAPICall`
pub record MockApiCall : Type 0 where
  pub command : String
  pub params : Form

-- `globoNetworkPool`, which has the provider's fields
abbrev pub FakePool : Type 0
FakePool = GloboNetworkPool

-- `LoadBalancerRule`: the map, less its "tags", the tags that the last listing wrote into it, and the
-- pools
pub record FakeRule : Type 0 where
  pub rule : Dict String Value
  pub listed_tags : List Tag
  pub pools : List FakePool
  pub create_lb_pool : Bool

-- The closures in `Jobs`, by what they capture.
pub data Job : Type 0 where
  associate_job : IpResponse → String → Job
  disassociate_job : String → Job
  update_rule_job : String → String → Job
  update_pool_job : String → ℕ → String → String → String → Job
  create_rule_job : String → ℕ → Job
  assign_network_job : Job
  create_tag_job : String → String → String → Job
  delete_tags_job : List String → Job
  assign_hosts_job : String → List String → Job
  remove_hosts_job : String → List String → Job
  delete_rule_job : String → Job

-- `CloudstackServer`, less the hook; of a machine of a rule only the id is ever set.
pub record Fake : Type 0 where
  pub calls : List MockApiCall
  pub idx : Dict String ℕ
  pub jobs : Dict String Job
  pub tags : Dict String (List Tag)
  pub objects : List FakeRule
  pub lb_rules : Dict String ℕ
  pub ips : Dict String PublicIpAddress
  pub vms : Dict String (List String)

-- `NewCloudstackServer`
abbrev pub new_fake : Fake
new_fake = record {
  calls = [];
  idx = [];
  jobs = [];
  tags = [];
  objects = [];
  lb_rules = [];
  ips = [];
  vms = [];
}

-- A read of a map of numbers or of lists, with the zero value where the key is missing.
abbrev pub count_of : String → Dict String ℕ → ℕ
count_of k m = elim (lookup k m) [ none ↦ 0 | some n ↦ n ]

abbrev pub list_of : {A : Type 0} → String → Dict String (List A) → List A
list_of k m = elim (lookup k m) [ none ↦ [] | some l ↦ l ]

-- `newID`
unfoldable pub new_id : String → Fake → ℕ × Fake
new_id cmd s = let n = count_of cmd s.idx + 1 in (n, record s { idx = insert cmd n s.idx })

-- A field of a rule that is a text; `none` where the type assertion panics.
abbrev pub text_field : String → FakeRule → Option String
text_field k r = elim (lookup k r.rule) [
  | none ↦ none
  | some v ↦ elim v [ Value.text t ↦ some t | _ ↦ none ]
]

-- `lb.Rule["id"] == lbID`
abbrev pub has_id : String → FakeRule → Bool
has_id lb_id r = elim (text_field "id" r) [ none ↦ false | some t ↦ str_eq t lb_id ]

-- The object behind an entry of the map of rules.
abbrev pub object_has_id : String → List FakeRule → ℕ → Bool
object_has_id lb_id objects i = elim (get_elem? objects i) [
  | none ↦ false
  | some r ↦ has_id lb_id r
]

name_from : String → List FakeRule → Dict String ℕ → String
name_from lb_id objects [] = ""
name_from lb_id objects ((k, i) ∷ rules) =
    let rest = name_from lb_id objects rules in if object_has_id lb_id objects i then k else rest

-- `lbNameByID`
unfoldable pub lb_name_by_id : String → Fake → String
unfolding name_from
lb_name_by_id lb_id s = name_from lb_id s.objects s.lb_rules

-- `s.lbRules[name]`, with its place; `none` is nil.
abbrev pub rule_at : String → Fake → Option (ℕ × FakeRule)
rule_at name s = elim (lookup name s.lb_rules) [
  | none ↦ none
  | some i ↦ elim (get_elem? s.objects i) [ none ↦ none | some r ↦ some (i, r) ]
]

abbrev pub set_nth {ℓ} : {A : Type ℓ} → ℕ → A → List A → List A
set_nth i a [] = []
set_nth zero a (x ∷ xs) = a ∷ xs
set_nth (suc i) a (x ∷ xs) = x ∷ set_nth i a xs

abbrev pub with_object : ℕ → FakeRule → Fake → Fake
with_object i r s = record s { objects = set_nth i r s.objects }

-- `AddIP`, `AddLBRule`, `AddTags` and `DeleteTags`
unfoldable pub add_ip : PublicIpAddress → Fake → Fake
add_ip ip s = record s { ips = insert ip.id ip s.ips }

unfoldable pub add_lb_rule : String → FakeRule → Fake → Fake
add_lb_rule lb_name r s = record s {
  objects = s.objects ++ r ∷ [];
  lb_rules = insert lb_name (length s.objects) s.lb_rules;
}

unfoldable pub add_tags : String → List Tag → Fake → Fake
add_tags resource_id tags s = record s { tags = insert resource_id tags s.tags }

unfoldable pub delete_tags : String → List String → Fake → Fake
delete_tags resource_id tag_keys s =
    let new_tags = keep (λ (t : Tag). not (contains t.key tag_keys)) (list_of resource_id s.tags) in
    record s { tags = insert resource_id new_tags s.tags }

-- `SetDefaultLBPoolCreation`; `none` is the panic of a missing rule.
unfoldable pub set_default_lb_pool_creation : String → Fake → Option Fake
set_default_lb_pool_creation lb_id s = elim (rule_at (lb_name_by_id lb_id s) s) [
  | none ↦ none
  | some (i, r) ↦ some (with_object i (record r { create_lb_pool = not r.create_lb_pool }) s)
]
