-- ===== src/Tags.antt =====
-- Tags on load balancers and addresses: `tagsForService`, `getTag`, `matchAllTags`, `shouldManageIP`,
-- `shouldManageLB` and `hasMissingTags` of cloudstack/loadbalancer.go.
pub mod Match
pub mod Manage
use custom_cloudstack_ccm.Prelude.{
  ℕ, ◌+◌, String, Bool, true, false, Option, none, some, List, [], ◌∷◌, str_eq, if◌then◌else◌, ◌==◌,
  ◌&&◌, ◌||◌, string_eq, is_some, not, length, all,
}
use custom_cloudstack_ccm.Prelude.Dict.{Dict, lookup, insert}
use custom_cloudstack_ccm.Prelude.Outcome.{Error, Result, ok, err, failed}
use custom_cloudstack_ccm.Kube.{Service, Ingress, or_empty}
use custom_cloudstack_ccm.Cloudstack.{Tag, PublicIpAddress, LoadBalancerRule, LoadBalancer}
use custom_cloudstack_ccm.Provider.{provider_name}

abbrev pub cloud_provider_tag : String
cloud_provider_tag = "cloudprovider"

abbrev pub service_tag : String
service_tag = "kubernetes_service"

abbrev pub namespace_tag : String
namespace_tag = "kubernetes_namespace"

abbrev pub cloud_provider_ignore_tag : String
cloud_provider_ignore_tag = "cloudprovider-ignore"

unfoldable pub tags_for_service : Service → Dict String String
tags_for_service service =
    (cloud_provider_tag, provider_name)
    ∷ (service_tag, service.name)
    ∷ (namespace_tag, service.namespace)
    ∷ []

unfoldable pub get_tag : List Tag → String → Option String
get_tag [] k = none
get_tag (tag ∷ tags) k = if str_eq tag.key k then some tag.value else get_tag tags k

-- `tags[tag.Key] == tag.Value`: a missing key reads as the empty text.
abbrev pub agrees : Dict String String → Tag → Bool
agrees tags tag = str_eq (or_empty (lookup tag.key tags)) tag.value

-- The loop of `matchAllTags`, with `validCount` so far.
match_from : Dict String String → ℕ → List Tag → Bool
match_from tags valid_count [] = false
match_from tags valid_count (tag ∷ cs_tags) =
    let count = if agrees tags tag then valid_count + 1 else valid_count in
    let rest = match_from tags count cs_tags in
    if agrees tags tag && count == length tags then true else rest

unfoldable pub match_all_tags : List Tag → Dict String String → Bool
unfolding match_from
match_all_tags cs_tags tags = match_from tags 0 cs_tags

-- The tag is set, and has the value that is wanted.
abbrev pub has_value : List Tag → String × String → Bool
has_value tags (k, wanted) = elim (get_tag tags k) [
  | none ↦ false
  | some value ↦ str_eq wanted value
]

unfoldable pub should_manage_ip : PublicIpAddress → Service → Bool
unfolding tags_for_service
should_manage_ip ip service = all (has_value ip.tags) (tags_for_service service)

-- The test of the loop in `shouldManageLB`: the namespace's tag may be missing, not differ.
abbrev pub is_acceptable : List Tag → String × String → Bool
is_acceptable tags (k, wanted) = elim (get_tag tags k) [
  | none ↦ str_eq k namespace_tag
  | some value ↦ str_eq wanted value
]

-- The service's status names the load balancer, and no other.
abbrev pub status_names : List Ingress → String → Bool
status_names (i ∷ []) name = str_eq i.hostname name
status_names _ name = false

manages_rule : LoadBalancer → LoadBalancerRule → Result (Unit {0})
unfolding tags_for_service
manages_rule lb rule =
    if is_some (get_tag rule.tags cloud_provider_ignore_tag)
    then err (failed "should not manage %v, tag %q is set")
    else if all (is_acceptable rule.tags) (tags_for_service lb.service)
    then ok tt
    else if status_names lb.service.ingress lb.name
    then ok tt
    else err (failed "should not manage %v - status hostname: %q - missing tags: %s")

unfoldable pub should_manage_lb : LoadBalancer → Result (Unit {0})
unfolding manages_rule
should_manage_lb lb = elim lb.rule [ none ↦ ok tt | some rule ↦ manages_rule lb rule ]

-- `tagMap` of `hasMissingTags`: a later tag replaces an earlier one with its key.
tag_map : List Tag → Dict String String → Dict String String
tag_map [] m = m
tag_map (tag ∷ tags) m = tag_map tags (insert tag.key tag.value m)

unfoldable pub has_missing_tags : LoadBalancerRule → Bool
unfolding tag_map
has_missing_tags rule =
    let m = tag_map rule.tags [] in
    not (all (λ t. is_some (lookup t m)) (cloud_provider_tag ∷ service_tag ∷ namespace_tag ∷ []))
