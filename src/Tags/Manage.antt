-- ===== src/Tags/Manage.antt =====
-- Which load balancers a service manages.
use custom_cloudstack_ccm.Prelude.{
  inl, inr, ◌⊎◌, Bool-cases, String, false, Option, none, some, List, [], ◌∷◌, ◌&&◌, ◌||◌,
  string_eq, is_some, not, ◌≡◌, refl, arith, eq_iff, ◌∙◌, sym,
}
use custom_cloudstack_ccm.Prelude.Dict.{Dict, lookup, insert, lookup-insert}
use custom_cloudstack_ccm.Prelude.Outcome.{ok, err, Error, Result-cases}
use custom_cloudstack_ccm.Kube.{Service, svc_key, service_key_beq, service_key_beq_iff}
use custom_cloudstack_ccm.Cloudstack.{Tag, LoadBalancer, LoadBalancerRule}
use custom_cloudstack_ccm.Tags.{
  tags_for_service, get_tag, tag_map, has_missing_tags, should_manage_lb, status_names,
  cloud_provider_tag, service_tag, namespace_tag,
}

-- A key of `tagMap` is one that was there before, or the key of a tag.
tag_map-is_some :
    (k : String) (tags : List Tag) (m : Dict String String)
    → is_some (lookup k (tag_map tags m)) ≡ (is_some (get_tag tags k) || is_some (lookup k m))
unfolding tag_map get_tag
tag_map-is_some k [] m = refl
tag_map-is_some k (tag ∷ tags) m = ground (
  arith,
  tag_map-is_some k tags (insert tag.key tag.value m),
  lookup-insert tag.key k tag.value m,
)

-- `hasMissingTags` says no exactly where each of the three tags is set.
pub has_missing_tags_lem :
    (rule : LoadBalancerRule)
    → has_missing_tags rule
      ≡ not (
          is_some (get_tag rule.tags cloud_provider_tag)
          && is_some (get_tag rule.tags service_tag)
          && is_some (get_tag rule.tags namespace_tag))
unfolding has_missing_tags
has_missing_tags_lem rule = ground (
  arith,
  tag_map-is_some cloud_provider_tag rule.tags [],
  tag_map-is_some service_tag rule.tags [],
  tag_map-is_some namespace_tag rule.tags [],
)

-- A service that manages a tagged rule, without its status naming it, is the one of the tags.
owner :
    (lb : LoadBalancer) (rule : LoadBalancerRule) (s : Service) (v w : String)
    → get_tag rule.tags service_tag ≡ some v
    → get_tag rule.tags namespace_tag ≡ some w
    → status_names s.ingress lb.name ≡ false
    → should_manage_lb (record lb { rule = some rule; service = s }) ≡ ok tt
    → (s.name ≡ v) × (s.namespace ≡ w)
unfolding should_manage_lb tags_for_service
owner lb rule s v w ev ew hs ms = ground (arith, eq_iff s.name v, eq_iff s.namespace w)

both_set :
    (a b c : Option String)
    → not (is_some a && is_some b && is_some c) ≡ false
    → (v : String) × (w : String) × (b ≡ some v) × (c ≡ some w)
both_set a none c h = ground arith
both_set a (some v) none h = ground arith
both_set a (some v) (some w) h = (v, w, refl, refl)

-- Services with the same key, whose statuses do not name the load balancer, manage it alike.
same_key :
    (lb : LoadBalancer) (rule : LoadBalancerRule) (s t : Service)
    → status_names s.ingress lb.name ≡ false
    → status_names t.ingress lb.name ≡ false
    → s.name ≡ t.name
    → s.namespace ≡ t.namespace
    → should_manage_lb (record lb { rule = some rule; service = s })
      ≡ should_manage_lb (record lb { rule = some rule; service = t })
unfolding should_manage_lb tags_for_service
same_key lb rule s t hs ht same_name same_namespace =
    ground (arith, hs, ht, same_name, same_namespace)

-- A load balancer that carries all three tags, and that a service manages, is managed by the services
-- with the key of that one and by no other: any service manages it if it has the same namespace and
-- name, and fails to if not. Neither service's status names the load balancer, which would let a
-- second service manage it.
pub should_manage_lb_unique :
    (lb : LoadBalancer) (rule : LoadBalancerRule) (s t : Service)
    → has_missing_tags rule ≡ false
    → status_names s.ingress lb.name ≡ false
    → status_names t.ingress lb.name ≡ false
    → should_manage_lb (record lb { rule = some rule; service = s }) ≡ ok tt
    → let result = should_manage_lb (record lb { rule = some rule; service = t }) in
      ((result ≡ ok tt) × (svc_key t ≡ svc_key s))
      ⊎ ((e : Error) × (result ≡ err e) × (service_key_beq (svc_key t) (svc_key s) ≡ false))
unfolding svc_key
should_manage_lb_unique lb rule s t full hs ht ms =
    let result = should_manage_lb (record lb { rule = some rule; service = t }) in
    let (v, w, ev, ew) = both_set _ _ _ (sym (has_missing_tags_lem rule) ∙ full) in
    elim (Result-cases result) [
      | inl (x, fine) ↦
          inl (
            fine,
            ground (arith, owner lb rule s v w ev ew hs ms, owner lb rule t v w ev ew ht fine),
          )
      | inr (e, refused) ↦ elim (Bool-cases (service_key_beq (svc_key t) (svc_key s))) [
        | inr other ↦ inr (e, refused, other)
        | inl same ↦
            let equal = service_key_beq_iff (svc_key t) (svc_key s) in
            let alike =
              same_key lb rule s t hs ht (ground (arith, same, equal))
                (ground (arith, same, equal)) in
            absurd (ground (arith, alike, refused, ms))
      ]
    ]
