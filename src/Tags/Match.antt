-- ===== src/Tags/Match.antt =====
-- What `match_all_tags` decides.
use custom_cloudstack_ccm.Prelude.{
  ℕ, ◌+◌, ◌<◌, String, Bool, true, false, none, List, [], ◌∷◌, if◌then◌else◌, leb, string_eq,
  length, map, All, Distinct, contains, ◌≡◌, ◌≢◌, refl, arith, eq_iff, Bool-cases, inl, inr, ◌∙◌,
  ap,
}
use custom_cloudstack_ccm.Prelude.Dict.{Dict, lookup}
use custom_cloudstack_ccm.Kube.{Service}
use custom_cloudstack_ccm.Cloudstack.{Tag, PublicIpAddress}
use custom_cloudstack_ccm.Tags.{
  tags_for_service, get_tag, agrees, match_from, match_all_tags, has_value, should_manage_ip,
  cloud_provider_tag, service_tag, namespace_tag,
}

-- How many of the tags agree with the wanted ones.
abbrev pub agreeing : Dict String String → List Tag → ℕ
agreeing tags [] = 0
agreeing tags (tag ∷ cs_tags) = (if agrees tags tag then 1 else 0) + agreeing tags cs_tags

match_from-agreeing :
    (tags : Dict String String) (valid_count : ℕ) (cs_tags : List Tag)
    → valid_count < length tags
    → match_from tags valid_count cs_tags ≡ leb (length tags) (valid_count + agreeing tags cs_tags)
unfolding match_from
match_from-agreeing tags valid_count [] h = ground arith
match_from-agreeing tags valid_count (tag ∷ cs_tags) h = elim (Bool-cases (agrees tags tag)) [
  | inl yes_tag ↦ rw yes_tag (ground (arith, match_from-agreeing tags (valid_count + 1) cs_tags))
  | inr no_tag ↦ rw no_tag (ground (arith, match_from-agreeing tags valid_count cs_tags))
]

-- `matchAllTags` counts: it answers yes exactly when at least as many of the tags agree with the
-- wanted ones as there are wanted ones, whether or not every wanted one is among them.
pub match_all_tags-agreeing :
    (cs_tags : List Tag) (tags : Dict String String)
    → 0 < length tags
    → match_all_tags cs_tags tags ≡ leb (length tags) (agreeing tags cs_tags)
unfolding match_all_tags
match_all_tags-agreeing cs_tags tags h =
    match_from-agreeing tags 0 cs_tags h ∙ ap (λ n. leb (length tags) n) (omega arith)

-- What CloudStack keeps of a resource's tags: one for each key, and no empty value.
pub record IsTagSet (cs_tags : List Tag) : Type 0 where
  pub distinct : Distinct (map (λ t. t.key) cs_tags)
  pub filled : All (λ t. t.value ≢ "") cs_tags

abbrev one_if : Bool → ℕ
one_if b = if b then 1 else 0

-- How many of the service's tags are set to their values.
abbrev matched : List Tag → Service → ℕ
matched cs_tags service =
    one_if (has_value cs_tags (cloud_provider_tag, "custom-cloudstack"))
    + one_if (has_value cs_tags (service_tag, service.name))
    + one_if (has_value cs_tags (namespace_tag, service.namespace))

get_tag-of_absent :
    (k : String) (cs_tags : List Tag)
    → contains k (map (λ t. t.key) cs_tags) ≡ false
    → get_tag cs_tags k ≡ none
unfolding get_tag
get_tag-of_absent k [] h = refl
get_tag-of_absent k (tag ∷ cs_tags) h = ground (arith, get_tag-of_absent k cs_tags)

agreeing-matched :
    (cs_tags : List Tag) (service : Service)
    → Distinct (map (λ t. t.key) cs_tags)
    → All (λ t. t.value ≢ "") cs_tags
    → agreeing (tags_for_service service) cs_tags ≡ matched cs_tags service
unfolding get_tag tags_for_service
agreeing-matched [] service d f = refl
agreeing-matched (tag ∷ cs_tags) service d f = ground (
  arith,
  agreeing-matched cs_tags service d.1 f.1,
  get_tag-of_absent tag.key cs_tags d.0,
  f.0,
  eq_iff tag.key "cloudprovider",
  eq_iff tag.key "kubernetes_service",
  eq_iff tag.key "kubernetes_namespace",
  eq_iff "cloudprovider" tag.key,
  eq_iff "kubernetes_service" tag.key,
  eq_iff "kubernetes_namespace" tag.key,
  eq_iff "" tag.value,
  eq_iff "cloudprovider" "kubernetes_service",
  eq_iff "cloudprovider" "kubernetes_namespace",
  eq_iff "kubernetes_service" "kubernetes_namespace",
)

-- On tags of a public address with one for each key and no empty value, `matchAllTags` finds the address of a service
-- exactly where `shouldManageIP` lets the service release it.
pub match_all_tags-should_manage_ip :
    (ip : PublicIpAddress) (service : Service)
    → IsTagSet ip.tags
    → match_all_tags ip.tags (tags_for_service service) ≡ should_manage_ip ip service
unfolding should_manage_ip tags_for_service
match_all_tags-should_manage_ip ip service t =
    match_all_tags-agreeing ip.tags (tags_for_service service) (omega arith)
    ∙ ground (arith, agreeing-matched ip.tags service t.distinct t.filled)

abbrev blank : String → Tag
blank k = record { key = k; value = "" }

-- Just three tags with empty values, under keys that the service does not use, pass for all its tags: the
-- lookup by tags takes an address for the service's, and `shouldManageIP` says that it is not.
pub match_all_tags-blank :
    (ip : PublicIpAddress) (service : Service) (a b c : String)
    → ip.tags ≡ blank a ∷ blank b ∷ blank c ∷ []
    → lookup a (tags_for_service service) ≡ none
    → lookup b (tags_for_service service) ≡ none
    → lookup c (tags_for_service service) ≡ none
    → (match_all_tags ip.tags (tags_for_service service) ≡ true)
      × (should_manage_ip ip service ≡ false)
unfolding match_all_tags should_manage_ip get_tag tags_for_service
match_all_tags-blank ip service a b c e ha hb hc = rw e (
  rw (ha, hb, hc) refl,
  ground (
    arith,
    eq_iff a "cloudprovider",
    eq_iff b "cloudprovider",
    eq_iff c "cloudprovider",
    eq_iff "cloudprovider" a,
    eq_iff "cloudprovider" b,
    eq_iff "cloudprovider" c,
  ),
)
