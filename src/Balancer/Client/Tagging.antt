-- ===== src/Balancer/Client/Tagging.antt =====
-- Which tags are put on a resource.
use custom_cloudstack_ccm.Prelude.{
  String, List, [], ◌∷◌, ◌≡◌, refl, arith, inl, inr, string_eq, ◌∙◌,
}
use custom_cloudstack_ccm.Prelude.Dict.{Dict, lookup, keys}
use custom_cloudstack_ccm.Prelude.Sort.{sort}
use custom_cloudstack_ccm.Prelude.Text.{text_less}
use custom_cloudstack_ccm.Prelude.Outcome.{Result-cases, ok}
use custom_cloudstack_ccm.Kube.{Service, or_empty}
use custom_cloudstack_ccm.Config.{CsCloud, Client}
use custom_cloudstack_ccm.Provider.{provider_name}
use custom_cloudstack_ccm.Tags.{tags_for_service}
use custom_cloudstack_ccm.Api.{Server, History, Event, cloudstack, create_tags}
use custom_cloudstack_ccm.Balancer.Client.{
  ProjectCloud, get_client, create_tag, create_each, set_resource_tags, set_default_tags,
}

module _ (srv : Server) (client : Client) (resource_type resource_id : String) where
  abbrev pub tag_event : String → String → Event
  tag_event k v = cloudstack client (create_tags resource_type resource_id k v)

  -- The history after a tag is asked for with each key.
  abbrev tag_events : Dict String String → List String → History → History
  tag_events tags [] h = h
  tag_events tags (k ∷ ks) h = tag_events tags ks (tag_event k (or_empty (lookup k tags)) ∷ h)

  create_each_lem :
      (tags : Dict String String) (ks : List String) (h : History)
      → (create_each srv client resource_type resource_id tags ks h).0 ≡ ok tt
      → (create_each srv client resource_type resource_id tags ks h).1 ≡ tag_events tags ks h
  unfolding create_each create_tag
  create_each_lem tags [] h e = refl
  create_each_lem tags (k ∷ ks) h e =
      let h' = tag_event k (or_empty (lookup k tags)) ∷ h in
      elim (Result-cases
        (create_tag srv client resource_type resource_id k (or_empty (lookup k tags)) h).0) [
          | inl (_, made) ↦ ground (arith, e, made, create_each_lem tags ks h')
          | inr (_, failed) ↦ absurd (ground (arith, e, failed))
        ]

-- When the default tags could be set on a resource, CloudStack was asked for exactly three, one by one:
-- the provider's name, the service's namespace and the service's name.
pub set_default_tags_lem :
    (srv : Server) (cs : CsCloud) (pc : ProjectCloud) (client : Client)
    (resource_type resource_id : String) (service : Service) (h : History)
    → get_client cs pc ≡ ok client
    → (set_default_tags srv cs pc resource_type resource_id service h).0 ≡ ok tt
    → (set_default_tags srv cs pc resource_type resource_id service h).1
      ≡ cloudstack client (create_tags resource_type resource_id "kubernetes_service" service.name)
        ∷ cloudstack client
            (create_tags resource_type resource_id "kubernetes_namespace" service.namespace)
        ∷ cloudstack client (create_tags resource_type resource_id "cloudprovider" provider_name)
        ∷ h
unfolding set_default_tags set_resource_tags tags_for_service text_less
set_default_tags_lem srv cs pc client resource_type resource_id service h known e =
    let tags = tags_for_service service in
    let ks = sort text_less (keys tags) in
    let made =
      create_each_lem srv client resource_type resource_id tags ks h (ground (arith, known, e)) in
    let asked : (set_default_tags srv cs pc resource_type resource_id service h).1
        ≡ (create_each srv client resource_type resource_id tags ks h).1 =
      ground (arith, known) in
    asked ∙ made
