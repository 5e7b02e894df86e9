-- ===== src/Balancer/Calls/Jobs.antt =====
-- Whose client is called for a job, for the tags of a resource and for the ports of a service.
use custom_cloudstack_ccm.Prelude.{String, List, [], ◌∷◌, ◌≡◌, subst, sym, Bool}
use custom_cloudstack_ccm.Prelude.Dict.{Dict}
use custom_cloudstack_ccm.Prelude.Outcome.{Result, ok, Error, throw_if, wrapping}
use custom_cloudstack_ccm.Kube.{Service}
use custom_cloudstack_ccm.Config.{CsCloud, Client}
use custom_cloudstack_ccm.Cloudstack.{LoadBalancer}
use custom_cloudstack_ccm.Api.{Server, Api, History, async_job, create_tags}
use custom_cloudstack_ccm.Balancer.Client.{
  ProjectCloud, cloud_of, rule_of, wait_job, get_first_raw_value, unmarshal_job, await, forgive,
  create_tag, create_each, set_resource_tags, set_default_tags, assign_tags_to_rule,
}
use custom_cloudstack_ccm.Balancer.Calls.{
  UsesClient, Calls, IsClient, Calls->>=, Calls-pure, Calls-lift, Calls-call, Does-get_client,
}
use custom_cloudstack_ccm.Trace.{Adds, Any, Does-wrapping, Does-throw_if}

module _ (cs : CsCloud) (srv : Server) (environment : String) where
  pub Calls-wrapping :
      {A : Type 0} (text : String) (m : Api A)
      → Calls cs srv environment m
      → Calls cs srv environment (wrapping text m)
  Calls-wrapping text m d = Does-wrapping (UsesClient cs environment) Any text m d

  -- What is made of the result does not matter.
  pub Calls-mapped :
      {A B : Type 0} (f : Result A → Result B) (m : Api A)
      → Calls cs srv environment m
      → Calls cs srv environment (λ h. (f (m h).0, (m h).1))
  Calls-mapped f m d h = ((d h).0, λ _ _. tt)

  -- Code that ends in a history from which no other client was called.
  pub Calls-ends :
      {A : Type 0} (m : Api A) (h : History) (x : Result A × History)
      → m h ≡ x
      → Adds (UsesClient cs environment) h x.1
      → Adds (UsesClient cs environment) h (m h).1 × ((a : A) → (m h).0 ≡ ok a → Any a)
  Calls-ends m h x e adds =
      (subst (λ y. Adds (UsesClient cs environment) h y.1) (sym e) adds, λ _ _. tt)

  pub Calls-throw_if : (b : Bool) (e : Error) → Calls cs srv environment (throw_if b e)
  Calls-throw_if b e = Does-throw_if (UsesClient cs environment) b e

  pub Calls-await :
      (client : Client) (job_id : String)
      → IsClient cs srv environment client
      → Calls cs srv environment (await srv client job_id)
  unfolding await
  Calls-await client job_id c =
      Calls->>= cs srv environment _ _
        (Calls-call cs srv environment client (async_job job_id) srv.job_result c)
        (λ _. Calls-pure cs srv environment tt)

  pub Calls-wait_job :
      {R : Type 0} (unmarshal : String → R → R × Result (Unit {0})) (client : Client)
      (job_id : String) (result : R)
      → IsClient cs srv environment client
      → Calls cs srv environment (wait_job srv unmarshal client job_id result)
  unfolding wait_job
  Calls-wait_job unmarshal client job_id result c =
      Calls->>= cs srv environment _ _
        (Calls-call cs srv environment client (async_job job_id) srv.job_result c)
        (λ raw.
          Calls->>= cs srv environment _ _
            (Calls-lift cs srv environment (get_first_raw_value srv raw))
            (λ first. Calls-lift cs srv environment (unmarshal_job srv unmarshal raw first result)))

  Calls-create_tag :
      (client : Client) (resource_type resource_id k v : String)
      → IsClient cs srv environment client
      → Calls cs srv environment (create_tag srv client resource_type resource_id k v)
  unfolding create_tag
  Calls-create_tag client resource_type resource_id k v c =
      Calls-mapped (forgive srv "already exist") _ (
        Calls-call cs srv environment client (create_tags resource_type resource_id k v) srv.done c)

  Calls-create_each :
      (client : Client) (resource_type resource_id : String) (tags : Dict String String)
      (ks : List String)
      → IsClient cs srv environment client
      → Calls cs srv environment (create_each srv client resource_type resource_id tags ks)
  unfolding create_each
  Calls-create_each client resource_type resource_id tags [] c = Calls-pure cs srv environment tt
  Calls-create_each client resource_type resource_id tags (k ∷ ks) c =
      Calls->>= cs srv environment _ _
        (Calls-wrapping _ _ (Calls-create_tag client resource_type resource_id k _ c))
        (λ _. Calls-create_each client resource_type resource_id tags ks c)

  pub Calls-set_default_tags :
      (pc : ProjectCloud) (resource_type resource_id : String) (service : Service)
      → pc.environment ≡ environment
      → Calls cs srv environment (set_default_tags srv cs pc resource_type resource_id service)
  unfolding set_default_tags set_resource_tags
  Calls-set_default_tags pc resource_type resource_id service e =
      Does-get_client cs srv environment Any pc e _
        (λ client c. Calls-create_each client resource_type resource_id _ _ c)

  pub Calls-assign_tags_to_rule :
      (lb : LoadBalancer)
      → lb.environment ≡ environment
      → Calls cs srv environment (assign_tags_to_rule srv cs lb)
  unfolding assign_tags_to_rule
  Calls-assign_tags_to_rule lb e =
      Calls->>= cs srv environment _ _ (Calls-lift cs srv environment (rule_of lb))
        (λ rule. Calls-set_default_tags (cloud_of lb) "LoadBalancer" rule.id lb.service e)
