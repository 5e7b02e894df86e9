-- ===== src/Balancer/Calls.antt =====
-- Whose client the methods of a load balancer call.
pub mod Jobs
pub mod Addresses
pub mod Ports
pub mod Rules
pub mod Members
use custom_cloudstack_ccm.Prelude.{
  String, Option, none, some, List, ◌≡◌, refl, arith, inl, inr, subst, str_eq, Option-cases,
}
use custom_cloudstack_ccm.Prelude.Outcome.{Result, ok, pure, lift, ◌>>=◌}
use custom_cloudstack_ccm.Kube.{Service}
use custom_cloudstack_ccm.Config.{CsCloud, Client, environment_of, environment_for_meta}
use custom_cloudstack_ccm.Cloudstack.{CloudstackIp, LoadBalancer, LoadBalancerRule}
use custom_cloudstack_ccm.Tags.{should_manage_ip}
use custom_cloudstack_ccm.Api.{
  Server, Api, Event, Request, cloudstack, cached, kubernetes, async_job, call, History,
}
use custom_cloudstack_ccm.Balancer.Client.{
  ProjectCloud, cloud_of, rule_of, get_client, await, await_some,
}
use custom_cloudstack_ccm.Balancer.Addresses.{
  get_public_ip_address_by_id, release_load_balancer_ip, release_ip_if_managed,
}
use custom_cloudstack_ccm.Balancer.Rules.{
  get_load_balancer, get_load_balancer_rule, get_load_balancer_rule_by_name,
  get_load_balancer_by_tags, or_by_tags, delete_load_balancer_rule, new_load_balancer,
}
use custom_cloudstack_ccm.Trace.{
  Does, Any, Does-pure, Does-lift, Does-if, Does-call, Does-wrapping, Does->>=, Does->>,
}

-- A call of CloudStack goes to the client of the environment.
unfoldable pub UsesClient : CsCloud → String → Event → Type 0
UsesClient cs environment (cloudstack client request) =
    (environment_of cs environment).client ≡ some client
UsesClient cs environment (cached client key vm) =
    (environment_of cs environment).client ≡ some client
UsesClient cs environment (kubernetes request) = Unit {0}

module _ (cs : CsCloud) (srv : Server) (environment : String) where
  -- The calls of `m` go to the client of the environment.
  abbrev pub Calls : {A : Type 0} → Api A → Type 0
  Calls m = Does (UsesClient cs environment) Any m

  abbrev pub IsClient : Client → Type 0
  IsClient client = (environment_of cs environment).client ≡ some client

  pub Calls->>= :
      {A B : Type 0} (m : Api A) (f : A → Api B)
      → Calls m
      → ((a : A) → Calls (f a))
      → Calls (m >>= f)
  Calls->>= m f d k = Does->>= (UsesClient cs environment) Any Any m f d (λ a _. k a)

  pub Calls-pure : {A : Type 0} (a : A) → Calls (pure a)
  Calls-pure a = Does-pure (UsesClient cs environment) Any a tt

  pub Calls-lift : {A : Type 0} (r : Result A) → Calls (lift r)
  Calls-lift r = Does-lift (UsesClient cs environment) Any r (λ _ _. tt)

  Calls-call :
      {A : Type 0} (client : Client) (request : Request) (answer : History → Result A)
      → IsClient client
      → Calls (call client request answer)
  unfolding UsesClient
  Calls-call client request answer c = Does-call (UsesClient cs environment) client request answer c

  IsClient-get_client :
      (name : String)
      → name ≡ environment
      → (client : Client)
      → get_client cs (record { project_id = ""; environment = name }) ≡ ok client
      → IsClient client
  unfolding get_client
  IsClient-get_client name e client h = elim (Option-cases (environment_of cs name).client) [
    | inl missing ↦ absurd (ground (arith, missing, h))
    | inr (c, found) ↦
        subst (λ x. (environment_of cs x).client ≡ some client) e (ground (arith, found, h))
  ]

  -- What is done with the client of the environment.
  pub Does-get_client :
      {A : Type 0} (R : A → Type 0) (pc : ProjectCloud)
      → pc.environment ≡ environment
      → (f : Client → Api A)
      → ((client : Client) → IsClient client → Does (UsesClient cs environment) R (f client))
      → Does (UsesClient cs environment) R (lift (get_client cs pc) >>= f)
  unfolding get_client
  Does-get_client R pc e f k =
      Does->>= (UsesClient cs environment) IsClient R (lift (get_client cs pc)) f
        (Does-lift (UsesClient cs environment) IsClient (get_client cs pc)
          (λ client h. IsClient-get_client pc.environment e client h))
        k

  Calls-await_some :
      (client : Client) (job_id : String) → IsClient client → Calls (await_some srv client job_id)
  unfolding await
  Calls-await_some client job_id c =
      Does-if (UsesClient cs environment) Any (str_eq job_id "") (pure tt) (await srv client job_id)
        (Calls-pure tt)
        (Calls->>= _ _ (Calls-call client (async_job job_id) srv.job_result c) (λ _. Calls-pure tt))

  Calls-get_public_ip_address_by_id :
      (pc : ProjectCloud) (ip_id : String)
      → pc.environment ≡ environment
      → Calls (get_public_ip_address_by_id cs srv pc ip_id)
  unfolding get_public_ip_address_by_id
  Calls-get_public_ip_address_by_id pc ip_id e = Does-get_client Any pc e _ (λ client c.
      Calls->>= _ _
        (Does-wrapping (UsesClient cs environment) Any "error retrieving IP ID %v: %v" _
          (Calls-call client _ srv.addresses c))
        (λ l. Calls-lift _))

  Calls-release_load_balancer_ip :
      (pc : ProjectCloud) (ip : CloudstackIp)
      → pc.environment ≡ environment
      → Calls (release_load_balancer_ip cs srv pc ip)
  unfolding release_load_balancer_ip
  Calls-release_load_balancer_ip pc ip e = Does-get_client Any pc e _ (λ client c.
      Calls->>= _ _
        (Does-wrapping (UsesClient cs environment) Any
          "error disassociate IP address using endpoint %q: %v" _
          (Calls-call client _ srv.job_response c))
        (λ job_id. Calls-await_some client job_id c))

  pub Calls-release_ip_if_managed :
      (pc : ProjectCloud) (ip : CloudstackIp) (service : Service)
      → pc.environment ≡ environment
      → Calls (release_ip_if_managed cs srv pc ip service)
  unfolding release_ip_if_managed
  Calls-release_ip_if_managed pc ip service e =
      Calls->>= (get_public_ip_address_by_id cs srv pc ip.id) _
        (Calls-get_public_ip_address_by_id pc ip.id e)
        (λ public_ip.
          Does-if (UsesClient cs environment) Any (should_manage_ip public_ip service)
            (release_load_balancer_ip cs srv pc ip) (pure tt)
            (Calls-release_load_balancer_ip pc ip e) (Calls-pure tt))

  -- The rule is deleted in the environment, and the load balancer stays in it, with its service.
  pub Does-delete_load_balancer_rule :
      (Q : LoadBalancer → Type 0) (lb : LoadBalancer)
      → lb.environment ≡ environment
      → Q (record lb { rule = none })
      → Does (UsesClient cs environment) Q (delete_load_balancer_rule cs srv lb)
  unfolding delete_load_balancer_rule
  Does-delete_load_balancer_rule Q lb e q = Does-get_client Q (cloud_of lb) e _ (λ client c.
      Does->>= (UsesClient cs environment) Any _ (lift (rule_of lb)) _ (Calls-lift (rule_of lb))
        (λ rule _.
          Does->>= (UsesClient cs environment) Any _ _ _
            (Does-wrapping (UsesClient cs environment) Any
              "error deleting load balancer rule %v: %v" _ (Calls-call client _ srv.job_response c))
            (λ job_id _.
              let gone : LoadBalancer = record lb { rule = none } in
              Does->> (UsesClient cs environment) _ (await_some srv client job_id) (pure gone)
                (Calls-await_some client job_id c)
                (Does-pure (UsesClient cs environment) _ gone q))))

  Calls-or_by_tags :
      (client : Client) (service : Service) (project_id : String)
      → IsClient client
      → (found : Option LoadBalancerRule)
      → Calls (or_by_tags cs srv client service project_id found)
  unfolding get_load_balancer_by_tags
  Calls-or_by_tags client service project_id c (some rule) = Calls-pure (some rule)
  Calls-or_by_tags client service project_id c none =
      Calls->>= _ _ (Calls-call client _ srv.rules c) (λ _. Calls-lift _)

  Calls-get_load_balancer_rule :
      (client : Client) (service : Service) (lb_name project_id : String)
      → IsClient client
      → Calls (get_load_balancer_rule cs srv client service lb_name project_id)
  unfolding get_load_balancer_rule get_load_balancer_rule_by_name
  Calls-get_load_balancer_rule client service lb_name project_id c =
      Calls->>= (get_load_balancer_rule_by_name cs srv client lb_name project_id) _
        (Calls->>= _ _ (Calls-call client _ srv.rules c) (λ _. Calls-lift _))
        (Calls-or_by_tags client service project_id c)

  -- The load balancer of a service is looked up in the service's environment, and stays in it.
  pub Does-get_load_balancer :
      (service : Service) (project_id : String) (network_ids : List String)
      → environment_for_meta cs service.meta ≡ environment
      → Does
          (UsesClient cs environment)
          (λ lb. (lb.environment ≡ environment) × (lb.service ≡ service))
          (get_load_balancer cs srv service project_id network_ids)
  unfolding get_load_balancer
  Does-get_load_balancer service project_id network_ids e = Does-get_client _ _ e _ (λ client c.
      Does->>= (UsesClient cs environment) Any _ _
        (λ rule. pure (new_load_balancer cs srv service project_id network_ids rule))
        (Does-wrapping (UsesClient cs environment) Any
          "load balancer %s for service %v/%v get rule error: %v" _
          (Calls-get_load_balancer_rule client service _ _ c))
        (λ rule _.
          Does-pure (UsesClient cs environment) _
            (new_load_balancer cs srv service project_id network_ids rule) (e, refl)))
