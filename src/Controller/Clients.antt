-- ===== src/Controller/Clients.antt =====
-- Whose client is called when a load balancer is ensured, or updated from the queue.
use custom_cloudstack_ccm.Kube.{get_label_or_annotation}
use custom_cloudstack_ccm.Prelude.Dict.{lookup-insert}
use custom_cloudstack_ccm.Prelude.{
  string_eq, sym, subst, false, ◌∙◌, inl, inr, Option-cases, ℕ, String, List, some, Bool, ◌≡◌, refl,
  str_eq, not, ◌&&◌, arith,
}
use custom_cloudstack_ccm.Prelude.Outcome.{ok, pure, lift, ◌>>◌}
use custom_cloudstack_ccm.Kube.{svc_key, Service}
use custom_cloudstack_ccm.Config.{CsCloud, environment_for_meta}
use custom_cloudstack_ccm.Cloudstack.{LoadBalancer}
use custom_cloudstack_ccm.Tags.{should_manage_lb}
use custom_cloudstack_ccm.Api.{Server, Api, History}
use custom_cloudstack_ccm.Balancer.Members.{set_algorithm}
use custom_cloudstack_ccm.Balancer.Rules.{CheckLbResult, update_load_balancer_ip}
use custom_cloudstack_ccm.Balancer.Calls.{
  UsesClient, Calls, Calls-pure, Calls-lift, Does-get_load_balancer,
}
use custom_cloudstack_ccm.Balancer.Calls.Jobs.{Calls-wrapping, Calls-assign_tags_to_rule}
use custom_cloudstack_ccm.Balancer.Calls.Rules.{
  Stays, Keeps, StaysChecked, Keeps-load_load_balancer_ip, Keeps-update_load_balancer_ip,
  Does-check_load_balancer_rule, Calls-update_load_balancer_rule, Calls-create_load_balancer_rule,
}
use custom_cloudstack_ccm.Trace.{
  Adds, nothing, more, Any, Does-pure, Does-lift, Does-if, Does->>=, Does->>,
}
use custom_cloudstack_ccm.Controller.{
  ensure_calls, ensure_managed, ensure_rule, create_missing, move_ip, add_project_label,
  lacks_project_label, label_service, patch_service, when,
}

label_service-svc_key :
    (label value : String) (service service' : Service)
    → label_service label value service ≡ ok service'
    → svc_key service' ≡ svc_key service
unfolding svc_key
label_service-svc_key label value service service' e = elim (Option-cases service.labels) [
  | inl missing ↦ absurd (ground (arith, missing, e))
  | inr (labels, found) ↦ ground (arith, found, e)
]

module _ (cs : CsCloud) (srv : Server) (environment : String) (IsOurs : Service → Type 0) where
  Keeps-create_missing :
      (result : CheckLbResult) (lb : LoadBalancer)
      → Stays cs srv environment IsOurs lb
      → Keeps cs srv environment IsOurs (create_missing cs srv result lb)
  Keeps-create_missing result lb e =
      Does-if (UsesClient cs environment) (Stays cs srv environment IsOurs) result.exists (pure lb)
        _ (Does-pure (UsesClient cs environment) (Stays cs srv environment IsOurs) lb e)
        (Does->>= (UsesClient cs environment) Any (Stays cs srv environment IsOurs) _ _
          (Calls-create_load_balancer_rule cs srv environment lb e.0)
          (λ rule _.
            let lb' : LoadBalancer = record lb { rule = some rule } in
            Does->> (UsesClient cs environment) (Stays cs srv environment IsOurs) _ (pure lb')
              (Calls-assign_tags_to_rule cs srv environment lb' e.0)
              (Does-pure (UsesClient cs environment) (Stays cs srv environment IsOurs) lb' e)))

  Calls-when :
      (b : Bool) (m : Api (Unit {0}))
      → Calls cs srv environment m
      → Calls cs srv environment (when cs srv b m)
  Calls-when b m d =
      Does-if (UsesClient cs environment) Any b m (pure tt) d (Calls-pure cs srv environment tt)

  Keeps-ensure_rule :
      (lb : LoadBalancer)
      → Stays cs srv environment IsOurs lb
      → Keeps cs srv environment IsOurs (ensure_rule cs srv lb)
  unfolding ensure_rule
  Keeps-ensure_rule lb e =
      Does->>= (UsesClient cs environment) (StaysChecked cs srv environment IsOurs)
        (Stays cs srv environment IsOurs) _ _
        (Does-check_load_balancer_rule cs srv environment IsOurs lb e)
        (λ x e'.
          Does->> (UsesClient cs environment) (Stays cs srv environment IsOurs) _ _
            (Calls-when x.0.needs_update _
              (Calls-update_load_balancer_rule cs srv environment x.1 e'.0))
            (Does->> (UsesClient cs environment) (Stays cs srv environment IsOurs) _ _
              (Calls-when x.0.needs_tags _ (Calls-assign_tags_to_rule cs srv environment x.1 e'.0))
              (Keeps-create_missing x.0 x.1 e')))

  Keeps-move_ip :
      (lb : LoadBalancer)
      → Stays cs srv environment IsOurs lb
      → Keeps cs srv environment IsOurs (move_ip cs srv lb)
  Keeps-move_ip lb e =
      Does-if (UsesClient cs environment) (Stays cs srv environment IsOurs)
        (not (str_eq lb.service.load_balancer_ip "")
          && not (str_eq lb.ip.address lb.service.load_balancer_ip))
        (update_load_balancer_ip cs srv lb) (pure lb)
        (Keeps-update_load_balancer_ip cs srv environment IsOurs lb e)
        (Does-pure (UsesClient cs environment) (Stays cs srv environment IsOurs) lb e)

  Keeps-ensure_managed :
      (fuel : ℕ) (lb : LoadBalancer)
      → Stays cs srv environment IsOurs lb
      → Keeps cs srv environment IsOurs (ensure_managed cs srv fuel lb)
  unfolding ensure_managed
  Keeps-ensure_managed fuel lb e =
      Does->>= (UsesClient cs environment) (Stays cs srv environment IsOurs)
        (Stays cs srv environment IsOurs) _ _
        (Keeps-load_load_balancer_ip cs srv environment IsOurs fuel lb e)
        (λ lb' e'.
          Does->>= (UsesClient cs environment) (Stays cs srv environment IsOurs)
            (Stays cs srv environment IsOurs) _ _ (Keeps-move_ip lb' e') Keeps-ensure_rule)

  -- What is said of the service stays true when it gets the label of its project.
  abbrev Relabels : Type 0
  Relabels =
      (value : String) (s s' : Service)
      → label_service cs.config.global.project_id_label value s ≡ ok s'
      → IsOurs s
      → IsOurs s'

  Keeps-add_project_label :
      Relabels
      → (lb : LoadBalancer) → Stays cs srv environment IsOurs lb
      → Keeps cs srv environment IsOurs (add_project_label cs srv lb)
  unfolding add_project_label UsesClient
  Keeps-add_project_label relabels lb e =
      Does-if (UsesClient cs environment) (Stays cs srv environment IsOurs)
        (not (lacks_project_label cs srv lb)) (pure lb) _
        (Does-pure (UsesClient cs environment) (Stays cs srv environment IsOurs) lb e)
        (Does->>= (UsesClient cs environment) (λ service. IsOurs service)
          (Stays cs srv environment IsOurs) _ _
          (Does-lift (UsesClient cs environment) (λ service. IsOurs service)
            (label_service cs.config.global.project_id_label lb.project_id lb.service)
            (λ service labelled. relabels lb.project_id lb.service service labelled e.1))
          (λ service same.
            let lb' : LoadBalancer = record lb { service = service } in
            Does->> (UsesClient cs environment) (Stays cs srv environment IsOurs) _ (pure lb')
              (Calls-wrapping cs srv environment _ (patch_service cs srv lb')
                (λ h. (more _ tt nothing, λ _ _. tt)))
              (Does-pure (UsesClient cs environment) (Stays cs srv environment IsOurs) lb'
                (e.0, same))))

  -- The affinity changes neither the environment nor the service.
  Stays-set_algorithm :
      (lb lb' : LoadBalancer)
      → Stays cs srv environment IsOurs lb
      → set_algorithm lb ≡ ok lb'
      → Stays cs srv environment IsOurs lb'
  unfolding set_algorithm
  Stays-set_algorithm lb lb' e h =
      let same : lb.service ≡ lb'.service = ground (arith, h) in
      (ground (arith, e.0, h), subst IsOurs same e.1)

  Keeps-ensure_found :
      (fuel : ℕ) (lb : LoadBalancer)
      → Stays cs srv environment IsOurs lb
      → Keeps cs srv environment IsOurs
          (lift (should_manage_lb lb) >> ensure_managed cs srv fuel lb)
  Keeps-ensure_found fuel lb e =
      Does->> (UsesClient cs environment) (Stays cs srv environment IsOurs)
        (lift (should_manage_lb lb)) _ (Calls-lift cs srv environment (should_manage_lb lb))
        (Keeps-ensure_managed fuel lb e)

  Keeps-ensure_calls :
      Relabels
      → (fuel : ℕ) (service : Service) (network_ids : List String) (project_id : String)
      → environment_for_meta cs service.meta ≡ environment
      → IsOurs service
      → Keeps cs srv environment IsOurs (ensure_calls cs srv fuel service network_ids project_id)
  unfolding ensure_calls
  Keeps-ensure_calls relabels fuel service network_ids project_id e same =
      Does->>= (UsesClient cs environment) _ (Stays cs srv environment IsOurs) _ _
        (Does-get_load_balancer cs srv environment service project_id network_ids e)
        (λ found here.
          Does->>= (UsesClient cs environment) (Stays cs srv environment IsOurs)
            (Stays cs srv environment IsOurs) _ _
            (Keeps-add_project_label relabels found (here.0, subst IsOurs (sym here.1) same))
            (λ labelled e'.
              Does->>= (UsesClient cs environment) (Stays cs srv environment IsOurs)
                (Stays cs srv environment IsOurs) (lift (set_algorithm labelled)) _
                (Does-lift (UsesClient cs environment) (Stays cs srv environment IsOurs)
                  (set_algorithm labelled) (λ lb h. Stays-set_algorithm labelled lb e' h))
                (Keeps-ensure_found fuel)))

-- All that `EnsureLoadBalancer` calls of CloudStack for a service, whatever CloudStack answers and
-- whether it succeeds, goes to the client of the service's own environment, and the load balancer that
-- it returns is in that environment and the one of a service with the same key.
pub ensure_calls-UsesClient :
    (cs : CsCloud) (srv : Server) (fuel : ℕ) (service : Service) (network_ids : List String)
    (project_id : String) (h : History)
    → let environment = environment_for_meta cs service.meta in
      let (r, h') = ensure_calls cs srv fuel service network_ids project_id h in
      Adds (UsesClient cs environment) h h'
      × ((lb : LoadBalancer)
          → r ≡ ok lb
          → (lb.environment ≡ environment) × (svc_key lb.service ≡ svc_key service))
ensure_calls-UsesClient cs srv fuel service network_ids project_id h =
    Keeps-ensure_calls cs srv (environment_for_meta cs service.meta)
      (λ s. svc_key s ≡ svc_key service)
      (λ value s s' labelled same.
        label_service-svc_key cs.config.global.project_id_label value s s' labelled ∙ same)
      fuel service network_ids project_id refl refl h

-- The label of a project is not the one of an environment, so it does not move a service.
label_service-environment_for_meta :
    (cs : CsCloud) (value : String) (s s' : Service)
    → str_eq cs.config.global.project_id_label cs.config.global.environment_label ≡ false
    → label_service cs.config.global.project_id_label value s ≡ ok s'
    → environment_for_meta cs s'.meta ≡ environment_for_meta cs s.meta
unfolding environment_for_meta get_label_or_annotation
label_service-environment_for_meta cs value s s' differ labelled =
    let config = cs.config.global in
    elim (Option-cases s.labels) [
      | inl missing ↦ absurd (ground (arith, missing, labelled))
      | inr (labels, found) ↦ ground (
        arith,
        found,
        labelled,
        differ,
        lookup-insert config.project_id_label config.environment_label value labels,
      )
    ]

-- The load balancer of a service is in the environment of the service that it carries.
pub ensure_calls-IsLocal :
    (cs : CsCloud) (srv : Server) (fuel : ℕ) (service : Service) (network_ids : List String)
    (project_id : String) (h : History) (lb : LoadBalancer)
    → str_eq cs.config.global.project_id_label cs.config.global.environment_label ≡ false
    → (ensure_calls cs srv fuel service network_ids project_id h).0 ≡ ok lb
    → lb.environment ≡ environment_for_meta cs lb.service.meta
ensure_calls-IsLocal cs srv fuel service network_ids project_id h lb differ done =
    let environment = environment_for_meta cs service.meta in
    let (here, same) =
      (Keeps-ensure_calls cs srv environment (λ s. environment_for_meta cs s.meta ≡ environment)
          (λ value s s' labelled e.
            label_service-environment_for_meta cs value s s' differ labelled ∙ e)
          fuel service network_ids project_id refl refl h).1
        lb done in
    here ∙ sym same
