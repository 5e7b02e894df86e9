-- ===== src/Controller/Ensure.antt =====
-- Parts of `EnsureLoadBalancer`: the label of the project, and a load balancer that is not managed.
use custom_cloudstack_ccm.Trace.{
  Adds, nothing, more, Any, Does, Does-pure, Does-lift, Does-if, Does->>=, Does->>, Does-wrapping,
}
use custom_cloudstack_ccm.Prelude.{sym, subst, refl, not, ◌∙◌}
use custom_cloudstack_ccm.Prelude.Outcome.{Result-cases, pure, lift, ◌>>=◌, ◌>>◌}
use custom_cloudstack_ccm.Api.{Event, Request, kubernetes}
use custom_cloudstack_ccm.Controller.{patch_service, ensure_managed}
use custom_cloudstack_ccm.Tags.{tags_for_service}
use custom_cloudstack_ccm.Controller.{label_service}
use custom_cloudstack_ccm.Prelude.{
  Option-cases, inl, inr, ℕ, List, String, true, false, none, ◌≡◌, arith, str_eq, eq_iff, string_eq,
}
use custom_cloudstack_ccm.Prelude.Outcome.{ok, err, Error, panic}
use custom_cloudstack_ccm.Kube.{Service, or_empty, lookup_nil}
use custom_cloudstack_ccm.Config.{CsCloud}
use custom_cloudstack_ccm.Cloudstack.{LoadBalancer}
use custom_cloudstack_ccm.Tags.{should_manage_lb}
use custom_cloudstack_ccm.Api.{Server, History}
use custom_cloudstack_ccm.Balancer.Rules.{get_load_balancer}
use custom_cloudstack_ccm.Controller.{add_project_label, ensure_calls, lacks_project_label}
use custom_cloudstack_ccm.Balancer.Members.{set_algorithm}

abbrev pub IsKubernetes : Event → Type 0
IsKubernetes event = (request : Request) × (event ≡ kubernetes request)

module _ (cs : CsCloud) (srv : Server) where
  -- A service without any labels, in a cluster with a label for projects, makes the provider panic as
  -- soon as the project of its load balancer is known: the label is written to a nil map.
  add_project_label_panic :
      (lb : LoadBalancer) (h : History)
      → lb.service.labels ≡ none
      → str_eq lb.project_id "" ≡ false
      → str_eq cs.config.global.project_id_label "" ≡ false
      → add_project_label cs srv lb h ≡ (err (panic "assignment to entry in nil map"), h)
  unfolding add_project_label
  add_project_label_panic lb h unlabelled project label = ground (
    arith,
    unlabelled,
    project,
    label,
    eq_iff (or_empty (lookup_nil cs.config.global.project_id_label lb.service.labels)) "",
  )

  -- Neither the label nor the affinity changes whether a service manages a load balancer.
  should_manage_lb-set_algorithm :
      (lb lb' : LoadBalancer)
      → set_algorithm lb ≡ ok lb'
      → should_manage_lb lb' ≡ should_manage_lb lb
  unfolding set_algorithm should_manage_lb tags_for_service
  should_manage_lb-set_algorithm lb lb' h = ground (arith, h)

  should_manage_lb-label_service :
      (lb : LoadBalancer) (label value : String) (service : Service)
      → label_service label value lb.service ≡ ok service
      → should_manage_lb (record lb { service = service }) ≡ should_manage_lb lb
  unfolding should_manage_lb tags_for_service
  should_manage_lb-label_service lb label value service h = elim (Option-cases lb.service.labels) [
    | inl missing ↦ absurd (ground (arith, missing, h))
    | inr (labels, found) ↦ ground (arith, found, h)
  ]

  -- No load balancer is the result.
  abbrev IsNever : LoadBalancer → Type 0
  IsNever lb = false ≡ true

  Does-add_project_label :
      (lb : LoadBalancer)
      → Does IsKubernetes
          (λ lb'. should_manage_lb lb' ≡ should_manage_lb lb)
          (add_project_label cs srv lb)
  unfolding add_project_label
  Does-add_project_label lb =
      let Q : LoadBalancer → Type 0 = λ lb'. should_manage_lb lb' ≡ should_manage_lb lb in
      let label = cs.config.global.project_id_label in
      Does-if IsKubernetes Q (not (lacks_project_label cs srv lb)) (pure lb) _
        (Does-pure IsKubernetes Q lb refl)
        (Does->>= IsKubernetes (λ service. Q (record lb { service = service })) Q _ _
          (Does-lift IsKubernetes (λ service. Q (record lb { service = service }))
            (label_service label lb.project_id lb.service)
            (should_manage_lb-label_service lb label lb.project_id))
          (λ service same.
            let lb' : LoadBalancer = record lb { service = service } in
            Does->> IsKubernetes Q _ (pure lb')
              (Does-wrapping IsKubernetes Any _ (patch_service cs srv lb')
                (λ h. (more _ (_, refl) nothing, λ _ _. tt)))
              (Does-pure IsKubernetes Q lb' same)))

  Does-refused :
      (fuel : ℕ) (lb : LoadBalancer) (e : Error)
      → should_manage_lb lb ≡ err e
      → Does IsKubernetes IsNever (
          lift (set_algorithm lb) >>= λ lb'.
          lift (should_manage_lb lb') >> ensure_managed cs srv fuel lb')
  Does-refused fuel lb e unmanaged =
      Does->>= IsKubernetes (λ lb'. should_manage_lb lb' ≡ err e) IsNever _ _
        (Does-lift IsKubernetes (λ lb'. should_manage_lb lb' ≡ err e) (set_algorithm lb)
          (λ lb' h. should_manage_lb-set_algorithm lb lb' h ∙ unmanaged))
        (λ lb' still.
          Does->>= IsKubernetes (λ _. false ≡ true) IsNever (lift (should_manage_lb lb')) _
            (Does-lift IsKubernetes (λ _. false ≡ true) (should_manage_lb lb')
              (λ a fine. absurd (ground (arith, fine, still))))
            (λ a never. absurd (ground (arith, never))))

  -- A load balancer that the provider should not manage is not changed in CloudStack: when one is
  -- looked up for a service, ensuring it fails, and whatever the service's labels and affinity are and
  -- whatever is answered, it calls nothing but Kubernetes after the look-up.
  pub ensure_calls_unmanaged :
      (fuel : ℕ) (service : Service) (network_ids : List String) (project_id : String)
      (h h' : History) (lb : LoadBalancer) (e : Error)
      → get_load_balancer cs srv service project_id network_ids h ≡ (ok lb, h')
      → should_manage_lb lb ≡ err e
      → let (r, h'') = ensure_calls cs srv fuel service network_ids project_id h in
        ((x : Error) × (r ≡ err x)) × Adds IsKubernetes h' h''
  unfolding ensure_calls
  ensure_calls_unmanaged fuel service network_ids project_id h h' lb e found unmanaged =
      let code = add_project_label cs srv lb >>= λ labelled.
      lift (set_algorithm labelled) >>= λ lb'.
      lift (should_manage_lb lb') >> ensure_managed cs srv fuel lb' in
      let (adds, never) =
        Does->>= IsKubernetes (λ lb'. should_manage_lb lb' ≡ should_manage_lb lb) IsNever _ _
          (Does-add_project_label lb)
          (λ labelled same. Does-refused fuel labelled e (same ∙ unmanaged)) h' in
      let same : ensure_calls cs srv fuel service network_ids project_id h ≡ code h' =
        ground (arith, found) in
      subst (λ x. ((y : Error) × (x.0 ≡ err y)) × Adds IsKubernetes h' x.1) (sym same)
        (
          elim (Result-cases (code h').0) [
            | inr failing ↦ failing
            | inl (a, fine) ↦ absurd (ground (arith, never a fine))
          ],
          adds,
        )
