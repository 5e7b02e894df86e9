-- ===== src/Controller/Calls.antt =====
-- What deleting a load balancer calls, and when it calls nothing but the look-up.
use custom_cloudstack_ccm.Prelude.{
  ap, ◌∙◌, eq_iff, string_eq, String, true, false, none, some, [], ◌≡◌, refl, arith, inl, inr, sym,
  subst, str_eq, Option-cases, Bool-cases, ◌⊎◌,
}
use custom_cloudstack_ccm.Prelude.Outcome.{Result-cases, ok, err, Error, pure}
use custom_cloudstack_ccm.Kube.{Service}
use custom_cloudstack_ccm.Config.{CsCloud, environment_for_meta, is_lb_removal_enabled}
use custom_cloudstack_ccm.Cloudstack.{LoadBalancer, LoadBalancerRule}
use custom_cloudstack_ccm.Tags.{should_manage_lb}
use custom_cloudstack_ccm.Api.{Server, History}
use custom_cloudstack_ccm.Balancer.Client.{cloud_of}
use custom_cloudstack_ccm.Balancer.Addresses.{release_ip_if_managed}
use custom_cloudstack_ccm.Balancer.Rules.{get_load_balancer, delete_load_balancer_rule}
use custom_cloudstack_ccm.Balancer.Calls.{
  UsesClient, Calls, Calls-pure, Calls-release_ip_if_managed, Does-delete_load_balancer_rule,
  Does-get_load_balancer,
}
use custom_cloudstack_ccm.Trace.{Adds, nothing, Any, Does->>=, Does-if}
use custom_cloudstack_ccm.Controller.{ensure_load_balancer_deleted, delete_managed, delete_all}

module _ (cs : CsCloud) (srv : Server) where
  Calls-delete_all :
      (environment : String) (lb : LoadBalancer)
      → lb.environment ≡ environment
      → Calls cs srv environment (delete_all cs srv lb)
  Calls-delete_all environment lb e =
      Does->>= (UsesClient cs environment) _ Any (delete_load_balancer_rule cs srv lb) _
        (Does-delete_load_balancer_rule cs srv environment (λ lb'. lb'.environment ≡ environment) lb
          e e)
        (λ lb' e'.
          Does-if (UsesClient cs environment) Any (str_eq lb'.ip.id "") (pure tt)
            (release_ip_if_managed cs srv (cloud_of lb') lb'.ip lb'.service)
            (Calls-pure cs srv environment tt)
            (Calls-release_ip_if_managed cs srv environment (cloud_of lb') lb'.ip lb'.service e'))

  delete_managed-cases :
      (lb : LoadBalancer) (h : History)
      → (delete_managed cs srv lb h ≡ (ok tt, h))
        ⊎ (delete_managed cs srv lb h ≡ delete_all cs srv lb h)
  delete_managed-cases lb h = elim (Option-cases lb.rule) [
    | inl missing ↦ inl (ground (arith, missing))
    | inr (rule, has) ↦ elim (Bool-cases (is_lb_removal_enabled cs lb.environment lb.service)) [
      | inr off ↦ inl (ground (arith, has, off))
      | inl on ↦ elim (Result-cases (should_manage_lb lb)) [
        | inr (x, e) ↦ inl (ground (arith, has, on, e))
        | inl (x, e) ↦ inr (ground (arith, has, on, e))
      ]
    ]
  ]

  Calls-delete_managed :
      (environment : String) (lb : LoadBalancer)
      → lb.environment ≡ environment
      → Calls cs srv environment (delete_managed cs srv lb)
  Calls-delete_managed environment lb e h = elim (delete_managed-cases lb h) [
    | inl same ↦ (subst (λ x. Adds (UsesClient cs environment) h x.1) (sym same) nothing, λ _ _. tt)
    | inr same ↦ (
      subst (λ x. Adds (UsesClient cs environment) h x.1) (sym same)
          (Calls-delete_all environment lb e h).0,
      λ _ _. tt,
    )
  ]

  -- Every call of CloudStack that deleting the load balancer of a service makes, whatever CloudStack
  -- answers and whether it succeeds, goes to the client of the service's own environment.
  pub ensure_load_balancer_deleted-UsesClient :
      (service : Service) (h : History)
      → Adds
          (UsesClient cs (environment_for_meta cs service.meta))
          h
          (ensure_load_balancer_deleted cs srv (some service) h).1
  unfolding ensure_load_balancer_deleted
  ensure_load_balancer_deleted-UsesClient service h =
      let environment = environment_for_meta cs service.meta in
      (Does->>= (UsesClient cs environment) _ Any (get_load_balancer cs srv service "" [])
        (delete_managed cs srv) (Does-get_load_balancer cs srv environment service "" [] refl)
        (λ lb e. Calls-delete_managed environment lb e.0) h).0

  -- A load balancer that was looked up and has no rule, or whose removal is switched off, or that the
  -- provider should not manage, is left alone: deleting succeeds, and calls nothing after the look-up.
  pub ensure_load_balancer_deleted_kept :
      (service : Service) (h : History) (lb : LoadBalancer)
      → (get_load_balancer cs srv service "" [] h).0 ≡ ok lb
      → (lb.rule ≡ none)
        ⊎ (is_lb_removal_enabled cs lb.environment lb.service ≡ false)
        ⊎ ((e : Error) × (should_manage_lb lb ≡ err e))
      → ensure_load_balancer_deleted cs srv (some service) h
        ≡ (ok tt, (get_load_balancer cs srv service "" [] h).1)
  unfolding ensure_load_balancer_deleted
  ensure_load_balancer_deleted_kept service h lb found (inl missing) =
      ground (arith, found, missing)
  ensure_load_balancer_deleted_kept service h lb found (inr (inl off)) =
      elim (Option-cases lb.rule) [
        | inl missing ↦ ground (arith, found, missing)
        | inr (rule, e) ↦ ground (arith, found, off, e)
      ]
  ensure_load_balancer_deleted_kept service h lb found (inr (inr (x, unmanaged))) =
      elim (Option-cases lb.rule) [
        | inl missing ↦ ground (arith, found, missing)
        | inr (rule, e) ↦ ground (arith, found, unmanaged, e)
      ]

  -- A deletion that succeeds leaves the load balancer without its rule, and as it was otherwise.
  delete_load_balancer_rule-ok :
      (lb lb' : LoadBalancer) (h : History)
      → (delete_load_balancer_rule cs srv lb h).0 ≡ ok lb'
      → lb' ≡ record lb { rule = none }
  unfolding delete_load_balancer_rule
  delete_load_balancer_rule-ok lb lb' h deleted =
      (Does-delete_load_balancer_rule cs srv lb.environment (λ x. x ≡ record lb { rule = none }) lb
          refl refl h).1
        lb' deleted

  -- Where the load balancer that was looked up is to be deleted, its address is released only after its
  -- rule was: if the rule cannot be deleted, deleting fails with that error and calls nothing more; if
  -- it is deleted, the rest is just the release of the address that the load balancer had, for the
  -- service, or nothing where it had none.
  pub ensure_load_balancer_deleted_lem :
      (service : Service) (h h' : History) (lb : LoadBalancer) (rule : LoadBalancerRule)
      → get_load_balancer cs srv service "" [] h ≡ (ok lb, h')
      → lb.rule ≡ some rule
      → is_lb_removal_enabled cs lb.environment lb.service ≡ true
      → should_manage_lb lb ≡ ok tt
      → let (r, h'') = delete_load_balancer_rule cs srv lb h' in
        let result = ensure_load_balancer_deleted cs srv (some service) h in
        ((e : Error) × (r ≡ err e) × (result ≡ (err e, h'')))
        ⊎ ((r ≡ ok (record lb { rule = none })) × (lb.ip.id ≡ "") × (result ≡ (ok tt, h'')))
        ⊎ ((r ≡ ok (record lb { rule = none }))
            × (str_eq lb.ip.id "" ≡ false)
            × (result ≡ release_ip_if_managed cs srv (cloud_of lb) lb.ip lb.service h''))
  unfolding ensure_load_balancer_deleted
  ensure_load_balancer_deleted_lem service h h' lb rule found has on managed =
      elim (Result-cases (delete_load_balancer_rule cs srv lb h').0) [
        | inr (e, failed) ↦ inl (e, failed, ground (arith, found, has, on, managed, failed))
        | inl (lb', deleted) ↦
            let gone = delete_load_balancer_rule-ok lb lb' h' deleted in
            elim (Bool-cases (str_eq lb.ip.id "")) [
              | inl without ↦ inr (
                  inl (
                    deleted ∙ ap ok gone,
                    ground (arith, without, eq_iff lb.ip.id ""),
                    ground (arith, found, has, on, managed, deleted, gone, without),
                  ))
              | inr known ↦ inr (
                  inr (
                    deleted ∙ ap ok gone,
                    known,
                    ground (arith, found, has, on, managed, deleted, gone, known),
                  ))
            ]
      ]
