-- ===== src/Controller/Queueing.antt =====
-- What `EnsureLoadBalancer` leaves in the queue.
use custom_cloudstack_ccm.Prelude.{
  ℕ, List, true, some, ◌≡◌, ◌⊎◌, inl, inr, arith, Bool-cases, if◌then◌else◌,
}
use custom_cloudstack_ccm.Prelude.Dict.{lookup}
use custom_cloudstack_ccm.Prelude.Outcome.{Result-cases, ok, err, Error, failed}
use custom_cloudstack_ccm.Kube.{Service, ServiceKey, Node, service_key_eq, svc_key}
use custom_cloudstack_ccm.Config.{CsCloud}
use custom_cloudstack_ccm.Cloudstack.{LoadBalancer}
use custom_cloudstack_ccm.World.{World, api}
use custom_cloudstack_ccm.Api.{Server}
use custom_cloudstack_ccm.Nodes.{update_nodes, nodes_for_service, ids_for_nodes}
use custom_cloudstack_ccm.Nodes.Untouched.{update_nodes-queue}
use custom_cloudstack_ccm.Queue.Entries.{push_lem, pushed}
use custom_cloudstack_ccm.Controller.{
  ensure_load_balancer, ensure_calls, queued, no_ports, status_of,
}
use custom_cloudstack_ccm.Controller.Clients.{ensure_calls-UsesClient}

module _ (cs : CsCloud) (srv : Server) (fuel now : ℕ) (service : Service) (nodes : List Node)
    (w : World) where
  -- The queue is as before, but for the service's entry, which is merged with the new one.
  abbrev pub IsQueued : LoadBalancer → World → Type 0
  IsQueued lb w' =
      (key : ServiceKey)
      → lookup key w'.queue ≡ (
          if service_key_eq.beq (svc_key service) key
          then some (
              pushed (lookup (svc_key service) w.queue)
                (queued cs srv lb.service (some lb) true now))
          else lookup key w.queue)

  -- Ensuring a load balancer either succeeds with the status of a load balancer, and then the service is
  -- queued with it, or merged into the entry that waits for the service; or it fails, and then the
  -- queue is as it was. No other service's entry changes.
  pub ensure_load_balancer_lem :
      let (r, w') = ensure_load_balancer cs srv fuel now (some service) nodes w in
      ((lb : LoadBalancer) × (r ≡ ok (status_of lb)) × IsQueued lb w')
      ⊎ ((e : Error) × (r ≡ err e) × (w'.queue ≡ w.queue))
  unfolding ensure_load_balancer
  ensure_load_balancer_lem = elim (Bool-cases (no_ports cs srv service.ports)) [
    | inl without ↦ inr (
      failed "requested load balancer with no ports",
      ground (arith, without),
      ground (arith, without),
    )
    | inr ports ↦
        let updated = update_nodes cs srv nodes w in
        let untouched = update_nodes-queue cs srv nodes w in
        elim (Result-cases updated.0) [
          | inr (e, bad) ↦
              inr (e, ground (arith, ports, bad), ground (arith, ports, bad, untouched))
          | inl (_, fine) ↦ elim (Result-cases (nodes_for_service cs updated.1.registry service)) [
            | inr (e, bad) ↦
                inr
                  (e, ground (arith, ports, fine, bad), ground (arith, ports, fine, bad, untouched))
            | inl (infos, found) ↦
                let code =
                  ensure_calls cs srv fuel service (ids_for_nodes infos).1
                    (ids_for_nodes infos).2 in
                let made = api code updated.1 in
                elim (Result-cases made.0) [
                  | inr (e, bad) ↦ inr (
                    e,
                    ground (arith, ports, fine, found, bad),
                    ground (arith, ports, fine, found, bad, untouched),
                  )
                  | inl (lb, done) ↦
                      let kept =
                        ((ensure_calls-UsesClient cs srv fuel service (ids_for_nodes infos).1
                            (ids_for_nodes infos).2 updated.1.history).1
                          lb (ground (arith, done))).1 in
                      let entry = queued cs srv lb.service (some lb) true now in
                      elim (push_lem cs entry made.1) [
                        | inl (succeeds, all) ↦ inl (
                          lb,
                          ground (arith, ports, fine, found, done, succeeds),
                          λ key.
                              ground (
                                arith,
                                ports,
                                fine,
                                found,
                                done,
                                succeeds,
                                all key,
                                kept,
                                untouched,
                              ),
                        )
                        | inr (e, _, _, same) ↦ inr (
                          e,
                          ground (arith, ports, fine, found, done, same),
                          ground (arith, ports, fine, found, done, same, untouched),
                        )
                      ]
                ]
          ]
        ]
  ]
