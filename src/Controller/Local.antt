-- ===== src/Controller/Local.antt =====
-- Whatever EnsureLoadBalancer, UpdateLoadBalancer and the workers do, the queue's entries carry load
-- balancers of their services' own environments.
use custom_cloudstack_ccm.Prelude.{
  ℕ, ◌+◌, if◌then◌else◌, List, true, false, none, some, [], ◌∷◌, ◌≡◌, refl, arith, inl, inr, sym,
  ap, subst, str_eq, All, Bool-cases, Option-cases, string_eq,
}
use custom_cloudstack_ccm.Prelude.Dict.{Dict, lookup, insert, erase}
use custom_cloudstack_ccm.Prelude.Outcome.{Result-cases}
use custom_cloudstack_ccm.Kube.{Service, ServiceKey, service_key_eq, Node, svc_key}
use custom_cloudstack_ccm.Config.{CsCloud, environment_for_meta}
use custom_cloudstack_ccm.Api.{Server}
use custom_cloudstack_ccm.World.{QueueEntry, World, api}
use custom_cloudstack_ccm.Nodes.{update_nodes, nodes_for_service, ids_for_nodes}
use custom_cloudstack_ccm.Nodes.Untouched.{update_nodes-queue}
use custom_cloudstack_ccm.Queue.{
  push, merged, push_with_backoff, pop, work, process_queue_entry, next_entry,
}
use custom_cloudstack_ccm.Queue.Clients.{IsLocal, process_queue_entry-UsesClient}
use custom_cloudstack_ccm.Queue.Drain.{pop-All}
use custom_cloudstack_ccm.Trace.{Adds}
use custom_cloudstack_ccm.Balancer.Calls.{UsesClient}
use custom_cloudstack_ccm.Controller.{
  ensure_load_balancer, update_load_balancer, ensure_calls, queued, no_ports,
}
use custom_cloudstack_ccm.Controller.Clients.{ensure_calls-IsLocal}

module _ (cs : CsCloud) where
  abbrev pub AreLocal : Dict ServiceKey QueueEntry → Type 0
  AreLocal = All (λ (p : ServiceKey × QueueEntry). IsLocal cs p.1)

  insert-AreLocal :
      (k : ServiceKey) (e : QueueEntry) (q : Dict ServiceKey QueueEntry)
      → IsLocal cs e
      → AreLocal q
      → AreLocal (insert k e q)
  insert-AreLocal k e [] local all = (local, tt)
  insert-AreLocal k e ((j, old) ∷ q) local (first, all) =
      let rest = insert-AreLocal k e q local all in
      elim (service_key_eq.beq j k)
        as (λ b. AreLocal (if b then (j, e) ∷ q else (j, old) ∷ insert k e q)) [
          | true ↦ (local, all)
          | false ↦ (first, rest)
        ]

  erase-AreLocal :
      (k : ServiceKey) (q : Dict ServiceKey QueueEntry) → AreLocal q → AreLocal (erase k q)
  erase-AreLocal k [] all = tt
  erase-AreLocal k ((j, e) ∷ q) (first, all) =
      let rest = erase-AreLocal k q all in
      elim (service_key_eq.beq j k)
        as (λ b. AreLocal (if b then erase k q else (j, e) ∷ erase k q)) [
          | true ↦ rest
          | false ↦ (first, rest)
        ]

  -- An entry without a load balancer.
  absent-IsLocal : (e : QueueEntry) → e.lb ≡ none → IsLocal cs e
  absent-IsLocal e missing lb has = absurd (ground (arith, missing, has))

  push-AreLocal :
      (e : QueueEntry) (w : World)
      → IsLocal cs e
      → AreLocal w.queue
      → AreLocal (push cs e w).1.queue
  unfolding push
  push-AreLocal e w local all =
      let key = svc_key e.service in
      elim (Option-cases (lookup key w.queue)) [
        | inr (existing, found) ↦ subst AreLocal (ground (arith, found)) (
            insert-AreLocal key (merged existing e) w.queue
              (absent-IsLocal (merged existing e) refl) all)
        | inl missing ↦ elim (Result-cases (nodes_for_service cs w.registry e.service)) [
          | inl (nodes, found) ↦
              subst AreLocal (ground (arith, missing, found))
                (insert-AreLocal key e w.queue local all)
          | inr (x, bad) ↦ subst AreLocal (ground (arith, missing, bad)) all
        ]
      ]

  pop-AreLocal : (now : ℕ) (w : World) → AreLocal w.queue → AreLocal (pop now w).1.queue
  unfolding pop
  pop-AreLocal now w all = elim (Option-cases (next_entry now w)) [
    | inl nothing ↦ subst AreLocal (ground (arith, nothing)) all
    | inr (e, found) ↦
        subst AreLocal (ground (arith, found)) (erase-AreLocal (svc_key e.service) w.queue all)
  ]

  module _ (srv : Server) (fuel : ℕ) where
    work-AreLocal :
        (now delay later last : ℕ) (w : World)
        → AreLocal w.queue
        → AreLocal (work cs srv fuel now delay later last w).queue
    unfolding work push_with_backoff
    work-AreLocal now delay later last w all =
        let w' = (pop now w).1 in
        let popped = pop-AreLocal now w all in
        elim (Option-cases (pop now w).0) [
          | inl nothing ↦ subst AreLocal (ground (arith, nothing)) popped
          | inr (e, found) ↦
              let r = api (process_queue_entry cs srv fuel e w'.registry) w' in
              let again : QueueEntry = record e {
                backoff_until = later + delay;
                start = last;
                lb = none;
              } in
              elim (Result-cases r.0) [
                | inl (x, fine) ↦ subst AreLocal (ground (arith, found, fine)) popped
                | inr (x, bad) ↦
                    subst AreLocal (ground (arith, found, bad))
                      (push-AreLocal again r.1 (absent-IsLocal again refl) popped)
              ]
        ]

    ensure_load_balancer-AreLocal :
        (now : ℕ) (service : Service) (nodes : List Node) (w : World)
        → str_eq cs.config.global.project_id_label cs.config.global.environment_label ≡ false
        → AreLocal w.queue
        → AreLocal (ensure_load_balancer cs srv fuel now (some service) nodes w).1.queue
    unfolding ensure_load_balancer
    ensure_load_balancer-AreLocal now service nodes w differ all =
        elim (Bool-cases (no_ports cs srv service.ports)) [
          | inl without ↦ subst AreLocal (ground (arith, without)) all
          | inr ports ↦
              let updated = update_nodes cs srv nodes w in
              let still = subst AreLocal (sym (update_nodes-queue cs srv nodes w)) all in
              elim (Result-cases updated.0) [
                | inr (x, bad) ↦ subst AreLocal (ground (arith, ports, bad)) still
                | inl (x, fine) ↦
                    elim (Result-cases (nodes_for_service cs updated.1.registry service)) [
                      | inr (y, bad) ↦ subst AreLocal (ground (arith, ports, fine, bad)) still
                      | inl (infos, found) ↦
                          let (_, network_ids, project_id) = ids_for_nodes infos in
                          let made =
                            api (ensure_calls cs srv fuel service network_ids project_id)
                              updated.1 in
                          elim (Result-cases made.0) [
                            | inr (y, bad) ↦
                                subst AreLocal (ground (arith, ports, fine, found, bad)) still
                            | inl (lb, done) ↦
                                let entry = queued cs srv lb.service (some lb) true now in
                                let here =
                                  ensure_calls-IsLocal cs srv fuel service network_ids project_id
                                    updated.1.history lb differ (ground (arith, done)) in
                                let local : IsLocal cs entry =
                                  λ lb' has. ground (arith, here, has) in
                                subst AreLocal (ground (arith, ports, fine, found, done))
                                  (push-AreLocal entry made.1 local still)
                          ]
                    ]
              ]
        ]

    update_load_balancer-AreLocal :
        (now : ℕ) (service : Service) (nodes : List Node) (w : World)
        → AreLocal w.queue
        → AreLocal (update_load_balancer cs srv now (some service) nodes w).1.queue
    unfolding update_load_balancer
    update_load_balancer-AreLocal now service nodes w all =
        let updated = update_nodes cs srv nodes w in
        let still = subst AreLocal (sym (update_nodes-queue cs srv nodes w)) all in
        let entry = queued cs srv service none false now in
        elim (Result-cases updated.0) [
          | inr (x, bad) ↦ subst AreLocal (ground (arith, bad)) still
          | inl (x, fine) ↦
              subst AreLocal (ground (arith, fine))
                (push-AreLocal entry updated.1 (absent-IsLocal entry refl) still)
        ]

    -- What the provider does: its handlers for a service, a worker's round, and all that leaves the
    -- queue alone.
    pub data Doing : World → World → Type 0 where
      ensures :
          (now : ℕ) (service : Service) (nodes : List Node) (w : World)
          → Doing w (ensure_load_balancer cs srv fuel now (some service) nodes w).1
      updates :
          (now : ℕ) (service : Service) (nodes : List Node) (w : World)
          → Doing w (update_load_balancer cs srv now (some service) nodes w).1
      works :
          (now delay later last : ℕ) (w : World) → Doing w (work cs srv fuel now delay later last w)
      elsewhere : (w w' : World) → w'.queue ≡ w.queue → Doing w w'

    -- From an empty queue.
    pub data Running : World → Type 0 where
      starts : (w : World) → w.queue ≡ [] → Running w
      goes_on : (w w' : World) → Running w → Doing w w' → Running w'

    Running-AreLocal :
        str_eq cs.config.global.project_id_label cs.config.global.environment_label ≡ false
        → (w : World) → Running w
        → AreLocal w.queue
    Running-AreLocal differ _ (starts w empty) = subst AreLocal (sym empty) tt
    Running-AreLocal differ _ (goes_on w _ before (ensures now service nodes _)) =
        ensure_load_balancer-AreLocal now service nodes w differ (Running-AreLocal differ w before)
    Running-AreLocal differ _ (goes_on w _ before (updates now service nodes _)) =
        update_load_balancer-AreLocal now service nodes w (Running-AreLocal differ w before)
    Running-AreLocal differ _ (goes_on w _ before (works now delay later last _)) =
        work-AreLocal now delay later last w (Running-AreLocal differ w before)
    Running-AreLocal differ _ (goes_on w w' before (elsewhere _ _ same)) =
        subst AreLocal (sym same) (Running-AreLocal differ w before)

    -- Whatever EnsureLoadBalancer, UpdateLoadBalancer and the workers have done since the queue was
    -- empty, and whatever CloudStack answers: a worker that takes an entry calls only the client of the
    -- environment of the entry's service to process it, where the label of projects in the
    -- configuration is not the one of environments.
    pub Running-UsesClient :
        (w w' : World) (now : ℕ) (entry : QueueEntry)
        → str_eq cs.config.global.project_id_label cs.config.global.environment_label ≡ false
        → Running w
        → pop now w ≡ (some entry, w')
        → Adds
            (UsesClient cs (environment_for_meta cs entry.service.meta))
            w'.history
            (process_queue_entry cs srv fuel entry w'.registry w'.history).1
    Running-UsesClient w w' now entry differ running popped =
        process_queue_entry-UsesClient cs srv fuel entry w'.registry w'.history (
          pop-All (IsLocal cs) now w entry (Running-AreLocal differ w running)
            (ap (λ r. r.0) popped))
