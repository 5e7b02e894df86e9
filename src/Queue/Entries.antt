-- ===== src/Queue/Entries.antt =====
-- What `push` keeps of the queue, and that a failed update is not lost.
use custom_cloudstack_ccm.Prelude.{
  ℕ, ◌+◌, Option, none, some, List, ◌≡◌, arith, inl, inr, Option-cases, ◌⊎◌, if◌then◌else◌,
}
use custom_cloudstack_ccm.Prelude.Dict.{lookup, lookup-insert, lookup-erase}
use custom_cloudstack_ccm.Prelude.Outcome.{Result-cases, ok, err, Error}
use custom_cloudstack_ccm.Kube.{ServiceKey, service_key_eq, service_key_beq_iff, svc_key}
use custom_cloudstack_ccm.Config.{CsCloud}
use custom_cloudstack_ccm.World.{NodeInfo, QueueEntry, World, api}
use custom_cloudstack_ccm.Api.{Server}
use custom_cloudstack_ccm.Nodes.{nodes_for_service}
use custom_cloudstack_ccm.Queue.Order.{pop_lem}
use custom_cloudstack_ccm.Queue.{push, merged, push_with_backoff, pop, work, process_queue_entry}

-- The entry that a push leaves for its service: the one that waits, with the new service and without its
-- load balancer, or else the new one.
abbrev pub pushed : Option QueueEntry → QueueEntry → QueueEntry
pushed none entry = entry
pushed (some existing) entry = record existing { service = entry.service; lb = none }

-- The service of an entry that is taken does not wait any more.
pub lookup-pop :
    (now : ℕ) (w : World) (entry : QueueEntry) (w' : World)
    → pop now w ≡ (some entry, w')
    → lookup (svc_key entry.service) w'.queue ≡ none
lookup-pop now w entry w' h = elim (pop_lem now w) [
  | inr (_, e) ↦ absurd (ground (arith, e))
  | inl (taken, _, e) ↦ ground (
    arith,
    e,
    lookup-erase (svc_key entry.service) (svc_key entry.service) w.queue,
    service_key_beq_iff (svc_key entry.service) (svc_key entry.service),
  )
]

module _ (cs : CsCloud) where
  -- A push succeeds where the service waits already or has a node, and fails otherwise without a
  -- change. When it succeeds the service waits with the entry that is merged into the one before,
  -- whose start, backoff and order to update the pools stay; every other service waits as before.
  pub push_lem :
      (entry : QueueEntry) (w : World)
      → let old = lookup (svc_key entry.service) w.queue in
        (((push cs entry w).0 ≡ ok tt)
          × ((key : ServiceKey)
              → lookup key (push cs entry w).1.queue ≡ (
                  if service_key_eq.beq (svc_key entry.service) key
                  then some (pushed old entry)
                  else lookup key w.queue)))
        ⊎ ((e : Error) × (old ≡ none)
            × (nodes_for_service cs w.registry entry.service ≡ err e)
            × (push cs entry w ≡ (err e, w)))
  unfolding push
  push_lem entry w = elim (Option-cases (lookup (svc_key entry.service) w.queue)) [
    | inr (existing, e) ↦ inl (
      ground (arith, e),
      λ key.
          ground
            (arith, e, lookup-insert (svc_key entry.service) key (merged existing entry) w.queue),
    )
    | inl missing ↦ elim (Result-cases (nodes_for_service cs w.registry entry.service)) [
      | inl (nodes, found) ↦ inl (
        ground (arith, missing, found),
        λ key.
            ground (arith, missing, found, lookup-insert (svc_key entry.service) key entry w.queue),
      )
      | inr (e, found) ↦ inr (e, missing, found, ground (arith, missing, found))
    ]
  ]

  module _ (srv : Server) (fuel now delay later last : ℕ) where
    -- When a worker's update of an entry fails, for a service that then still has nodes, the service
    -- waits again after the round, without a load balancer, from the time the limiter gave: no update
    -- is lost.
    pub work-retries :
        (w : World) (entry : QueueEntry) (w' : World) (e : Error) (nodes : List NodeInfo)
        → pop now w ≡ (some entry, w')
        → (api (process_queue_entry cs srv fuel entry w'.registry) w').0 ≡ err e
        → nodes_for_service cs w'.registry entry.service ≡ ok nodes
        → lookup (svc_key entry.service) (work cs srv fuel now delay later last w).queue
          ≡ some (record entry { backoff_until = later + delay; start = last; lb = none })
    unfolding work push push_with_backoff
    work-retries w entry w' e nodes popped failed found = ground (
      arith,
      popped,
      lookup-pop now w entry w' popped,
      failed,
      found,
      lookup-insert (svc_key entry.service) (svc_key entry.service)
          (record entry { backoff_until = later + delay; start = last; lb = none }) w'.queue,
      service_key_beq_iff (svc_key entry.service) (svc_key entry.service),
    )
