-- ===== src/Queue.antt =====
-- cloudstack/service_queue.go: the queue of load balancer updates. The queue's mutex makes `push` and
-- `pop` one step each. The time that the source reads from the clock is an argument.
pub mod Order
pub mod Entries
pub mod Keys
pub mod Revisions
pub mod Worker
pub mod Workers
pub mod Drain
pub mod Stopping
pub mod Rounds
pub mod Clients
use custom_cloudstack_ccm.Prelude.{
  ℕ, ◌+◌, String, Bool, true, false, Option, none, some, List, [], ◌∷◌, map, str_eq, if◌then◌else◌,
  not, ltb, ◌==◌, ◌&&◌, ◌||◌, is_some,
}
use custom_cloudstack_ccm.Prelude.Dict.{Dict, lookup, insert, erase}
use custom_cloudstack_ccm.Prelude.Sort.{sort}
use custom_cloudstack_ccm.Prelude.Outcome.{
  Error, Result, ok, err, failed, wrapping, pure, throw, Action, lift, gets, modify, ◌>>=◌, ◌>>◌,
}
use custom_cloudstack_ccm.Kube.{Service, ServiceKey, service_key_eq, svc_key}
use custom_cloudstack_ccm.Config.{CsCloud}
use custom_cloudstack_ccm.Cloudstack.{LoadBalancer}
use custom_cloudstack_ccm.Tags.{should_manage_lb}
use custom_cloudstack_ccm.Api.{Server, Api}
use custom_cloudstack_ccm.World.{NodeInfo, NodeRegistry, QueueEntry, World, api}
use custom_cloudstack_ccm.Nodes.{nodes_for_service, ids_for_nodes}
use custom_cloudstack_ccm.Endpoints.{nodes_containing_service}
use custom_cloudstack_ccm.Balancer.Rules.{get_load_balancer}
use custom_cloudstack_ccm.Balancer.Members.{sync_nodes}
use custom_cloudstack_ccm.Balancer.Pools.{update_load_balancer_pool}

-- `queueEntryWithNodeRecent`
pub record Candidate : Type 0 where
  pub entry : QueueEntry
  pub top_revision : ℕ

-- `sortableQueueEntries.Less`, at the time `now`
unfoldable pub less : ℕ → Candidate → Candidate → Bool
less now a b =
    if (ltb now a.entry.backoff_until || ltb now b.entry.backoff_until)
      && not (a.entry.backoff_until == b.entry.backoff_until)
    then ltb a.entry.backoff_until b.entry.backoff_until
    else if a.top_revision == b.top_revision
    then ltb a.entry.start b.entry.start
    else ltb b.top_revision a.top_revision

-- The loop over the nodes of a service.
pub top_revision_from : ℕ → List NodeInfo → ℕ
top_revision_from top [] = top
top_revision_from top (node ∷ nodes) =
    top_revision_from (if ltb top node.revision then node.revision else top) nodes

unfoldable pub top_revision : NodeRegistry → ServiceKey → ℕ
unfolding top_revision_from
top_revision r key = top_revision_from 0 (nodes_containing_service r key)

-- The loop over the queue.
pub candidates : NodeRegistry → Dict ServiceKey QueueEntry → List Candidate
candidates r [] = []
candidates r ((key, entry) ∷ queue) =
    record { entry = entry; top_revision = top_revision r key } ∷ candidates r queue

-- The head of the sorted candidates, unless it still has to wait.
take_head : ℕ → List Candidate → Option QueueEntry
take_head now [] = none
take_head now (c ∷ _) = if ltb now c.entry.backoff_until then none else some c.entry

abbrev pub next_entry : ℕ → World → Option QueueEntry
unfolding candidates take_head
next_entry now w = take_head now (sort (less now) (candidates w.registry w.queue))

abbrev pub with_queue : Dict ServiceKey QueueEntry → World → World
with_queue queue w = record w { queue = queue }

unfoldable pub pop : ℕ → World → Option QueueEntry × World
unfolding candidates take_head
pop now w = elim (next_entry now w) [
  | none ↦ (none, w)
  | some entry ↦ (some entry, with_queue (erase (svc_key entry.service) w.queue) w)
]

-- A service that waits already keeps its entry, but for the service and the load balancer.
abbrev pub merged : QueueEntry → QueueEntry → QueueEntry
merged existing entry = record existing { service = entry.service; lb = none }

module _ (cs : CsCloud) where
  unfoldable pub push : QueueEntry → Action World (Unit {0})
  push entry w = elim (lookup (svc_key entry.service) w.queue) [
    | some existing ↦
        (ok tt, with_queue (insert (svc_key entry.service) (merged existing entry) w.queue) w)
    | none ↦ elim (nodes_for_service cs w.registry entry.service) [
      | err e ↦ (err e, w)
      | ok _ ↦ (ok tt, with_queue (insert (svc_key entry.service) entry w.queue) w)
    ]
  ]

  -- `delay` is what the rate limiter (k8s.io/client-go/util/workqueue) answers, and the clock is read
  -- twice.
  unfoldable pub push_with_backoff : ℕ → ℕ → ℕ → QueueEntry → Action World (Unit {0})
  push_with_backoff delay now later entry =
      push (record entry { backoff_until = now + delay; start = later; lb = none })

  module _ (srv : Server) (fuel : ℕ) where
    -- What is done once the load balancer is known.
    abbrev pub sync_entry : QueueEntry → List NodeInfo → LoadBalancer → Api (Unit {0})
    sync_entry entry nodes lb =
        let (host_ids, network_ids, _) = ids_for_nodes nodes in
        sync_nodes cs srv fuel lb host_ids network_ids
        >> (if entry.update_pool then update_load_balancer_pool srv cs lb else pure tt)

    -- A load balancer that is looked up is left alone where it does not exist or is not managed.
    abbrev pub sync_managed : QueueEntry → List NodeInfo → LoadBalancer → Api (Unit {0})
    sync_managed entry nodes lb = elim lb.rule [
      | none ↦ pure tt
      | some _ ↦ elim (should_manage_lb lb) [ err _ ↦ pure tt | ok _ ↦ sync_entry entry nodes lb ]
    ]

    abbrev pub look_up_and_sync : QueueEntry → List NodeInfo → Api (Unit {0})
    look_up_and_sync entry nodes = do
      lb ← get_load_balancer cs srv entry.service (ids_for_nodes nodes).2 (ids_for_nodes nodes).1
      sync_managed entry nodes lb

    unfoldable pub process_queue_entry : QueueEntry → NodeRegistry → Api (Unit {0})
    process_queue_entry entry r = do
      nodes ← lift (nodes_for_service cs r entry.service)
      elim entry.lb [ none ↦ look_up_and_sync entry nodes | some lb ↦ sync_entry entry nodes lb ]

    -- One round of a worker's loop: an entry that fails goes back into the queue. The error of that
    -- `push` is only reported. `processQueueEntry` reads the registry when it starts. A panic, which
    -- ends the process, is taken as an error here; only an entry with a load balancer that has no rule
    -- can cause one.
    unfoldable pub work : ℕ → ℕ → ℕ → ℕ → World → World
    work now delay later last w =
        let (popped, w') = pop now w in
        elim popped [
          | none ↦ w'
          | some entry ↦
              let (r, w'') = api (process_queue_entry entry w'.registry) w' in
              elim r [ ok _ ↦ w'' | err _ ↦ (push_with_backoff delay later last entry w'').1 ]
        ]
