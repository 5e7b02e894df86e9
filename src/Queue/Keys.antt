-- ===== src/Queue/Keys.antt =====
-- The queue keeps each entry under the key of its service, and each service once.
use custom_cloudstack_ccm.Prelude.{
  ◌+◌, ℕ, none, [], ◌∷◌, ◌≡◌, refl, arith, inl, inr, All, Distinct, Option-cases, sym, subst,
}
use custom_cloudstack_ccm.Prelude.Dict.{
  Dict, keys, lookup, insert, erase, contains-keys, lookup-insert, lookup-erase,
}
use custom_cloudstack_ccm.Prelude.Outcome.{Result-cases}
use custom_cloudstack_ccm.Kube.{ServiceKey, service_key_eq, service_key_beq_iff, svc_key}
use custom_cloudstack_ccm.Config.{CsCloud}
use custom_cloudstack_ccm.World.{QueueEntry, World, api}
use custom_cloudstack_ccm.Api.{Server}
use custom_cloudstack_ccm.Nodes.{nodes_for_service}
use custom_cloudstack_ccm.Queue.{
  push, merged, push_with_backoff, pop, work, process_queue_entry, next_entry,
}

-- Every entry stands under the key of its service, and no key twice.
abbrev pub IsKeyed : Dict ServiceKey QueueEntry → Type 0
IsKeyed q = Distinct (keys q) × All (λ (p : ServiceKey × QueueEntry). svc_key p.1.service ≡ p.0) q

insert-IsKeyed :
    (entry : QueueEntry) (q : Dict ServiceKey QueueEntry)
    → IsKeyed q
    → IsKeyed (insert (svc_key entry.service) entry q)
insert-IsKeyed entry [] keyed = ((refl, tt), (refl, tt))
insert-IsKeyed entry ((k, v) ∷ q) ((fresh, d), (e, all)) = ground (
  arith,
  service_key_beq_iff k (svc_key entry.service),
  insert-IsKeyed entry q (d, all),
  contains-keys k (insert (svc_key entry.service) entry q),
  contains-keys k q,
  lookup-insert (svc_key entry.service) k entry q,
  service_key_beq_iff (svc_key entry.service) k,
)

pub erase-IsKeyed :
    (key : ServiceKey) (q : Dict ServiceKey QueueEntry) → IsKeyed q → IsKeyed (erase key q)
erase-IsKeyed key [] keyed = keyed
erase-IsKeyed key ((k, v) ∷ q) ((fresh, d), (e, all)) = ground (
  arith,
  service_key_beq_iff k key,
  erase-IsKeyed key q (d, all),
  contains-keys k (erase key q),
  contains-keys k q,
  lookup-erase key k q,
  service_key_beq_iff key k,
)

module _ (cs : CsCloud) where
  push-IsKeyed :
      (entry : QueueEntry) (w : World) → IsKeyed w.queue → IsKeyed (push cs entry w).1.queue
  unfolding push
  push-IsKeyed entry w keyed = elim (Option-cases (lookup (svc_key entry.service) w.queue)) [
    | inr (existing, e) ↦ ground (arith, e, insert-IsKeyed (merged existing entry) w.queue keyed)
    | inl missing ↦ elim (Result-cases (nodes_for_service cs w.registry entry.service)) [
      | inl (nodes, found) ↦ ground (arith, missing, found, insert-IsKeyed entry w.queue keyed)
      | inr (e, found) ↦ ground (arith, missing, found, keyed)
    ]
  ]

  pub pop-IsKeyed : (now : ℕ) (w : World) → IsKeyed w.queue → IsKeyed (pop now w).1.queue
  unfolding pop
  pop-IsKeyed now w keyed = elim (Option-cases (next_entry now w)) [
    | inl nothing ↦ ground (arith, nothing, keyed)
    | inr (entry, e) ↦ ground (arith, e, erase-IsKeyed (svc_key entry.service) w.queue keyed)
  ]

  module _ (srv : Server) (fuel : ℕ) where
    pub work-IsKeyed :
        (now delay later last : ℕ) (w : World)
        → IsKeyed w.queue
        → IsKeyed (work cs srv fuel now delay later last w).queue
    unfolding work push_with_backoff
    work-IsKeyed now delay later last w keyed =
        let w' = (pop now w).1 in
        let popped = pop-IsKeyed now w keyed in
        elim (Option-cases (pop now w).0) [
          | inl nothing ↦ ground (arith, nothing, popped)
          | inr (entry, e) ↦
              let r = api (process_queue_entry cs srv fuel entry w'.registry) w' in
              let again = record entry { backoff_until = later + delay; start = last; lb = none } in
              elim (Result-cases r.0) [
                | inl (a, fine) ↦ ground (arith, e, fine, popped)
                | inr (x, failed) ↦ ground (arith, e, failed, push-IsKeyed again r.1 popped)
              ]
        ]

    -- What changes the state of the queue: its own operations, a worker's round, and everything else
    -- that the provider does, which leaves the queue alone.
    pub data Turn : World → World → Type 0 where
      pushes : (entry : QueueEntry) (w : World) → Turn w (push cs entry w).1
      pops : (now : ℕ) (w : World) → Turn w (pop now w).1
      works :
          (now delay later last : ℕ) (w : World) → Turn w (work cs srv fuel now delay later last w)
      elsewhere : (w w' : World) → w'.queue ≡ w.queue → Turn w w'

    Turn-IsKeyed : (w w' : World) → Turn w w' → IsKeyed w.queue → IsKeyed w'.queue
    Turn-IsKeyed _ _ (pushes entry w) keyed = push-IsKeyed entry w keyed
    Turn-IsKeyed _ _ (pops now w) keyed = pop-IsKeyed now w keyed
    Turn-IsKeyed _ _ (works now delay later last w) keyed =
        work-IsKeyed now delay later last w keyed
    Turn-IsKeyed _ _ (elsewhere w w' same) keyed = subst IsKeyed (sym same) keyed

    pub data Turns : World → World → Type 0 where
      none_yet : (w : World) → Turns w w
      then_turn : (u v w : World) → Turns u v → Turn v w → Turns u w

    -- Whatever happens to the queue, in whatever order, each entry stands under the key of its service
    -- and no service is queued twice, if it was so before.
    pub Turns-IsKeyed : (w w' : World) → Turns w w' → IsKeyed w.queue → IsKeyed w'.queue
    Turns-IsKeyed _ _ (none_yet w) keyed = keyed
    Turns-IsKeyed _ _ (then_turn w v w' turns turn) keyed =
        Turn-IsKeyed v w' turn (Turns-IsKeyed w v turns keyed)
