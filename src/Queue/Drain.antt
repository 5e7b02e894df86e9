-- ===== src/Queue/Drain.antt =====
-- A worker that is told to stop comes to an end.
use custom_cloudstack_ccm.Prelude.{
  ℕ, suc, ◌+◌, ◌≤◌, ◌<◌, false, none, some, List, [], ◌∷◌, ◌≡◌, arith, inl, inr, All, leb, ltb,
  Option-cases, subst, if◌then◌else◌,
}
use custom_cloudstack_ccm.Prelude.Dict.{Dict, lookup, insert, erase}
use custom_cloudstack_ccm.Prelude.Outcome.{Result-cases}
use custom_cloudstack_ccm.Prelude.Sort.{sort, sort-All}
use custom_cloudstack_ccm.Nodes.{nodes_for_service}
use custom_cloudstack_ccm.Queue.Entries.{lookup-pop}
use custom_cloudstack_ccm.Kube.{ServiceKey, service_key_eq, service_key_beq_iff, svc_key}
use custom_cloudstack_ccm.Config.{CsCloud}
use custom_cloudstack_ccm.World.{NodeRegistry, QueueEntry, World, api}
use custom_cloudstack_ccm.Api.{Server}
use custom_cloudstack_ccm.Queue.Keys.{IsKeyed}
use custom_cloudstack_ccm.Queue.{
  Candidate, less, take_head, next_entry, candidates, push, push_with_backoff, pop, work,
  process_queue_entry,
}

-- How many entries a worker could take at a time.
unfoldable pub ready : ℕ → Dict ServiceKey QueueEntry → ℕ
ready time [] = 0
ready time ((_, entry) ∷ q) =
    let rest = ready time q in if leb entry.backoff_until time then suc rest else rest

ready-erase-le :
    (time : ℕ) (key : ServiceKey) (q : Dict ServiceKey QueueEntry)
    → ready time (erase key q) ≤ ready time q
unfolding ready
ready-erase-le time key [] = omega arith
ready-erase-le time key ((k, e) ∷ q) = ground (arith, ready-erase-le time key q)

-- Fewer are ready once the service of the entry leaves the queue, if it was.
abbrev Leaves : ℕ → Dict ServiceKey QueueEntry → QueueEntry → Type 0
Leaves time q entry =
    entry.backoff_until ≤ time → ready time (erase (svc_key entry.service) q) < ready time q

Leaves-cons :
    (time : ℕ) (k : ServiceKey) (e : QueueEntry) (q : Dict ServiceKey QueueEntry)
    (entry : QueueEntry)
    → Leaves time q entry
    → Leaves time ((k, e) ∷ q) entry
unfolding ready
Leaves-cons time k e q entry leaves early = ground (arith, leaves early)

Leaves-head :
    (time : ℕ) (e : QueueEntry) (q : Dict ServiceKey QueueEntry)
    → Leaves time ((svc_key e.service, e) ∷ q) e
unfolding ready
Leaves-head time e q early = ground (
  arith,
  service_key_beq_iff (svc_key e.service) (svc_key e.service),
  ready-erase-le time (svc_key e.service) q,
)

All-Leaves-cons :
    (time : ℕ) (k : ServiceKey) (e : QueueEntry) (q l : Dict ServiceKey QueueEntry)
    → All (λ (p : ServiceKey × QueueEntry). Leaves time q p.1) l
    → All (λ (p : ServiceKey × QueueEntry). Leaves time ((k, e) ∷ q) p.1) l
All-Leaves-cons time k e q [] all = tt
All-Leaves-cons time k e q ((_, x) ∷ l) (here, there) =
    (Leaves-cons time k e q x here, All-Leaves-cons time k e q l there)

All-Leaves :
    (time : ℕ) (q : Dict ServiceKey QueueEntry)
    → All (λ (p : ServiceKey × QueueEntry). svc_key p.1.service ≡ p.0) q
    → All (λ (p : ServiceKey × QueueEntry). Leaves time q p.1) q
All-Leaves time [] all = tt
All-Leaves time ((k, e) ∷ q) (same, all) = (
  subst (λ j. Leaves time ((j, e) ∷ q) e) same (Leaves-head time e q),
  All-Leaves-cons time k e q q (All-Leaves time q all),
)

candidates-All :
    (P : QueueEntry → Type 0) (r : NodeRegistry) (q : Dict ServiceKey QueueEntry)
    → All (λ (p : ServiceKey × QueueEntry). P p.1) q
    → All (λ (c : Candidate). P c.entry) (candidates r q)
unfolding candidates
candidates-All P r [] all = tt
candidates-All P r ((k, e) ∷ q) (here, there) = (here, candidates-All P r q there)

take_head-All :
    (P : QueueEntry → Type 0) (now : ℕ) (cs : List Candidate) (entry : QueueEntry)
    → All (λ (c : Candidate). P c.entry) cs
    → take_head now cs ≡ some entry
    → P entry × (ltb now entry.backoff_until ≡ false)
unfolding take_head
take_head-All P now [] entry all e = absurd (ground (arith, e))
take_head-All P now (c ∷ cs) entry (here, there) e =
    let same : c.entry ≡ entry = ground (arith, e) in (subst P same here, ground (arith, e))

-- What holds of all the entries holds of the one that `pop` takes.
pub pop-All :
    (P : QueueEntry → Type 0) (now : ℕ) (w : World) (entry : QueueEntry)
    → All (λ (p : ServiceKey × QueueEntry). P p.1) w.queue
    → (pop now w).0 ≡ some entry
    → P entry
unfolding pop
pop-All P now w entry all e = elim (Option-cases (next_entry now w)) [
  | inl nothing ↦ absurd (ground (arith, nothing, e))
  | inr (taken, found) ↦
      let same : taken ≡ entry = ground (arith, found, e) in
      subst P same
        (take_head-All P now (sort (less now) (candidates w.registry w.queue)) taken
          (sort-All (less now) (λ c. P c.entry) (candidates w.registry w.queue)
            (candidates-All P w.registry w.queue all))
          found).0
]

-- An entry that `pop` takes leaves fewer ready ones.
pop-ready :
    (time now : ℕ) (w : World) (entry : QueueEntry)
    → now ≤ time
    → IsKeyed w.queue
    → (pop now w).0 ≡ some entry
    → ready time (pop now w).1.queue < ready time w.queue
unfolding pop
pop-ready time now w entry h keyed e = elim (Option-cases (next_entry now w)) [
  | inl nothing ↦ absurd (ground (arith, nothing, e))
  | inr (taken, found) ↦
      let all = All-Leaves time w.queue keyed.1 in
      let (leaves, early) =
        take_head-All (Leaves time w.queue) now (sort (less now) (candidates w.registry w.queue))
          taken
          (sort-All (less now) (λ c. Leaves time w.queue c.entry) (candidates w.registry w.queue)
            (candidates-All (Leaves time w.queue) w.registry w.queue all))
          found in
      ground (arith, found, leaves)
]

ready-insert :
    (time : ℕ) (entry : QueueEntry) (q : Dict ServiceKey QueueEntry)
    → time < entry.backoff_until
    → ready time (insert (svc_key entry.service) entry q) ≤ ready time q
unfolding ready
ready-insert time entry [] late = ground arith
ready-insert time entry ((k, e) ∷ q) late = ground (arith, ready-insert time entry q late)

module _ (cs : CsCloud) (srv : Server) (fuel time : ℕ) where
  push-ready :
      (entry : QueueEntry) (w : World)
      → time < entry.backoff_until
      → lookup (svc_key entry.service) w.queue ≡ none
      → ready time (push cs entry w).1.queue ≤ ready time w.queue
  unfolding push
  push-ready entry w late missing =
      elim (Result-cases (nodes_for_service cs w.registry entry.service)) [
        | inl (nodes, found) ↦ ground (arith, missing, found, ready-insert time entry w.queue late)
        | inr (e, found) ↦ ground (arith, missing, found)
      ]

  -- A round that takes an entry leaves fewer ready ones, whether the update succeeds or fails.
  pub work-ready :
      (now delay later last : ℕ) (w : World) (entry : QueueEntry)
      → now ≤ time
      → time < later + delay
      → IsKeyed w.queue
      → (pop now w).0 ≡ some entry
      → ready time (work cs srv fuel now delay later last w).queue < ready time w.queue
  unfolding work push_with_backoff
  work-ready now delay later last w entry early late keyed e =
      let w' = (pop now w).1 in
      let popped = pop-ready time now w entry early keyed e in
      let r = api (process_queue_entry cs srv fuel entry w'.registry) w' in
      let again = record entry { backoff_until = later + delay; start = last; lb = none } in
      elim (Result-cases r.0) [
        | inl (a, fine) ↦ ground (arith, e, fine, popped)
        | inr (x, failed) ↦ ground (
          arith,
          e,
          failed,
          popped,
          push-ready again r.1 late (lookup-pop now w entry w' (ground (arith, e))),
        )
      ]
