-- ===== src/Queue/Workers/Safety.antt =====
-- What the workers of the queue guarantee, in whatever order they take their steps.
use custom_cloudstack_ccm.Prelude.{
  contains-append, ℕ, ◌+◌, ◌≤◌, Bool, true, none, some, is_some, List, [], ◌∷◌, ◌++◌, map, contains,
  ◌||◌, ◌≡◌, refl, ◌⊎◌, inl, inr, arith, ap, sym, ◌∙◌, subst,
}
use custom_cloudstack_ccm.Prelude.Dict.{lookup, lookup-erase}
use custom_cloudstack_ccm.Prelude.Outcome.{Error, ok, err}
use custom_cloudstack_ccm.Kube.{ServiceKey, service_key_eq, service_key_beq}
use custom_cloudstack_ccm.Config.{CsCloud}
use custom_cloudstack_ccm.Api.{Server}
use custom_cloudstack_ccm.World.{QueueEntry, World}
use custom_cloudstack_ccm.ServiceLock.{ServiceLock}
use custom_cloudstack_ccm.ServiceLock.System.{
  Pc, Move, registers, acquires, unlocks, System, step, IsStart, Reach, here, next, holds, total,
}
use custom_cloudstack_ccm.ServiceLock.Safety.{mutual_exclusion}
use custom_cloudstack_ccm.Queue.{pop, push, push_with_backoff}
use custom_cloudstack_ccm.Queue.Order.{pop_lem}
use custom_cloudstack_ccm.Queue.Entries.{push_lem}
use custom_cloudstack_ccm.Queue.Workers.{
  Task, Shared, Team, TeamStep, team_step, TeamReach, no_step, then_step, Act, lock_state, carries,
  any_carries, key_of,
}

map-append : {A B : Type 0} (f : A → B) (xs ys : List A) → map f (xs ++ ys) ≡ map f xs ++ map f ys
map-append f [] ys = refl
map-append f (x ∷ xs) ys = ap (λ zs. f x ∷ zs) (map-append f xs ys)

module _ (cs : CsCloud) (srv : Server) (fuel : ℕ) where
  -- A step leaves the service locks alone, or is a move of a thread of the lock's own system.
  Act-Move :
      {s s' : Shared} {p p' : Task} {ended : List ServiceKey}
      → Act cs srv fuel s p ended s' p'
      → ((s'.lock ≡ s.lock) × (lock_state p' ≡ lock_state p))
        ⊎ Move s.lock s'.lock (lock_state p) (lock_state p')
  Act-Move (Act.pops now e w h) = inl (refl, refl)
  Act-Move (Act.registers e l d h) = inr (registers (key_of e) d h)
  Act-Move (Act.acquires e l d h) = inr (acquires (key_of e) d h)
  Act-Move (Act.succeeds e d w h) = inl (refl, refl)
  Act-Move (Act.fails e d w x h _) = inl (refl, refl)
  Act-Move (Act.unlocks e l d h) = inr (unlocks (key_of e) d h)
  Act-Move (Act.unlocks_failed e l d h) = inr (unlocks (key_of e) d h)
  Act-Move (Act.requeues e delay later last w h) = inl (refl, refl)
  Act-Move (Act.gives_up e delay later last w x h) = inl (refl, refl)
  Act-Move (Act.locks p p' l m) = inr m
  Act-Move (Act.queues p e) = inl (refl, refl)
  Act-Move (Act.handles p w h) = inl (refl, refl)

  abbrev pub lock_view : Team cs srv fuel → System
  lock_view s = record { lock = s.shared.lock; threads = map lock_state s.tasks }

  abbrev view_of : ServiceLock → List Pc → System
  view_of l ps = record { lock = l; threads = ps }

  threads-append :
      (xs ys : List Task) (p : Task) (ts : List Task)
      → ts ≡ xs ++ p ∷ ys
      → map lock_state ts ≡ map lock_state xs ++ lock_state p ∷ map lock_state ys
  threads-append xs ys p ts e = ap (map lock_state) e ∙ map-append lock_state xs (p ∷ ys)

  -- The workers are an instance of the system of the lock.
  TeamReach-Reach :
      (s : Team cs srv fuel) (ended : List ServiceKey) (t : Team cs srv fuel)
      → TeamReach cs srv fuel s ended t
      → Reach (lock_view s) (lock_view t)
  TeamReach-Reach s _ _ no_step = here
  TeamReach-Reach s _ _ (then_step ended t now u r (team_step xs ys p p' es et act)) =
      elim (Act-Move act) [
        | inl (same, stays) ↦
            subst (Reach (lock_view s))
              (ap (λ l. view_of l (map lock_state t.tasks)) (sym same)
                ∙ ap (view_of u.shared.lock) (
                    threads-append xs ys p t.tasks es
                    ∙ (ap (λ x. map lock_state xs ++ x ∷ map lock_state ys) (sym stays)
                        ∙ sym (threads-append xs ys p' u.tasks et))))
              (TeamReach-Reach s ended t r)
        | inr move ↦ next (TeamReach-Reach s ended t r) (
            step (map lock_state xs) (map lock_state ys) (lock_state p) (lock_state p')
              (threads-append xs ys p t.tasks es) (threads-append xs ys p' u.tasks et) move)
      ]

  -- A team whose threads have done nothing yet.
  abbrev pub IsFresh : Team cs srv fuel → Type 0
  IsFresh s = IsStart (lock_view s)

  -- From a team whose threads have done nothing yet, however the workers and the handlers take their
  -- steps, at most one of them is between the lock and the unlock of a service: no two update the load
  -- balancer of a service at the same time.
  pub one_at_a_time :
      (s : Team cs srv fuel) (ended : List ServiceKey) (t : Team cs srv fuel)
      → IsFresh s
      → TeamReach cs srv fuel s ended t
      → (k : ServiceKey) → total (holds k) (map lock_state t.tasks) ≤ 1
  one_at_a_time s ended t fresh r k =
      mutual_exclusion (lock_view s) (lock_view t) fresh (TeamReach-Reach s ended t r) k

  -- Whether a service waits in the queue, or is `carried`.
  abbrev pub is_pending : ServiceKey → Shared → Bool → Bool
  is_pending k s carried = is_some (lookup k s.world.queue) || carried

  push-keeps :
      (e : QueueEntry) (w : World) (k : ServiceKey)
      → is_some (lookup k w.queue) ≡ true
      → is_some (lookup k (push cs e w).1.queue) ≡ true
  push-keeps e w k h = elim (push_lem cs e w) [
    | inl (fine, all) ↦ ground (arith, all k, h)
    | inr (x, missing, bad, same) ↦ ground (arith, same, h)
  ]

  push-adds :
      (e : QueueEntry) (w w' : World) (k : ServiceKey)
      → push cs e w ≡ (ok tt, w')
      → (is_some (lookup k w.queue) || service_key_beq (key_of e) k) ≡ true
      → is_some (lookup k w'.queue) ≡ true
  push-adds e w w' k h there = elim (push_lem cs e w) [
    | inl (fine, all) ↦ ground (arith, all k, h, there)
    | inr (x, missing, bad, same) ↦ absurd (ground (arith, same, h))
  ]

  push-refuses : (e : QueueEntry) (w w' : World) (x : Error) → push cs e w ≡ (err x, w') → w ≡ w'
  push-refuses e w w' x h = elim (push_lem cs e w) [
    | inl (fine, _) ↦ absurd (ground (arith, fine, h))
    | inr (_, _, _, same) ↦ ground (arith, same, h)
  ]

  pop-keeps :
      (now : ℕ) (e : QueueEntry) (w w' : World) (k : ServiceKey)
      → pop now w ≡ (some e, w')
      → is_some (lookup k w.queue) ≡ true
      → (is_some (lookup k w'.queue) || service_key_beq (key_of e) k) ≡ true
  pop-keeps now e w w' k h there = elim (pop_lem now w) [
    | inr (_, same) ↦ absurd (ground (arith, same, h))
    | inl (e', _, same) ↦ ground (arith, same, h, there, lookup-erase (key_of e') k w.queue)
  ]

  Act-is_pending :
      {s s' : Shared} {p p' : Task} {ended : List ServiceKey}
      → Act cs srv fuel s p ended s' p'
      → (k : ServiceKey) (c : Bool) → is_pending k s (c || carries k p) ≡ true
      → (is_pending k s' (c || carries k p') || contains k ended) ≡ true
  unfolding push_with_backoff
  Act-is_pending {s} (Act.pops now e w h) k c a = ground (arith, a, pop-keeps now e s.world w k h)
  Act-is_pending (Act.registers e l d h) k c a = ground (arith, a)
  Act-is_pending (Act.acquires e l d h) k c a = ground (arith, a)
  Act-is_pending {s} (Act.succeeds e d w h) k c a =
      let same : s.world.queue ≡ w.queue = ap (λ x. x.1.queue) h in
      ground (arith, a, ap (lookup k) same)
  Act-is_pending {s} (Act.fails e d w x h _) k c a =
      let same : s.world.queue ≡ w.queue = ap (λ x. x.1.queue) h in
      ground (arith, a, ap (lookup k) same)
  Act-is_pending (Act.unlocks e l d h) k c a = ground (arith, a)
  Act-is_pending (Act.unlocks_failed e l d h) k c a = ground (arith, a)
  Act-is_pending {s} (Act.requeues e delay later last w h) k c a =
      let again = record e { backoff_until = later + delay; start = last; lb = none } in
      ground (arith, a, push-adds again s.world w k h)
  Act-is_pending {s} (Act.gives_up e delay later last w x h) k c a =
      let again = record e { backoff_until = later + delay; start = last; lb = none } in
      ground (arith, a, ap (λ v. lookup k v.queue) (push-refuses again s.world w x h))
  Act-is_pending (Act.locks p p' l m) k c a = ground (arith, a)
  Act-is_pending {s} (Act.queues p e) k c a = ground (arith, a, push-keeps e s.world k)
  Act-is_pending {s} (Act.handles p w same) k c a = ground (arith, a, ap (lookup k) same)

  any_carries-middle :
      (k : ServiceKey) (xs ys : List Task) (p : Task)
      → any_carries k (xs ++ p ∷ ys) ≡ ((any_carries k xs || any_carries k ys) || carries k p)
  any_carries-middle k [] ys p = ground arith
  any_carries-middle k (x ∷ xs) ys p = ground (arith, any_carries-middle k xs ys p)

  TeamStep-is_pending :
      (s : Team cs srv fuel) (now : List ServiceKey) (t : Team cs srv fuel)
      → TeamStep cs srv fuel s now t
      → (k : ServiceKey) → is_pending k s.shared (any_carries k s.tasks) ≡ true
      → (is_pending k t.shared (any_carries k t.tasks) || contains k now) ≡ true
  TeamStep-is_pending s now t (team_step xs ys p p' es et act) k a =
      let before = ap (any_carries k) es ∙ any_carries-middle k xs ys p in
      let after = ap (any_carries k) et ∙ any_carries-middle k xs ys p' in
      ap (λ c. is_pending k t.shared c || contains k now) after
      ∙ Act-is_pending act k (any_carries k xs || any_carries k ys)
          (ap (is_pending k s.shared) (sym before) ∙ a)

  -- An update that waits in the queue or is with a worker is not lost, however the workers and the
  -- handlers take their steps: afterwards the service still waits, or a worker has an update of it, or
  -- meanwhile an update of it came to an end, by success or because it could not be put back.
  pub none_lost :
      (s : Team cs srv fuel) (ended : List ServiceKey) (t : Team cs srv fuel)
      → TeamReach cs srv fuel s ended t
      → (k : ServiceKey) → is_pending k s.shared (any_carries k s.tasks) ≡ true
      → (is_pending k t.shared (any_carries k t.tasks) || contains k ended) ≡ true
  none_lost s _ _ no_step k a = ground (arith, a)
  none_lost s _ _ (then_step ended t now u r one) k a = ground (
    arith,
    none_lost s ended t r k a,
    TeamStep-is_pending t now u one k,
    contains-append k now ended,
  )
