-- ===== src/Queue/Order.antt =====
-- The order of the queue: what `pop` takes and what it leaves.
use custom_cloudstack_ccm.Prelude.{
  ℕ, true, false, none, some, List, [], ◌∷◌, ◌≡◌, refl, arith, ltb, inl, inr, Option-cases, All,
  subst, sym, ◌⊎◌,
}
use mathlib.Core.List.{Perm}
use custom_cloudstack_ccm.Prelude.Dict.{erase}
use custom_cloudstack_ccm.Prelude.Sort.{
  sort, IsWeakOrder, NoneLess, IsOrdered, sort-IsOrdered, unsort-All, sort-perm,
}
use custom_cloudstack_ccm.Kube.{service_key_eq, svc_key}
use custom_cloudstack_ccm.World.{QueueEntry, World}
use custom_cloudstack_ccm.Queue.{
  Candidate, less, candidates, take_head, next_entry, pop, with_queue,
}

-- At every time, `Less` is a strict order whose incomparable entries are equivalent: sorting by it
-- means something, although it mixes three keys and the clock.
pub less-IsWeakOrder : (now : ℕ) → IsWeakOrder (less now)
unfolding less
less-IsWeakOrder now = record {
  asymm = λ a b. λ h. ground arith;
  not_less_trans = λ a b c. λ h k. ground arith;
}

abbrev pub IsWaiting : ℕ → Candidate → Type 0
IsWaiting now c = ltb now c.entry.backoff_until ≡ true

less_irrefl : (now : ℕ) (c : Candidate) → less now c c ≡ false
unfolding less
less_irrefl now c = ground arith

-- Nothing is less than the head of the sorted list.
sorted-head :
    (now : ℕ) (cs : List Candidate) (c : Candidate) (rest : List Candidate)
    → sort (less now) cs ≡ c ∷ rest
    → NoneLess (less now) c cs
sorted-head now cs c rest e =
    unsort-All (less now) (λ d. less now d c ≡ false) cs
      (subst (λ l. All (λ d. less now d c ≡ false) l) (sym e)
        (
          less_irrefl now c,
          (subst (IsOrdered (less now)) e (sort-IsOrdered (less now) (less-IsWeakOrder now) cs)).0,
        ))

-- What is not less than a waiting entry waits too.
NoneLess-IsWaiting :
    (now : ℕ) (c : Candidate)
    → IsWaiting now c
    → (cs : List Candidate) → NoneLess (less now) c cs
    → All (IsWaiting now) cs
unfolding less
NoneLess-IsWaiting now c h [] all_cs = tt
NoneLess-IsWaiting now c h (d ∷ cs) all_cs = (ground arith, NoneLess-IsWaiting now c h cs all_cs.1)

-- An entry that may be taken: it is in the queue, it does not wait, and none is before it.
abbrev pub IsNext : ℕ → List Candidate → QueueEntry → Type 0
IsNext now cs entry =
    (c : Candidate) × (rest : List Candidate) × (c.entry ≡ entry)
    × Perm (c ∷ rest) cs
    × (ltb now entry.backoff_until ≡ false)
    × NoneLess (less now) c cs

take_head-IsNext :
    (now : ℕ) (cs sorted : List Candidate)
    → sort (less now) cs ≡ sorted
    → (entry : QueueEntry) → take_head now sorted ≡ some entry
    → IsNext now cs entry
unfolding take_head
take_head-IsNext now cs [] e entry h = cc
take_head-IsNext now cs (c ∷ rest) e entry h = (
  c,
  rest,
  ground arith,
  subst (λ l. Perm l cs) e (sort-perm (less now) cs),
  ground arith,
  sorted-head now cs c rest e,
)

take_head-none :
    (now : ℕ) (cs sorted : List Candidate)
    → sort (less now) cs ≡ sorted
    → take_head now sorted ≡ none
    → All (IsWaiting now) cs
unfolding take_head
take_head-none now cs [] e h =
    unsort-All (less now) (IsWaiting now) cs (subst (All (IsWaiting now)) (sym e) tt)
take_head-none now cs (c ∷ rest) e h =
    NoneLess-IsWaiting now c (ground arith) cs (sorted-head now cs c rest e)

-- `pop` takes an entry exactly if some entry does not wait. The one that it takes is in the queue, does
-- not wait, and no entry is before it in the order; just the entry of its service leaves the queue.
-- When it takes none every entry waits, and nothing changes.
pub pop_lem :
    (now : ℕ) (w : World)
    → ((entry : QueueEntry) × IsNext now (candidates w.registry w.queue) entry
        × (pop now w ≡ (some entry, with_queue (erase (svc_key entry.service) w.queue) w)))
      ⊎ (All (IsWaiting now) (candidates w.registry w.queue) × (pop now w ≡ (none, w)))
unfolding pop
pop_lem now w = elim (Option-cases (next_entry now w)) [
  | inl nothing ↦
      inr
        (take_head-none now (candidates w.registry w.queue) _ refl nothing, ground (arith, nothing))
  | inr (entry, e) ↦ inl (
    entry,
    take_head-IsNext now (candidates w.registry w.queue) _ refl entry e,
    ground (arith, e),
  )
]
