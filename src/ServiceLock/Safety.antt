-- ===== src/ServiceLock/Safety.antt =====
-- What holds whenever threads have taken and released service locks from the start on.
use custom_cloudstack_ccm.Prelude.{
  ℕ, ◌≤◌, none, some, List, [], ◌∷◌, ◌++◌, ◌≡◌, refl, ◌⊎◌, inl, inr, All, arith, Bool-cases,
  Option-cases, subst, sym,
}
use custom_cloudstack_ccm.Prelude.Dict.{lookup}
use custom_cloudstack_ccm.Kube.{ServiceKey, service_key_eq}
use custom_cloudstack_ccm.ServiceLock.{ServiceLock, acquire, unlock}
use custom_cloudstack_ccm.ServiceLock.System.{
  Pc, idle, waiting, holding, System, Step, step, IsStart, IsIdle, Reach, here, next, uses, holds,
  total, holds-le-uses,
}
use custom_cloudstack_ccm.ServiceLock.Invariant.{Inv, Owns, All-middle}
use custom_cloudstack_ccm.ServiceLock.Locking.{with_owner, acquire_free}
use custom_cloudstack_ccm.ServiceLock.Unlocking.{with_free, unlock_lem}
use custom_cloudstack_ccm.ServiceLock.Moves.{Move-Inv}

total-idle : (w : Pc → ℕ) → w idle ≡ 0 → (ps : List Pc) → All IsIdle ps → total w ps ≡ 0
total-idle w z [] h = refl
total-idle w z (p ∷ ps) h = ground (arith, total-idle w z ps h.1)

start-Owns : (s : System) (ps : List Pc) → All IsIdle ps → All (Owns s.lock.in_use) ps
start-Owns s [] h = tt
start-Owns s (p ∷ ps) h = (subst (Owns s.lock.in_use) (sym h.0) tt, start-Owns s ps h.1)

start-Inv : (s : System) → IsStart s → Inv s.lock s.threads
start-Inv s (empty, quiet) = record {
  fresh = λ k d e. ground (arith, empty);
  injective = λ j k d ej ek. ground (arith, empty);
  counted = λ k d e. ground (arith, empty);
  unused = λ k e. total-idle (uses k) refl s.threads quiet;
  exclusive = λ k d e. ground (arith, empty);
  owned = start-Owns s s.threads quiet;
}

Step-Inv : {s t : System} → Step s t → Inv s.lock s.threads → Inv t.lock t.threads
Step-Inv {s} {t} (step xs ys p p' es et mv) inv =
    subst (Inv t.lock) (sym et) (Move-Inv xs ys mv (subst (Inv s.lock) es inv))

Reach-Inv : {s t : System} → Reach s t → Inv s.lock s.threads → Inv t.lock t.threads
Reach-Inv here inv = inv
Reach-Inv (next r st) inv = Step-Inv st (Reach-Inv r inv)

module _ (s t : System) (start : IsStart s) (r : Reach s t) where
  reached : Inv t.lock t.threads
  reached = Reach-Inv r (start-Inv s start)

  -- In every state that is reached from a start, at most one thread holds the lock of a service.
  pub mutual_exclusion : (k : ServiceKey) → total (holds k) t.threads ≤ 1
  mutual_exclusion k = elim (Option-cases (lookup k t.lock.in_use)) [
    | inl absent ↦ omega (arith, reached.unused k absent, holds-le-uses k t.threads)
    | inr (d, found) ↦ ground (arith, reached.exclusive k d found)
  ]

  -- In every state that is reached from a start, unlocking a service's lock that a thread holds does
  -- not fail.
  unlock_total :
      (xs ys : List Pc) (k : ServiceKey) (d : ℕ)
      → t.threads ≡ xs ++ holding k d ∷ ys
      → (l' : ServiceLock) × (unlock t.lock k ≡ some l')
  unlock_total xs ys k d e =
      (with_free t.lock k d, unlock_lem t.lock xs ys k d (subst (Inv t.lock) e reached))

  -- In every state that is reached from a start, a thread that waits for the lock of a service can take
  -- it at once, or exactly one thread holds it.
  pub no_deadlock :
      (xs ys : List Pc) (k : ServiceKey) (d : ℕ)
      → t.threads ≡ xs ++ waiting k d ∷ ys
      → ((l' : ServiceLock) × (acquire t.lock d ≡ some l')) ⊎ (total (holds k) t.threads ≡ 1)
  no_deadlock xs ys k d e = elim (Bool-cases (t.lock.heap d).locked) [
    | inl taken ↦ inr (
        ground (
          arith,
          taken,
          reached.exclusive k d (
              All-middle (Owns t.lock.in_use) xs ys (waiting k d)
                (subst (All (Owns t.lock.in_use)) e reached.owned)),
        ))
    | inr free ↦ inl (with_owner t.lock d, acquire_free t.lock d free)
  ]

  -- In every state that is reached from a start, no lock is kept for a service whose lock no thread uses.
  pub no_leak : (k : ServiceKey) → total (uses k) t.threads ≡ 0 → lookup k t.lock.in_use ≡ none
  no_leak k quiet = elim (Option-cases (lookup k t.lock.in_use)) [
    | inl absent ↦ absent
    | inr (d, found) ↦ absurd (omega (arith, reached.counted k d found))
  ]
