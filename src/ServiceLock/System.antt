-- ===== src/ServiceLock/System.antt =====
-- Threads that take and release service locks, interleaved in any order.
use custom_cloudstack_ccm.Prelude.{
  ℕ, ◌+◌, ◌≤◌, Bool, some, List, [], ◌∷◌, ◌++◌, ◌≡◌, if◌then◌else◌, All, arith,
}
use custom_cloudstack_ccm.Kube.{ServiceKey, service_key_beq}
use custom_cloudstack_ccm.ServiceLock.{ServiceLock, register, acquire, unlock}

-- Where a thread stands: outside, between the two parts of `Lock`, or between `Lock` and `Unlock`.
pub data Pc : Type 0 where
  idle : Pc
  waiting : ServiceKey → ℕ → Pc
  holding : ServiceKey → ℕ → Pc

pub record System : Type 0 where
  pub lock : ServiceLock
  pub threads : List Pc

-- One step of a thread. `Unlock` looks the mutex up again by its key.
pub data Move (l l' : ServiceLock) : Pc → Pc → Type 0 where
  registers : (k : ServiceKey) (d : ℕ) → register l k ≡ (l', d) → Move l l' idle (waiting k d)
  acquires :
      (k : ServiceKey) (d : ℕ) → acquire l d ≡ some l' → Move l l' (waiting k d) (holding k d)
  unlocks : (k : ServiceKey) (d : ℕ) → unlock l k ≡ some l' → Move l l' (holding k d) idle

-- Any thread makes the next step.
pub data Step (s t : System) : Type 0 where
  step :
      (xs ys : List Pc) (p p' : Pc)
      → s.threads ≡ xs ++ p ∷ ys
      → t.threads ≡ xs ++ p' ∷ ys
      → Move s.lock t.lock p p'
      → Step s t

abbrev pub IsIdle : Pc → Type 0
IsIdle p = p ≡ idle

-- `&serviceLock{}`, before any thread has asked for a lock
abbrev pub IsStart : System → Type 0
IsStart s = (s.lock.in_use ≡ []) × All IsIdle s.threads

pub data Reach (s : System) : System → Type 0 where
  here : Reach s s
  next : {t u : System} → Reach s t → Step t u → Reach s u

abbrev pub one_if : Bool → ℕ
one_if b = if b then 1 else 0

-- Whether a thread uses the mutex of a service, as a number, and whether it holds it.
abbrev pub uses : ServiceKey → Pc → ℕ
uses k idle = 0
uses k (waiting j d) = one_if (service_key_beq j k)
uses k (holding j d) = one_if (service_key_beq j k)

abbrev pub holds : ServiceKey → Pc → ℕ
holds k (holding j d) = one_if (service_key_beq j k)
holds k _ = 0

abbrev pub total : (Pc → ℕ) → List Pc → ℕ
total w [] = 0
total w (p ∷ ps) = w p + total w ps

pub total-append : (w : Pc → ℕ) (xs ys : List Pc) → total w (xs ++ ys) ≡ total w xs + total w ys
total-append w [] ys = omega arith
total-append w (x ∷ xs) ys = omega (arith, total-append w xs ys)

pub holds-le-uses : (k : ServiceKey) (ps : List Pc) → total (holds k) ps ≤ total (uses k) ps
holds-le-uses k [] = omega arith
holds-le-uses k (idle ∷ ps) = omega (arith, holds-le-uses k ps)
holds-le-uses k (waiting j d ∷ ps) = omega (arith, holds-le-uses k ps)
holds-le-uses k (holding j d ∷ ps) = omega (arith, holds-le-uses k ps)
