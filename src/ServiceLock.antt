-- ===== src/ServiceLock.antt =====
-- cloudstack/servicelock.go: a mutex for each service, made when it is first asked for and dropped
-- when nobody uses it. The code between `mu.Lock` and `mu.Unlock` is one step.
pub mod System
pub mod Invariant
pub mod Locking
pub mod Unlocking
pub mod Moves
pub mod Safety
use custom_cloudstack_ccm.Prelude.{
  ℕ, ◌+◌, ◌-◌, Bool, true, false, Option, none, some, [], if◌then◌else◌, ◌==◌, leb,
}
use custom_cloudstack_ccm.Prelude.Dict.{Dict, lookup, insert, erase}
use custom_cloudstack_ccm.Kube.{ServiceKey, service_key_eq}

-- `refCounter`; its mutex is locked or not
pub record RefCounter : Type 0 where
  pub counter : ℕ
  pub locked : Bool

-- `serviceLock`: the map holds pointers, which are places on the heap; `next` is the next free place.
-- A nil map reads as an empty one, and `getLocker` makes it before it writes.
pub record ServiceLock : Type 0 where
  pub in_use : Dict ServiceKey ℕ
  pub heap : ℕ → RefCounter
  pub next : ℕ

abbrev pub write : (ℕ → RefCounter) → ℕ → RefCounter → ℕ → RefCounter
write heap d m e = if d == e then m else heap e

unfoldable pub get_locker : ServiceLock → ServiceKey → ServiceLock × ℕ
get_locker l key = elim (lookup key l.in_use) [
  | none ↦ (
    record l {
      in_use = insert key l.next l.in_use;
      heap = write l.heap l.next (record { counter = 0; locked = false });
      next = l.next + 1;
    },
    l.next,
  )
  | some d ↦ (l, d)
]

-- `Lock`, as far as it holds `mu`: the counter goes up, and the mutex is known.
unfoldable pub register : ServiceLock → ServiceKey → ServiceLock × ℕ
unfolding get_locker
register l key =
    let (l', d) = get_locker l key in
    let m = l'.heap d in
    (record l' { heap = write l'.heap d (record m { counter = m.counter + 1 }) }, d)

-- `m.lock.Lock()`: `none` while another holds it.
unfoldable pub acquire : ServiceLock → ℕ → Option ServiceLock
acquire l d =
    let m = l.heap d in
    if m.locked
    then none
    else some (record l { heap = write l.heap d (record m { locked = true }) })

-- `Unlock`. `none` is the fatal error of unlocking a mutex that is not locked. The counter is at least
-- 1 where it is taken down.
unfoldable pub unlock : ServiceLock → ServiceKey → Option ServiceLock
unfolding get_locker
unlock l key =
    let (l', d) = get_locker l key in
    let m = l'.heap d in
    let left = m.counter - 1 in
    let heap' = write l'.heap d (record { counter = left; locked = false }) in
    if m.locked
    then some
        (record l' { in_use = if leb left 0 then erase key l'.in_use else l'.in_use; heap = heap' })
    else none
