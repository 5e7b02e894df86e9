-- ===== src/Examples/Locks.antt =====
-- The theorems on the locks, at work.
use custom_cloudstack_ccm.Prelude.{
  ◌≤◌, false, Option, none, some, [], ◌∷◌, ◌≡◌, refl, ◌⊎◌, string_eq,
}
use custom_cloudstack_ccm.Prelude.Dict.{lookup}
use custom_cloudstack_ccm.Kube.{ServiceKey, service_key_eq}
use custom_cloudstack_ccm.ServiceLock.{ServiceLock, register, acquire, get_locker}
use custom_cloudstack_ccm.ServiceLock.System.{
  System, idle, waiting, holding, total, holds, here, next, step, registers, acquires, Reach,
  IsStart,
}
use custom_cloudstack_ccm.ServiceLock.Safety.{mutual_exclusion, no_deadlock, no_leak}

abbrev key : ServiceKey
key = record { namespace = "ns"; name = "web" }

abbrev start : System
start = record {
  lock = record { in_use = []; heap = λ d. record { counter = 0; locked = false }; next = 0 };
  threads = idle ∷ idle ∷ [];
}

abbrev or_lock : Option ServiceLock → ServiceLock → ServiceLock
or_lock none l = l
or_lock (some l') l = l'

-- The first thread asks for the lock, and then takes it.
abbrev asked : System
asked = record { lock = (register start.lock key).0; threads = waiting key 0 ∷ idle ∷ [] }

abbrev taken : System
taken = record {
  lock = or_lock (acquire asked.lock 0) asked.lock;
  threads = holding key 0 ∷ idle ∷ [];
}

start-taken : Reach start taken
unfolding register acquire get_locker
start-taken =
    next (next here (step [] (idle ∷ []) idle (waiting key 0) refl refl (registers key 0 refl)))
      (step [] (idle ∷ []) (waiting key 0) (holding key 0) refl refl (acquires key 0 refl))

start-asked : Reach start asked
unfolding register get_locker
start-asked = next here (step [] (idle ∷ []) idle (waiting key 0) refl refl (registers key 0 refl))

start-IsStart : IsStart start
start-IsStart = (refl, (refl, (refl, tt)))

mutual_exclusion_example : total (holds key) taken.threads ≤ 1
mutual_exclusion_example = mutual_exclusion start taken start-IsStart start-taken key

no_deadlock_example :
    ((l' : ServiceLock) × (acquire asked.lock 0 ≡ some l')) ⊎ (total (holds key) asked.threads ≡ 1)
no_deadlock_example = no_deadlock start asked start-IsStart start-asked [] (idle ∷ []) key 0 refl

abbrev other_key : ServiceKey
other_key = record { namespace = "ns"; name = "other" }

no_leak_example : lookup other_key taken.lock.in_use ≡ none
no_leak_example = no_leak start taken start-IsStart start-taken other_key refl
