-- ===== src/Examples/Teams.antt =====
-- Two workers of the queue at work.
use custom_cloudstack_ccm.Prelude.{
  ◌≤◌, ◌||◌, [], ◌∷◌, map, true, false, contains, string_eq, ◌≡◌, refl,
}
use custom_cloudstack_ccm.Kube.{svc_key, service_key_eq}
use custom_cloudstack_ccm.ServiceLock.{ServiceLock, register, acquire}
use custom_cloudstack_ccm.ServiceLock.System.{holds, total}
use custom_cloudstack_ccm.ServiceLock.Locking.{with_owner}
use custom_cloudstack_ccm.Queue.{pop}
use custom_cloudstack_ccm.Queue.Workers.{
  Act, Team, TeamReach, no_step, then_step, team_step, resting, taken, locking, updating,
  lock_state, any_carries,
}
use custom_cloudstack_ccm.Queue.Workers.Safety.{one_at_a_time, none_lost, is_pending}
use custom_cloudstack_ccm.Examples.Data.{cloud, entry, service, up, waiting}

abbrev unlocked : ServiceLock
unlocked = record { in_use = []; heap = λ d. record { counter = 0; locked = false }; next = 0 }

abbrev asked : ServiceLock
asked = (register unlocked (svc_key service)).0

-- Both workers rest; then the first one takes the entry that waits; then it asks for the lock, and has it.
abbrev both_rest : Team (cloud true) up 3
both_rest = record {
  shared = record { world = waiting; lock = unlocked };
  tasks = resting ∷ resting ∷ [];
}

abbrev one_took : Team (cloud true) up 3
one_took = record {
  shared = record { world = (pop 7 waiting).1; lock = unlocked };
  tasks = taken entry ∷ resting ∷ [];
}

abbrev one_asked : Team (cloud true) up 3
one_asked = record {
  shared = record { world = (pop 7 waiting).1; lock = asked };
  tasks = locking entry 0 ∷ resting ∷ [];
}

abbrev one_updates : Team (cloud true) up 3
one_updates = record {
  shared = record { world = (pop 7 waiting).1; lock = with_owner asked 0 };
  tasks = updating entry 0 ∷ resting ∷ [];
}

run_taken : TeamReach (cloud true) up 3 both_rest [] one_took
unfolding pop
run_taken = then_step [] both_rest [] one_took no_step (
    team_step [] (resting ∷ []) resting (taken entry) refl refl
      (Act.pops 7 entry (pop 7 waiting).1 refl))

run : TeamReach (cloud true) up 3 both_rest [] one_updates
unfolding register acquire
run =
    then_step [] one_asked [] one_updates
      (then_step [] one_took [] one_asked run_taken (
        team_step [] (resting ∷ []) (taken entry) (locking entry 0) refl refl
          (Act.registers entry asked 0 refl)))
      (team_step [] (resting ∷ []) (locking entry 0) (updating entry 0) refl refl
        (Act.acquires entry (with_owner asked 0) 0 refl))

one_at_a_time_example : total (holds (svc_key service)) (map lock_state one_updates.tasks) ≤ 1
one_at_a_time_example =
    one_at_a_time (cloud true) up 3 both_rest [] one_updates (refl, (refl, (refl, tt))) run
      (svc_key service)

none_lost_example :
    (is_pending
        (cloud true)
        up
        3
        (svc_key service)
        one_updates.shared
        (any_carries (svc_key service) one_updates.tasks)
      || contains (svc_key service) [])
    ≡ true
unfolding svc_key
none_lost_example = none_lost (cloud true) up 3 both_rest [] one_updates run (svc_key service) refl
