-- ===== src/Queue/Workers.antt =====
-- Several workers of the queue at once, `start` of cloudstack/service_queue.go, with the service locks
-- of cloudstack/servicelock.go and the threads that handle what Kubernetes asks for. Each takes its
-- steps at any time.
pub mod Safety
use custom_cloudstack_ccm.Prelude.{ℕ, Bool, false, true, some, List, [], ◌∷◌, ◌++◌, ◌||◌, ◌≡◌}
use custom_cloudstack_ccm.Prelude.Outcome.{Error, ok, err, is_panic}
use custom_cloudstack_ccm.Kube.{ServiceKey, service_key_beq, svc_key}
use custom_cloudstack_ccm.Config.{CsCloud}
use custom_cloudstack_ccm.Api.{Server}
use custom_cloudstack_ccm.World.{QueueEntry, World, api}
use custom_cloudstack_ccm.ServiceLock.{ServiceLock, register, acquire, unlock}
use custom_cloudstack_ccm.ServiceLock.System.{Pc, idle, waiting, holding, Move}
use custom_cloudstack_ccm.Queue.{pop, push, push_with_backoff, process_queue_entry}

-- Where a worker stands in a round of its loop. It has taken an entry, waits for the mutex of its
-- service, holds it, still holds it after the update, or has an update to put back. `other` is a
-- thread that is not a worker.
pub data Task : Type 0 where
  resting : Task
  taken : QueueEntry → Task
  locking : QueueEntry → ℕ → Task
  updating : QueueEntry → ℕ → Task
  updated : QueueEntry → ℕ → Task
  failing : QueueEntry → ℕ → Task
  retrying : QueueEntry → Task
  other : Pc → Task

-- What the threads share.
pub record Shared : Type 0 where
  pub world : World
  pub lock : ServiceLock

abbrev pub key_of : QueueEntry → ServiceKey
key_of entry = svc_key entry.service

module _ (cs : CsCloud) (srv : Server) (fuel : ℕ) where
  -- One step of a thread. An update of a load balancer is one step under the mutex; after one that
  -- panics there is no step, since the process ends. The
  -- list names the service whose update comes to an end by the step: it succeeds, or cannot be put
  -- back.
  pub data Act (s : Shared) : Task → List ServiceKey → Shared → Task → Type 0 where
    pops :
        (now : ℕ) (e : QueueEntry) (w : World)
        → pop now s.world ≡ (some e, w)
        → Act s resting [] (record s { world = w }) (taken e)
    registers :
        (e : QueueEntry) (l : ServiceLock) (d : ℕ)
        → register s.lock (key_of e) ≡ (l, d)
        → Act s (taken e) [] (record s { lock = l }) (locking e d)
    acquires :
        (e : QueueEntry) (l : ServiceLock) (d : ℕ)
        → acquire s.lock d ≡ some l
        → Act s (locking e d) [] (record s { lock = l }) (updating e d)
    succeeds :
        (e : QueueEntry) (d : ℕ) (w : World)
        → api (process_queue_entry cs srv fuel e s.world.registry) s.world ≡ (ok tt, w)
        → Act s (updating e d) (key_of e ∷ []) (record s { world = w }) (updated e d)
    fails :
        (e : QueueEntry) (d : ℕ) (w : World) (x : Error)
        → api (process_queue_entry cs srv fuel e s.world.registry) s.world ≡ (err x, w)
        → is_panic x ≡ false
        → Act s (updating e d) [] (record s { world = w }) (failing e d)
    unlocks :
        (e : QueueEntry) (l : ServiceLock) (d : ℕ)
        → unlock s.lock (key_of e) ≡ some l
        → Act s (updated e d) [] (record s { lock = l }) resting
    unlocks_failed :
        (e : QueueEntry) (l : ServiceLock) (d : ℕ)
        → unlock s.lock (key_of e) ≡ some l
        → Act s (failing e d) [] (record s { lock = l }) (retrying e)
    requeues :
        (e : QueueEntry) (delay later last : ℕ) (w : World)
        → push_with_backoff cs delay later last e s.world ≡ (ok tt, w)
        → Act s (retrying e) [] (record s { world = w }) resting
    gives_up :
        (e : QueueEntry) (delay later last : ℕ) (w : World) (x : Error)
        → push_with_backoff cs delay later last e s.world ≡ (err x, w)
        → Act s (retrying e) (key_of e ∷ []) (record s { world = w }) resting
    -- The handlers lock and unlock, queue services, and change the rest of the state. `UpdateLoadBalancer`
    -- takes no lock and the others change nothing without it: a thread may do more here.
    locks :
        (p p' : Pc) (l : ServiceLock)
        → Move s.lock l p p'
        → Act s (other p) [] (record s { lock = l }) (other p')
    queues :
        (p : Pc) (e : QueueEntry)
        → Act s (other p) [] (record s { world = (push cs e s.world).1 }) (other p)
    handles :
        (p : Pc) (w : World)
        → w.queue ≡ s.world.queue
        → Act s (other p) [] (record s { world = w }) (other p)

  pub record Team : Type 0 where
    pub shared : Shared
    pub tasks : List Task

  -- Any thread makes the next step.
  pub data TeamStep (s : Team) (ended : List ServiceKey) (t : Team) : Type 0 where
    team_step :
        (xs ys : List Task) (p p' : Task)
        → s.tasks ≡ xs ++ p ∷ ys
        → t.tasks ≡ xs ++ p' ∷ ys
        → Act s.shared p ended t.shared p'
        → TeamStep s ended t

  -- The steps of a run, and the services whose updates came to an end, the last one first.
  pub data TeamReach (s : Team) : List ServiceKey → Team → Type 0 where
    no_step : TeamReach s [] s
    then_step :
        (ended : List ServiceKey) (t : Team) (now : List ServiceKey) (u : Team)
        → TeamReach s ended t
        → TeamStep t now u
        → TeamReach s (now ++ ended) u

-- Where a thread stands with the service locks.
abbrev pub lock_state : Task → Pc
lock_state resting = idle
lock_state (taken e) = idle
lock_state (locking e d) = waiting (key_of e) d
lock_state (updating e d) = holding (key_of e) d
lock_state (updated e d) = holding (key_of e) d
lock_state (failing e d) = holding (key_of e) d
lock_state (retrying e) = idle
lock_state (other p) = p

-- Whether a worker has an update of a service that has not come to an end.
abbrev pub carries : ServiceKey → Task → Bool
carries k (taken e) = service_key_beq (key_of e) k
carries k (locking e d) = service_key_beq (key_of e) k
carries k (updating e d) = service_key_beq (key_of e) k
carries k (failing e d) = service_key_beq (key_of e) k
carries k (retrying e) = service_key_beq (key_of e) k
carries k _ = false

abbrev pub any_carries : ServiceKey → List Task → Bool
any_carries k [] = false
any_carries k (t ∷ ts) = carries k t || any_carries k ts
