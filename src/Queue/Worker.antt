-- ===== src/Queue/Worker.antt =====
-- The workers of the queue: `start` of cloudstack/service_queue.go. What a worker's `select` receives,
-- and the times that it reads, are given for each round.
use custom_cloudstack_ccm.Prelude.{
  ℕ, zero, suc, Bool, true, false, none, some, List, [], ◌∷◌, ◌||◌, if◌then◌else◌,
}
use custom_cloudstack_ccm.Prelude.Int.{ℤ, pos, negsuc}
use custom_cloudstack_ccm.Config.{CsCloud}
use custom_cloudstack_ccm.Api.{Server}
use custom_cloudstack_ccm.World.{World}
use custom_cloudstack_ccm.Queue.{pop, work}

-- How many workers are started: five where the configuration says 0, none for a negative number.
unfoldable pub worker_count : ℤ → ℕ
worker_count (pos zero) = 5
worker_count (pos (suc n)) = suc n
worker_count (negsuc n) = 0

pub data Signal : Type 0 where
  context_done stopped timer : Signal

-- A round of the loop: what is received, when the queue is asked, the limiter's delay, and when the
-- two times of a retry are read.
pub record Round : Type 0 where
  pub signal : Signal
  pub now : ℕ
  pub delay : ℕ
  pub later : ℕ
  pub last : ℕ

abbrev pub is_stop : Signal → Bool
is_stop stopped = true
is_stop _ = false

abbrev pub is_context_done : Signal → Bool
is_context_done context_done = true
is_context_done _ = false

module _ (cs : CsCloud) (srv : Server) (fuel : ℕ) where
  -- The loop, with `exitWhenDone`: whether the worker has returned when the rounds are over, and the
  -- state. A `select` that receives nothing waits, so only what is received counts.
  unfoldable pub run_worker : Bool → List Round → World → Bool × World
  run_worker exit_when_done [] w = (false, w)
  run_worker exit_when_done (r ∷ rounds) w =
      let exit = exit_when_done || is_stop r.signal in
      let idle = run_worker exit rounds w in
      let busy = run_worker exit rounds (work cs srv fuel r.now r.delay r.later r.last w) in
      if is_context_done r.signal
      then (true, w)
      else elim (pop r.now w).0 [ none ↦ if exit then (true, w) else idle | some _ ↦ busy ]
