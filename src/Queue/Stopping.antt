-- ===== src/Queue/Stopping.antt =====
-- A worker that is told to stop comes to an end.
use custom_cloudstack_ccm.Prelude.{ℕ, ◌+◌, ◌≤◌, ◌<◌, Bool, true, false, ◌≡◌, All}
use custom_cloudstack_ccm.Config.{CsCloud}
use custom_cloudstack_ccm.World.{World}
use custom_cloudstack_ccm.Api.{Server}
use custom_cloudstack_ccm.Queue.Order.{IsWaiting}
use custom_cloudstack_ccm.Queue.Worker.{Round, is_context_done}
use custom_cloudstack_ccm.Queue.{candidates}

-- The rounds take place until a time, and what they retry is due after it; the context is not done.
abbrev pub IsBefore : ℕ → Round → Type 0
IsBefore time r = (r.now ≤ time) × (time < r.later + r.delay) × (is_context_done r.signal ≡ false)

-- There is nothing that a worker could take at some time until then.
abbrev pub IsDrained : ℕ → World → Type 0
IsDrained time w = (now : ℕ) × (now ≤ time) × All (IsWaiting now) (candidates w.registry w.queue)

module _ (cs : CsCloud) (srv : Server) (fuel time : ℕ) where
  abbrev Ends : Bool × World → Type 0
  Ends (returned, w) = (returned ≡ true) × IsDrained time w
