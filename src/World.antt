-- ===== src/World.antt =====
-- The state of `CSCloud` that changes: the node registry (cloudstack/nodes.go), the queue of updates
-- (cloudstack/service_queue.go), the service passed in by the caller, and the calls made so far.
use custom_cloudstack_ccm.Prelude.{ℕ, String, Bool, Option, List}
use custom_cloudstack_ccm.Prelude.Dict.{Dict}
use custom_cloudstack_ccm.Prelude.Outcome.{Action}
use custom_cloudstack_ccm.Kube.{ServiceKey, Service}
use custom_cloudstack_ccm.Cloudstack.{LoadBalancer}
use custom_cloudstack_ccm.Api.{Api, History}

-- `nodeInfo`
pub record NodeInfo : Type 0 where
  pub name : String
  pub vm_id : String
  pub network_id : String
  pub host_name : String
  pub project_id : String
  pub environment_id : String
  pub filter_value : String
  pub revision : ℕ  -- uint64

-- `nodeRegistry`; a `sets.String` is the list of its members
pub record NodeRegistry : Type 0 where
  pub nodes : Dict String NodeInfo
  pub svc_nodes : Dict ServiceKey (List String)
  pub revision : ℕ  -- uint64

-- `queueEntry`; a time is a number of nanoseconds, and 0 the zero time
pub record QueueEntry : Type 0 where
  pub service : Service
  pub lb : Option LoadBalancer
  pub update_pool : Bool
  pub start : ℕ
  pub backoff_until : ℕ

pub record World : Type 0 where
  pub history : History
  pub registry : NodeRegistry
  pub queue : Dict ServiceKey QueueEntry

-- Code that only makes calls, in the whole state.
abbrev pub api : {A : Type 0} → Api A → Action World A
api m w = let (r, history') = m w.history in (r, record w { history = history' })
