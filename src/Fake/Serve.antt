-- ===== src/Fake/Serve.antt =====
-- One request to the test server: `ServeHTTP` of cloudstack/fake/cloudstack.go, and its `HasCalls`.
use custom_cloudstack_ccm.Ports.{texts_eq}
use custom_cloudstack_ccm.Prelude.{
  Bool, true, false, List, ◌&&◌, str_eq, all, String, Option, none, some, [], ◌∷◌, ◌++◌, string_eq,
}
use custom_cloudstack_ccm.Prelude.Dict.{Dict, lookup}
use custom_cloudstack_ccm.Prelude.Text.{append}
use custom_cloudstack_ccm.Fake.{MockApiCall, Form, form_value, Fake}
use custom_cloudstack_ccm.Fake.Jobs.{JobAnswer, run_job}
use custom_cloudstack_ccm.Fake.Listings.{
  Reply, panicked, job_result, failed, list_virtual_machines, list_load_balancer_rules,
  list_globo_network_pools, list_networks, list_public_ip_addresses, list_tags, list_rule_instances,
}
use custom_cloudstack_ccm.Fake.Orders.{
  assign_network, remove_tags, delete_rule, associate, disassociate, update_rule, update_pool,
  create_rule, create_tags, assign_hosts, remove_hosts,
}

-- What a job that ran answers; one that panics has changed nothing.
abbrev pub answer_of : Option (JobAnswer × Fake) → Fake → Reply × Fake
answer_of none s = (panicked, s)
answer_of (some (answer, s')) s = (job_result answer, s')

-- The case of "queryAsyncJobResult": the job runs again at each query.
unfoldable pub query_job : Form → Fake → Reply × Fake
query_job form s = elim (lookup (form_value "jobid" form) s.jobs) [
  | none ↦ (failed 404 "queryAsyncJobResultResponse", s)
  | some job ↦ answer_of (run_job job s) s
]

-- The switch.
commands : Dict String (Form → Fake → Reply × Fake)
commands =
    ("listVirtualMachines", λ form s. (list_virtual_machines form, s))
    ∷ ("listLoadBalancerRules", list_load_balancer_rules)
    ∷ ("listGloboNetworkPools", list_globo_network_pools)
    ∷ ("listNetworks", λ form s. (list_networks, s))
    ∷ ("listPublicIpAddresses", list_public_ip_addresses)
    ∷ ("associateIpAddress", associate)
    ∷ ("disassociateIpAddress", disassociate)
    ∷ ("updateLoadBalancerRule", update_rule)
    ∷ ("updateGloboNetworkPool", update_pool)
    ∷ ("createLoadBalancerRule", create_rule)
    ∷ ("assignNetworkToLBRule", assign_network)
    ∷ ("createTags", create_tags)
    ∷ ("deleteTags", remove_tags)
    ∷ ("assignToLoadBalancerRule", assign_hosts)
    ∷ ("removeFromLoadBalancerRule", remove_hosts)
    ∷ ("listTags", λ form s. (list_tags form s, s))
    ∷ ("deleteLoadBalancerRule", delete_rule)
    ∷ ("listLoadBalancerRuleInstances", λ form s. (list_rule_instances form s, s))
    ∷ ("queryAsyncJobResult", query_job)
    ∷ []

-- `ServeHTTP`. The hook of a test is a parameter: it answers, or leaves the request to the switch.
unfoldable pub serve : (Form → Option Reply) → Form → Fake → Reply × Fake
unfolding commands
serve hook form s =
    let cmd = form_value "command" form in
    let s' = record s { calls = s.calls ++ record { command = cmd; params = form } ∷ [] } in
    elim (hook form) [
      | some reply ↦ (reply, s')
      | none ↦ elim (lookup cmd commands) [
        | none ↦ (failed 500 (append cmd "Response"), s')
        | some run ↦ run form s'
      ]
    ]

-- A call that a test expects; `none` is a nil value, for which the key is enough.
pub record ExpectedCall : Type 0 where
  pub command : String
  pub params : Dict String (Option (List String))

same_param : Form → String × Option (List String) → Bool
same_param actual (k, v) = elim (lookup k actual) [
  | none ↦ false
  | some given ↦ elim v [ none ↦ true | some wanted ↦ texts_eq given wanted ]
]

same_calls : List ExpectedCall → List MockApiCall → Bool
unfolding same_param
same_calls [] [] = true
same_calls [] (_ ∷ _) = false
same_calls (_ ∷ _) [] = false
same_calls (e ∷ es) (a ∷ as') =
    str_eq a.command e.command && all (same_param a.params) e.params && same_calls es as'

-- `HasCalls`: whether the assertions of the test hold.
unfoldable pub has_calls : List ExpectedCall → Fake → Bool
unfolding same_calls
has_calls calls s = same_calls calls s.calls
