-- ===== src/Balancer/Client.antt =====
-- What the methods of `projectCloud` and `loadBalancer` share: the client, the parameters of a
-- request, asynchronous jobs, tags.
pub mod Tagging
use custom_cloudstack_ccm.Prelude.{
  ℕ, String, Bool, Option, none, some, List, [], ◌∷◌, ◌++◌, map, str_eq, if◌then◌else◌, not,
  string_eq,
}
use custom_cloudstack_ccm.Prelude.Dict.{Dict, lookup, insert, keys}
use custom_cloudstack_ccm.Prelude.Sort.{sort}
use custom_cloudstack_ccm.Prelude.Text.{text_less, strip_prefix}
use custom_cloudstack_ccm.Prelude.Outcome.{
  Error, Result, ok, err, failed, says, panic, wrapping, pure, throw, throw_if, lift, ◌>>=◌, ◌>>◌,
}
use custom_cloudstack_ccm.Kube.{Service, or_empty}
use custom_cloudstack_ccm.Config.{CsCloud, Client, environment_of}
use custom_cloudstack_ccm.Cloudstack.{LoadBalancer, LoadBalancerRule}
use custom_cloudstack_ccm.Tags.{tags_for_service}
use custom_cloudstack_ccm.Api.{
  Server, Api, History, Event, Request, call, Value, Params, async_job, create_tags,
}

-- `projectCloud`, less the `CSCloud` in it
pub record ProjectCloud : Type 0 where
  pub project_id : String
  pub environment : String

abbrev pub cloud_of : LoadBalancer → ProjectCloud
cloud_of lb = record { project_id = lb.project_id; environment = lb.environment }

-- `params.SetParam`
abbrev pub set_param : String → Value → Params → Params
set_param = insert

abbrev pub set_project : String → Params → Params
set_project project_id params =
    if str_eq project_id "" then params else set_param "projectid" (Value.text project_id) params

-- One of the two loops of `setExtraParams`.
extra_params : String → Dict String String → Params → Params
extra_params prefix [] params = params
extra_params prefix ((key, value) ∷ rest) params = elim (strip_prefix prefix key) [
  | none ↦ extra_params prefix rest params
  | some name ↦ extra_params prefix rest (set_param name (Value.text value) params)
]

abbrev or_no_labels : Option (Dict String String) → Dict String String
or_no_labels none = []
or_no_labels (some labels) = labels

unfoldable pub set_extra_params : Service → String → Params → Params
unfolding extra_params
set_extra_params service prefix params =
    extra_params prefix (or_no_labels service.labels)
      (extra_params prefix service.annotations params)

-- A command of the configuration, or the one of CloudStack.
abbrev pub or_default : String → String → String
or_default command default = if str_eq command "" then default else command

-- The dereference of `lb.rule`.
abbrev pub rule_of : LoadBalancer → Result LoadBalancerRule
rule_of lb = elim lb.rule [ none ↦ err (panic "nil load balancer rule") | some rule ↦ ok rule ]

-- The first value of the range, in `getFirstRawValue`.
first_value : List String → Result String
first_value [] = err (failed "unable to extract the raw value from: %q")
first_value (v ∷ _) = ok v

module _ (cs : CsCloud) where
  unfoldable pub get_client : ProjectCloud → Result Client
  get_client pc = elim (environment_of cs pc.environment).client [
    | none ↦ err (failed "unable to retrieve cloudstack client for env: %#v")
    | some client ↦ ok client
  ]

  abbrev pub get_lb_environment_id : ProjectCloud → String
  get_lb_environment_id pc = (environment_of cs pc.environment).lb_environment_id

module _ (srv : Server) where
  unfoldable pub get_first_raw_value : String → Result String
  unfolding first_value
  get_first_raw_value raw = elim (srv.json_values raw) [
    | err e ↦ err e
    | ok values ↦ first_value values
  ]

  -- `waitJob` with a nil result
  unfoldable pub await : Client → String → Api (Unit {0})
  await client job_id = do _ ← call client (async_job job_id) srv.job_result; pure tt

  -- The first value of the data is read into the result, and all the data where that fails.
  abbrev pub unmarshal_job :
      {R : Type 0} → (String → R → R × Result (Unit {0})) → String → String → R → Result R
  unmarshal_job unmarshal raw first result =
      let (result', e) = unmarshal first result in
      elim e [
        | ok _ ↦ ok result'
        | err _ ↦
            let (result'', e') = unmarshal raw result' in
            elim e' [ ok _ ↦ ok result'' | err x ↦ err x ]
      ]

  -- `waitJob` with a result that JSON is read into
  unfoldable pub wait_job :
      {R : Type 0} → (String → R → R × Result (Unit {0})) → Client → String → R → Api R
  wait_job unmarshal client job_id result = do
    raw ← call client (async_job job_id) srv.job_result
    first ← lift (get_first_raw_value raw)
    lift (unmarshal_job unmarshal raw first result)

  -- `if job_id != "" { waitJob(...) }`
  abbrev pub await_some : Client → String → Api (Unit {0})
  await_some client job_id = if str_eq job_id "" then pure tt else await client job_id

  -- That the tag already exists is no error.
  abbrev pub forgive : String → Result (Unit {0}) → Result (Unit {0})
  forgive text (ok _) = ok tt
  forgive text (err e) = if says e text then ok tt else err e

  unfoldable pub create_tag : Client → String → String → String → String → Api (Unit {0})
  create_tag client resource_type resource_id k v history =
      let (r, history') =
        call client (create_tags resource_type resource_id k v) srv.done history in
      (forgive "already exist" r, history')

  -- The loop of `setResourceTags`, over the sorted keys.
  unfoldable pub create_each :
      Client → String → String → Dict String String → List String → Api (Unit {0})
  unfolding create_tag
  create_each client resource_type resource_id tags [] = pure tt
  create_each client resource_type resource_id tags (k ∷ ks) =
      wrapping "error adding tags to %s %s: %v"
        (create_tag client resource_type resource_id k (or_empty (lookup k tags)))
      >> create_each client resource_type resource_id tags ks

  module _ (cs : CsCloud) where
    unfoldable pub set_resource_tags :
        ProjectCloud → String → String → Dict String String → Api (Unit {0})
    unfolding create_each
    set_resource_tags pc resource_type resource_id tags = do
      client ← lift (get_client cs pc)
      create_each client resource_type resource_id tags (sort text_less (keys tags))

    -- `setDefaultTags`, `assignTagsToRule` and `assignTagsToIP`
    unfoldable pub set_default_tags : ProjectCloud → String → String → Service → Api (Unit {0})
    set_default_tags pc resource_type resource_id service =
        set_resource_tags pc resource_type resource_id (tags_for_service service)

    unfoldable pub assign_tags_to_rule : LoadBalancer → Api (Unit {0})
    assign_tags_to_rule lb = do
      rule ← lift (rule_of lb)
      set_default_tags (cloud_of lb) "LoadBalancer" rule.id lb.service
