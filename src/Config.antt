-- ===== src/Config.antt =====
-- The provider's configuration and its environments: cloudstack/cloudstack.go, and the functions of
-- cloudstack/instances.go and cloudstack/loadbalancer.go that read them.
use custom_cloudstack_ccm.Prelude.{
  String, Bool, true, false, Option, none, some, List, [], ◌∷◌, str_eq, if◌then◌else◌, string_eq,
  not, contains,
}
use custom_cloudstack_ccm.Prelude.Dict.{Dict, lookup, insert}
use custom_cloudstack_ccm.Prelude.Int.{ℤ}
use custom_cloudstack_ccm.Prelude.Outcome.{Result, ok, err, failed}
use custom_cloudstack_ccm.Prelude.Text.{append}
use custom_cloudstack_ccm.Kube.{ObjectMeta, Service, get_label_or_annotation, or_empty}

-- `globalConfig`
pub record GlobalConfig : Type 0 where
  pub service_filter_label : String
  pub node_filter_label : String
  pub node_name_label : String
  pub project_id_label : String
  pub environment_label : String
  pub internal_ip_index : ℤ
  pub external_ip_index : ℤ
  pub update_lb_workers : ℤ

-- `environmentConfig`
pub record EnvironmentConfig : Type 0 where
  pub api_url : String
  pub api_key : String
  pub secret_key : String
  pub lb_environment_id : String
  pub lb_domain : String
  pub project_id : String
  pub ssl_no_verify : Bool
  pub remove_lbs : Bool

-- `commandConfig`
pub record CommandConfig : Type 0 where
  pub associate_ip : String
  pub disassociate_ip : String
  pub assign_networks : String
  pub delete_lb_rule : String

-- `commandArgsConfig`: the names with their values, `none` where the pointer is nil
abbrev pub CommandArgsConfig : Type 0
CommandArgsConfig = List (String × Option String)

-- `CSConfig`
pub record CsConfig : Type 0 where
  pub global : GlobalConfig
  pub environment : Dict String EnvironmentConfig
  pub command : CommandConfig
  pub command_args : Dict String CommandArgsConfig

-- `cloudstack.CloudStackClient`, by what identifies it
pub record Client : Type 0 where
  pub api_url : String
  pub api_key : String
  pub secret_key : String
  pub ssl_no_verify : Bool

-- `CSEnvironment`; the manager is made from the client. `none` is a nil pointer.
pub record CsEnvironment : Type 0 where
  pub client : Option Client
  pub lb_environment_id : String
  pub lb_domain : String
  pub remove_lbs : Bool

-- The part of `CSCloud` that stays as `newCSCloud` has set it.
pub record CsCloud : Type 0 where
  pub environments : Dict String CsEnvironment
  pub config : CsConfig

-- The fields of a missing environment.
abbrev pub no_environment : CsEnvironment
no_environment = record {
  client = none;
  lb_environment_id = "";
  lb_domain = "";
  remove_lbs = false;
}

-- `cs.environments[environment]`
abbrev pub environment_of : CsCloud → String → CsEnvironment
environment_of cs environment = elim (lookup environment cs.environments) [
  | none ↦ no_environment
  | some e ↦ e
]

to_map_from : CommandArgsConfig → Dict String String → Dict String String
to_map_from [] result = result
to_map_from ((k, none) ∷ rest) result = to_map_from rest result
to_map_from ((k, some v) ∷ rest) result = to_map_from rest (insert k v result)

-- `commandArgsConfig.ToMap`
unfoldable pub to_map : CommandArgsConfig → Dict String String
unfolding to_map_from
to_map args = to_map_from args []

sole_key : Dict String CsEnvironment → String
sole_key ((k, _) ∷ []) = k
sole_key _ = ""

unfoldable pub environment_for_meta : CsCloud → ObjectMeta → String
unfolding sole_key
environment_for_meta cs meta =
    let environment = or_empty (get_label_or_annotation meta cs.config.global.environment_label) in
    if str_eq environment "" then sole_key cs.environments else environment

configured_project : CsCloud → String → String
configured_project cs environment = elim (lookup environment cs.config.environment) [
  | none ↦ ""
  | some env_config ↦ env_config.project_id
]

-- The project of the environment's configuration, where no label names one.
default_project : CsCloud → String → Result String
unfolding configured_project
default_project cs environment =
    let project_id = configured_project cs environment in
    if str_eq project_id "" then err (failed "no projectID found") else ok project_id

unfoldable pub project_for_meta : CsCloud → ObjectMeta → String → Result String
unfolding default_project
project_for_meta cs meta environment =
    elim (get_label_or_annotation meta cs.config.global.project_id_label) [
      | none ↦ default_project cs environment
      | some project_id ↦ ok project_id
    ]

unfoldable pub client_for_environment : CsCloud → String → Result Client
client_for_environment cs environment = elim (environment_of cs environment).client [
  | none ↦ err (failed "unable to retrieve client for environment %v, available environments: %#v")
  | some client ↦ ok client
]

abbrev pub lb_name_label : String
lb_name_label = "csccm.cloudprovider.io/loadbalancer-name"

abbrev pub lb_name_suffix : String
lb_name_suffix = "csccm.cloudprovider.io/loadbalancer-name-suffix"

-- `fmt.Sprintf("%s.%s", name, suffix)`
abbrev pub dotted : String → String → String
dotted name suffix = append name (append "." suffix)

unfoldable pub get_load_balancer_name : CsCloud → Service → String
get_load_balancer_name cs service =
    let name = or_empty (get_label_or_annotation service.meta lb_name_label) in
    let suffix = or_empty (get_label_or_annotation service.meta lb_name_suffix) in
    let lb_domain = (environment_of cs (environment_for_meta cs service.meta)).lb_domain in
    if not (str_eq name "")
    then name
    else if not (str_eq suffix "")
    then dotted service.name suffix
    else dotted service.name lb_domain

abbrev pub remove_lbs_on_delete_label_key : String
remove_lbs_on_delete_label_key = "csccm.cloudprovider.io/remove-loadbalancers-on-delete"

-- `strconv.ParseBool`
unfoldable pub parse_bool : String → Option Bool
parse_bool s =
    if contains s ("1" ∷ "t" ∷ "T" ∷ "true" ∷ "TRUE" ∷ "True" ∷ [])
    then some true
    else if contains s ("0" ∷ "f" ∷ "F" ∷ "false" ∷ "FALSE" ∷ "False" ∷ [])
    then some false
    else none

-- The flag on the service, where it is set and can be read.
removal_flag : Service → Option Bool
unfolding parse_bool
removal_flag service = elim (get_label_or_annotation service.meta remove_lbs_on_delete_label_key) [
  | none ↦ none
  | some flag ↦ parse_bool flag
]

-- `isLBRemovalEnabled`, in the environment of the load balancer
unfoldable pub is_lb_removal_enabled : CsCloud → String → Service → Bool
unfolding removal_flag
is_lb_removal_enabled cs environment service = elim (removal_flag service) [
  | none ↦ (environment_of cs environment).remove_lbs
  | some b ↦ b
]
