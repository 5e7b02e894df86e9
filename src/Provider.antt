-- ===== src/Provider.antt =====
-- cloudstack/cloudstack.go: reading the configuration, `newCSCloud`, and which interfaces the
-- provider offers. The parser of the configuration file, the process's environment variables and the
-- construction of the cache are arguments.
pub mod Environments
use custom_cloudstack_ccm.Prelude.{
  String, Bool, true, false, Option, none, some, [], ◌∷◌, str_eq, if◌then◌else◌, ◌||◌, string_eq,
}
use custom_cloudstack_ccm.Prelude.Dict.{Dict, insert}
use custom_cloudstack_ccm.Prelude.Int.{pos}
use custom_cloudstack_ccm.Prelude.Outcome.{Result, ok, err, failed, wrap}
use custom_cloudstack_ccm.Prelude.Text.{append, to_upper}
use custom_cloudstack_ccm.Config.{CsConfig, CsCloud, CsEnvironment, EnvironmentConfig}

abbrev pub provider_name : String
provider_name = "custom-cloudstack"

abbrev pub empty_config : CsConfig
empty_config = record {
  global = record {
    service_filter_label = "";
    node_filter_label = "";
    node_name_label = "";
    project_id_label = "";
    environment_label = "";
    internal_ip_index = pos 0;
    external_ip_index = pos 0;
    update_lb_workers = pos 0;
  };
  environment = [];
  command = record {
    associate_ip = "";
    disassociate_ip = "";
    assign_networks = "";
    delete_lb_rule = "";
  };
  command_args = [];
}

module _ (getenv : String → String) where
  -- A setting, or the variable `CLOUDSTACK_<environment><suffix>` if it is empty.
  or_variable : String → String → String → String
  or_variable setting k suffix =
      if str_eq setting ""
      then getenv (append "CLOUDSTACK_" (append (to_upper k) suffix))
      else setting

  unfoldable pub fill_credentials : String → EnvironmentConfig → EnvironmentConfig
  unfolding or_variable
  fill_credentials k v = record v {
    api_url = or_variable v.api_url k "_API_URL";
    api_key = or_variable v.api_key k "_API_KEY";
    secret_key = or_variable v.secret_key k "_SECRET_KEY";
  }

  unfoldable pub fill_all : Dict String EnvironmentConfig → Dict String EnvironmentConfig
  unfolding fill_credentials
  fill_all [] = []
  fill_all ((k, v) ∷ rest) = (k, fill_credentials k v) ∷ fill_all rest

  -- `none` is a nil reader; the parser's result is what `gcfg.ReadInto` makes of the reader.
  unfoldable pub read_config : Option (Result CsConfig) → Result CsConfig
  unfolding fill_all
  read_config none = ok empty_config
  read_config (some (err e)) = wrap "could not parse cloud provider config: %v" (err e)
  read_config (some (ok cfg)) = ok (record cfg { environment = fill_all cfg.environment })

module _ (new_cache : Result (Unit {0})) where
  unfoldable pub new_environment : EnvironmentConfig → CsEnvironment
  new_environment v = record {
    client = some (record {
      api_url = v.api_url;
      api_key = v.api_key;
      secret_key = v.secret_key;
      ssl_no_verify = v.ssl_no_verify;
    });
    lb_environment_id = v.lb_environment_id;
    lb_domain = v.lb_domain;
    remove_lbs = v.remove_lbs;
  }

  abbrev pub has_credentials_missing : EnvironmentConfig → Bool
  has_credentials_missing v = str_eq v.api_url "" || str_eq v.api_key "" || str_eq v.secret_key ""

  unfoldable pub add_environments :
      Dict String EnvironmentConfig → Dict String CsEnvironment → Result (Dict String CsEnvironment)
  unfolding new_environment
  add_environments [] environments = ok environments
  add_environments ((k, v) ∷ rest) environments =
      let added = add_environments rest (insert k (new_environment v) environments) in
      if has_credentials_missing v
      then err (failed "missing credentials for environment %q")
      else elim new_cache [ err e ↦ err e | ok _ ↦ added ]

  unfoldable pub new_cs_cloud : CsConfig → Result CsCloud
  unfolding add_environments
  new_cs_cloud cfg = elim (add_environments cfg.environment []) [
    | err e ↦ err e
    | ok environments ↦ ok (record { environments = environments; config = cfg })
  ]

-- `LoadBalancer`, `Instances` and `Zones`: whether the provider offers the interface.
unfoldable pub offers_interface : CsCloud → Bool
offers_interface cs = elim cs.environments [ [] ↦ false | _ ∷ _ ↦ true ]

-- What `init` registers: reads the configuration and makes the provider.
unfoldable pub new_provider :
    (String → String) → Result (Unit {0}) → Option (Result CsConfig) → Result CsCloud
new_provider getenv new_cache reader = elim (read_config getenv reader) [
  | err e ↦ err e
  | ok cfg ↦ new_cs_cloud new_cache cfg
]
