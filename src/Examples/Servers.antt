-- ===== src/Examples/Servers.antt =====
-- The test server, the provider's environments and the label patch, at work.
use custom_cloudstack_ccm.Prelude.{
  any, ℕ, String, Bool, true, false, Option, none, some, List, [], ◌∷◌, map, keep, string_eq,
  str_eq, ◌≡◌, ◌⊎◌, ◌&&◌, refl, if◌then◌else◌,
}
use custom_cloudstack_ccm.Prelude.Dict.{lookup, values}
use custom_cloudstack_ccm.Prelude.Outcome.{ok, err, failed}
use custom_cloudstack_ccm.Config.{CsConfig, CsCloud, EnvironmentConfig}
use custom_cloudstack_ccm.Cloudstack.{PublicIpAddress}
use custom_cloudstack_ccm.Provider.{new_provider}
use custom_cloudstack_ccm.Provider.Environments.{new_provider_lem, IsLacking, IsMade}
use custom_cloudstack_ccm.Patch.{read_label_path, label_path, read_label_path-label_path}
use custom_cloudstack_ccm.Fake.{Form, Fake, new_fake, list_of}
use custom_cloudstack_ccm.Hosts.Laws.{hosts_after}
use custom_cloudstack_ccm.Fake.Jobs.{finished}
use custom_cloudstack_ccm.Fake.Listings.{addresses, job_result, list_public_ip_addresses}
use custom_cloudstack_ccm.Fake.Orders.{assign_hosts, remove_hosts}
use custom_cloudstack_ccm.Fake.Serve.{query_job}
use custom_cloudstack_ccm.Fake.Hosts.{assign_then_remove}
use custom_cloudstack_ccm.Fake.Addresses.{
  list_public_ip_addresses_lem, asks, wants, fits, with_more,
}
use custom_cloudstack_ccm.Examples.Data.{config}

abbrev adding : Form
adding = ("id", "rule1" ∷ []) ∷ ("virtualmachineids", "vm1,vm2" ∷ []) ∷ []

abbrev dropping : Form
dropping = ("id", "rule1" ∷ []) ∷ ("virtualmachineids", "vm1" ∷ []) ∷ []

abbrev job_query : String → Form
job_query id = ("jobid", id ∷ []) ∷ []

assign_then_remove_example :
    let ran = query_job (job_query "job-host-assign-1") (assign_hosts adding new_fake).1 in
    let ran' = query_job (job_query "job-host-remove-1") (remove_hosts dropping ran.1).1 in
    (ran.0 ≡ job_result finished)
    × (ran'.0 ≡ job_result finished)
    × ((r : String)
        → list_of r ran'.1.vms ≡ (
            if str_eq "rule1" r
            then hosts_after (list_of r []) ("vm1" ∷ "vm2" ∷ [], "vm1" ∷ [])
            else list_of r []))
unfolding assign_hosts custom_cloudstack_ccm.Prelude.Text.itoa custom_cloudstack_ccm.Fake.form_value
    remove_hosts query_job custom_cloudstack_ccm.Fake.Jobs.run_job
    custom_cloudstack_ccm.Prelude.Text.split
assign_then_remove_example =
    assign_then_remove adding (job_query "job-host-assign-1") dropping
      (job_query "job-host-remove-1") new_fake "job-host-assign-1" "job-host-remove-1" refl refl
      refl refl refl

abbrev stored_ip : PublicIpAddress
stored_ip = record { id = "ip1"; ipaddress = "10.0.0.1"; networkid = "net1"; tags = [] }

-- A server with an address and its tag.
abbrev with_ip : Fake
with_ip = record new_fake {
  ips = ("ip1", stored_ip) ∷ [];
  tags = ("ip1", record { key = "color"; value = "red" } ∷ []) ∷ [];
}

list_public_ip_addresses_lem_example :
    let (reply, s') = list_public_ip_addresses (asks "" "ip1" "color" "red") with_ip in
    (reply
      ≡ addresses (
          map
            (λ ip. with_more (list_of ip.id with_ip.tags) ip)
            (keep
              (λ ip. wants "" "ip1" ip && any (fits "color" "red") (list_of ip.id with_ip.tags))
              (values with_ip.ips))))
    × ((j : String)
        → lookup j s'.ips ≡ (elim (lookup j with_ip.ips) [
          | none ↦ none
          | some ip ↦
              some (if wants "" "ip1" ip then with_more (list_of ip.id with_ip.tags) ip else ip)
        ]))
list_public_ip_addresses_lem_example = list_public_ip_addresses_lem "" "ip1" "color" "red" with_ip

-- The variables of a process that knows one secret key.
abbrev variables : String → String
variables name = if str_eq name "CLOUDSTACK_ENV_SECRET_KEY" then "s" else ""

abbrev unfilled : EnvironmentConfig
unfilled = record {
  api_url = "api";
  api_key = "k";
  secret_key = "";
  lb_environment_id = "";
  lb_domain = "example";
  project_id = "p1";
  ssl_no_verify = false;
  remove_lbs = true;
}

abbrev read : CsConfig
read = record config { environment = ("env", unfilled) ∷ [] }

new_provider_lem_example :
    let result = new_provider variables (ok tt) (some (ok read)) in
    (((k : String) × (v : EnvironmentConfig) × (lookup k read.environment ≡ some v)
        × IsLacking variables k v)
      × (result ≡ err (failed "missing credentials for environment %q")))
    ⊎ ((cs : CsCloud) × (result ≡ ok cs)
        × ((k : String)
            → IsMade variables k (lookup k read.environment) (lookup k cs.environments)))
new_provider_lem_example = new_provider_lem variables (ok tt) read refl (refl, tt)

read_label_path-label_path_example : read_label_path (label_path "team/a~b") ≡ some "team/a~b"
read_label_path-label_path_example = read_label_path-label_path "team/a~b"
