-- ===== src/Provider/Environments.antt =====
-- The environments that the provider ends up with.
use custom_cloudstack_ccm.Prelude.{
  String, Bool, true, false, Option, none, some, [], ◌∷◌, any, Distinct, string_eq, eq_iff, ◌≡◌,
  ◌⊎◌, inl, inr, refl, ap, subst, sym, arith, Bool-cases,
}
use custom_cloudstack_ccm.Prelude.Dict.{
  Dict, lookup, insert, keys, values, lookup-insert, contains-keys,
}
use custom_cloudstack_ccm.Prelude.Outcome.{Result, ok, err, failed}
use custom_cloudstack_ccm.Config.{CsConfig, CsCloud, CsEnvironment, EnvironmentConfig}
use custom_cloudstack_ccm.Prelude.{str_eq}
use custom_cloudstack_ccm.Prelude.Text.{append, to_upper}
use custom_cloudstack_ccm.Config.{Client}
use custom_cloudstack_ccm.Provider.{
  or_variable, fill_credentials, fill_all, has_credentials_missing, add_environments,
  new_environment, new_cs_cloud, read_config, new_provider,
}

-- Whether an environment of the configuration has a credential missing.
abbrev pub lacks_credentials : Result (Unit {0}) → Dict String EnvironmentConfig → Bool
lacks_credentials new_cache cfgs = any (has_credentials_missing new_cache) (values cfgs)

module _ (new_cache : Result (Unit {0})) (works : new_cache ≡ ok tt) where
  -- An environment of the configuration, or else what there was before.
  abbrev made :
      Dict String EnvironmentConfig → Dict String CsEnvironment → String → Option CsEnvironment
  made cfgs environments k = elim (lookup k cfgs) [
    | none ↦ lookup k environments
    | some v ↦ some (new_environment new_cache v)
  ]

  add_environments_lem :
      (cfgs : Dict String EnvironmentConfig) (environments : Dict String CsEnvironment)
      → Distinct (keys cfgs)
      → ((lacks_credentials new_cache cfgs ≡ true)
          × (add_environments new_cache cfgs environments
              ≡ err (failed "missing credentials for environment %q")))
        ⊎ ((lacks_credentials new_cache cfgs ≡ false)
            × (result : Dict String CsEnvironment) × (add_environments new_cache cfgs environments
                ≡ ok result)
            × ((k : String) → lookup k result ≡ made cfgs environments k))
  unfolding add_environments
  add_environments_lem [] environments d = inr (refl, environments, refl, λ k. refl)
  add_environments_lem ((k, v) ∷ cfgs) environments (fresh, d) =
      elim (Bool-cases (has_credentials_missing new_cache v)) [
        | inl missing ↦ inl (ground (arith, missing), ground (arith, missing))
        | inr complete ↦
            elim (add_environments_lem cfgs (insert k (new_environment new_cache v) environments)
              d) [
                | inl (lacks, failing) ↦
                    inl (ground (arith, complete, lacks), ground (arith, complete, works, failing))
                | inr (none_lacks, result, done, all) ↦ inr (
                  ground (arith, complete, none_lacks),
                  result,
                  ground (arith, complete, works, done),
                  λ j. ground (
                    arith,
                    all j,
                    eq_iff k j,
                    contains-keys k cfgs,
                    fresh,
                    lookup-insert k j (new_environment new_cache v) environments,
                  ),
                )
              ]
      ]

keys-fill_all :
    (getenv : String → String) (cfgs : Dict String EnvironmentConfig)
    → keys (fill_all getenv cfgs) ≡ keys cfgs
unfolding fill_all
keys-fill_all getenv [] = refl
keys-fill_all getenv ((k, v) ∷ cfgs) = ap (λ l. k ∷ l) (keys-fill_all getenv cfgs)

module _ (getenv : String → String) where
  -- The value of a credential: the setting, or the variable of the environment where it is empty.
  abbrev pub IsCredential : String → String → String → String → Type 0
  IsCredential k suffix setting value =
      ((setting ≡ "") × (value ≡ getenv (append "CLOUDSTACK_" (append (to_upper k) suffix))))
      ⊎ ((str_eq setting "" ≡ false) × (value ≡ setting))

  -- One of the three credentials of an environment is empty.
  abbrev pub IsLacking : String → EnvironmentConfig → Type 0
  IsLacking k v =
      IsCredential k "_API_URL" v.api_url ""
      ⊎ IsCredential k "_API_KEY" v.api_key ""
      ⊎ IsCredential k "_SECRET_KEY" v.secret_key ""

  -- The client has the credentials of an environment, and none of them is empty.
  abbrev pub IsClientOf : String → EnvironmentConfig → Client → Type 0
  IsClientOf k v client =
      (IsCredential k "_API_URL" v.api_url client.api_url × (str_eq client.api_url "" ≡ false))
      × (IsCredential k "_API_KEY" v.api_key client.api_key × (str_eq client.api_key "" ≡ false))
      × (IsCredential k "_SECRET_KEY" v.secret_key client.secret_key
          × (str_eq client.secret_key "" ≡ false))
      × (client.ssl_no_verify ≡ v.ssl_no_verify)

  -- What the provider has under a name, for what the configuration has under it.
  abbrev pub IsMade : String → Option EnvironmentConfig → Option CsEnvironment → Type 0
  IsMade k none e = e ≡ none
  IsMade k (some v) e =
      (client : Client) × (m : CsEnvironment) × (e ≡ some m)
      × (m.client ≡ some client)
      × IsClientOf k v client
      × (m.lb_environment_id ≡ v.lb_environment_id)
      × (m.lb_domain ≡ v.lb_domain)
      × (m.remove_lbs ≡ v.remove_lbs)

  credential :
      (k suffix setting : String)
      → IsCredential k suffix setting (or_variable getenv setting k suffix)
  unfolding or_variable
  credential k suffix setting = elim (Bool-cases (str_eq setting "")) [
    | inl empty ↦ inl (ground (arith, empty, eq_iff setting ""), ground (arith, empty))
    | inr given ↦ inr (given, ground (arith, given))
  ]

  lookup-fill_all :
      (k : String) (cfgs : Dict String EnvironmentConfig)
      → lookup k (fill_all getenv cfgs)
        ≡ (elim (lookup k cfgs) [ none ↦ none | some v ↦ some (fill_credentials getenv k v) ])
  unfolding fill_all
  lookup-fill_all k [] = refl
  lookup-fill_all k ((j, v) ∷ cfgs) = ground (arith, lookup-fill_all k cfgs, eq_iff j k)

  blank :
      (k suffix setting : String)
      → str_eq (or_variable getenv setting k suffix) "" ≡ true
      → IsCredential k suffix setting ""
  blank k suffix setting empty =
      let same : or_variable getenv setting k suffix ≡ "" =
        ground (arith, empty, eq_iff (or_variable getenv setting k suffix) "") in
      subst (IsCredential k suffix setting) same (credential k suffix setting)

  missing-IsLacking :
      (new_cache : Result (Unit {0})) (k : String) (v : EnvironmentConfig)
      → has_credentials_missing new_cache (fill_credentials getenv k v) ≡ true
      → IsLacking k v
  unfolding fill_credentials
  missing-IsLacking new_cache k v missing =
      let filled = fill_credentials getenv k v in
      elim (Bool-cases (str_eq filled.api_url "")) [
        | inl empty ↦ inl (blank k "_API_URL" v.api_url empty)
        | inr url ↦ elim (Bool-cases (str_eq filled.api_key "")) [
          | inl empty ↦ inr (inl (blank k "_API_KEY" v.api_key empty))
          | inr key ↦
              inr (inr (blank k "_SECRET_KEY" v.secret_key (ground (arith, missing, url, key))))
        ]
      ]

  complete-IsClientOf :
      (new_cache : Result (Unit {0})) (k : String) (v : EnvironmentConfig)
      → has_credentials_missing new_cache (fill_credentials getenv k v) ≡ false
      → (client : Client) × ((new_environment new_cache (fill_credentials getenv k v)).client
          ≡ some client)
        × IsClientOf k v client
  unfolding new_environment fill_credentials
  complete-IsClientOf new_cache k v complete = (
    _,
    refl,
    (
      (credential k "_API_URL" v.api_url, ground (arith, complete)),
      (credential k "_API_KEY" v.api_key, ground (arith, complete)),
      (credential k "_SECRET_KEY" v.secret_key, ground (arith, complete)),
      refl,
    ),
  )

  some-IsLacking :
      (new_cache : Result (Unit {0})) (cfgs : Dict String EnvironmentConfig)
      → Distinct (keys cfgs)
      → lacks_credentials new_cache (fill_all getenv cfgs) ≡ true
      → (k : String) × (v : EnvironmentConfig) × (lookup k cfgs ≡ some v) × IsLacking k v
  unfolding fill_all
  some-IsLacking new_cache [] d h = absurd (ground (arith, h))
  some-IsLacking new_cache ((k, v) ∷ cfgs) (fresh, d) h =
      elim (Bool-cases (has_credentials_missing new_cache (fill_credentials getenv k v))) [
        | inl missing ↦ (k, v, ground (arith, eq_iff k k), missing-IsLacking new_cache k v missing)
        | inr complete ↦
            let (j, u, found, lacking) =
              some-IsLacking new_cache cfgs d (ground (arith, h, complete)) in
            (j, u, ground (arith, found, fresh, eq_iff k j, contains-keys j cfgs), lacking)
      ]

  none_missing :
      (new_cache : Result (Unit {0})) (cfgs : Dict String EnvironmentConfig) (k : String)
      (v : EnvironmentConfig)
      → lacks_credentials new_cache (fill_all getenv cfgs) ≡ false
      → lookup k cfgs ≡ some v
      → has_credentials_missing new_cache (fill_credentials getenv k v) ≡ false
  unfolding fill_all
  none_missing new_cache [] k v h found = absurd (ground (arith, found))
  none_missing new_cache ((j, u) ∷ cfgs) k v h found =
      ground (arith, h, found, none_missing new_cache cfgs k v, eq_iff j k)

  IsMade-IsMade :
      (new_cache : Result (Unit {0})) (cfgs : Dict String EnvironmentConfig) (k : String)
      (found : Option EnvironmentConfig) (e : Option CsEnvironment)
      → lacks_credentials new_cache (fill_all getenv cfgs) ≡ false
      → lookup k cfgs ≡ found
      → e ≡ (elim (lookup k (fill_all getenv cfgs)) [
        | none ↦ none
        | some v ↦ some (new_environment new_cache v)
      ])
      → IsMade k found e
  unfolding new_environment fill_credentials
  IsMade-IsMade new_cache cfgs k none e complete found made =
      ground (arith, made, found, lookup-fill_all k cfgs)
  IsMade-IsMade new_cache cfgs k (some v) e complete found made =
      let filled = fill_credentials getenv k v in
      let (client, has, is_client) =
        complete-IsClientOf new_cache k v (none_missing new_cache cfgs k v complete found) in
      (
        client,
        new_environment new_cache filled,
        ground (arith, made, found, lookup-fill_all k cfgs),
        has,
        is_client,
        refl,
        refl,
        refl,
      )

-- A configuration that is read, with each name once, makes a provider where the caches can be made,
-- unless an environment has an empty credential: its URL, key or secret is empty, and so is the
-- variable named after it. The provider then has the environments of the configuration and no other,
-- each with a client of just those three credentials and with its own settings.
pub new_provider_lem :
    (getenv : String → String) (new_cache : Result (Unit {0})) (cfg : CsConfig)
    → new_cache ≡ ok tt
    → Distinct (keys cfg.environment)
    → let result = new_provider getenv new_cache (some (ok cfg)) in
      (((k : String) × (v : EnvironmentConfig) × (lookup k cfg.environment ≡ some v)
          × IsLacking getenv k v)
        × (result ≡ err (failed "missing credentials for environment %q")))
      ⊎ ((cs : CsCloud) × (result ≡ ok cs)
          × ((k : String) → IsMade getenv k (lookup k cfg.environment) (lookup k cs.environments)))
unfolding new_provider read_config new_cs_cloud
new_provider_lem getenv new_cache cfg works d =
    let filled = fill_all getenv cfg.environment in
    let distinct = subst Distinct (sym (keys-fill_all getenv cfg.environment)) d in
    elim (add_environments_lem new_cache works filled [] distinct) [
      | inl (lacks, failing) ↦
          inl (some-IsLacking getenv new_cache cfg.environment d lacks, ground (arith, failing))
      | inr (complete, environments, done, all) ↦ inr (
        record { environments = environments; config = record cfg { environment = filled } },
        ground (arith, done),
        λ k.
            IsMade-IsMade getenv new_cache cfg.environment k (lookup k cfg.environment) _ complete
              refl (all k),
      )
    ]
