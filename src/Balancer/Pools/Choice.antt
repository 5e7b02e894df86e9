-- ===== src/Balancer/Pools/Choice.antt =====
-- Which pool gets a new health check.
use Prim.Native.Char.{char}
use custom_cloudstack_ccm.Prelude.{
  String, Bool, true, false, none, some, List, [], ◌∷◌, ◌≡◌, refl, arith, inl, inr, str_eq, sym,
  ◌==◌, ◌&&◌, Bool-cases, ◌⊎◌, All, subst, string_eq, eq_iff,
}
use custom_cloudstack_ccm.Prelude.Text.{append, split, to_upper}
use custom_cloudstack_ccm.Kube.{Service, get_label_or_annotation, or_empty}
use custom_cloudstack_ccm.Cloudstack.{GloboNetworkPool}
use custom_cloudstack_ccm.Ports.{LbPortInfo}
use custom_cloudstack_ccm.Balancer.Pools.{
  port_to_hc_protocol, first_part, check_text, message_prefix, response_prefix, change_first,
  generate_globo_network_pool,
}

-- The health check that a port should have.
pub record Check : Type 0 where
  pub protocol : String
  pub message : String
  pub response : String

-- The pool serves the port, and its check differs.
abbrev pub IsStale : LbPortInfo → Check → GloboNetworkPool → Type 0
IsStale port c pool =
    (pool.vip_port ≡ port.public_port)
    × (pool.port ≡ port.private_port)
    × ((str_eq pool.health_check c.message ≡ false)
        ⊎ (str_eq pool.health_check_expected c.response ≡ false)
        ⊎ (str_eq pool.health_check_type c.protocol ≡ false))

-- The pool serves another port, or has the check.
abbrev pub IsSettled : LbPortInfo → Check → GloboNetworkPool → Type 0
IsSettled port c pool =
    ((pool.vip_port == port.public_port) ≡ false)
    ⊎ ((pool.port == port.private_port) ≡ false)
    ⊎ ((pool.health_check ≡ c.message)
        × (pool.health_check_expected ≡ c.response)
        × (pool.health_check_type ≡ c.protocol))

-- The pool with the check: its id and its ports stay.
abbrev pub checked : Check → GloboNetworkPool → GloboNetworkPool
checked c pool = record {
  port = pool.port;
  vip_port = pool.vip_port;
  health_check_type = c.protocol;
  health_check = c.message;
  health_check_expected = c.response;
  id = pool.id;
}

-- The first stale pool of the list gets the check; the others stay.
pub data Changed (port : LbPortInfo) (c : Check) (chosen : GloboNetworkPool)
    : List GloboNetworkPool → List GloboNetworkPool → Type 0 where
  here :
      (pool : GloboNetworkPool) (pools : List GloboNetworkPool)
      → IsStale port c pool
      → chosen ≡ checked c pool
      → Changed port c chosen (pool ∷ pools) (chosen ∷ pools)
  there :
      (pool : GloboNetworkPool) {pools pools' : List GloboNetworkPool}
      → IsSettled port c pool
      → Changed port c chosen pools pools'
      → Changed port c chosen (pool ∷ pools) (pool ∷ pools')

module _ (port : LbPortInfo) (c : Check) where
  IsStale-or-IsSettled : (pool : GloboNetworkPool) → IsStale port c pool ⊎ IsSettled port c pool
  IsStale-or-IsSettled pool = elim (Bool-cases (pool.vip_port == port.public_port)) [
    | inr other ↦ inr (inl other)
    | inl vip ↦ elim (Bool-cases (pool.port == port.private_port)) [
      | inr other ↦ inr (inr (inl other))
      | inl private ↦ ground (
        arith,
        vip,
        private,
        eq_iff pool.health_check c.message,
        eq_iff pool.health_check_expected c.response,
        eq_iff pool.health_check_type c.protocol,
      )
    ]
  ]

  change_first-stale :
      (pool : GloboNetworkPool) (pools : List GloboNetworkPool)
      → IsStale port c pool
      → change_first port c.protocol c.message c.response (pool ∷ pools)
        ≡ (some (checked c pool), checked c pool ∷ pools)
  unfolding change_first
  change_first-stale pool pools stale = ground (arith, stale)

  change_first-settled :
      (pool : GloboNetworkPool) (pools : List GloboNetworkPool)
      → IsSettled port c pool
      → let rest = change_first port c.protocol c.message c.response pools in
        change_first port c.protocol c.message c.response (pool ∷ pools) ≡ (rest.0, pool ∷ rest.1)
  unfolding change_first
  change_first-settled pool pools settled = ground (
    arith,
    settled,
    eq_iff pool.health_check c.message,
    eq_iff pool.health_check_expected c.response,
    eq_iff pool.health_check_type c.protocol,
  )

  change_first_lem :
      (pools : List GloboNetworkPool)
      → let result = change_first port c.protocol c.message c.response pools in
        ((result ≡ (none, pools)) × All (IsSettled port c) pools)
        ⊎ ((chosen : GloboNetworkPool) × (result.0 ≡ some chosen)
            × Changed port c chosen pools result.1)
  unfolding change_first
  change_first_lem [] = inl (refl, tt)
  change_first_lem (pool ∷ pools) = elim (IsStale-or-IsSettled pool) [
    | inl stale ↦
        let chosen = checked c pool in
        let same = change_first-stale pool pools stale in
        inr (
          chosen,
          ground (arith, same),
          subst (λ r. Changed port c chosen (pool ∷ pools) r.1) (sym same)
              (here pool pools stale refl),
        )
    | inr settled ↦
        let same = change_first-settled pool pools settled in
        elim (change_first_lem pools) [
          | inl (e, all_settled) ↦ inl (ground (arith, e, same), (settled, all_settled))
          | inr (chosen, e, changed) ↦ inr (
            chosen,
            ground (arith, e, same),
            subst (λ r. Changed port c chosen (pool ∷ pools) r.1) (sym same)
                (there pool settled changed),
          )
        ]
  ]

-- What a port's name starts with, up to its first dash, in capital letters.
abbrev pub prefix_of : String → String
prefix_of name = to_upper (elim (split (char 45 tt) name) [ [] ↦ "" | part ∷ _ ↦ part ])

-- The protocol of the check and whether it needs a message: HTTP and HTTPS do, TCP and UDP do not,
-- and for another name it is the protocol of the rule, and does not.
abbrev pub IsProtocol : String → String → String → Bool → Type 0
IsProtocol rule_protocol prefix protocol needs =
    (((prefix ≡ "HTTP") ⊎ (prefix ≡ "HTTPS")) × (protocol ≡ prefix) × (needs ≡ true))
    ⊎ (((prefix ≡ "TCP") ⊎ (prefix ≡ "UDP")) × (protocol ≡ prefix) × (needs ≡ false))
    ⊎ ((str_eq prefix "HTTP" ≡ false)
        × (str_eq prefix "HTTPS" ≡ false)
        × (str_eq prefix "TCP" ≡ false)
        × (str_eq prefix "UDP" ≡ false)
        × (protocol ≡ rule_protocol)
        × (needs ≡ false))

port_to_hc_protocol_lem :
    (protocol : String) (port : LbPortInfo)
    → let hc = port_to_hc_protocol protocol port in
      IsProtocol protocol (prefix_of port.name) hc.protocol hc.requires_msg
unfolding port_to_hc_protocol first_part
port_to_hc_protocol_lem protocol port =
    let prefix = prefix_of port.name in
    ground
      (arith, eq_iff prefix "HTTP", eq_iff prefix "HTTPS", eq_iff prefix "TCP", eq_iff prefix "UDP")

-- The check that a service wants for a port, from its labels or annotations.
abbrev pub IsWanted : String → LbPortInfo → Service → Check → Bool → Type 0
IsWanted rule_protocol port service c needs =
    IsProtocol rule_protocol (prefix_of port.name) c.protocol needs
    × (c.message
        ≡ or_empty (
            get_label_or_annotation service.meta
              (append "csccm.cloudprovider.io/loadbalancer-custom-healthcheck-msg-" port.name)))
    × (c.response
        ≡ or_empty (
            get_label_or_annotation service.meta
              (append "csccm.cloudprovider.io/loadbalancer-custom-healthcheck-rsp-" port.name)))

-- For a port, there is one check that the service wants. Either no pool is chosen and none is changed,
-- because the check needs a message and has none, or because each pool serves another port or has
-- the check; or the check has the message that it needs, and the first pool that serves the port with
-- another check is chosen, is given the check, and is the only one that changes.
pub generate_globo_network_pool_lem :
    (protocol : String) (port : LbPortInfo) (service : Service) (pools : List GloboNetworkPool)
    → let result = generate_globo_network_pool protocol port service pools in
      (c : Check) × (needs : Bool) × IsWanted protocol port service c needs
      × (((result ≡ (none, pools))
            × (((needs ≡ true) × (c.message ≡ "")) ⊎ All (IsSettled port c) pools))
          ⊎ (((needs && str_eq c.message "") ≡ false)
              × (chosen : GloboNetworkPool) × (result.0 ≡ some chosen)
              × Changed port c chosen pools result.1))
unfolding generate_globo_network_pool
generate_globo_network_pool_lem protocol port service pools =
    let hc = port_to_hc_protocol protocol port in
    let message = check_text message_prefix service port in
    let c : Check = record {
      protocol = hc.protocol;
      message = message;
      response = check_text response_prefix service port;
    } in
    (
      c,
      hc.requires_msg,
      (port_to_hc_protocol_lem protocol port, refl, refl),
      elim (Bool-cases (hc.requires_msg && str_eq message "")) [
        | inl blank ↦
            inl
              (rw blank refl, inl (ground (arith, blank), ground (arith, blank, eq_iff message "")))
        | inr given ↦ elim (change_first_lem port c pools) [
          | inl (e, settled) ↦ inl (rw given e, inr settled)
          | inr (chosen, e, changed) ↦ inr (given, chosen, rw given e, rw given changed)
        ]
      ],
    )
