-- ===== src/Kube.antt =====
-- The Kubernetes objects that the provider reads (k8s.io/api/core/v1), with the fields that it uses,
-- and `getLabelOrAnnotation` of cloudstack/instances.go.
use custom_cloudstack_ccm.Prelude.{
  ℕ, String, Option, none, some, List, str_eq, eq_iff, if◌then◌else◌, Bool, Eq, string_eq, ◌≡◌, ◌↔◌,
  true, ◌&&◌, arith,
}
use custom_cloudstack_ccm.Prelude.Dict.{Dict, lookup}

-- `none` is a nil map: reading it finds nothing, and a write to it panics.
pub record ObjectMeta : Type 0 where
  pub name : String
  pub namespace : String
  pub labels : Option (Dict String String)
  pub annotations : Dict String String

-- `intstr.IntOrString`
pub data TargetPort : Type 0 where
  number : ℕ → TargetPort
  text : String → TargetPort

pub record ServicePort : Type 0 where
  pub name : String
  pub protocol : String
  pub port : ℕ
  pub target_port : TargetPort
  pub node_port : ℕ

pub record Ingress : Type 0 where
  pub ip : String
  pub hostname : String

pub record Service : Type 0 where
  pub meta : ObjectMeta
  pub open meta use {name, namespace, labels, annotations}
  pub ports : List ServicePort
  pub session_affinity : String
  pub load_balancer_ip : String
  pub ingress : List Ingress

pub record Node : Type 0 where
  pub meta : ObjectMeta
  pub open meta use {name, namespace, labels, annotations}
  pub provider_id : String

-- `serviceKey`
pub record ServiceKey : Type 0 where
  pub namespace : String
  pub name : String

abbrev pub service_key_beq : ServiceKey → ServiceKey → Bool
service_key_beq a b = str_eq a.namespace b.namespace && str_eq a.name b.name

pub service_key_beq_iff : (a b : ServiceKey) → (service_key_beq a b ≡ true) ↔ (a ≡ b)
service_key_beq_iff a b = ground (arith, eq_iff a.namespace b.namespace, eq_iff a.name b.name)

instance abbrev pub service_key_eq : Eq ServiceKey
service_key_eq = record { beq = service_key_beq; beq_iff = service_key_beq_iff }

-- A read of a map that may be nil.
abbrev pub lookup_nil : String → Option (Dict String String) → Option String
lookup_nil k none = none
lookup_nil k (some m) = lookup k m

-- The zero value where a key is missing.
abbrev pub or_empty : Option String → String
or_empty none = ""
or_empty (some s) = s

unfoldable pub get_label_or_annotation : ObjectMeta → String → Option String
get_label_or_annotation obj name =
    if str_eq name ""
    then none
    else elim (lookup_nil name obj.labels) [ none ↦ lookup name obj.annotations | some n ↦ some n ]

-- `svcKey`
unfoldable pub svc_key : Service → ServiceKey
svc_key svc = record { namespace = svc.namespace; name = svc.name }
