-- ===== src/Fake/Pools.antt =====
-- The pools that the test server makes by itself: `createDefaultLBPools` of
-- cloudstack/fake/cloudstack.go.
use Prim.Native.Char.{char}
use custom_cloudstack_ccm.Prelude.{
  ℕ, ◌+◌, String, Option, none, some, List, [], ◌∷◌, ◌++◌, if◌then◌else◌, string_eq, ◌==◌, ◌&&◌,
  not, any, get_elem?,
}
use custom_cloudstack_ccm.Prelude.Dict.{lookup}
use custom_cloudstack_ccm.Prelude.Text.{atoi, has_part, split}
use custom_cloudstack_ccm.Kube.{or_empty}
use custom_cloudstack_ccm.Api.{Value}
use custom_cloudstack_ccm.Fake.{
  Fake, FakeRule, FakePool, text_field, rule_at, lb_name_by_id, with_object,
}

abbrev pub tcp_pool : ℕ → ℕ → ℕ → FakePool
tcp_pool id vip_port port = record {
  port = port;
  vip_port = vip_port;
  health_check_type = "TCP";
  health_check = "";
  health_check_expected = "";
  id = id;
}

-- `rule.Rule["additionalportmap"].([]string)`, empty where it is not such a list
abbrev additional_pairs : FakeRule → List String
additional_pairs r = elim (lookup "additionalportmap" r.rule) [
  | none ↦ []
  | some v ↦ elim v [ Value.texts pairs ↦ pairs | _ ↦ [] ]
]

-- A part of a pair, as a number.
abbrev part_number : ℕ → String → ℕ
part_number i pair = atoi (or_empty (get_elem? (split (char 58 tt) pair) i))

-- The loop over the additional ports, from index `idx` on.
additional_pools : ℕ → List String → List FakePool
additional_pools idx [] = []
additional_pools idx (pair ∷ pairs) =
    let rest = additional_pools (idx + 1) pairs in
    if has_part pair ":"
    then tcp_pool (idx + 1) (part_number 0 pair) (part_number 1 pair) ∷ rest
    else rest

unfoldable pub with_default_pools : ℕ → ℕ → FakeRule → FakeRule
unfolding additional_pools
with_default_pools public_port private_port r =
    if not r.create_lb_pool
    then r
    else if any (λ (p : FakePool). p.port == private_port && p.vip_port == public_port) r.pools
    then r
    else record r {
      pools =
          (r.pools ++ tcp_pool 0 public_port private_port ∷ [])
          ++ additional_pools 0 (additional_pairs r);
    }

-- `none` is a panic: of a port that is missing.
abbrev pub default_pools : FakeRule → Option FakeRule
default_pools r = elim (text_field "publicport" r) [
  | none ↦ none
  | some public_port ↦ elim (text_field "privateport" r) [
    | none ↦ none
    | some private_port ↦ some (with_default_pools (atoi public_port) (atoi private_port) r)
  ]
]

-- Or of a rule that is missing.
unfoldable pub create_default_lb_pools : String → Fake → Option Fake
unfolding with_default_pools
create_default_lb_pools lb_id s = elim (rule_at (lb_name_by_id lb_id s) s) [
  | none ↦ none
  | some (i, r) ↦ elim (default_pools r) [ none ↦ none | some r' ↦ some (with_object i r' s) ]
]
