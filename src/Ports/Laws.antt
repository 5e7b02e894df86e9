-- ===== src/Ports/Laws.antt =====
-- What a load balancer's ports are, and what it means that a rule has them.
use custom_cloudstack_ccm.Prelude.{
  ℕ, ◌≤◌, String, Bool, true, false, List, [], ◌∷◌, map, eq_iff, All, ◌⊎◌, is_some, ◌≡◌, refl,
  arith, ap, subst, inl, inr,
}
use custom_cloudstack_ccm.Prelude.Sort.{
  sort, unsort-All, sort_of_IsOrdered, sort-IsOrdered, IsWeakOrder, IsOrdered, NoneLess,
}
use custom_cloudstack_ccm.Prelude.Text.{itoa, itoa_inj, text_less, text_less-IsWeakOrder}
use custom_cloudstack_ccm.Prelude.Outcome.{ok, Result-cases}
use custom_cloudstack_ccm.Kube.{Service, ServicePort, get_label_or_annotation}
use custom_cloudstack_ccm.Cloudstack.{LoadBalancerRule}
use custom_cloudstack_ccm.Api.{Server, History}
use custom_cloudstack_ccm.Ports.{
  LbPortInfo, LbPorts, public_port, first_public, private_port, lb_use_target_port,
  additional_ports, additional_of, port_pair, texts_eq, compare_ports, port_less, sort_ports,
  private_of, port_infos, to_lb_ports, service_to_lb_ports,
}

texts_eq_sound : (xs ys : List String) → texts_eq xs ys ≡ true → xs ≡ ys
texts_eq_sound [] [] h = refl
texts_eq_sound [] (y ∷ ys) h = cc
texts_eq_sound (x ∷ xs) [] h = cc
texts_eq_sound (x ∷ xs) (y ∷ ys) h = ground (arith, eq_iff x y, texts_eq_sound xs ys)

-- A rule passes for two sets of ports only where they agree on the public and the private port, on the
-- protocol, and on the additional ports.
pub compare_ports_unique :
    (p q : LbPorts) (rule : LoadBalancerRule)
    → compare_ports p rule ≡ true
    → compare_ports q rule ≡ true
    → (public_port p ≡ public_port q)
      × (private_port p ≡ private_port q)
      × (p.protocol ≡ q.protocol)
      × (additional_ports p ≡ additional_ports q)
unfolding compare_ports
compare_ports_unique p q rule hp hq = ground (
  arith,
  eq_iff rule.privateport (itoa (private_port p)),
  eq_iff rule.privateport (itoa (private_port q)),
  eq_iff rule.publicport (itoa (public_port p)),
  eq_iff rule.publicport (itoa (public_port q)),
  eq_iff rule.protocol p.protocol,
  eq_iff rule.protocol q.protocol,
  itoa_inj (private_port p) (private_port q),
  itoa_inj (public_port p) (public_port q),
  texts_eq_sound (additional_ports p) (sort text_less rule.additional_port_map),
  texts_eq_sound (additional_ports q) (sort text_less rule.additional_port_map),
)

texts_eq_refl : (xs : List String) → texts_eq xs xs ≡ true
texts_eq_refl [] = refl
texts_eq_refl (x ∷ xs) = ground (arith, eq_iff x x, texts_eq_refl xs)

additional_ports-IsOrdered : (p : LbPorts) → IsOrdered text_less (additional_ports p)
unfolding additional_ports
additional_ports-IsOrdered p = elim p.ports as (λ l. IsOrdered text_less (additional_of l)) [
  | [] ↦ tt
  | port ∷ others ↦ sort-IsOrdered text_less text_less-IsWeakOrder (map port_pair others)
]

-- A rule that was made with the ports of a service, the additional ones in the order that
-- `createLoadBalancerRule` sends them in, passes for these ports.
pub compare_ports_of_created :
    (p : LbPorts) (rule : LoadBalancerRule)
    → rule.privateport ≡ itoa (private_port p)
    → rule.publicport ≡ itoa (public_port p)
    → rule.protocol ≡ p.protocol
    → rule.additional_port_map ≡ additional_ports p
    → compare_ports p rule ≡ true
unfolding compare_ports
compare_ports_of_created p rule e_private e_public e_protocol e_additional = ground (
  arith,
  eq_iff rule.privateport (itoa (private_port p)),
  eq_iff rule.publicport (itoa (public_port p)),
  eq_iff rule.protocol p.protocol,
  texts_eq_refl (additional_ports p),
  ap (sort text_less) e_additional,
  sort_of_IsOrdered text_less (additional_ports p) (additional_ports-IsOrdered p),
)

port_less-IsWeakOrder : IsWeakOrder port_less
port_less-IsWeakOrder = record {
  asymm = λ x y h. ground arith;
  not_less_trans = λ x y z h k. ground arith;
}

-- The information of a port without the look-up of its target.
abbrev node_info : ServicePort → LbPortInfo
node_info p = record { public_port = p.port; private_port = p.node_port; name = p.name }

public_port_lem :
    (r : LbPorts) (n : ℕ) (ns : List ℕ)
    → map (λ i. i.public_port) r.ports ≡ n ∷ ns
    → public_port r ≡ n
unfolding public_port
public_port_lem r n ns e = first_of_map r.ports e
  where
    first_of_map : (l : List LbPortInfo) → map (λ i. i.public_port) l ≡ n ∷ ns → first_public l ≡ n
    first_of_map [] e = ground arith
    first_of_map (i ∷ l) e = ground arith

least :
    (p : ServicePort) (ports : List ServicePort) (n : ℕ)
    → NoneLess port_less p ports
    → n ≡ p.port
    → All (λ q. n ≤ q.port) ports
least p [] n h e = tt
least p (q ∷ ports) n h e = (ground (arith, h.0), least p ports n h.1 e)

-- What the ports of a load balancer are, of ports that are sorted.
abbrev Describes : List ServicePort → LbPorts → Type 0
Describes ports r =
    All (λ p. p.protocol ≡ r.protocol) ports
    × ((r.protocol ≡ "TCP") ⊎ (r.protocol ≡ "UDP"))
    × (map (λ i. i.public_port) r.ports ≡ map (λ p. p.port) ports)
    × All (λ p. public_port r ≤ p.port) ports

module _ (srv : Server) (service : Service) where
  port_infos-node :
      (protocol : String) (ports : List ServicePort) (h : History)
      → All (λ p. p.protocol ≡ protocol) ports
      → port_infos srv service false protocol ports h ≡ (ok (map node_info ports), h)
  unfolding port_infos
  port_infos-node protocol [] h a = refl
  port_infos-node protocol (p ∷ ports) h a =
      ground (arith, a.0, eq_iff p.protocol protocol, port_infos-node protocol ports h a.1)

  port_infos-eq-ok :
      (use_target_port : Bool) (protocol : String) (ports : List ServicePort) (h : History)
      (infos : List LbPortInfo)
      → (port_infos srv service use_target_port protocol ports h).0 ≡ ok infos
      → All (λ p. p.protocol ≡ protocol) ports
        × (map (λ i. i.public_port) infos ≡ map (λ p. p.port) ports)
  unfolding port_infos
  port_infos-eq-ok use_target_port protocol [] h infos e = ground arith
  port_infos-eq-ok use_target_port protocol (p ∷ ports) h infos e =
      let h' = (private_of srv service use_target_port p h).1 in
      elim (Result-cases (private_of srv service use_target_port p h).0) [
        | inr (x, failed) ↦ absurd (ground (arith, failed))
        | inl (target, found) ↦
            elim (Result-cases (port_infos srv service use_target_port protocol ports h').0) [
              | inr (x, failed) ↦ absurd (ground (arith, found, failed))
              | inl (rest, collected) ↦ ground (
                arith,
                found,
                collected,
                eq_iff p.protocol protocol,
                port_infos-eq-ok use_target_port protocol ports h' rest collected,
              )
            ]
      ]

  abbrev uses_target : Bool
  uses_target = is_some (get_label_or_annotation service.meta lb_use_target_port)

  made_of :
      (p : ServicePort) (ports : List ServicePort) (h : History) (r : LbPorts)
      (infos : List LbPortInfo)
      → (port_infos srv service uses_target p.protocol (p ∷ ports) h).0 ≡ ok infos
      → (to_lb_ports srv service (p ∷ ports) h).0 ≡ ok r
      → (record { ports = infos; protocol = p.protocol } ≡ r)
        × ((p.protocol ≡ "TCP") ⊎ (p.protocol ≡ "UDP"))
  unfolding to_lb_ports
  made_of p ports h r infos found e =
      ground (arith, found, eq_iff p.protocol "TCP", eq_iff p.protocol "UDP")

  to_lb_ports-eq-ok :
      (ports : List ServicePort) (h : History) (r : LbPorts)
      → IsOrdered port_less ports
      → (to_lb_ports srv service ports h).0 ≡ ok r
      → Describes ports r
  unfolding to_lb_ports
  to_lb_ports-eq-ok [] h r o e = absurd (ground arith)
  to_lb_ports-eq-ok (p ∷ ports) h r o e =
      elim (Result-cases (port_infos srv service uses_target p.protocol (p ∷ ports) h).0) [
        | inr (x, failed) ↦ absurd (ground (arith, failed))
        | inl (infos, found) ↦
            let (same, mapped) =
              port_infos-eq-ok uses_target p.protocol (p ∷ ports) h infos found in
            let first =
              public_port_lem (record { ports = infos; protocol = p.protocol }) p.port
                (map (λ q. q.port) ports) mapped in
            let made = made_of p ports h r infos found e in
            subst (Describes (p ∷ ports)) made.0
              (same, made.1, mapped, (omega (arith, first), least p ports _ o.0 first))
      ]

  -- When they are found, the ports of a load balancer are the service's by rising number, with one protocol, TCP or UDP,
  -- which all of them have; its public port is the least.
  pub service_to_lb_ports_lem :
      (h : History) (r : LbPorts)
      → (service_to_lb_ports srv service h).0 ≡ ok r
      → All (λ p. p.protocol ≡ r.protocol) service.ports
        × ((r.protocol ≡ "TCP") ⊎ (r.protocol ≡ "UDP"))
        × (map (λ i. i.public_port) r.ports ≡ map (λ p. p.port) (sort_ports service.ports))
        × All (λ p. public_port r ≤ p.port) service.ports
  unfolding service_to_lb_ports
  service_to_lb_ports_lem h r e =
      let (same, supported, mapped, bound) =
        to_lb_ports-eq-ok (sort_ports service.ports) h r
          (sort-IsOrdered port_less port_less-IsWeakOrder service.ports) e in
      (
        unsort-All port_less (λ p. p.protocol ≡ r.protocol) service.ports same,
        supported,
        mapped,
        unsort-All port_less (λ p. public_port r ≤ p.port) service.ports bound,
      )
