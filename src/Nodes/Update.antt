-- ===== src/Nodes/Update.antt =====
-- What `updateNodes` does to the registry, whether it succeeds or not.
use custom_cloudstack_ccm.Prelude.{
  String, none, some, List, [], ◌∷◌, string_eq, ◌≡◌, refl, arith, eq_iff, inl, inr, subst,
  Bool-cases, Option-cases, ◌∙◌, ◌⊎◌,
}
use custom_cloudstack_ccm.Prelude.Dict.{lookup, insert, lookup-insert}
use custom_cloudstack_ccm.Prelude.Outcome.{Result, Result-cases, ok, err, >>=-eq-ok}
use custom_cloudstack_ccm.Config.{CsCloud, environment_of, project_for_meta}
use custom_cloudstack_ccm.Kube.{Node}
use custom_cloudstack_ccm.Cloudstack.{VirtualMachine}
use custom_cloudstack_ccm.Api.{Server, History}
use custom_cloudstack_ccm.Machines.{virtual_machine_by_name, external_nic}
use custom_cloudstack_ccm.World.{NodeInfo, NodeRegistry, World}
use custom_cloudstack_ccm.Nodes.{
  update_labels, new_info, with_project, new_node_info, find_machine, machine_info, visit_node,
  visit_nodes, update_known, add_new, put_node,
}

-- The same machine, first seen at the same revision.
abbrev pub IsSame : NodeInfo → NodeInfo → Type 0
IsSame i j =
    (j.name ≡ i.name)
    × (j.vm_id ≡ i.vm_id)
    × (j.network_id ≡ i.network_id)
    × (j.revision ≡ i.revision)

-- A registry after some visits: what it has stays, and what is new is of its revision.
abbrev pub Evolves : NodeRegistry → NodeRegistry → Type 0
Evolves r r' =
    (r'.revision ≡ r.revision)
    × ((k : String) (i : NodeInfo)
        → lookup k r.nodes ≡ some i
        → (j : NodeInfo) × (lookup k r'.nodes ≡ some j) × IsSame i j)
    × ((k : String) (j : NodeInfo)
        → lookup k r.nodes ≡ none
        → lookup k r'.nodes ≡ some j
        → (j.name ≡ k) × (j.revision ≡ r.revision))

Evolves-refl : (r : NodeRegistry) → Evolves r r
Evolves-refl r =
    (refl, λ k i e. (i, e, (refl, refl, refl, refl)), λ k j e e'. absurd (ground (arith, e, e')))

Evolves-to : (r a b : NodeRegistry) → a ≡ b → Evolves r a → Evolves r b
Evolves-to r a b e = subst (Evolves r) e

Evolves-trans : (a b c : NodeRegistry) → Evolves a b → Evolves b c → Evolves a c
Evolves-trans a b c (r1, old1, new1) (r2, old2, new2) = (
  r2 ∙ r1,
  λ k i e.
      let (j, f, (n, v, w, s)) = old1 k i e in
      let (l, g, (n', v', w', s')) = old2 k j f in (l, g, (n' ∙ n, v' ∙ v, w' ∙ w, s' ∙ s)),
  λ k j e f. elim (Option-cases (lookup k b.nodes)) [
    | inl missing ↦ let (n, s) = new2 k j missing f in (n, s ∙ r1)
    | inr (i, found) ↦
        let (n, s) = new1 k i e found in
        let (l, g, (n', _, _, s')) = old2 k i found in
        (ground (arith, f, g, n, n'), ground (arith, f, g, s, s'))
  ],
)

-- A node is put into the registry: a new one, or the one that it has.
Evolves-put :
    (r : NodeRegistry) (name : String) (info : NodeInfo)
    → ((lookup name r.nodes ≡ none) × (info.name ≡ name) × (info.revision ≡ r.revision))
      ⊎ ((i : NodeInfo) × (lookup name r.nodes ≡ some i) × IsSame i info)
    → Evolves r (record r { nodes = insert name info r.nodes })
Evolves-put r name info (inl (missing, n, s)) = (
  refl,
  λ k i e. (
    i,
    ground (arith, missing, e, eq_iff name k, lookup-insert name k info r.nodes),
    (refl, refl, refl, refl),
  ),
  λ k j e f. (
    ground (arith, e, f, n, eq_iff name k, lookup-insert name k info r.nodes),
    ground (arith, e, f, s, eq_iff name k, lookup-insert name k info r.nodes),
  ),
)
Evolves-put r name info (inr (i, found, (n, v, t, s))) = (
  refl,
  λ k l e. elim (Bool-cases (string_eq.beq name k)) [
    | inl same ↦ (
      info,
      ground (arith, same, lookup-insert name k info r.nodes),
      (
        ground (arith, same, found, e, n, eq_iff name k),
        ground (arith, same, found, e, v, eq_iff name k),
        ground (arith, same, found, e, t, eq_iff name k),
        ground (arith, same, found, e, s, eq_iff name k),
      ),
    )
    | inr differs ↦
        (l, ground (arith, differs, e, lookup-insert name k info r.nodes), (refl, refl, refl, refl))
  ],
  λ k j e f. (
    ground (arith, e, f, found, eq_iff name k, lookup-insert name k info r.nodes),
    ground (arith, e, f, found, eq_iff name k, lookup-insert name k info r.nodes),
  ),
)

module _ (cs : CsCloud) where
  update_labels-IsSame : (i : NodeInfo) (node : Node) → IsSame i (update_labels cs i node).0
  unfolding update_labels with_project
  update_labels-IsSame i node =
      elim (Result-cases (project_for_meta cs node.meta (with_project cs i node).environment_id)) [
        | inl (p, e) ↦ (ground (arith, e), ground (arith, e), ground (arith, e), ground (arith, e))
        | inr (x, e) ↦ (ground (arith, e), ground (arith, e), ground (arith, e), ground (arith, e))
      ]

  module _ (srv : Server) where
    machine_info-name :
        (n : NodeInfo) (vm : Result VirtualMachine) (info : NodeInfo)
        → machine_info cs srv n vm ≡ ok (some info)
        → info.name ≡ n.name
    unfolding machine_info
    machine_info-name n (err e) info h = absurd (ground (arith, h))
    machine_info-name n (ok vm) info h = elim (Result-cases (external_nic cs vm)) [
      | inl (nic, e) ↦ ground (arith, e, h)
      | inr (x, e) ↦ absurd (ground (arith, e, h))
    ]

    find_machine-name :
        (n : NodeInfo) (h : History) (info : NodeInfo)
        → (find_machine cs srv n h).0 ≡ ok (some info)
        → info.name ≡ n.name
    unfolding find_machine machine_info
    find_machine-name n h info e = elim (Option-cases (environment_of cs n.environment_id).client) [
      | inl missing ↦ absurd (ground (arith, missing, e))
      | inr (client, found) ↦
          machine_info-name n (virtual_machine_by_name srv client n.host_name n.project_id h).0 info
            (ground (arith, found, e))
    ]

    -- A machine's information keeps the node's name.
    new_node_info-name :
        (node : Node) (h : History) (info : NodeInfo)
        → (new_node_info cs srv node h).0 ≡ ok (some info)
        → info.name ≡ node.name
    unfolding new_node_info
    new_node_info-name node h info e =
        let (_, f, g) =
          >>=-eq-ok (λ x. ((update_labels cs (new_info cs node.name) node).1, x))
            (λ _. find_machine cs srv (update_labels cs (new_info cs node.name) node).0) h e in
        find_machine-name (update_labels cs (new_info cs node.name) node).0 h info g
        ∙ (update_labels-IsSame (new_info cs node.name) node).0

    pub visit_node-Evolves :
        (node : Node) (w : World) → Evolves w.registry (visit_node cs srv node w).1.registry
    unfolding visit_node update_known add_new
    visit_node-Evolves node w = elim (Option-cases (lookup node.name w.registry.nodes)) [
      | inr (i, found) ↦
          let info = (update_labels cs i node).0 in
          Evolves-to w.registry (put_node cs srv node.name info w).registry
            (visit_node cs srv node w).1.registry (ground (arith, found))
            (Evolves-put w.registry node.name info (inr (i, found, update_labels-IsSame i node)))
      | inl missing ↦ elim (Result-cases (new_node_info cs srv node w.history).0) [
        | inr (x, e) ↦
            Evolves-to w.registry w.registry (visit_node cs srv node w).1.registry
              (ground (arith, missing, e)) (Evolves-refl w.registry)
        | inl (none, e) ↦
            Evolves-to w.registry w.registry (visit_node cs srv node w).1.registry
              (ground (arith, missing, e)) (Evolves-refl w.registry)
        | inl (some info, e) ↦
            let info' = record info { revision = w.registry.revision } in
            Evolves-to w.registry (put_node cs srv node.name info' w).registry
              (visit_node cs srv node w).1.registry (ground (arith, missing, e))
              (Evolves-put w.registry node.name info'
                (inl (missing, new_node_info-name node w.history info e, refl)))
      ]
    ]

    pub visit_nodes-Evolves :
        (nodes : List Node) (w : World) → Evolves w.registry (visit_nodes cs srv nodes w).1.registry
    unfolding visit_nodes
    visit_nodes-Evolves [] w = Evolves-refl w.registry
    visit_nodes-Evolves (n ∷ nodes) w =
        let w' = (visit_node cs srv n w).1 in
        elim (Result-cases (visit_node cs srv n w).0) [
          | inr (x, e) ↦
              Evolves-to w.registry w'.registry (visit_nodes cs srv (n ∷ nodes) w).1.registry
                (ground (arith, e)) (visit_node-Evolves n w)
          | inl (x, e) ↦
              Evolves-to w.registry (visit_nodes cs srv nodes w').1.registry
                (visit_nodes cs srv (n ∷ nodes) w).1.registry (ground (arith, e))
                (Evolves-trans w.registry w'.registry (visit_nodes cs srv nodes w').1.registry
                  (visit_node-Evolves n w) (visit_nodes-Evolves nodes w'))
        ]
