-- ===== src/Balancer/Calls/Addresses.antt =====
-- Whose client is called for the address of a load balancer.
use custom_cloudstack_ccm.Prelude.{
  ℕ, String, List, [], ◌∷◌, Option, none, some, ◌≡◌, str_eq, not, inl, inr, Bool-cases, arith,
}
use custom_cloudstack_ccm.Prelude.Outcome.{Result-cases, ok, err, wrapped}
use custom_cloudstack_ccm.Kube.{Service, Ingress}
use custom_cloudstack_ccm.Config.{CsCloud, Client}
use custom_cloudstack_ccm.Cloudstack.{CloudstackIp}
use custom_cloudstack_ccm.Api.{Server, IpResponse, get_network}
use custom_cloudstack_ccm.Balancer.Client.{ProjectCloud, set_default_tags}
use custom_cloudstack_ccm.Balancer.Addresses.{
  get_load_balancer_ip, or_choose, choose_ip, try_public_ip_address_by_tags,
  get_public_ip_address_by_ip, status_ip, status_or_new_ip, tag_or_release,
  associate_public_ip_address, settle_ip, get_vpc, network_error, forgive_missing,
  release_load_balancer_ip, ip_of,
}
use custom_cloudstack_ccm.Balancer.Calls.{
  UsesClient, Calls, IsClient, Calls->>=, Calls-pure, Calls-lift, Calls-call, Does-get_client,
  Calls-release_load_balancer_ip,
}
use custom_cloudstack_ccm.Balancer.Calls.Jobs.{
  Calls-ends, Calls-wrapping, Calls-wait_job, Calls-set_default_tags,
}
use custom_cloudstack_ccm.Trace.{nothing, Adds-trans, Any, Does-if, Does-list_all_pages}

module _ (cs : CsCloud) (srv : Server) (environment : String) where
  Calls-try_public_ip_address_by_tags :
      (fuel : ℕ) (pc : ProjectCloud) (service : Service)
      → pc.environment ≡ environment
      → Calls cs srv environment (try_public_ip_address_by_tags cs srv fuel pc service)
  unfolding try_public_ip_address_by_tags
  Calls-try_public_ip_address_by_tags fuel pc service e =
      Does-get_client cs srv environment Any pc e _ (λ client c.
        Calls->>= cs srv environment _ _
          (Calls-wrapping cs srv environment _ _ (
            Does-list_all_pages (UsesClient cs environment) (λ p. p.id) fuel _
              (λ page. Calls-call cs srv environment client _ srv.addresses c)))
          (λ found. Calls-lift cs srv environment _))

  pub Calls-get_public_ip_address_by_ip :
      (pc : ProjectCloud) (load_balancer_ip : String)
      → pc.environment ≡ environment
      → Calls cs srv environment (get_public_ip_address_by_ip cs srv pc load_balancer_ip)
  unfolding get_public_ip_address_by_ip
  Calls-get_public_ip_address_by_ip pc load_balancer_ip e =
      Does-get_client cs srv environment Any pc e _ (λ client c.
        Calls->>= cs srv environment _ _
          (Calls-wrapping cs srv environment _ _
            (Calls-call cs srv environment client _ srv.addresses c))
          (λ l.
            Calls->>= cs srv environment _ _ (Calls-lift cs srv environment _)
              (λ p. Calls-pure cs srv environment (ip_of p))))

  Calls-settle_ip :
      (client : Client) (result : IpResponse)
      → IsClient cs srv environment client
      → Calls cs srv environment (settle_ip cs srv client result)
  Calls-settle_ip client result c =
      Does-if (UsesClient cs environment) Any (str_eq result.job_id "") _ _
        (Calls-pure cs srv environment _)
        (Calls->>= cs srv environment _ _
          (Calls-wait_job cs srv environment srv.unmarshal_ip client result.job_id result c)
          (λ result'. Calls-pure cs srv environment _))

  Calls-associate_public_ip_address :
      (pc : ProjectCloud) (service : Service) (network_id : String)
      → pc.environment ≡ environment
      → Calls cs srv environment (associate_public_ip_address cs srv pc service network_id)
  unfolding associate_public_ip_address
  Calls-associate_public_ip_address pc service network_id e =
      Does-get_client cs srv environment Any pc e _ (λ client c.
        Calls->>= cs srv environment (get_vpc cs srv client pc network_id) _
          (Calls-call cs srv environment client (get_network network_id pc.project_id)
            (λ history. network_error cs srv (srv.network history)) c)
          (λ vpc.
            Calls->>= cs srv environment _ _
              (Calls-wrapping cs srv environment _ _
                (Calls-call cs srv environment client _ srv.ip_response c))
              (λ result. Calls-settle_ip client result c)))

  Calls-status_ip :
      (pc : ProjectCloud) (ingress : List Ingress)
      → pc.environment ≡ environment
      → Calls cs srv environment (status_ip cs srv pc ingress)
  unfolding status_ip
  Calls-status_ip pc [] e h = Calls-pure cs srv environment none h
  Calls-status_ip pc (i ∷ is) e h = elim (Bool-cases (str_eq i.ip "")) [
    | inl blank ↦
        Calls-ends cs srv environment (status_ip cs srv pc (i ∷ is)) h (ok none, h)
          (ground (arith, blank)) nothing
    | inr given ↦
        let r = get_public_ip_address_by_ip cs srv pc i.ip h in
        Calls-ends cs srv environment (status_ip cs srv pc (i ∷ is)) h
          (forgive_missing cs srv r.0, r.1) (ground (arith, given))
          (Calls-get_public_ip_address_by_ip pc i.ip e h).0
  ]

  Calls-status_or_new_ip :
      (pc : ProjectCloud) (service : Service) (network_id : String)
      → pc.environment ≡ environment
      → (found : Option CloudstackIp)
      → Calls cs srv environment (status_or_new_ip cs srv pc service network_id found)
  Calls-status_or_new_ip pc service network_id e (some ip) = Calls-pure cs srv environment ip
  Calls-status_or_new_ip pc service network_id e none =
      Calls-associate_public_ip_address pc service network_id e

  Calls-tag_or_release :
      (pc : ProjectCloud) (service : Service) (ip : CloudstackIp)
      → pc.environment ≡ environment
      → Calls cs srv environment (tag_or_release cs srv pc service ip)
  Calls-tag_or_release pc service ip e h =
      let tagging = set_default_tags srv cs pc "PublicIpAddress" ip.id service in
      let tagged =
        (Calls-set_default_tags cs srv environment pc "PublicIpAddress" ip.id service e h).0 in
      let h' = (tagging h).1 in
      let released =
        Adds-trans tagged (Calls-release_load_balancer_ip cs srv environment pc ip e h').0 in
      let ends = Calls-ends cs srv environment (tag_or_release cs srv pc service ip) h in
      elim (Result-cases (tagging h).0) [
        | inl (_, fine) ↦ ends (ok ip, h') (ground (arith, fine)) tagged
        | inr (x, bad) ↦
            let rollback = release_load_balancer_ip cs srv pc ip h' in
            elim (Result-cases rollback.0) [
              | inl (_, fine) ↦ ends (err x, rollback.1) (ground (arith, bad, fine)) released
              | inr (y, worse) ↦
                  ends (err (wrapped "%v: error rolling back IP address: %v" x), rollback.1)
                    (ground (arith, bad, worse)) released
            ]
      ]

  Calls-choose_ip :
      (pc : ProjectCloud) (service : Service) (network_id : String)
      → pc.environment ≡ environment
      → Calls cs srv environment (choose_ip cs srv pc service network_id)
  unfolding choose_ip
  Calls-choose_ip pc service network_id e =
      Does-if (UsesClient cs environment) Any (not (str_eq service.load_balancer_ip "")) _ _
        (Calls-get_public_ip_address_by_ip pc service.load_balancer_ip e)
        (Calls->>= cs srv environment _ _ (Calls-status_ip pc service.ingress e) (λ found.
          Calls->>= cs srv environment _ _ (Calls-status_or_new_ip pc service network_id e found)
            (λ ip. Calls-tag_or_release pc service ip e)))

  Calls-or_choose :
      (pc : ProjectCloud) (service : Service) (network_id : String)
      → pc.environment ≡ environment
      → (found : Option CloudstackIp)
      → Calls cs srv environment (or_choose cs srv pc service network_id found)
  Calls-or_choose pc service network_id e (some ip) = Calls-pure cs srv environment ip
  Calls-or_choose pc service network_id e none = Calls-choose_ip pc service network_id e

  pub Calls-get_load_balancer_ip :
      (fuel : ℕ) (pc : ProjectCloud) (service : Service) (network_id : String)
      → pc.environment ≡ environment
      → Calls cs srv environment (get_load_balancer_ip cs srv fuel pc service network_id)
  unfolding get_load_balancer_ip
  Calls-get_load_balancer_ip fuel pc service network_id e =
      Calls->>= cs srv environment _ _ (Calls-try_public_ip_address_by_tags fuel pc service e)
        (Calls-or_choose pc service network_id e)
