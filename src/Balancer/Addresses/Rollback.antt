-- ===== src/Balancer/Addresses/Rollback.antt =====
-- An address that cannot be tagged is given back.
use custom_cloudstack_ccm.Prelude.{ℕ, String, Option, none, ◌≡◌, ◌⊎◌, arith, inl, inr, eq_iff}
use custom_cloudstack_ccm.Prelude.Outcome.{Result-cases, ok, err, Error, wrapped}
use custom_cloudstack_ccm.Kube.{Service}
use custom_cloudstack_ccm.Config.{CsCloud}
use custom_cloudstack_ccm.Cloudstack.{CloudstackIp}
use custom_cloudstack_ccm.Api.{Server, History}
use custom_cloudstack_ccm.Balancer.Client.{ProjectCloud, set_default_tags}
use custom_cloudstack_ccm.Balancer.Addresses.{
  release_load_balancer_ip, get_load_balancer_ip, try_public_ip_address_by_tags, tag_or_release,
  choose_ip, status_ip, status_or_new_ip,
}

module _ (cs : CsCloud) (srv : Server) (fuel : ℕ) where
  -- What is done once the address is chosen.
  get_load_balancer_ip-chosen :
      (pc : ProjectCloud) (service : Service) (network_id : String) (h h' h'' : History)
      (found : Option CloudstackIp) (ip : CloudstackIp)
      → try_public_ip_address_by_tags cs srv fuel pc service h ≡ (ok none, h')
      → service.load_balancer_ip ≡ ""
      → status_ip cs srv pc service.ingress h' ≡ (ok found, h'')
      → (status_or_new_ip cs srv pc service network_id found h'').0 ≡ ok ip
      → get_load_balancer_ip cs srv fuel pc service network_id h
        ≡ tag_or_release cs srv pc service ip
            (status_or_new_ip cs srv pc service network_id found h'').1
  unfolding get_load_balancer_ip choose_ip
  get_load_balancer_ip-chosen pc service network_id h h' h'' found ip untagged unasked status
        chosen =
      ground (arith, untagged, unasked, eq_iff service.load_balancer_ip "", status, chosen)

  -- When no address has the service's tags and the service asks for none, the address that is found
  -- in the status or newly associated is tagged. If the tags are set, it is the result; if not, it is
  -- released, straight after the failed tags, and the result is an error, whether the release succeeds
  -- or not.
  pub get_load_balancer_ip_rollback :
      (pc : ProjectCloud) (service : Service) (network_id : String) (h h' h'' : History)
      (found : Option CloudstackIp) (ip : CloudstackIp)
      → try_public_ip_address_by_tags cs srv fuel pc service h ≡ (ok none, h')
      → service.load_balancer_ip ≡ ""
      → status_ip cs srv pc service.ingress h' ≡ (ok found, h'')
      → (status_or_new_ip cs srv pc service network_id found h'').0 ≡ ok ip
      → let h3 = (status_or_new_ip cs srv pc service network_id found h'').1 in
        let tagged = set_default_tags srv cs pc "PublicIpAddress" ip.id service h3 in
        let result = get_load_balancer_ip cs srv fuel pc service network_id h in
        ((tagged.0 ≡ ok tt) × (result ≡ (ok ip, tagged.1)))
        ⊎ ((e : Error) × (x : Error) × (tagged.0 ≡ err e)
            × (result.0 ≡ err x)
            × (result.1 ≡ (release_load_balancer_ip cs srv pc ip tagged.1).1))
  get_load_balancer_ip_rollback pc service network_id h h' h'' found ip untagged unasked status
        chosen =
      let h3 = (status_or_new_ip cs srv pc service network_id found h'').1 in
      let tagged = set_default_tags srv cs pc "PublicIpAddress" ip.id service h3 in
      let same =
        get_load_balancer_ip-chosen pc service network_id h h' h'' found ip untagged unasked status
          chosen in
      elim (Result-cases tagged.0) [
        | inl (_, e) ↦ inl (ground (arith, e), ground (arith, same, e))
        | inr (x, e) ↦ elim (Result-cases (release_load_balancer_ip cs srv pc ip tagged.1).0) [
          | inl (_, f) ↦ inr (x, x, e, ground (arith, same, e, f), ground (arith, same, e, f))
          | inr (y, f) ↦ inr (
            x,
            wrapped "%v: error rolling back IP address: %v" x,
            e,
            ground (arith, same, e, f),
            ground (arith, same, e, f),
          )
        ]
      ]
