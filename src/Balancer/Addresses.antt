-- ===== src/Balancer/Addresses.antt =====
-- Public addresses: how the load balancer of a service gets, changes and gives back its address.
pub mod Rollback
use custom_cloudstack_ccm.Prelude.{
  ℕ, String, Bool, Option, none, some, List, [], ◌∷◌, map, str_eq, if◌then◌else◌, not, string_eq,
  keep, ltb, ◌==◌,
}
use custom_cloudstack_ccm.Prelude.Outcome.{
  Error, Result, ok, err, failed, wrapped, ip_not_found, panic, wrapping, pure, throw, throw_if,
  lift, ◌>>=◌, ◌>>◌,
}
use custom_cloudstack_ccm.Kube.{Service, Ingress}
use custom_cloudstack_ccm.Config.{CsCloud, Client}
use custom_cloudstack_ccm.Cloudstack.{CloudstackIp, PublicIpAddress, is_valid}
use custom_cloudstack_ccm.Tags.{tags_for_service, match_all_tags, should_manage_ip, service_tag}
use custom_cloudstack_ccm.Pages.{Fetch, list_all_pages}
use custom_cloudstack_ccm.Api.{
  Server, Api, Event, Request, call, Value, Params, custom, list_public_ip_addresses, get_network,
  IpResponse,
}
use custom_cloudstack_ccm.Balancer.Client.{
  ProjectCloud, set_param, set_project, set_extra_params, or_default, get_client,
  get_lb_environment_id, wait_job, await_some, set_default_tags,
}

abbrev pub ip_of : PublicIpAddress → CloudstackIp
ip_of p = record { id = p.id; address = p.ipaddress; networkid = p.networkid }

-- The end of `tryPublicIPAddressByTags`: at most one address may have all the tags.
sole_ip : List CloudstackIp → Result (Option CloudstackIp)
sole_ip [] = ok none
sole_ip (ip ∷ []) = ok (some ip)
sole_ip _ = err (failed "multiple IP addresses for service %v/%v")

-- `l.PublicIpAddresses[0]`
first_address : List PublicIpAddress → Result PublicIpAddress
first_address [] = err (panic "index out of range")
first_address (p ∷ _) = ok p

-- The one address of an answer with the count that CloudStack states.
one_address : Error → Error → ℕ × List PublicIpAddress → Result PublicIpAddress
unfolding first_address
one_address missing multiple (count, addresses) =
    if count == 0
    then err missing
    else if ltb 1 count
    then err multiple
    else first_address addresses

module _ (cs : CsCloud) (srv : Server) where
  -- A page of `ListPublicIpAddresses`.
  abbrev pub address_page : Client → Params → Fetch PublicIpAddress
  address_page client params page =
      call client (list_public_ip_addresses (set_param "page" (Value.number page) params))
        srv.addresses

  -- The parameters of the query by tag. Only the service's name is asked for.
  abbrev tag_query : ProjectCloud → Service → Params
  tag_query pc service = set_project pc.project_id (
      ("listall", Value.flag Bool.true)
      ∷ ("tags", Value.texts (service_tag ∷ service.name ∷ []))
      ∷ ("pagesize", Value.number 50)
      ∷ [])

  -- `fuel` bounds the number of pages.
  unfoldable pub try_public_ip_address_by_tags :
      ℕ → ProjectCloud → Service → Api (Option CloudstackIp)
  unfolding sole_ip
  try_public_ip_address_by_tags fuel pc service = do
    client ← lift (get_client cs pc)
    found ←
        wrapping "error retrieving IP address: %v"
          (list_all_pages (λ p. p.id) fuel (address_page client (tag_query pc service)))
    lift (sole_ip (map ip_of (keep (λ p. match_all_tags p.tags (tags_for_service service)) found)))

  unfoldable pub get_public_ip_address_by_ip : ProjectCloud → String → Api CloudstackIp
  unfolding one_address
  get_public_ip_address_by_ip pc load_balancer_ip = do
    client ← lift (get_client cs pc)
    l ← wrapping "error retrieving IP address: %v" (
        call client
          (list_public_ip_addresses (
            set_project pc.project_id (
              ("ipaddress", Value.text load_balancer_ip) ∷ ("listall", Value.flag Bool.true) ∷ [])))
          srv.addresses)
    p ←
        lift (
          one_address (ip_not_found load_balancer_ip) (failed "multiple IP address found for %v") l)
    pure (ip_of p)

  unfoldable pub get_public_ip_address_by_id : ProjectCloud → String → Api PublicIpAddress
  unfolding one_address
  get_public_ip_address_by_id pc ip_id = do
    client ← lift (get_client cs pc)
    l ← wrapping "error retrieving IP ID %v: %v" (
        call client
          (list_public_ip_addresses (
            set_project pc.project_id
              (("id", Value.text ip_id) ∷ ("listall", Value.flag Bool.true) ∷ [])))
          srv.addresses)
    lift (one_address (failed "could not find IP ID %v") (failed "multiple IP ID found for %v") l)

  -- An error of `GetNetworkByID` with what it says of the number of networks.
  abbrev pub network_error : ℕ × Result String → Result String
  network_error (count, ok vpc) = ok vpc
  network_error (count, err e) =
      if count == 0
      then err (failed "could not find network %v")
      else err (wrapped "error retrieving network: %v" e)

  abbrev pub get_vpc : Client → ProjectCloud → String → Api String
  get_vpc client pc network_id =
      call client (get_network network_id pc.project_id)
        (λ history. network_error (srv.network history))

  abbrev associate_params : ProjectCloud → Service → String → String → Params
  associate_params pc service network_id vpc =
      let place =
        if str_eq vpc ""
        then ("networkid", Value.text network_id) ∷ []
        else ("vpcid", Value.text vpc) ∷ [] in
      let environment_id = get_lb_environment_id cs pc in
      let params = set_project pc.project_id place in
      set_extra_params service "csccm.cloudprovider.io/associateipaddress-extra-param-" (
        if str_eq environment_id ""
        then params
        else set_param "lbenvironmentid" (Value.text environment_id) params)

  -- What the association's job leaves of the address.
  abbrev pub settle_ip : Client → IpResponse → Api CloudstackIp
  settle_ip client result =
      let ip : CloudstackIp = record {
        id = result.id;
        address = result.ipaddress;
        networkid = result.networkid;
      } in
      if str_eq result.job_id "" then pure ip else do
        result' ← wait_job srv srv.unmarshal_ip client result.job_id result
        pure (record ip { address = result'.ipaddress })

  unfoldable pub associate_public_ip_address : ProjectCloud → Service → String → Api CloudstackIp
  associate_public_ip_address pc service network_id = do
    client ← lift (get_client cs pc)
    vpc ← get_vpc client pc network_id
    result ← wrapping "error associate new IP address using endpoint %q: %v" (
        call client
          (custom (or_default cs.config.command.associate_ip "associateIpAddress")
            (associate_params pc service network_id vpc))
          srv.ip_response)
    settle_ip client result

  unfoldable pub release_load_balancer_ip : ProjectCloud → CloudstackIp → Api (Unit {0})
  release_load_balancer_ip pc ip = do
    client ← lift (get_client cs pc)
    job_id ← wrapping "error disassociate IP address using endpoint %q: %v" (
        call client
          (custom (or_default cs.config.command.disassociate_ip "disassociateIpAddress")
            (set_project pc.project_id (("id", Value.text ip.id) ∷ [])))
          srv.job_response)
    await_some srv client job_id

  unfoldable pub release_ip_if_managed : ProjectCloud → CloudstackIp → Service → Api (Unit {0})
  release_ip_if_managed pc ip service = do
    public_ip ← get_public_ip_address_by_id pc ip.id
    if should_manage_ip public_ip service then release_load_balancer_ip pc ip else pure tt

  -- The address of the status, if CloudStack has it.
  unfoldable pub forgive_missing : Result CloudstackIp → Result (Option CloudstackIp)
  forgive_missing (ok ip) = ok (some ip)
  forgive_missing (err (ip_not_found _)) = ok none
  forgive_missing (err e) = err e

  unfoldable pub status_ip : ProjectCloud → List Ingress → Api (Option CloudstackIp)
  unfolding forgive_missing
  status_ip pc [] history = (ok none, history)
  status_ip pc (i ∷ _) history =
      if str_eq i.ip ""
      then (ok none, history)
      else let (r, history') = get_public_ip_address_by_ip pc i.ip history in
        (forgive_missing r, history')

  -- The address of the status, or a new one.
  abbrev pub status_or_new_ip :
      ProjectCloud → Service → String → Option CloudstackIp → Api CloudstackIp
  status_or_new_ip pc service network_id (some ip) = pure ip
  status_or_new_ip pc service network_id none = associate_public_ip_address pc service network_id

  -- The rollback, where the address could not be tagged.
  abbrev pub tag_or_release : ProjectCloud → Service → CloudstackIp → Api CloudstackIp
  tag_or_release pc service ip history =
      let (r, history') = set_default_tags srv cs pc "PublicIpAddress" ip.id service history in
      elim r [
        | ok _ ↦ (ok ip, history')
        | err e ↦
            let (rollback, history'') = release_load_balancer_ip pc ip history' in
            elim rollback [
              | ok _ ↦ (err e, history'')
              | err _ ↦ (err (wrapped "%v: error rolling back IP address: %v" e), history'')
            ]
      ]

  -- Where no address has the service's tags.
  unfoldable pub choose_ip : ProjectCloud → Service → String → Api CloudstackIp
  unfolding status_ip
  choose_ip pc service network_id =
      if not (str_eq service.load_balancer_ip "")
      then get_public_ip_address_by_ip pc service.load_balancer_ip
      else do
        found ← status_ip pc service.ingress
        ip ← status_or_new_ip pc service network_id found
        tag_or_release pc service ip

  abbrev pub or_choose : ProjectCloud → Service → String → Option CloudstackIp → Api CloudstackIp
  or_choose pc service network_id (some ip) = pure ip
  or_choose pc service network_id none = choose_ip pc service network_id

  unfoldable pub get_load_balancer_ip : ℕ → ProjectCloud → Service → String → Api CloudstackIp
  get_load_balancer_ip fuel pc service network_id = do
    found ← try_public_ip_address_by_tags fuel pc service
    or_choose pc service network_id found
