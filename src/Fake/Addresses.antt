-- ===== src/Fake/Addresses.antt =====
-- The addresses that the test server lists.
use custom_cloudstack_ccm.Prelude.{
  ap, ◌∙◌, String, Bool, some, none, List, [], ◌∷◌, ◌++◌, map, keep, any, eq_iff, string_eq, str_eq,
  not, ◌≡◌, refl, arith, if◌then◌else◌, ◌&&◌, ◌||◌,
}
use custom_cloudstack_ccm.Prelude.Dict.{Dict, lookup, values}
use custom_cloudstack_ccm.Prelude.Text.{atoi}
use custom_cloudstack_ccm.Cloudstack.{Tag, PublicIpAddress}
use custom_cloudstack_ccm.Fake.{Fake, Form, form_value, list_of}
use custom_cloudstack_ccm.Fake.Forms.{parse_tags}
use custom_cloudstack_ccm.Fake.Listings.{
  addresses, query_has, is_asked_for, with_tags, scan_ips, list_public_ip_addresses,
}

-- The request for addresses with a tag: an empty address or id asks for all.
abbrev pub asks : String → String → String → String → Form
asks address id k v =
    ("ipaddress", address ∷ [])
    ∷ ("id", id ∷ [])
    ∷ ("tags[0].key", k ∷ [])
    ∷ ("tags[0].value", v ∷ [])
    ∷ []

-- What the request asks for, apart from the tag.
abbrev pub wants : String → String → PublicIpAddress → Bool
wants address id ip =
    (str_eq address "" || str_eq ip.ipaddress address) && (str_eq id "" || str_eq ip.id id)

-- The tag that is asked for. An empty one with another key counts too.
abbrev pub fits : String → String → Tag → Bool
fits k v tag = if str_eq k tag.key then str_eq v tag.value else str_eq "" tag.value

-- The address with some tags at the end of its own.
abbrev pub with_more : List Tag → PublicIpAddress → PublicIpAddress
with_more more ip = record {
  id = ip.id;
  ipaddress = ip.ipaddress;
  networkid = ip.networkid;
  tags = ip.tags ++ more;
}

module _ (address id k v : String) (all_tags : Dict String (List Tag)) where
  any-query_has : (own : List Tag) → any (query_has ((k, v) ∷ [])) own ≡ any (fits k v) own
  unfolding query_has
  any-query_has [] = refl
  any-query_has (tag ∷ own) = ground (arith, any-query_has own, eq_iff k tag.key)

  scan_ips-found :
      (ips : Dict String PublicIpAddress)
      → (scan_ips (is_asked_for address id) ((k, v) ∷ []) all_tags ips).0
        ≡ map
            (λ ip. with_more (list_of ip.id all_tags) ip)
            (keep
              (λ ip. wants address id ip && any (fits k v) (list_of ip.id all_tags))
              (values ips))
  unfolding scan_ips is_asked_for with_tags
  scan_ips-found [] = refl
  scan_ips-found ((j, ip) ∷ ips) =
      ground (arith, scan_ips-found ips, any-query_has (list_of ip.id all_tags))

scan_ips-kept :
    (asked : PublicIpAddress → Bool) (query : Dict String String)
    (all_tags : Dict String (List Tag)) (j : String) (ips : Dict String PublicIpAddress)
    → lookup j (scan_ips asked query all_tags ips).1 ≡ (elim (lookup j ips) [
      | none ↦ none
      | some ip ↦ some (if asked ip then with_tags (list_of ip.id all_tags) ip else ip)
    ])
unfolding scan_ips
scan_ips-kept asked query all_tags j [] = refl
scan_ips-kept asked query all_tags j ((i, ip) ∷ ips) =
    ground (arith, scan_ips-kept asked query all_tags j ips, eq_iff i j)

parse_tags-asks : (address id k v : String) → parse_tags (asks address id k v) ≡ (k, v) ∷ []
unfolding parse_tags custom_cloudstack_ccm.Prelude.Text.strip_prefix form_value
parse_tags-asks address id k v = refl

-- A request for addresses by a tag, and by an address and an id where they are not empty, shows the
-- addresses with that address and that id which have the tag, or any tag with an empty value and
-- another key, in order. Each address with that address and that id, shown or not, then has all the
-- tags that the server keeps for it at the end of those that it had, so that it has them once more
-- after each request; the other addresses stay, and none is lost.
pub list_public_ip_addresses_lem :
    (address id k v : String) (s : Fake)
    → let (reply, s') = list_public_ip_addresses (asks address id k v) s in
      (reply
        ≡ addresses (
            map
              (λ ip. with_more (list_of ip.id s.tags) ip)
              (keep
                (λ ip. wants address id ip && any (fits k v) (list_of ip.id s.tags))
                (values s.ips))))
      × ((j : String)
          → lookup j s'.ips ≡ (elim (lookup j s.ips) [
            | none ↦ none
            | some ip ↦
                some (if wants address id ip then with_more (list_of ip.id s.tags) ip else ip)
          ]))
unfolding list_public_ip_addresses form_value atoi with_tags is_asked_for
list_public_ip_addresses_lem address id k v s =
    let asked = is_asked_for address id in
    (
      ap (λ query. addresses (scan_ips asked query s.tags s.ips).0) (parse_tags-asks address id k v)
          ∙ ap addresses (scan_ips-found address id k v s.tags s.ips),
      λ j. scan_ips-kept asked (parse_tags (asks address id k v)) s.tags j s.ips,
    )
