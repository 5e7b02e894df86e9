-- ===== src/Hosts.antt =====
-- `symmetricDifference` of cloudstack/loadbalancer.go: which hosts to assign to a load balancer and
-- which to remove from it.
pub mod Laws
use custom_cloudstack_ccm.Prelude.{
  String, List, [], ◌∷◌, ◌++◌, if◌then◌else◌, string_eq, contains, keep, str_eq, not,
}

-- `new[hostID] = true` and `delete(new, id)`, on the keys of the map
abbrev pub add_host : String → List String → List String
add_host a new = if contains a new then new else new ++ a ∷ []

abbrev pub drop_host : String → List String → List String
drop_host a new = keep (λ x. not (str_eq x a)) new

mark_all : List String → List String → List String
mark_all [] new = new
mark_all (host_id ∷ rest) new = mark_all rest (add_host host_id new)

-- The loop over the instances, with `new` and `remove` so far.
sweep : List String → List String → List String → List String × List String
sweep [] new remove = (new, remove)
sweep (id ∷ rest) new remove =
    let found = contains id new in
    sweep rest (if found then drop_host id new else new)
      (if found then remove else remove ++ id ∷ [])

-- The hosts to assign and the ones to remove. The instances are given by their ids.
unfoldable pub symmetric_difference : List String → List String → List String × List String
unfolding mark_all sweep
symmetric_difference host_ids instance_ids = sweep instance_ids (mark_all host_ids []) []
