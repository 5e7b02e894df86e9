-- ===== src/Hosts/Laws.antt =====
-- What is assigned and what is removed, and the hosts that the load balancer ends with.
use custom_cloudstack_ccm.Prelude.{
  String, List, [], ◌∷◌, ◌++◌, string_eq, contains, contains-append, contains-keep, Distinct, keep,
  str_eq, eq_iff, not, ◌≡◌, ◌&&◌, ◌||◌, refl, arith,
}
use custom_cloudstack_ccm.Hosts.{add_host, drop_host, mark_all, sweep, symmetric_difference}

contains-mark_all :
    (a : String) (host_ids new : List String)
    → contains a (mark_all host_ids new) ≡ (contains a host_ids || contains a new)
unfolding mark_all
contains-mark_all a [] new = refl
contains-mark_all a (h ∷ hs) new =
    ground
      (arith, contains-mark_all a hs (add_host h new), contains-append a new (h ∷ []), eq_iff h a)

contains-drop_host :
    (a b : String) (new : List String)
    → contains a (drop_host b new) ≡ (not (str_eq a b) && contains a new)
contains-drop_host a b new = contains-keep a (λ x. not (str_eq x b)) new

contains-sweep_new :
    (a : String) (ids new remove : List String)
    → contains a (sweep ids new remove).0 ≡ (contains a new && not (contains a ids))
unfolding sweep
contains-sweep_new a [] new remove = ground arith
contains-sweep_new a (id ∷ ids) new remove = ground (
  arith,
  contains-sweep_new a ids (drop_host id new) remove,
  contains-sweep_new a ids new (remove ++ id ∷ []),
  contains-drop_host a id new,
  eq_iff id a,
  eq_iff a id,
)

contains-sweep_remove :
    (a : String) (ids new remove : List String)
    → Distinct ids
    → contains a (sweep ids new remove).1
      ≡ (contains a remove || (contains a ids && not (contains a new)))
unfolding sweep
contains-sweep_remove a [] new remove d = ground arith
contains-sweep_remove a (id ∷ ids) new remove d = ground (
  arith,
  contains-sweep_remove a ids (drop_host id new) remove d.1,
  contains-sweep_remove a ids new (remove ++ id ∷ []) d.1,
  contains-drop_host a id new,
  contains-append a remove (id ∷ []),
  d.0,
  eq_iff id a,
  eq_iff a id,
)

-- Of instances that are listed once each: a host is to be assigned exactly where it is wanted and not
-- there, and to be removed exactly where it is there and not wanted.
pub symmetric_difference_lem :
    (host_ids instance_ids : List String)
    → Distinct instance_ids
    → (a : String)
    → let (assign, remove) = symmetric_difference host_ids instance_ids in
      (contains a assign ≡ (contains a host_ids && not (contains a instance_ids)))
      × (contains a remove ≡ (contains a instance_ids && not (contains a host_ids)))
unfolding symmetric_difference
symmetric_difference_lem host_ids instance_ids d a = ground (
  arith,
  contains-sweep_new a instance_ids (mark_all host_ids []) [],
  contains-sweep_remove a instance_ids (mark_all host_ids []) [] d,
  contains-mark_all a host_ids [],
)

-- The hosts of a load balancer once some were assigned to it and then some removed.
abbrev pub hosts_after : List String → List String × List String → List String
hosts_after instance_ids (assign, remove) =
    keep (λ x. not (contains x remove)) (instance_ids ++ assign)

-- Where no instance comes twice: with both changes made, the load balancer has exactly the wanted hosts.
pub contains-hosts_after :
    (host_ids instance_ids : List String)
    → Distinct instance_ids
    → (a : String)
    → contains a (hosts_after instance_ids (symmetric_difference host_ids instance_ids))
      ≡ contains a host_ids
contains-hosts_after host_ids instance_ids d a =
    let (assign, remove) = symmetric_difference host_ids instance_ids in
    ground (
      arith,
      symmetric_difference_lem host_ids instance_ids d a,
      contains-keep a (λ x. not (contains x remove)) (instance_ids ++ assign),
      contains-append a instance_ids assign,
    )
