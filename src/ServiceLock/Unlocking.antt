-- ===== src/ServiceLock/Unlocking.antt =====
-- Giving a mutex back keeps the invariant.
use custom_cloudstack_ccm.Prelude.{
  ℕ, ◌-◌, true, false, some, List, ◌∷◌, ◌++◌, ◌≡◌, if◌then◌else◌, arith, leb,
}
use custom_cloudstack_ccm.Prelude.Dict.{lookup, erase, lookup-erase}
use custom_cloudstack_ccm.Kube.{ServiceKey, service_key_eq, service_key_beq_iff}
use custom_cloudstack_ccm.ServiceLock.{ServiceLock, write, unlock}
use custom_cloudstack_ccm.ServiceLock.System.{
  Pc, idle, waiting, holding, uses, holds, total, total-append,
}
use custom_cloudstack_ccm.ServiceLock.Invariant.{
  Owns, Inv, All-replace, All-replace_of_total, All-middle,
}

-- The state after `Unlock`, where the mutex is in use.
abbrev pub with_free : ServiceLock → ServiceKey → ℕ → ServiceLock
with_free l k d =
    let left = (l.heap d).counter - 1 in
    record l {
      in_use = if leb left 0 then erase k l.in_use else l.in_use;
      heap = write l.heap d (record { counter = left; locked = false });
    }

module _ (l : ServiceLock) (xs ys : List Pc) (k : ServiceKey) (d : ℕ)
    (inv : Inv l (xs ++ holding k d ∷ ys)) where
  held : lookup k l.in_use ≡ some d
  held = All-middle (Owns l.in_use) xs ys (holding k d) inv.owned

  is_locked : (l.heap d).locked ≡ true
  is_locked = ground (
    arith,
    inv.exclusive k d held,
    total-append (holds k) xs (holding k d ∷ ys),
    service_key_beq_iff k k,
  )

  pub unlock_lem : unlock l k ≡ some (with_free l k d)
  unfolding unlock
  unlock_lem = ground (arith, held, is_locked)

  pub kept-Inv : leb ((l.heap d).counter - 1) 0 ≡ false → Inv (with_free l k d) (xs ++ idle ∷ ys)
  kept-Inv more = rw more (record {
    fresh = inv.fresh;
    injective = inv.injective;
    counted = λ j c e. ground (
      arith,
      held,
      e,
      more,
      service_key_beq_iff k j,
      inv.counted j c e,
      inv.counted k d held,
      inv.injective k j d held,
      total-append (uses j) xs (holding k d ∷ ys),
      total-append (uses j) xs (idle ∷ ys),
    );
    unused = λ j e. ground (
      arith,
      held,
      service_key_beq_iff k j,
      inv.unused j e,
      total-append (uses j) xs (holding k d ∷ ys),
      total-append (uses j) xs (idle ∷ ys),
    );
    exclusive = λ j c e. ground (
      arith,
      held,
      is_locked,
      e,
      service_key_beq_iff k j,
      inv.exclusive j c e,
      inv.injective k j d held,
      total-append (holds j) xs (holding k d ∷ ys),
      total-append (holds j) xs (idle ∷ ys),
    );
    owned = All-replace xs ys (holding k d) idle (λ q o. o) tt inv.owned;
  })

  others_idle :
      leb ((l.heap d).counter - 1) 0 ≡ true
      → total (uses k) (xs ++ holding k d ∷ ys) ≡ uses k (holding k d)
  others_idle last = ground (
    arith,
    inv.counted k d held,
    service_key_beq_iff k k,
    total-append (uses k) xs (holding k d ∷ ys),
  )

  Owns-erase : (q : Pc) → uses k q ≡ 0 → Owns l.in_use q → Owns (erase k l.in_use) q
  Owns-erase idle z o = tt
  Owns-erase (waiting j c) z o =
      ground (arith, lookup-erase k j l.in_use, service_key_beq_iff k j, service_key_beq_iff j k)
  Owns-erase (holding j c) z o =
      ground (arith, lookup-erase k j l.in_use, service_key_beq_iff k j, service_key_beq_iff j k)

  pub dropped-Inv : leb ((l.heap d).counter - 1) 0 ≡ true → Inv (with_free l k d) (xs ++ idle ∷ ys)
  dropped-Inv last = rw last (record {
    fresh = λ j c e. ground (arith, lookup-erase k j l.in_use, inv.fresh j c);
    injective = λ i j c ei ej.
        ground (arith, lookup-erase k i l.in_use, lookup-erase k j l.in_use, inv.injective i j c);
    counted = λ j c e. ground (
      arith,
      e,
      lookup-erase k j l.in_use,
      held,
      service_key_beq_iff k j,
      inv.counted j c,
      inv.injective k j d held,
      total-append (uses j) xs (holding k d ∷ ys),
      total-append (uses j) xs (idle ∷ ys),
    );
    unused = λ j e. ground (
      arith,
      lookup-erase k j l.in_use,
      service_key_beq_iff k j,
      inv.unused j,
      others_idle last,
      total-append (uses j) xs (holding k d ∷ ys),
      total-append (uses j) xs (idle ∷ ys),
    );
    exclusive = λ j c e. ground (
      arith,
      e,
      lookup-erase k j l.in_use,
      held,
      service_key_beq_iff k j,
      inv.exclusive j c,
      inv.injective k j d held,
      total-append (holds j) xs (holding k d ∷ ys),
      total-append (holds j) xs (idle ∷ ys),
    );
    owned =
        All-replace_of_total (uses k) xs ys (holding k d) idle Owns-erase tt (others_idle last)
          inv.owned;
  })
