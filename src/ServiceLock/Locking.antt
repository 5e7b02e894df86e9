-- ===== src/ServiceLock/Locking.antt =====
-- Asking for a mutex and taking it keep the invariant.
use custom_cloudstack_ccm.Prelude.{
  ℕ, ◌+◌, true, false, none, some, List, ◌∷◌, ◌++◌, ◌≡◌, sym, ◌∙◌, arith, inl, inr, Bool-cases,
}
use mathlib.Core.Option.{some-injective}
use custom_cloudstack_ccm.Prelude.Dict.{Dict, lookup, insert, lookup-insert}
use custom_cloudstack_ccm.Kube.{ServiceKey, service_key_eq, service_key_beq_iff}
use custom_cloudstack_ccm.ServiceLock.{ServiceLock, write, register, acquire}
use custom_cloudstack_ccm.ServiceLock.System.{
  Pc, idle, waiting, holding, uses, holds, total-append, holds-le-uses,
}
use custom_cloudstack_ccm.ServiceLock.Invariant.{Owns, Inv, All-replace, All-middle}

-- The states that the moves lead to.
abbrev pub with_new : ServiceLock → ServiceKey → ServiceLock
with_new l k = record {
  in_use = insert k l.next l.in_use;
  heap =
      write (write l.heap l.next (record { counter = 0; locked = false })) l.next
        (record { counter = 1; locked = false });
  next = l.next + 1;
}

abbrev pub with_user : ServiceLock → ℕ → ServiceLock
with_user l d = record l {
  heap = write l.heap d (record { counter = (l.heap d).counter + 1; locked = (l.heap d).locked });
}

abbrev pub with_owner : ServiceLock → ℕ → ServiceLock
with_owner l d = record l {
  heap = write l.heap d (record { counter = (l.heap d).counter; locked = true });
}

pub register_new :
    (l : ServiceLock) (k : ServiceKey)
    → lookup k l.in_use ≡ none
    → register l k ≡ (with_new l k, l.next)
unfolding register
register_new l k e = ground (arith, e)

pub register_old :
    (l : ServiceLock) (k : ServiceKey) (d : ℕ)
    → lookup k l.in_use ≡ some d
    → register l k ≡ (with_user l d, d)
unfolding register
register_old l k d e = ground (arith, e)

pub Owns-mono :
    (m m' : Dict ServiceKey ℕ)
    → ((j : ServiceKey) (d : ℕ) → lookup j m ≡ some d → lookup j m' ≡ some d)
    → (q : Pc) → Owns m q
    → Owns m' q
Owns-mono m m' f idle o = tt
Owns-mono m m' f (waiting j d) o = f j d o
Owns-mono m m' f (holding j d) o = f j d o

pub acquire_free :
    (l : ServiceLock) (d : ℕ) → (l.heap d).locked ≡ false → acquire l d ≡ some (with_owner l d)
unfolding acquire
acquire_free l d free = ground (arith, free)

pub acquire_lem :
    (l : ServiceLock) {l' : ServiceLock} (d : ℕ)
    → acquire l d ≡ some l'
    → ((l.heap d).locked ≡ false) × (with_owner l d ≡ l')
unfolding acquire
acquire_lem l d e = elim (Bool-cases (l.heap d).locked) [
  | inl taken ↦ absurd (ground (arith, taken))
  | inr free ↦ (free, some-injective _ _ (sym (acquire_free l d free) ∙ e))
]

module _ (l : ServiceLock) (xs ys : List Pc) (k : ServiceKey) (inv : Inv l (xs ++ idle ∷ ys)) where
  abbrev grown : List Pc
  grown = xs ++ waiting k l.next ∷ ys

  pub register_new-Inv : lookup k l.in_use ≡ none → Inv (with_new l k) grown
  register_new-Inv new = record {
    fresh = λ j d e. ground (arith, lookup-insert k j l.next l.in_use, inv.fresh j d);
    injective = λ i j d ei ej. ground (
      arith,
      lookup-insert k i l.next l.in_use,
      lookup-insert k j l.next l.in_use,
      inv.fresh i d,
      inv.fresh j d,
      inv.injective i j d,
      service_key_beq_iff k i,
      service_key_beq_iff k j,
    );
    counted = λ j d e. ground (
      arith,
      lookup-insert k j l.next l.in_use,
      service_key_beq_iff k j,
      inv.counted j d,
      inv.unused k new,
      inv.fresh j d,
      total-append (uses j) xs (idle ∷ ys),
      total-append (uses j) xs (waiting k l.next ∷ ys),
    );
    unused = λ j e. ground (
      arith,
      lookup-insert k j l.next l.in_use,
      service_key_beq_iff k j,
      inv.unused j,
      total-append (uses j) xs (idle ∷ ys),
      total-append (uses j) xs (waiting k l.next ∷ ys),
    );
    exclusive = λ j d e. ground (
      arith,
      lookup-insert k j l.next l.in_use,
      service_key_beq_iff k j,
      inv.exclusive j d,
      inv.unused k new,
      inv.fresh j d,
      holds-le-uses j (xs ++ idle ∷ ys),
      total-append (holds j) xs (idle ∷ ys),
      total-append (holds j) xs (waiting k l.next ∷ ys),
    );
    owned =
        All-replace xs ys idle (waiting k l.next)
          (Owns-mono l.in_use (insert k l.next l.in_use) (λ j d e.
            ground (arith, lookup-insert k j l.next l.in_use, service_key_beq_iff k j, new)))
          (ground (arith, lookup-insert k k l.next l.in_use, service_key_beq_iff k k)) inv.owned;
  }

  pub register_old-Inv :
      (d : ℕ) → lookup k l.in_use ≡ some d → Inv (with_user l d) (xs ++ waiting k d ∷ ys)
  register_old-Inv d old = record {
    fresh = inv.fresh;
    injective = inv.injective;
    counted = λ j c e. ground (
      arith,
      old,
      service_key_beq_iff k j,
      inv.counted j c e,
      inv.injective k j d old,
      total-append (uses j) xs (idle ∷ ys),
      total-append (uses j) xs (waiting k d ∷ ys),
    );
    unused = λ j e. ground (
      arith,
      old,
      service_key_beq_iff k j,
      inv.unused j e,
      total-append (uses j) xs (idle ∷ ys),
      total-append (uses j) xs (waiting k d ∷ ys),
    );
    exclusive = λ j c e. ground (
      arith,
      inv.exclusive j c e,
      total-append (holds j) xs (idle ∷ ys),
      total-append (holds j) xs (waiting k d ∷ ys),
    );
    owned = All-replace xs ys idle (waiting k d) (λ q o. o) old inv.owned;
  }

module _ (l : ServiceLock) (xs ys : List Pc) (k : ServiceKey) (d : ℕ)
    (inv : Inv l (xs ++ waiting k d ∷ ys)) where
  waits_for : lookup k l.in_use ≡ some d
  waits_for = All-middle (Owns l.in_use) xs ys (waiting k d) inv.owned

  pub acquire-Inv : (l.heap d).locked ≡ false → Inv (with_owner l d) (xs ++ holding k d ∷ ys)
  acquire-Inv free = record {
    fresh = inv.fresh;
    injective = inv.injective;
    counted = λ j c e. ground (
      arith,
      inv.counted j c e,
      total-append (uses j) xs (waiting k d ∷ ys),
      total-append (uses j) xs (holding k d ∷ ys),
    );
    unused = λ j e. ground (
      arith,
      inv.unused j e,
      total-append (uses j) xs (waiting k d ∷ ys),
      total-append (uses j) xs (holding k d ∷ ys),
    );
    exclusive = λ j c e. ground (
      arith,
      waits_for,
      free,
      e,
      service_key_beq_iff k j,
      inv.exclusive j c e,
      inv.injective k j d waits_for,
      total-append (holds j) xs (waiting k d ∷ ys),
      total-append (holds j) xs (holding k d ∷ ys),
    );
    owned = All-replace xs ys (waiting k d) (holding k d) (λ q o. o) waits_for inv.owned;
  }
