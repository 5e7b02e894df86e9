-- ===== src/ServiceLock/Invariant.antt =====
-- Each mutex is counted right, belongs to one service, and is locked where one thread holds it.
use custom_cloudstack_ccm.Prelude.{ℕ, ◌<◌, none, some, List, [], ◌∷◌, ◌++◌, ◌≡◌, All, arith}
use custom_cloudstack_ccm.Prelude.Dict.{Dict, lookup}
use custom_cloudstack_ccm.Kube.{ServiceKey, service_key_eq}
use custom_cloudstack_ccm.ServiceLock.{ServiceLock}
use custom_cloudstack_ccm.ServiceLock.System.{
  Pc, idle, waiting, holding, uses, holds, one_if, total, total-append,
}

-- The mutex that a thread knows is the one of the map.
abbrev pub Owns : Dict ServiceKey ℕ → Pc → Type 0
Owns in_use idle = Unit
Owns in_use (waiting k d) = lookup k in_use ≡ some d
Owns in_use (holding k d) = lookup k in_use ≡ some d

pub record Inv (l : ServiceLock) (ps : List Pc) : Type 0 where
  pub fresh : (k : ServiceKey) (d : ℕ) → lookup k l.in_use ≡ some d → d < l.next
  pub injective :
      (j k : ServiceKey) (d : ℕ) → lookup j l.in_use ≡ some d → lookup k l.in_use ≡ some d → j ≡ k
  pub counted :
      (k : ServiceKey) (d : ℕ)
      → lookup k l.in_use ≡ some d
      → ((l.heap d).counter ≡ total (uses k) ps) × (0 < total (uses k) ps)
  pub unused : (k : ServiceKey) → lookup k l.in_use ≡ none → total (uses k) ps ≡ 0
  pub exclusive :
      (k : ServiceKey) (d : ℕ)
      → lookup k l.in_use ≡ some d
      → one_if (l.heap d).locked ≡ total (holds k) ps
  pub owned : All (Owns l.in_use) ps

module _ {P Q : Pc → Type 0} where
  All-imp : ((q : Pc) → P q → Q q) → (xs : List Pc) → All P xs → All Q xs
  All-imp f [] h = tt
  All-imp f (x ∷ xs) h = (f x h.0, All-imp f xs h.1)

  -- One thread changes, and the others keep what they had.
  pub All-replace :
      (xs ys : List Pc) (p p' : Pc)
      → ((q : Pc) → P q → Q q)
      → Q p'
      → All P (xs ++ p ∷ ys)
      → All Q (xs ++ p' ∷ ys)
  All-replace [] ys p p' f h a = (h, All-imp f ys a.1)
  All-replace (x ∷ xs) ys p p' f h a = (f x a.0, All-replace xs ys p p' f h a.1)

  All-imp_of_total :
      (w : Pc → ℕ)
      → ((q : Pc) → w q ≡ 0 → P q → Q q)
      → (xs : List Pc) → total w xs ≡ 0
      → All P xs
      → All Q xs
  All-imp_of_total w f [] z h = tt
  All-imp_of_total w f (x ∷ xs) z h =
      (f x (omega arith) h.0, All-imp_of_total w f xs (omega arith) h.1)

  pub All-replace_of_total :
      (w : Pc → ℕ) (xs ys : List Pc) (p p' : Pc)
      → ((q : Pc) → w q ≡ 0 → P q → Q q)
      → Q p'
      → total w (xs ++ p ∷ ys) ≡ w p
      → All P (xs ++ p ∷ ys)
      → All Q (xs ++ p' ∷ ys)
  All-replace_of_total w [] ys p p' f h z a = (h, All-imp_of_total w f ys (omega arith) a.1)
  All-replace_of_total w (x ∷ xs) ys p p' f h z a = (
    f x (omega (arith, total-append w xs (p ∷ ys))) a.0,
    All-replace_of_total w xs ys p p' f h (omega (arith, total-append w xs (p ∷ ys))) a.1,
  )

pub All-middle : (P : Pc → Type 0) (xs ys : List Pc) (p : Pc) → All P (xs ++ p ∷ ys) → P p
All-middle P [] ys p a = a.0
All-middle P (x ∷ xs) ys p a = All-middle P xs ys p a.1
