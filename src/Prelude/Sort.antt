-- ===== src/Prelude/Sort.antt =====
-- `sort.Sort`, `sort.Slice` and `sort.Strings`: a stable insertion sort. Go's sorts are not stable,
-- so the order of elements that compare equal is a choice of the model.
use mathlib.Core.Path.{◌≡◌, refl, ap, ◌∙◌}
use mathlib.Core.Logic.{inl, inr}
use mathlib.Core.Bool.{Bool, true, false, ◌||◌}
use mathlib.Core.List.{List, [], ◌∷◌, Perm}
use mathlib.Core.List.Perm
use native.Mathlib.Omega.{arith}
use custom_cloudstack_ccm.Prelude.Tests.{if◌then◌else◌, Bool-cases}
use custom_cloudstack_ccm.Prelude.Lists.{Eq, contains, All}

module _ {ℓ} {A : Type ℓ} (less : A → A → Bool) where
  abbrev pub place : A → List A → List A
  place x [] = x ∷ []
  place x (y ∷ ys) = let rest = place x ys in if less y x then y ∷ rest else x ∷ y ∷ ys

  abbrev pub sort : List A → List A
  sort [] = []
  sort (x ∷ xs) = place x (sort xs)

  place-perm : (x : A) (ys : List A) → Perm (place x ys) (x ∷ ys)
  place-perm x [] = Perm.refl (x ∷ [])
  place-perm x (y ∷ ys) = elim (Bool-cases (less y x)) [
    | inl before ↦ rw before (Perm.trans (Perm.cons y (place-perm x ys)) (Perm.swap x y ys))
    | inr after ↦ rw after (Perm.refl (x ∷ y ∷ ys))
  ]

  pub sort-perm : (xs : List A) → Perm (sort xs) xs
  sort-perm [] = Perm.refl []
  sort-perm (x ∷ xs) = Perm.trans (place-perm x (sort xs)) (Perm.cons x (sort-perm xs))

  -- No element is less than `x`.
  abbrev pub NoneLess : A → List A → Type 0
  NoneLess x = All (λ y. less y x ≡ false)

  -- No element is less than an earlier one.
  abbrev pub IsOrdered : List A → Type 0
  IsOrdered [] = Unit
  IsOrdered (x ∷ xs) = NoneLess x xs × IsOrdered xs

  pub place-All {κ} : (P : A → Type κ) (x : A) (ys : List A) → P x → All P ys → All P (place x ys)
  place-All P x [] p h = (p, tt)
  place-All P x (y ∷ ys) p h = ground (arith, place-All P x ys p)

  pub sort-All {κ} : (P : A → Type κ) (xs : List A) → All P xs → All P (sort xs)
  sort-All P [] h = tt
  sort-All P (x ∷ xs) h = place-All P x (sort xs) h.0 (sort-All P xs h.1)

  unplace-All {κ} : (P : A → Type κ) (x : A) (ys : List A) → All P (place x ys) → P x × All P ys
  unplace-All P x [] h = h
  unplace-All P x (y ∷ ys) h = ground (arith, unplace-All P x ys)

  pub unsort-All {κ} : (P : A → Type κ) (xs : List A) → All P (sort xs) → All P xs
  unsort-All P [] h = tt
  unsort-All P (x ∷ xs) h =
      let (px, rest) = unplace-All P x (sort xs) h in (px, unsort-All P xs rest)

  -- What a strict order that leaves incomparable elements equivalent satisfies.
  pub record IsWeakOrder : Type ℓ where
    pub asymm : (x y : A) → less x y ≡ true → less y x ≡ false
    pub not_less_trans : (x y z : A) → less y x ≡ false → less z y ≡ false → less z x ≡ false

module _ {ℓ} {A : Type ℓ} (less : A → A → Bool) (w : IsWeakOrder less) where
  NoneLess-mono :
      (x y : A) (zs : List A) → less y x ≡ false → NoneLess less y zs → NoneLess less x zs
  NoneLess-mono x y [] h all_zs = tt
  NoneLess-mono x y (z ∷ zs) h all_zs =
      (w.not_less_trans x y z h all_zs.0, NoneLess-mono x y zs h all_zs.1)

  place-IsOrdered : (x : A) (ys : List A) → IsOrdered less ys → IsOrdered less (place less x ys)
  place-IsOrdered x [] o = (tt, tt)
  place-IsOrdered x (y ∷ ys) o = elim (Bool-cases (less y x)) [
    | inl before ↦ rw before (
      place-All less (λ z. less z y ≡ false) x ys (w.asymm y x before) o.0,
      place-IsOrdered x ys o.1,
    )
    | inr after ↦ rw after ((after, NoneLess-mono x y ys after o.0), o)
  ]

  pub sort-IsOrdered : (xs : List A) → IsOrdered less (sort less xs)
  sort-IsOrdered [] = tt
  sort-IsOrdered (x ∷ xs) = place-IsOrdered x (sort less xs) (sort-IsOrdered xs)

module _ {ℓ} {A : Type ℓ} (less : A → A → Bool) where
  place_of_NoneLess : (x : A) (ys : List A) → NoneLess less x ys → place less x ys ≡ x ∷ ys
  place_of_NoneLess x [] n = refl
  place_of_NoneLess x (y ∷ ys) n = rw n.0

  pub sort_of_IsOrdered : (xs : List A) → IsOrdered less xs → sort less xs ≡ xs
  sort_of_IsOrdered [] o = refl
  sort_of_IsOrdered (x ∷ xs) o = rw (sort_of_IsOrdered xs o.1) (place_of_NoneLess x xs o.0)

module _ {ℓ} {A : Type ℓ} ⦃e : Eq A⦄ (less : A → A → Bool) (a : A) where
  contains-place :
      (x : A) (ys : List A) → contains a (place less x ys) ≡ (e.beq x a || contains a ys)
  contains-place x [] = refl
  contains-place x (y ∷ ys) = ground (arith, contains-place x ys)

  pub contains-sort : (xs : List A) → contains a (sort less xs) ≡ contains a xs
  contains-sort [] = refl
  contains-sort (x ∷ xs) =
      contains-place x (sort less xs) ∙ ap (λ b. e.beq x a || b) (contains-sort xs)
