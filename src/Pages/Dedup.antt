-- ===== src/Pages/Dedup.antt =====
-- The entries are listed once each, and none is lost.
use custom_cloudstack_ccm.Prelude.{
  ℕ, zero, suc, ◌≤◌, String, true, false, List, [], ◌∷◌, map, string_eq, contains, Distinct, length,
  eq_iff, ◌≡◌, refl, arith,
}
use custom_cloudstack_ccm.Pages.{fill_gap, dedup_from, dedup}

module _ {A : Type 0} where
  length-fill_gap : (xs : List A) → length (fill_gap xs) ≡ length xs
  unfolding fill_gap
  length-fill_gap [] = refl
  length-fill_gap (x ∷ xs) = ground (arith, length-fill_gap xs)

  module _ (id : A → String) where
    contains-fill_gap :
        (a : String) (xs : List A) → contains a (map id (fill_gap xs)) ≡ contains a (map id xs)
    unfolding fill_gap
    contains-fill_gap a [] = refl
    contains-fill_gap a (x ∷ xs) = ground (arith, contains-fill_gap a xs)

    contains-dedup_from :
        (a : String) (fuel : ℕ) (entries : List A) (existing : List String)
        → length entries ≤ fuel
        → contains a existing ≡ false
        → contains a (map id (dedup_from id fuel entries existing)) ≡ contains a (map id entries)
    unfolding dedup_from
    contains-dedup_from a zero [] existing h n = refl
    contains-dedup_from a zero (el ∷ rest) existing h n = absurd (omega arith)
    contains-dedup_from a (suc fuel) [] existing h n = refl
    contains-dedup_from a (suc fuel) (el ∷ rest) existing h n = ground (
      arith,
      contains-dedup_from a fuel (fill_gap rest) existing,
      contains-dedup_from a fuel rest (id el ∷ existing),
      contains-fill_gap a rest,
      length-fill_gap rest,
      eq_iff (id el) a,
    )

    contains-dedup_from_existing :
        (a : String) (fuel : ℕ) (entries : List A) (existing : List String)
        → length entries ≤ fuel
        → contains a existing ≡ true
        → contains a (map id (dedup_from id fuel entries existing)) ≡ false
    unfolding dedup_from
    contains-dedup_from_existing a zero [] existing h n = refl
    contains-dedup_from_existing a zero (el ∷ rest) existing h n = absurd (omega arith)
    contains-dedup_from_existing a (suc fuel) [] existing h n = refl
    contains-dedup_from_existing a (suc fuel) (el ∷ rest) existing h n = ground (
      arith,
      contains-dedup_from_existing a fuel (fill_gap rest) existing,
      contains-dedup_from_existing a fuel rest (id el ∷ existing),
      length-fill_gap rest,
      eq_iff (id el) a,
    )

    Distinct-dedup_from :
        (fuel : ℕ) (entries : List A) (existing : List String)
        → length entries ≤ fuel
        → Distinct (map id (dedup_from id fuel entries existing))
    unfolding dedup_from
    Distinct-dedup_from zero [] existing h = tt
    Distinct-dedup_from zero (el ∷ rest) existing h = absurd (omega arith)
    Distinct-dedup_from (suc fuel) [] existing h = tt
    Distinct-dedup_from (suc fuel) (el ∷ rest) existing h = ground (
      arith,
      Distinct-dedup_from fuel (fill_gap rest) existing,
      Distinct-dedup_from fuel rest (id el ∷ existing),
      contains-dedup_from_existing (id el) fuel rest (id el ∷ existing),
      length-fill_gap rest,
      eq_iff (id el) (id el),
    )

    -- The loop that removes duplicates leaves each id that it was given exactly once.
    pub dedup_lem :
        (entries : List A)
        → Distinct (map id (dedup id entries))
          × ((a : String) → contains a (map id (dedup id entries)) ≡ contains a (map id entries))
    unfolding dedup
    dedup_lem entries = (
      Distinct-dedup_from (length entries) entries [] (omega arith),
      λ a. contains-dedup_from a (length entries) entries [] (omega arith) refl,
    )

    dedup_from-Distinct :
        (fuel : ℕ) (entries : List A) (existing : List String)
        → length entries ≤ fuel
        → Distinct (map id entries)
        → ((a : String) → contains a existing ≡ true → contains a (map id entries) ≡ false)
        → dedup_from id fuel entries existing ≡ entries
    unfolding dedup_from
    dedup_from-Distinct zero [] existing h d n = refl
    dedup_from-Distinct zero (el ∷ rest) existing h d n = absurd (omega arith)
    dedup_from-Distinct (suc fuel) [] existing h d n = refl
    dedup_from-Distinct (suc fuel) (el ∷ rest) existing h d n = ground (
      arith,
      n (id el),
      eq_iff (id el) (id el),
      dedup_from-Distinct fuel rest (id el ∷ existing) (omega arith) d.1
          (λ a in_set. ground (arith, n a, d.0, eq_iff (id el) a)),
    )

    -- It changes nothing where no id comes twice.
    pub dedup_of_Distinct :
        (entries : List A) → Distinct (map id entries) → dedup id entries ≡ entries
    unfolding dedup
    dedup_of_Distinct entries d =
        dedup_from-Distinct (length entries) entries [] (omega arith) d (λ a h. cc)
