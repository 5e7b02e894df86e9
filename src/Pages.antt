-- ===== src/Pages.antt =====
-- `listAllPagesUnsafe` of cloudstack/helpers.go: asks for one page after another, and removes what
-- comes twice. The two kinds of request are in `Balancer`.
pub mod Fetch
pub mod Dedup
pub mod Agree
use custom_cloudstack_ccm.Prelude.{
  ℕ, zero, suc, ◌+◌, String, Bool, List, [], ◌∷◌, ◌++◌, if◌then◌else◌, string_eq, contains, leb,
  ◌==◌, ◌||◌, length,
}
use custom_cloudstack_ccm.Prelude.Outcome.{Result, ok, err, pure, throw, out_of_fuel, ◌>>=◌}
use custom_cloudstack_ccm.Api.{Api}

-- The stated count and the entries of a page.
abbrev pub Fetch : Type 0 → Type 0
Fetch A = ℕ → Api (ℕ × List A)

module _ {A : Type 0} where
  -- `resultSize == 0 || len(result) >= totalCount`, with the result so far
  abbrev pub is_last : ℕ × List A → List A → Bool
  is_last (total_count, entries) result = length entries == 0 || leb total_count (length result)

  unfoldable pub fetch_pages : ℕ → Fetch A → ℕ → List A → Api (List A)
  fetch_pages zero fetch page result = throw out_of_fuel
  fetch_pages (suc fuel) fetch page result = fetch page >>= λ reply.
      let result' = result ++ reply.1 in
      let more = fetch_pages fuel fetch (page + 1) result' in
      if is_last reply result' then pure result' else more

  -- The last element in front of the others but the first: what `result[i] = result[len(result)-1]` and
  -- the cut of the last place leave of `x ∷ xs`, which begins at place `i`.
  pub fill_gap : List A → List A
  fill_gap [] = []
  fill_gap (x ∷ xs) = elim (fill_gap xs) [ [] ↦ x ∷ [] | last ∷ others ↦ last ∷ x ∷ others ]

  module _ (id : A → String) where
    -- The second loop, from place `i` on, with the keys of `existingSet`. It has as many rounds as
    -- there are entries, which is the fuel.
    pub dedup_from : ℕ → List A → List String → List A
    unfolding fill_gap
    dedup_from zero entries existing = entries
    dedup_from (suc fuel) [] existing = []
    dedup_from (suc fuel) (el ∷ rest) existing =
        let skipped = dedup_from fuel (fill_gap rest) existing in
        let kept = el ∷ dedup_from fuel rest (id el ∷ existing) in
        if contains (id el) existing then skipped else kept

    pub dedup : List A → List A
    unfolding dedup_from
    dedup entries = dedup_from (length entries) entries []

    unfoldable pub list_all_pages : ℕ → Fetch A → Api (List A)
    unfolding fetch_pages dedup
    list_all_pages fuel fetch = fetch_pages fuel fetch 1 [] >>= λ result. pure (dedup result)
