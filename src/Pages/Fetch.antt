-- ===== src/Pages/Fetch.antt =====
-- Fetching the pages ends, and returns what the server holds.
use custom_cloudstack_ccm.Prelude.{
  ℕ, zero, suc, ◌+◌, ◌-◌, ◌*◌, ◌≤◌, ◌<◌, String, true, false, List, [], ◌++◌, map, if◌then◌else◌,
  Distinct, length, length-append, take, drop, take-append-take, take_of_le, length-take,
  length-drop, ◌≡◌, ◌≢◌, arith, ◌∙◌, ap, sym, Bool-cases, inl, inr, string_eq,
}
use custom_cloudstack_ccm.Prelude.Outcome.{Result, ok, err, out_of_fuel, Result-cases}
use custom_cloudstack_ccm.Api.{History}
use custom_cloudstack_ccm.Pages.{Fetch, fetch_pages, is_last, list_all_pages}
use custom_cloudstack_ccm.Pages.Dedup.{dedup_of_Distinct}

module _ {A : Type 0} (fetch : Fetch A) where
  -- What a page's answer is worth: no count above the bound, and no error that is the model's own.
  abbrev pub Within : ℕ → Result (ℕ × List A) → Type 0
  Within bound (ok (total_count, entries)) = total_count ≤ bound
  Within bound (err e) = e ≢ out_of_fuel

  fetch_pages-ne-out_of_fuel :
      (bound : ℕ)
      → ((page : ℕ) (h : History) → Within bound (fetch page h).0)
      → (fuel page : ℕ) (result : List A) (h : History) → bound < length result + fuel
      → (0 < fuel)
      → (fetch_pages fuel fetch page result h).0 ≢ err out_of_fuel
  unfolding fetch_pages
  fetch_pages-ne-out_of_fuel bound within zero page result h enough pos = absurd (omega arith)
  fetch_pages-ne-out_of_fuel bound within (suc fuel) page result h enough pos =
      elim (Result-cases (fetch page h).0) [
        | inl (reply, e) ↦ ground (
          arith,
          e,
          within page h,
          length-append result reply.1,
          fetch_pages-ne-out_of_fuel bound within fuel (page + 1) (result ++ reply.1)
              (fetch page h).1,
        )
        | inr (f, e) ↦ ground (arith, e, within page h)
      ]

fetch_pages-suc :
    {A : Type 0} (fetch : Fetch A) (fuel page : ℕ) (result : List A) (h : History)
    (reply : ℕ × List A)
    → (fetch page h).0 ≡ ok reply
    → (fetch_pages (suc fuel) fetch page result h).0 ≡ (
        if is_last reply (result ++ reply.1)
        then ok (result ++ reply.1)
        else (fetch_pages fuel fetch (page + 1) (result ++ reply.1) (fetch page h).1).0)
unfolding fetch_pages
fetch_pages-suc fetch fuel page result h reply e = ground arith

pos_of_mul : (m n : ℕ) → 0 < m * n → 0 < n
pos_of_mul m zero h = omega arith
pos_of_mul m (suc n) h = omega arith

le_mul : (m n : ℕ) → 0 < m → n ≤ m * n
le_mul zero n h = absurd (omega arith)
le_mul (suc m) n h = omega arith

-- The server keeps a list, and answers with pages of a size.
abbrev pub Serves : {A : Type 0} → Fetch A → ℕ → List A → Type 0
Serves fetch size stored =
    (page : ℕ) (h : History)
    → (fetch page h).0 ≡ ok (length stored, take size (drop (size * (page - 1)) stored))

module _ {A : Type 0} (fetch : Fetch A) (size : ℕ) (stored : List A)
    (serves : Serves fetch size stored) where
  page_of : ℕ → List A
  page_of page = take size (drop (size * page) stored)

  served : (page : ℕ) (h : History) → (fetch (page + 1) h).0 ≡ ok (length stored, page_of page)
  unfolding page_of
  served page h =
      serves (page + 1) h
      ∙ ap (λ n. ok (length stored, take size (drop (size * n) stored))) (omega arith)

  so_far : (page : ℕ) → take (size * page) stored ++ page_of page ≡ take (size * (page + 1)) stored
  unfolding page_of
  so_far page = take-append-take (size * page) size stored ∙ ap (λ n. take n stored) (omega arith)

  -- A last page completes the list.
  complete :
      (page : ℕ)
      → 0 < size
      → is_last (length stored, page_of page) (take (size * (page + 1)) stored) ≡ true
      → take (size * (page + 1)) stored ≡ stored
  unfolding page_of
  complete page s h = take_of_le (size * (page + 1)) stored (
      ground (
        arith,
        length-take size (drop (size * page) stored),
        length-drop (size * page) stored,
        length-take (size * (page + 1)) stored,
      ))

  incomplete :
      (page : ℕ)
      → is_last (length stored, page_of page) (take (size * (page + 1)) stored) ≡ false
      → size * (page + 1) < length stored
  unfolding page_of
  incomplete page h = ground (arith, length-take (size * (page + 1)) stored)

  fetch_pages-stored :
      (fuel page : ℕ) (h : History)
      → 0 < fuel
      → 0 < size
      → length stored ≤ size * page + size * fuel
      → (fetch_pages fuel fetch (page + 1) (take (size * page) stored) h).0 ≡ ok stored
  fetch_pages-stored zero page h f s enough = absurd (omega arith)
  fetch_pages-stored (suc fuel) page h f s enough =
      fetch_pages-suc fetch fuel (page + 1) (take (size * page) stored) h _ (served page h)
      ∙ rw (so_far page)
          (elim (Bool-cases
            (is_last (length stored, page_of page) (take (size * (page + 1)) stored))) [
              | inl last ↦ rw last (ap ok (complete page s last))
              | inr more ↦ rw more (
                  fetch_pages-stored fuel (page + 1) (fetch (page + 1) h).1
                    (pos_of_mul size fuel (omega (arith, incomplete page more))) s
                    (omega (arith, incomplete page more)))
            ])

  -- From a server that keeps a list of entries with distinct ids and answers with its pages,
  -- `listAllPagesUnsafe` returns the whole list, in order: as many rounds as the list has entries,
  -- and one more, are enough.
  pub list_all_pages-stored :
      (id : A → String) (h : History)
      → 0 < size
      → Distinct (map id stored)
      → (list_all_pages id (suc (length stored)) fetch h).0 ≡ ok stored
  unfolding list_all_pages
  list_all_pages-stored id h s d = ground (
    arith,
    sym (ap (λ n. take n stored) zero_pages),
    fetch_pages-stored (suc (length stored)) 0 h (omega arith) s
        (omega (arith, le_mul size (suc (length stored)) s)),
    dedup_of_Distinct id stored d,
  )
    where
      zero_pages : size * 0 ≡ 0
      zero_pages = omega arith

-- Fetching the pages ends, whatever the server answers, as long as no answer states a count above a
-- bound: with more fuel than the bound the fuel does not run out, because every page but the last
-- brings an entry.
pub list_all_pages-ne-out_of_fuel :
    {A : Type 0} (id : A → String) (fetch : Fetch A) (bound fuel : ℕ) (h : History)
    → ((page : ℕ) (h : History) → Within fetch bound (fetch page h).0)
    → bound < fuel
    → (list_all_pages id fuel fetch h).0 ≢ err out_of_fuel
unfolding list_all_pages
list_all_pages-ne-out_of_fuel id fetch bound fuel h within enough =
    elim (Result-cases (fetch_pages fuel fetch 1 [] h).0) [
      | inl (result, e) ↦ ground (arith, e)
      | inr (x, e) ↦ ground (
        arith,
        e,
        fetch_pages-ne-out_of_fuel fetch bound within fuel 1 [] h (omega arith) (omega arith),
      )
    ]
