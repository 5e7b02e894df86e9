-- ===== src/Pages/Agree.antt =====
-- Two ways to fetch pages that agree wherever a property of the history holds.
use custom_cloudstack_ccm.Prelude.{
  ℕ, zero, suc, ◌+◌, String, List, [], ◌++◌, ◌≡◌, refl, arith, inl, inr, subst, sym, Bool-cases,
  if◌then◌else◌,
}
use custom_cloudstack_ccm.Prelude.Outcome.{Result-cases, err, ◌>>=◌, pure}
use custom_cloudstack_ccm.Api.{Api, History}
use custom_cloudstack_ccm.Pages.{Fetch, fetch_pages, is_last, list_all_pages, dedup}

-- From a history, two pieces of code do the same, and the property holds afterwards.
abbrev AgreeAt : (History → Type 0) → {A : Type 0} → Api A → Api A → History → Type 0
AgreeAt P m n h = (m h ≡ n h) × P (m h).1

module _ (P : History → Type 0) {A B : Type 0} (m n : Api A) (j k : A → Api B) where
  >>=-agree :
      (h : History)
      → AgreeAt P m n h
      → ((a : A) (h' : History) → P h' → AgreeAt P (j a) (k a) h')
      → AgreeAt P (m >>= j) (n >>= k) h
  >>=-agree h (e, p) rest = elim (Result-cases (m h).0) [
    | inl (a, x) ↦
        let same : (m >>= j) h ≡ j a (m h).1 = ground (arith, x) in
        let same' : (n >>= k) h ≡ k a (m h).1 = ground (arith, x, e) in
        let (q, r) = rest a (m h).1 p in
        (ground (arith, same, same', q), subst (λ y. P y.1) (sym same) r)
    | inr (f, x) ↦
        let same : (m >>= j) h ≡ (err f, (m h).1) = ground (arith, x) in
        let same' : (n >>= k) h ≡ (err f, (m h).1) = ground (arith, x, e) in
        (ground (arith, same, same'), subst (λ y. P y.1) (sym same) p)
  ]

-- What follows a page.
abbrev after_page : {A : Type 0} → Fetch A → ℕ → ℕ → List A → ℕ × List A → Api (List A)
after_page f fuel page result reply =
    if is_last reply (result ++ reply.1)
    then pure (result ++ reply.1)
    else fetch_pages fuel f (page + 1) (result ++ reply.1)

module _ {A : Type 0} (f g : Fetch A) (P : History → Type 0)
    (agree : (page : ℕ) (h : History) → P h → AgreeAt P (f page) (g page) h) where
  fetch_pages-agree :
      (fuel page : ℕ) (result : List A) (h : History)
      → P h
      → AgreeAt P (fetch_pages fuel f page result) (fetch_pages fuel g page result) h
  unfolding fetch_pages
  fetch_pages-agree zero page result h p = (refl, p)
  fetch_pages-agree (suc fuel) page result h p =
      >>=-agree P (f page) (g page) (after_page f fuel page result) (after_page g fuel page result)
        h (agree page h p)
        (λ reply h' q. elim (Bool-cases (is_last reply (result ++ reply.1))) [
          | inl last ↦ rw last (refl, q)
          | inr more ↦ rw more (fetch_pages-agree fuel (page + 1) (result ++ reply.1) h' q)
        ])

  -- What is listed is the same too, and the property holds afterwards.
  pub list_all_pages-agree :
      (id : A → String) (fuel : ℕ) (h : History)
      → P h
      → AgreeAt P (list_all_pages id fuel f) (list_all_pages id fuel g) h
  unfolding list_all_pages
  list_all_pages-agree id fuel h p =
      >>=-agree P (fetch_pages fuel f 1 []) (fetch_pages fuel g 1 [])
        (λ result. pure (dedup id result)) (λ result. pure (dedup id result)) h
        (fetch_pages-agree fuel 1 [] h p) (λ result h' q. (refl, q))
