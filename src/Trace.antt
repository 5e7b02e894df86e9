-- ===== src/Trace.antt =====
-- What a piece of code may call, and what it returns where it succeeds: rules for the sequence, the
-- tests and the calls that the code of Balancer and Controller is made of.
use custom_cloudstack_ccm.Prelude.{
  ℕ, zero, suc, ◌+◌, String, Bool, true, false, List, [], ◌∷◌, ◌++◌, ◌≡◌, arith, inl, inr, sym,
  subst, if◌then◌else◌,
}
use custom_cloudstack_ccm.Prelude.Outcome.{
  Result, Result-cases, ok, err, Error, pure, throw, throw_if, out_of_fuel, lift, wrap, wrapping,
  ◌>>=◌, ◌>>◌,
}
use custom_cloudstack_ccm.Config.{Client}
use custom_cloudstack_ccm.Api.{Api, Event, History, Request, call, cloudstack}
use custom_cloudstack_ccm.Pages.{Fetch, is_last, fetch_pages, list_all_pages, dedup}

-- The second history is the first one with more calls, which all satisfy `P`.
pub data Adds (P : Event → Type 0) (h : History) : History → Type 0 where
  nothing : Adds P h h
  more : {h' : History} (e : Event) → P e → Adds P h h' → Adds P h (e ∷ h')

module _ {P : Event → Type 0} where
  pub Adds-trans : {a b c : History} → Adds P a b → Adds P b c → Adds P a c
  Adds-trans f nothing = f
  Adds-trans f (more e p g) = more e p (Adds-trans f g)

-- The code's calls satisfy `P`, and what it returns satisfies `Q`.
abbrev pub Does : (P : Event → Type 0) {A : Type 0} → (A → Type 0) → Api A → Type 0
Does P {A} Q m = (h : History) → Adds P h (m h).1 × ((a : A) → (m h).0 ≡ ok a → Q a)

-- Nothing is said of what is returned.
abbrev pub Any : {A : Type 0} → A → Type 0
Any a = Unit {0}

unwrap-ok : {A : Type 0} (text : String) (r : Result A) (a : A) → wrap text r ≡ ok a → r ≡ ok a
unwrap-ok text (ok b) a e = e
unwrap-ok text (err x) a e = absurd (ground (arith, e))

module _ {A B : Type 0} (m : Api A) (f : A → Api B) (h : History) where
  >>=-ok : (a : A) → (m h).0 ≡ ok a → (m >>= f) h ≡ f a (m h).1
  >>=-ok a e = ground (arith, e)

  >>=-err : (x : Error) → (m h).0 ≡ err x → (m >>= f) h ≡ (err x, (m h).1)
  >>=-err x e = ground (arith, e)

module _ (P : Event → Type 0) where
  pub Does-pure : {A : Type 0} (Q : A → Type 0) (a : A) → Q a → Does P Q (pure a)
  Does-pure Q a q h = (nothing, λ b e. subst Q (ground (arith, e)) q)

  pub Does-lift :
      {A : Type 0} (Q : A → Type 0) (r : Result A) → ((a : A) → r ≡ ok a → Q a) → Does P Q (lift r)
  Does-lift Q r q h = (nothing, q)

  Does-throw : {A : Type 0} (e : Error) → Does P (Any {A = A}) (throw e)
  Does-throw e h = (nothing, λ a x. tt)

  pub Does-throw_if : (b : Bool) (e : Error) → Does P Any (throw_if b e)
  Does-throw_if true e h = (nothing, λ a x. tt)
  Does-throw_if false e h = (nothing, λ a x. tt)

  pub Does-if :
      {A : Type 0} (Q : A → Type 0) (b : Bool) (m n : Api A)
      → Does P Q m
      → Does P Q n
      → Does P Q (if b then m else n)
  Does-if Q true m n f g = f
  Does-if Q false m n f g = g

  pub Does-call :
      {A : Type 0} (client : Client) (request : Request) (answer : History → Result A)
      → P (cloudstack client request)
      → Does P Any (call client request answer)
  Does-call client request answer p h = (more (cloudstack client request) p nothing, λ a e. tt)

  pub Does-wrapping :
      {A : Type 0} (Q : A → Type 0) (text : String) (m : Api A)
      → Does P Q m
      → Does P Q (wrapping text m)
  Does-wrapping Q text m f h = ((f h).0, λ a e. (f h).1 a (unwrap-ok text (m h).0 a e))

  pub Does->>= :
      {A B : Type 0} (Q : A → Type 0) (R : B → Type 0) (m : Api A) (f : A → Api B)
      → Does P Q m
      → ((a : A) → Q a → Does P R (f a))
      → Does P R (m >>= f)
  Does->>= Q R m f d k h = elim (Result-cases (m h).0) [
    | inl (a, e) ↦
        let (g, r) = k a ((d h).1 a e) (m h).1 in
        let same = >>=-ok m f h a e in
        (
          subst (λ x. Adds P h x.1) (sym same) (Adds-trans (d h).0 g),
          λ b x. r b (ground (arith, x, same)),
        )
    | inr (x, e) ↦
        let same = >>=-err m f h x e in
        (subst (λ y. Adds P h y.1) (sym same) (d h).0, λ b y. absurd (ground (arith, y, same)))
  ]

  -- A sequence whose first value does not matter.
  pub Does->> :
      {B : Type 0} (R : B → Type 0) (m : Api (Unit {0})) (n : Api B)
      → Does P Any m
      → Does P R n
      → Does P R (m >> n)
  Does->> R m n d k = Does->>= Any R m (λ _. n) d (λ _ _. k)

  pub Does-weaken :
      {A : Type 0} (Q R : A → Type 0) (m : Api A) → ((a : A) → Q a → R a) → Does P Q m → Does P R m
  Does-weaken Q R m w d h = ((d h).0, λ a e. w a ((d h).1 a e))

  Does-fetch_pages :
      {A : Type 0} (fetch : Fetch A)
      → ((page : ℕ) → Does P Any (fetch page))
      → (fuel page : ℕ) (result : List A) → Does P Any (fetch_pages fuel fetch page result)
  unfolding fetch_pages
  Does-fetch_pages fetch d zero page result = Does-throw out_of_fuel
  Does-fetch_pages fetch d (suc fuel) page result =
      Does->>= Any Any (fetch page) _ (d page) (λ reply _.
        Does-if Any (is_last reply (result ++ reply.1)) (pure (result ++ reply.1))
          (fetch_pages fuel fetch (page + 1) (result ++ reply.1))
          (Does-pure Any (result ++ reply.1) tt)
          (Does-fetch_pages fetch d fuel (page + 1) (result ++ reply.1)))

  pub Does-list_all_pages :
      {A : Type 0} (id : A → String) (fuel : ℕ) (fetch : Fetch A)
      → ((page : ℕ) → Does P Any (fetch page))
      → Does P Any (list_all_pages id fuel fetch)
  unfolding list_all_pages
  Does-list_all_pages id fuel fetch d =
      Does->>= Any Any (fetch_pages fuel fetch 1 []) (λ result. pure (dedup id result))
        (Does-fetch_pages fetch d fuel 1 []) (λ result _. Does-pure Any (dedup id result) tt)
