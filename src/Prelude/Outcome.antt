-- ===== src/Prelude/Outcome.antt =====
-- Go's errors as values, and stateful code that can fail.
use Prim.Native.String.{String}
use mathlib.Core.Path.{◌≡◌, refl}
use mathlib.Core.Logic.{◌⊎◌, inl, inr}
use mathlib.Core.Bool.{Bool, true, false}
use native.Mathlib.Omega.{arith}
use custom_cloudstack_ccm.Prelude.Text.{has_part}

-- `failed` is an `errors.New` or an `fmt.Errorf` without a cause, `wrapped` one that formats its
-- cause: both keep the message's format and drop its arguments. `remote` is what a client returns,
-- with its text. The others are the values and types that the code tests for. A `panic` unwinds the
-- goroutine like an error. `out_of_fuel` is the model's own, for a loop that was cut off.
pub data Error : Type 0 where
  failed : String → Error
  wrapped : String → Error → Error
  remote : String → Error
  vm_not_found : Error
  instance_not_found : Error
  ip_not_found : String → Error
  panic : String → Error
  out_of_fuel : Error

-- Whether a panic is unwinding, through whatever would have formatted an error.
pub is_panic : Error → Bool
is_panic (panic _) = true
is_panic (wrapped _ e) = is_panic e
is_panic _ = false

-- `strings.Contains(err.Error(), part)`, for an error that comes from a client.
abbrev pub says : Error → String → Bool
says (remote text) part = has_part text part
says _ part = false

pub data Result {ℓ} (A : Type ℓ) : Type ℓ where
  ok : A → Result A
  err : Error → Result A

pub Result-cases {ℓ} :
    {A : Type ℓ} (r : Result A) → ((a : A) × (r ≡ ok a)) ⊎ ((e : Error) × (r ≡ err e))
Result-cases (ok a) = inl (a, refl)
Result-cases (err e) = inr (e, refl)

-- Code over a state of type `S`. What was done before an error stays done.
abbrev pub Action : Type 0 → Type 0 → Type 0
Action S A = S → Result A × S

module _ {S A : Type 0} where
  abbrev pub pure : A → Action S A
  pure a s = (ok a, s)

  abbrev pub throw : Error → Action S A
  throw e s = (err e, s)

  -- The value of a computation without state.
  abbrev pub lift : Result A → Action S A
  lift r s = (r, s)

  abbrev pub gets : (S → A) → Action S A
  gets f s = (ok (f s), s)

abbrev pub modify : {S : Type 0} → (S → S) → Action S (Unit {0})
modify f s = (ok tt, f s)

infixl 5 ◌>>=◌ ◌>>◌
abbrev pub ◌>>=◌ : {S A B : Type 0} → Action S A → (A → Action S B) → Action S B
◌>>=◌ m f s = let (r, s') = m s in elim r [ ok a ↦ f a s' | err e ↦ (err e, s') ]

abbrev pub ◌>>◌ : {S B : Type 0} → Action S (Unit {0}) → Action S B → Action S B
m >> k = m >>= λ _. k

-- `if cond { return err }`
abbrev pub throw_if : {S : Type 0} → Bool → Error → Action S (Unit {0})
throw_if true e s = (err e, s)
throw_if false e s = (ok tt, s)

-- `if err != nil { return fmt.Errorf(text, err) }`
abbrev pub wrap {ℓ} : {A : Type ℓ} → String → Result A → Result A
wrap text (ok a) = ok a
wrap text (err e) = err (wrapped text e)

abbrev pub wrapping : {S A : Type 0} → String → Action S A → Action S A
wrapping text m s = let (r, s') = m s in (wrap text r, s')

-- What a chain of steps that succeeds has done.
pub >>=-eq-ok :
    {S A B : Type 0} (m : Action S A) (f : A → Action S B) (s : S) {b : B}
    → ((m >>= f) s).0 ≡ ok b
    → (a : A) × ((m s).0 ≡ ok a) × ((f a (m s).1).0 ≡ ok b)
>>=-eq-ok m f s h = elim (Result-cases (m s).0) [
  | inl (a, e) ↦ (a, e, ground (arith, e))
  | inr (x, e) ↦ absurd (ground (arith, e))
]

pub throw_if-eq-ok :
    {S : Type 0} (b : Bool) (e : Error) (s : S) → (throw_if b e s).0 ≡ ok tt → b ≡ false
throw_if-eq-ok true e s h = cc
throw_if-eq-ok false e s h = refl
