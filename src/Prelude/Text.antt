-- ===== src/Prelude/Text.antt =====
-- Texts: what the program uses of Go's `strings` and `strconv` packages.
use Prim.Native.Nat.{ℕ, zero, suc, ◌+◌, ◌-◌, ◌*◌, ◌/◌, ◌%◌, ◌<◌}
use Prim.Native.Char.{Char, code}
use Prim.Native.String.{String, ◌++◌ as str_append}
use text.Mathlib.TextLemmas.{nil-append, cons-append}
use mathlib.Core.Path.{◌≡◌, refl, ap, sym, ◌∙◌}
use mathlib.Core.Bool.{Bool, true, false, ◌&&◌, ◌||◌, not}
use mathlib.Core.List.{List, [], ◌∷◌}
use mathlib.Core.Option.{Option, none, some}
use native.Mathlib.Omega.{arith}
use custom_cloudstack_ccm.Prelude.Sort.{IsWeakOrder}
use custom_cloudstack_ccm.Prelude.Tests.{if◌then◌else◌, ltb, ltb→lt, ◌==◌, Bool-cases}
use mathlib.Core.Logic.{inl, inr}

abbrev pub append : String → String → String
append = str_append

-- `a < b` on texts. The order of the bytes of UTF-8 is that of the characters' numbers.
unfoldable pub text_less : String → String → Bool
text_less String.[] String.[] = false
text_less String.[] (String.◌∷◌ d t) = true
text_less (String.◌∷◌ c s) String.[] = false
text_less (String.◌∷◌ c s) (String.◌∷◌ d t) =
    ltb (code c) (code d) || (code c == code d && text_less s t)

text_less_asymm : (a b : String) → text_less a b ≡ true → text_less b a ≡ false
unfolding text_less
text_less_asymm String.[] String.[] h = refl
text_less_asymm String.[] (String.◌∷◌ d t) h = refl
text_less_asymm (String.◌∷◌ c s) String.[] h = ground arith
text_less_asymm (String.◌∷◌ c s) (String.◌∷◌ d t) h = ground (arith, text_less_asymm s t)

text_not_less_trans :
    (a b c : String) → text_less b a ≡ false → text_less c b ≡ false → text_less c a ≡ false
unfolding text_less
text_not_less_trans String.[] b String.[] h k = refl
text_not_less_trans String.[] b (String.◌∷◌ z c) h k = refl
text_not_less_trans (String.◌∷◌ x a) String.[] c h k = ground arith
text_not_less_trans (String.◌∷◌ x a) (String.◌∷◌ y b) String.[] h k = ground arith
text_not_less_trans (String.◌∷◌ x a) (String.◌∷◌ y b) (String.◌∷◌ z c) h k =
    ground (arith, text_not_less_trans a b c)

pub text_less-IsWeakOrder : IsWeakOrder text_less
text_less-IsWeakOrder = record { asymm = text_less_asymm; not_less_trans = text_not_less_trans }

-- `strings.HasPrefix` and `strings.TrimPrefix` in one: the rest of the text after a prefix.
unfoldable pub strip_prefix : String → String → Option String
strip_prefix String.[] s = some s
strip_prefix (String.◌∷◌ c p) String.[] = none
strip_prefix (String.◌∷◌ c p) (String.◌∷◌ d s) =
    let rest = strip_prefix p s in if code c == code d then rest else none

pub strip_prefix-append : (p s : String) → strip_prefix p (append p s) ≡ some s
unfolding strip_prefix
strip_prefix-append String.[] s = ap some (nil-append s)
strip_prefix-append (String.◌∷◌ c p) s =
    rw (cons-append c p s) (ground (arith, strip_prefix-append p s))

-- `strings.TrimPrefix`
unfoldable pub trim_prefix : String → String → String
trim_prefix s p = elim (strip_prefix p s) [ none ↦ s | some rest ↦ rest ]

-- `strings.Contains`
pub has_part : String → String → Bool
has_part String.[] p = elim (strip_prefix p String.[]) [ none ↦ false | some _ ↦ true ]
has_part (String.◌∷◌ c s) p =
    let rest = has_part s p in
    elim (strip_prefix p (String.◌∷◌ c s)) [ none ↦ rest | some _ ↦ true ]

abbrev push_head : Char → List String → List String
push_head c [] = String.◌∷◌ c String.[] ∷ []
push_head c (h ∷ t) = String.◌∷◌ c h ∷ t

-- `strings.Split` with a separator of one character
unfoldable pub split : Char → String → List String
split sep String.[] = String.[] ∷ []
split sep (String.◌∷◌ c s) =
    let rest = split sep s in if code c == code sep then String.[] ∷ rest else push_head c rest

-- `strings.Join`
pub join : String → List String → String
join sep [] = String.[]
join sep (s ∷ []) = s
join sep (s ∷ t ∷ r) = append s (append sep (join sep (t ∷ r)))

-- The character does not occur in the text.
abbrev pub lacks : Char → String → Bool
lacks sep String.[] = true
lacks sep (String.◌∷◌ c s) = not (code c == code sep) && lacks sep s

pub split_of_lacks : (sep : Char) (s : String) → lacks sep s ≡ true → split sep s ≡ s ∷ []
unfolding split
split_of_lacks sep String.[] h = refl
split_of_lacks sep (String.◌∷◌ c s) h = ground (arith, split_of_lacks sep s)

pub split-append :
    (sep : Char) (s t : String)
    → lacks sep s ≡ true
    → split sep (append s (String.◌∷◌ sep t)) ≡ s ∷ split sep t
unfolding split
split-append sep String.[] t h = rw (nil-append (String.◌∷◌ sep t)) (ground arith)
split-append sep (String.◌∷◌ c s) t h =
    rw (cons-append c s (String.◌∷◌ sep t)) (ground (arith, split-append sep s t))

pub trim_prefix-append : (p s : String) → trim_prefix (append p s) p ≡ s
unfolding trim_prefix
trim_prefix-append p s = ground (arith, strip_prefix-append p s)

-- Two texts without the separator, joined by it and split again.
pub split-join_two :
    (sep : Char) (a b : String)
    → lacks sep a ≡ true
    → lacks sep b ≡ true
    → split sep (join (String.◌∷◌ sep String.[]) (a ∷ b ∷ [])) ≡ a ∷ b ∷ []
unfolding join
split-join_two sep a b ha hb =
    rw (cons-append sep String.[] b, nil-append b, split-append sep a b ha)
      (rw (split_of_lacks sep b hb) refl)

-- Three texts without the separator, joined by it and split again.
pub split-join_three :
    (sep : Char) (a b c : String)
    → lacks sep a ≡ true
    → lacks sep b ≡ true
    → lacks sep c ≡ true
    → split sep (join (String.◌∷◌ sep String.[]) (a ∷ b ∷ c ∷ [])) ≡ a ∷ b ∷ c ∷ []
unfolding join
split-join_three sep a b c ha hb hc =
    rw
      (
        cons-append sep String.[] c,
        nil-append c,
        cons-append sep String.[] (append b (String.◌∷◌ sep c)),
        nil-append (append b (String.◌∷◌ sep c)),
        split-append sep a (append b (String.◌∷◌ sep c)) ha,
        split-append sep b c hb,
      )
      (rw (split_of_lacks sep c hc) refl)

-- The character of `to` at the place where `c` stands in `from`, or `c`.
abbrev translate : String → String → Char → Char
translate (String.◌∷◌ a from) (String.◌∷◌ b to) c =
    let rest = translate from to c in if code c == code a then b else rest
translate _ _ c = c

-- `strings.ToUpper`, on the letters of ASCII
pub to_upper : String → String
to_upper String.[] = String.[]
to_upper (String.◌∷◌ c s) =
    String.◌∷◌ (translate "abcdefghijklmnopqrstuvwxyz" "ABCDEFGHIJKLMNOPQRSTUVWXYZ" c) (to_upper s)

digit : ℕ → Char
digit zero = "0"
digit (suc zero) = "1"
digit (suc (suc zero)) = "2"
digit (suc (suc (suc zero))) = "3"
digit (suc (suc (suc (suc zero)))) = "4"
digit (suc (suc (suc (suc (suc zero))))) = "5"
digit (suc (suc (suc (suc (suc (suc zero)))))) = "6"
digit (suc (suc (suc (suc (suc (suc (suc zero))))))) = "7"
digit (suc (suc (suc (suc (suc (suc (suc (suc zero)))))))) = "8"
digit _ = "9"

-- The digits of `n` in front of a text; the fuel bounds their number.
emit : ℕ → ℕ → String → String
unfolding digit
emit zero n out = out
emit (suc f) n out =
    let rest = emit f (n / 10) (String.◌∷◌ (digit (n % 10)) out) in
    if ltb n 10 then String.◌∷◌ (digit n) out else rest

-- `strconv.Itoa` of a number that is not negative
unfoldable pub itoa : ℕ → String
unfolding emit
itoa n = emit (suc n) n String.[]

-- The number that a text of digits continues.
value : ℕ → String → ℕ
value a String.[] = a
value a (String.◌∷◌ c s) = value (a * 10 + (code c - 48)) s

code-digit : (n : ℕ) → n < 10 → code (digit n) ≡ n + 48
unfolding digit
code-digit zero h = refl
code-digit (suc zero) h = refl
code-digit (suc (suc zero)) h = refl
code-digit (suc (suc (suc zero))) h = refl
code-digit (suc (suc (suc (suc zero)))) h = refl
code-digit (suc (suc (suc (suc (suc zero))))) h = refl
code-digit (suc (suc (suc (suc (suc (suc zero)))))) h = refl
code-digit (suc (suc (suc (suc (suc (suc (suc zero))))))) h = refl
code-digit (suc (suc (suc (suc (suc (suc (suc (suc zero)))))))) h = refl
code-digit (suc (suc (suc (suc (suc (suc (suc (suc (suc n))))))))) h = omega arith

value-emit : (f n : ℕ) (out : String) → n < f → value 0 (emit f n out) ≡ value n out
unfolding emit value
value-emit zero n out h = absurd (omega arith)
value-emit (suc f) n out h = elim (Bool-cases (ltb n 10)) [
  | inl one ↦ rw one (ap (λ k. value k out) (omega (arith, code-digit n, ltb→lt n 10 one)))
  | inr more ↦ rw more (
      value-emit f (n / 10) _ (ground arith)
      ∙ ap (λ k. value k out) (omega (arith, code-digit (n % 10))))
]

pub itoa_inj : (m n : ℕ) → itoa m ≡ itoa n → m ≡ n
unfolding itoa emit value
itoa_inj m n h =
    sym (value-emit (suc m) m String.[] (omega arith))
    ∙ ap (value 0) h
    ∙ value-emit (suc n) n String.[] (omega arith)

abbrev pub is_digit : Char → Bool
is_digit c = ltb 47 (code c) && ltb (code c) 58

-- The number that the digits of a text stand for, after `n`; `none` at another character.
scan_digits : ℕ → String → Option ℕ
scan_digits n String.[] = some n
scan_digits n (String.◌∷◌ c s) =
    let rest = scan_digits (n * 10 + (code c - 48)) s in if is_digit c then rest else none

-- `strconv.Atoi` of a text without a sign, and the 0 that it returns with an error.
unfoldable pub atoi : String → ℕ
unfolding scan_digits
atoi String.[] = 0
atoi (String.◌∷◌ c s) = elim (scan_digits 0 (String.◌∷◌ c s)) [ none ↦ 0 | some n ↦ n ]

-- The last digit of a text: what the regular expression `.*(\d+)` captures in one line.
unfoldable pub last_digit : String → Option ℕ
last_digit String.[] = none
last_digit (String.◌∷◌ c s) = elim (last_digit s) [
  | some n ↦ some n
  | none ↦ if is_digit c then some (code c - 48) else none
]
