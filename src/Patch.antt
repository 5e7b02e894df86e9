-- ===== src/Patch.antt =====
-- The patch that puts a label on a service: `createJSONPatchForLabel` and `rfc6901Encoder` of
-- cloudstack/loadbalancer.go.
use Prim.Native.Char.{Char, char, code}
use text.Mathlib.TextEquality.{Char-path}
use custom_cloudstack_ccm.Prelude.{
  String, Option, none, some, true, ◌≡◌, refl, false, sym, ap, ◌∙◌, inl, inr, Bool-cases, arith,
  if◌then◌else◌, ◌==◌,
}
use custom_cloudstack_ccm.Prelude.Text.{append, lacks, strip_prefix, strip_prefix-append}

-- `rfc6901Encoder.Replace`
unfoldable pub encode_token : String → String
encode_token String.[] = String.[]
encode_token (String.◌∷◌ c s) =
    let rest = encode_token s in
    if code c == 126
    then String.◌∷◌ (char 126 tt) (String.◌∷◌ (char 48 tt) rest)
    else if code c == 47
    then String.◌∷◌ (char 126 tt) (String.◌∷◌ (char 49 tt) rest)
    else String.◌∷◌ c rest

unfoldable pub label_path : String → String
unfolding encode_token
label_path key = append "/metadata/labels/" (encode_token key)

-- The text, with the blanks of the format.
unfoldable pub create_json_patch_for_label : String → String → String
unfolding label_path
create_json_patch_for_label key value =
    append "[\n\t\t{\n\t\t\t\"op\": \"add\",\n\t\t\t\"path\": \""
      (append (label_path key) (append "\",\n\t\t\t\"value\": \"" (append value "\"\n\t\t}\n\t]")))

-- How RFC 6901 reads a token: "~1" is a slash and "~0" a tilde.
unescape : Char → Char
unescape c = if code c == 49 then char 47 tt else char 126 tt

unfoldable pub decode_token : String → String
unfolding unescape
decode_token String.[] = String.[]
decode_token (String.◌∷◌ c String.[]) = String.◌∷◌ c String.[]
decode_token (String.◌∷◌ c (String.◌∷◌ d s)) =
    let escaped = String.◌∷◌ (unescape d) (decode_token s) in
    let plain = String.◌∷◌ c (decode_token (String.◌∷◌ d s)) in
    if code c == 126 then escaped else plain

-- The label that a path into the labels names, where it is one token.
unfoldable pub read_label_path : String → Option String
unfolding decode_token
read_label_path path = elim (strip_prefix "/metadata/labels/" path) [
  | none ↦ none
  | some token ↦ if lacks (char 47 tt) token then some (decode_token token) else none
]

lacks-encode_token : (key : String) → lacks (char 47 tt) (encode_token key) ≡ true
unfolding encode_token
lacks-encode_token String.[] = refl
lacks-encode_token (String.◌∷◌ c key) = ground (arith, lacks-encode_token key)

decode_token-plain :
    (c : Char) (t : String)
    → (code c == 126) ≡ false
    → decode_token (String.◌∷◌ c t) ≡ String.◌∷◌ c (decode_token t)
unfolding decode_token
decode_token-plain c String.[] plain = refl
decode_token-plain c (String.◌∷◌ d t) plain = ground (arith, plain)

decode_token-encode_token : (key : String) → decode_token (encode_token key) ≡ key
unfolding encode_token decode_token unescape
decode_token-encode_token String.[] = refl
decode_token-encode_token (String.◌∷◌ c key) =
    let rest = decode_token-encode_token key in
    elim (Bool-cases (code c == 126)) [
      | inl tilde ↦
          rw (tilde, rest)
            (ap (λ d. String.◌∷◌ d key) (sym (Char-path c (char 126 tt) (ground (arith, tilde)))))
      | inr other ↦ elim (Bool-cases (code c == 47)) [
        | inl slash ↦
            rw (other, slash, rest)
              (ap (λ d. String.◌∷◌ d key) (sym (Char-path c (char 47 tt) (ground (arith, slash)))))
        | inr neither ↦
            rw (other, neither)
              (decode_token-plain c (encode_token key) other ∙ ap (λ t. String.◌∷◌ c t) rest)
      ]
    ]

-- The path of the patch for a label, read as a JSON pointer, names just that label of the service,
-- whatever slashes and tildes the key has.
pub read_label_path-label_path : (key : String) → read_label_path (label_path key) ≡ some key
unfolding read_label_path label_path
read_label_path-label_path key = ground (
  arith,
  strip_prefix-append "/metadata/labels/" (encode_token key),
  lacks-encode_token key,
  decode_token-encode_token key,
)
