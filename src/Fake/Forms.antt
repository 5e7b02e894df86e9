-- ===== src/Fake/Forms.antt =====
-- The tags in a query: `parseTags` of cloudstack/fake/cloudstack.go.
use custom_cloudstack_ccm.Prelude.{
  String, Bool, true, false, Option, none, some, [], ◌∷◌, str_eq, if◌then◌else◌, string_eq,
}
use custom_cloudstack_ccm.Prelude.Dict.{Dict, lookup, insert}
use custom_cloudstack_ccm.Prelude.Text.{strip_prefix, is_digit}
use custom_cloudstack_ccm.Kube.{or_empty}
use custom_cloudstack_ccm.Fake.{Form, form_value}

-- The digits at the start of a text, and the rest.
take_digits : String → String × String
take_digits String.[] = (String.[], String.[])
take_digits (String.◌∷◌ c s) =
    let (digits, rest) = take_digits s in
    if is_digit c then (String.◌∷◌ c digits, rest) else (String.[], String.◌∷◌ c s)

key_or_value : String → String → Option (String × Bool)
key_or_value digits rest = elim (strip_prefix "key" rest) [
  | some _ ↦ some (digits, true)
  | none ↦ elim (strip_prefix "value" rest) [ some _ ↦ some (digits, false) | none ↦ none ]
]

after_digits : String × String → Option (String × Bool)
unfolding key_or_value
after_digits (digits, rest) =
    if str_eq digits ""
    then none
    else elim (strip_prefix "]." rest) [ none ↦ none | some end ↦ key_or_value digits end ]

-- The match of `tags\[(\d+)\]\.(key|value)` at the start of a text.
tag_at : String → Option (String × Bool)
unfolding after_digits take_digits
tag_at s = elim (strip_prefix "tags[" s) [
  | none ↦ none
  | some rest ↦ after_digits (take_digits rest)
]

-- Its first match in a text: the digits, and whether it is a key.
unfoldable pub find_tag : String → Option (String × Bool)
unfolding tag_at
find_tag String.[] = none
find_tag (String.◌∷◌ c s) = elim (tag_at (String.◌∷◌ c s)) [
  | some found ↦ some found
  | none ↦ find_tag s
]

-- The loop over the form, with `keys` and `values` so far.
collect :
    Form → Form → Dict String String → Dict String String → Dict String String × Dict String String
unfolding find_tag
collect form [] keys values = (keys, values)
collect form ((k, _) ∷ rest) keys values = elim (find_tag k) [
  | none ↦ collect form rest keys values
  | some (digits, is_key) ↦
      let v = form_value k form in
      collect form rest (if is_key then insert digits v keys else keys)
        (if is_key then values else insert digits v values)
]

pair_up : Dict String String → Dict String String → Dict String String → Dict String String
pair_up [] values result = result
pair_up ((id, k) ∷ keys) values result =
    pair_up keys values (insert k (or_empty (lookup id values)) result)

unfoldable pub parse_tags : Form → Dict String String
unfolding collect pair_up
parse_tags form = let (keys, values) = collect form form [] [] in pair_up keys values []
