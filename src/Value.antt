-- ===== src/Value.antt =====
-- The values that `yaml.safe_load` and `json.loads` return, with the Python operations that the
-- program applies to them: truth, `int`, `str`, iteration, subscripts, `.get` and `.items`.
-- A mapping has text keys, none of them twice. Floats and dates are left out: no manifest has one.
mod Number
mod Print
pub use Number.{ℤ, pos, negsuc}
unfoldable pub use Number.{parse_int}
pub use Print.{Value, null, bool, int, str, list, dict, Values, nil, cons, Fields, end, field}
unfoldable pub use Print.{show_ℕ, show_ℤ, repr_text, repr, to_text}
use Prim.Native.String
use gpt_jupyter_dns.Prelude.{
  ℕ, String, Bool, true, false, Option, none, some, List, [], ◌∷◌, ◌==◌, if◌then◌else◌, zero, not,
}
use gpt_jupyter_dns.Dict.{Dict, lookup, keys}
use gpt_jupyter_dns.Result.{
  Result, ok, err, Error, key_error, type_error, value_error, attribute_error,
}

-- `bool(v)`, and the test of `if v`
unfoldable pub truthy : Value → Bool
truthy null = false
truthy (bool b) = b
truthy (int (pos zero)) = false
truthy (int n) = true
truthy (str s) = not (s == "")
truthy (list nil) = false
truthy (list vs) = true
truthy (dict end) = false
truthy (dict d) = true

-- `int(v)`
unfoldable pub to_int : Value → Result ℤ
to_int (bool true) = ok (pos 1)
to_int (bool false) = ok (pos 0)
to_int (int n) = ok n
to_int (str s) = elim (parse_int s) [ none ↦ err value_error | some n ↦ ok n ]
to_int v = err type_error

abbrev pub items : Values → List Value
items nil = []
items (cons v vs) = v ∷ items vs

abbrev pub entries : Fields → Dict Value
entries end = []
entries (field k v fs) = (k, v) ∷ entries fs

abbrev chars : String → List Value
chars String.[] = []
chars (String.◌∷◌ c s) = str (String.◌∷◌ c String.[]) ∷ chars s

abbrev texts : List String → List Value
texts [] = []
texts (s ∷ ss) = str s ∷ texts ss

-- `tuple(v)`: a text gives its characters, a mapping its keys
unfoldable pub iterate : Value → Result (List Value)
iterate (list vs) = ok (items vs)
iterate (str s) = ok (chars s)
iterate (dict fs) = ok (texts (keys (entries fs)))
iterate v = err type_error

-- A list or a mapping cannot be hashed: it is no member of a set and no key.
abbrev pub is_hashable : Value → Bool
is_hashable (list vs) = false
is_hashable (dict fs) = false
is_hashable v = true

abbrev check_hashable : List Value → Result (List Value)
check_hashable [] = ok []
check_hashable (v ∷ vs) =
    if is_hashable v
    then elim (check_hashable vs) [ ok us ↦ ok (v ∷ us) | err e ↦ err e ]
    else err type_error

-- `frozenset(v)`, as the list of its members, with what occurs twice kept twice
unfoldable pub to_set : Value → Result (List Value)
unfolding iterate
to_set v = elim (iterate v) [ ok vs ↦ check_hashable vs | err e ↦ err e ]

-- `v.items()`; the callers also go through `v.get(k, default)` by it
unfoldable pub to_dict : Value → Result (Dict Value)
to_dict (dict fs) = ok (entries fs)
to_dict v = err attribute_error

-- `v[k]` at a text key
unfoldable pub subscript : Value → String → Result Value
subscript (dict fs) k = elim (lookup k (entries fs)) [ none ↦ err (key_error k) | some v ↦ ok v ]
subscript v k = err type_error

-- `d.get(k, default)` on a mapping
abbrev pub get_or : Dict Value → String → Value → Value
get_or d k default = elim (lookup k d) [ none ↦ default | some v ↦ v ]

-- `v == text`
abbrev pub is_text : String → Value → Bool
is_text s (str t) = t == s
is_text s v = false

-- `text in values`
abbrev pub has_text : String → List Value → Bool
has_text s [] = false
has_text s (v ∷ vs) = if is_text s v then true else has_text s vs

-- the mapping with these entries
abbrev pub of_entries : Dict Value → Fields
of_entries [] = end
of_entries ((k, v) ∷ d) = field k v (of_entries d)
