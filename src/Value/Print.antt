-- ===== src/Value/Print.antt =====
-- The data type of values, and `str` and `repr`.
use Prim.Native.Char.{Char, code}
use gpt_jupyter_dns.Value.Number.{ℤ, pos, negsuc}
use gpt_jupyter_dns.Prelude.{
  ℕ, zero, suc, ◌/◌, ◌%◌, String, ◌<>◌, Bool, true, false, ◌&&◌, ◌||◌, not, ltb, eqb, if◌then◌else◌,
}

mutual
  pub data Value : Type 0 where
    null : Value
    bool : Bool → Value
    int : ℤ → Value
    str : String → Value
    list : Values → Value
    dict : Fields → Value

  pub data Values : Type 0 where
    nil : Values
    cons : Value → Values → Values

  pub data Fields : Type 0 where
    end : Fields
    field : String → Value → Fields → Fields

digit : ℕ → String
digit n =
    if eqb n 0
    then "0"
    else if eqb n 1
    then "1"
    else if eqb n 2
    then "2"
    else if eqb n 3
    then "3"
    else if eqb n 4
    then "4"
    else if eqb n 5
    then "5"
    else if eqb n 6
    then "6"
    else if eqb n 7
    then "7"
    else if eqb n 8
    then "8"
    else if eqb n 9
    then "9"
    else if eqb n 10
    then "a"
    else if eqb n 11
    then "b"
    else if eqb n 12
    then "c"
    else if eqb n 13
    then "d"
    else if eqb n 14
    then "e"
    else "f"

-- The fuel `n + 1` is enough: each round divides by ten.
decimal_from : ℕ → ℕ → String → String
unfolding digit
decimal_from zero n rest = rest
decimal_from (suc fuel) n rest =
    let more = decimal_from fuel (n / 10) (digit (n % 10) <> rest) in
    if ltb n 10 then digit n <> rest else more

unfoldable pub show_ℕ : ℕ → String
unfolding decimal_from
show_ℕ n = decimal_from (suc n) n ""

abbrev pub show_ℤ : ℤ → String
show_ℤ (pos n) = show_ℕ n
show_ℤ (negsuc n) = "-" <> show_ℕ (suc n)

has_code : ℕ → String → Bool
has_code n String.[] = false
has_code n (String.◌∷◌ c s) = eqb (code c) n || has_code n s

-- One character between quotes `q`. Code points above 127 are taken as printable.
escape : ℕ → Char → String
unfolding digit
escape q c =
    let n = code c in
    if eqb n b'\\'
    then "\\\\"
    else if eqb n q
    then "\\" <> String.◌∷◌ c String.[]
    else if eqb n 10
    then "\\n"
    else if eqb n 13
    then "\\r"
    else if eqb n 9
    then "\\t"
    else if ltb n 32 || eqb n 127
    then "\\x" <> digit (n / 16) <> digit (n % 16)
    else String.◌∷◌ c String.[]

escape_all : ℕ → String → String
unfolding escape
escape_all q String.[] = ""
escape_all q (String.◌∷◌ c s) = escape q c <> escape_all q s

-- `repr` of a text, as in `{name!r}`
unfoldable pub repr_text : String → String
unfolding has_code escape_all
repr_text s =
    if has_code 39 s && not (has_code 34 s)
    then "\"" <> escape_all 34 s <> "\""
    else "'" <> escape_all 39 s <> "'"

unfoldable mutual
  unfolding repr_text show_ℕ

  pub repr : Value → String
  repr null = "None"
  repr (bool true) = "True"
  repr (bool false) = "False"
  repr (int n) = show_ℤ n
  repr (str s) = repr_text s
  repr (list vs) = "[" <> repr_values vs "" <> "]"
  repr (dict fs) = "{" <> repr_fields fs "" <> "}"

  pub repr_values : Values → String → String
  repr_values nil separator = ""
  repr_values (cons v vs) separator = separator <> repr v <> repr_values vs ", "

  pub repr_fields : Fields → String → String
  repr_fields end separator = ""
  repr_fields (field k v fs) separator =
      separator <> repr_text k <> ": " <> repr v <> repr_fields fs ", "

-- `str(v)`
unfoldable pub to_text : Value → String
unfolding repr
to_text (str s) = s
to_text v = repr v
