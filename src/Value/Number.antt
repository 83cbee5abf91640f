-- ===== src/Value/Number.antt =====
-- Integers, and `int` on a text: blanks around, a sign, decimal digits with single underscores
-- between them.
use Prim.Native.Char.{code}
use gpt_jupyter_dns.Prelude.{
  ℕ, zero, suc, ◌+◌, ◌-◌, ◌*◌, String, Bool, true, false, ◌&&◌, ◌||◌, Option, none, some, List, [],
  ◌∷◌, leb, eqb, if◌then◌else◌,
}

-- `negsuc n` is -(n + 1).
pub data ℤ : Type 0 where
  pos : ℕ → ℤ
  negsuc : ℕ → ℤ

abbrev codes : String → List ℕ
codes String.[] = []
codes (String.◌∷◌ c s) = code c ∷ codes s

is_blank : ℕ → Bool
is_blank c = eqb c 32 || (leb 9 c && leb c 13)

is_digit : ℕ → Bool
is_digit c = leb b'0' c && leb c b'9'

-- Only blanks may follow.
blanks : List ℕ → Bool
unfolding is_blank
blanks [] = true
blanks (c ∷ cs) = is_blank c && blanks cs

-- The digits, of which `n` is read; the flag says that the last character was one.
digits : List ℕ → Bool → ℕ → Option ℕ
unfolding is_digit blanks
digits [] after_digit n = if after_digit then some n else none
digits (c ∷ cs) after_digit n =
    let number = digits cs true (n * 10 + (c - 48)) in
    let gap = digits cs false n in
    if is_digit c
    then number
    else if eqb c b'_' && after_digit
    then gap
    else if blanks (c ∷ cs) && after_digit
    then some n
    else none

negate : ℕ → ℤ
negate zero = pos zero
negate (suc n) = negsuc n

unsigned : List ℕ → Option ℤ
unfolding digits
unsigned cs = elim (digits cs false 0) [ none ↦ none | some n ↦ some (pos n) ]

signed : List ℕ → Option ℤ
unfolding unsigned negate
signed [] = none
signed (c ∷ cs) =
    if eqb c b'-'
    then elim (digits cs false 0) [ none ↦ none | some n ↦ some (negate n) ]
    else if eqb c b'+'
    then unsigned cs
    else unsigned (c ∷ cs)

trimmed : List ℕ → Option ℤ
unfolding signed is_blank
trimmed [] = none
trimmed (c ∷ cs) = let rest = trimmed cs in if is_blank c then rest else signed (c ∷ cs)

unfoldable pub parse_int : String → Option ℤ
unfolding trimmed
parse_int s = trimmed (codes s)
