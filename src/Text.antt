-- ===== src/Text.antt =====
-- The text methods that the checks use: `strip`, slicing, padding, and `repr` of a list of texts.
use Prim.Native.Char.{Char, code}
use gpt_jupyter_dns.Prelude.{
  ℕ, zero, suc, String, ◌<>◌, Bool, ◌||◌, ◌&&◌, List, [], ◌∷◌, leb, eqb, ◌==◌, starts_with,
  if◌then◌else◌,
}
use gpt_jupyter_dns.Value.{repr_text}

-- `c.isspace()`, on a code point
is_space : ℕ → Bool
is_space c =
    (leb 9 c && leb c 13)
    || (leb 28 c && leb c 32)
    || eqb c 133
    || eqb c 160
    || eqb c 5760
    || (leb 8192 c && leb c 8202)
    || eqb c 8232
    || eqb c 8233
    || eqb c 8239
    || eqb c 8287
    || eqb c 12288

unfoldable pub lstrip : String → String
unfolding is_space
lstrip String.[] = String.[]
lstrip (String.◌∷◌ c s) = let rest = lstrip s in if is_space (code c) then rest else String.◌∷◌ c s

cons_unless_blank : Char → String → String
unfolding is_space
cons_unless_blank c String.[] = if is_space (code c) then String.[] else String.◌∷◌ c String.[]
cons_unless_blank c s = String.◌∷◌ c s

unfoldable pub rstrip : String → String
unfolding cons_unless_blank
rstrip String.[] = String.[]
rstrip (String.◌∷◌ c s) = cons_unless_blank c (rstrip s)

-- `s.strip()`
abbrev pub strip : String → String
strip s = rstrip (lstrip s)

-- `s[:n]`
unfoldable pub take : ℕ → String → String
take zero s = String.[]
take (suc n) String.[] = String.[]
take (suc n) (String.◌∷◌ c s) = String.◌∷◌ c (take n s)

-- `f"{s:ns}"`: blanks on the right, up to `n` characters
unfoldable pub pad : ℕ → String → String
pad zero s = s
pad (suc n) String.[] = " " <> pad n String.[]
pad (suc n) (String.◌∷◌ c s) = String.◌∷◌ c (pad n s)

abbrev separated : List String → String
separated [] = ""
separated (s ∷ []) = repr_text s
separated (s ∷ t ∷ ss) = repr_text s <> ", " <> separated (t ∷ ss)

-- `repr` of a list of texts
abbrev pub repr_list : List String → String
repr_list ss = "[" <> separated ss <> "]"

-- `t in s`
unfoldable pub has_substring : String → String → Bool
has_substring t String.[] = t == ""
has_substring t (String.◌∷◌ c s) = starts_with (String.◌∷◌ c s) t || has_substring t s

-- `sep.join(ss)`
unfoldable pub join_texts : String → List String → String
join_texts sep [] = ""
join_texts sep (s ∷ []) = s
join_texts sep (s ∷ t ∷ ss) = s <> sep <> join_texts sep (t ∷ ss)
