-- ===== src/Prelude/Text.antt =====
-- Python's text operations that the libraries lack: concatenation, `endswith`, `sorted`.
use Prim.Native.Nat.{Ordering}
use Prim.Native.String.{String, compare}
use mathlib.Core.Bool.{Bool, true, false, ◌||◌}
use mathlib.Core.List.{List, [], ◌∷◌}
use mathlib.Core.Path.{◌≡◌, refl}
use native.Mathlib.Omega.{arith}
use text.Mathlib.Text.{◌==◌}
use gpt_jupyter_dns.Prelude.Lists.{contains}
use Prim.Native.String

infixr 65 ◌<>◌
abbrev pub ◌<>◌ : String → String → String
s <> t = String.◌++◌ s t

-- `s.endswith(t)`
pub ends_with : String → String → Bool
ends_with String.[] t = "" == t
ends_with (String.◌∷◌ c s) t = String.◌∷◌ c s == t || ends_with s t

abbrev pub text_le : String → String → Bool
text_le s t = elim (compare s t) [ Ordering.gt ↦ false | _ ↦ true ]

-- `sorted` on texts
insert_sorted : String → List String → List String
insert_sorted s [] = s ∷ []
insert_sorted s (t ∷ ts) =
    let rest = insert_sorted s ts in elim (text_le s t) [ true ↦ s ∷ t ∷ ts | false ↦ t ∷ rest ]

unfoldable pub sorted : List String → List String
unfolding insert_sorted
sorted [] = []
sorted (s ∷ ss) = insert_sorted s (sorted ss)

contains-insert_sorted :
    (n s : String) (ts : List String) → contains n (insert_sorted s ts) ≡ contains n (s ∷ ts)
unfolding insert_sorted
contains-insert_sorted n s [] = refl
contains-insert_sorted n s (t ∷ ts) = ground (arith, contains-insert_sorted n s ts)

pub contains-sorted : (n : String) (ss : List String) → contains n (sorted ss) ≡ contains n ss
unfolding sorted
contains-sorted n [] = refl
contains-sorted n (s ∷ ss) =
    ground (arith, contains-insert_sorted n s (sorted ss), contains-sorted n ss)
