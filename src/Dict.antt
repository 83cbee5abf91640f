-- ===== src/Dict.antt =====
-- Python's `dict` with text keys, as an association list in insertion order.
use gpt_jupyter_dns.Prelude.{
  ◌≡◌, refl, ◌==◌, eq_iff, Bool, Option, none, some, List, [], ◌∷◌, String, is_some, arith,
  if◌then◌else◌,
}

abbrev pub Dict {ℓ} : Type ℓ → Type ℓ
Dict V = List (String × V)

module _ {ℓ} {V : Type ℓ} where
  -- `list(d)`
  abbrev pub keys : Dict V → List String
  keys [] = []
  keys ((k, v) ∷ d) = k ∷ keys d

  -- `d.get(k)`
  unfoldable pub lookup : String → Dict V → Option V
  lookup k [] = none
  lookup k ((j, v) ∷ d) = if j == k then some v else lookup k d

  -- `k in d`
  unfoldable pub has_key : String → Dict V → Bool
  unfolding lookup
  has_key k d = is_some (lookup k d)

  -- `d[k] = v`
  unfoldable pub insert : String → V → Dict V → Dict V
  insert k v [] = (k, v) ∷ []
  insert k v ((j, w) ∷ d) = if j == k then (j, v) ∷ d else (j, w) ∷ insert k v d

  -- `{**d, **e}`
  unfoldable pub merge : Dict V → Dict V → Dict V
  unfolding insert
  merge d [] = d
  merge d ((k, v) ∷ e) = merge (insert k v d) e

  pub lookup-nil : (k : String) → lookup k [] ≡ none
  unfolding lookup
  lookup-nil k = refl

  pub lookup-cons :
      (k j : String) (v : V) (d : Dict V)
      → lookup k ((j, v) ∷ d) ≡ (if j == k then some v else lookup k d)
  unfolding lookup
  lookup-cons k j v d = refl

  pub lookup-insert :
      (k j : String) (v : V) (d : Dict V)
      → lookup k (insert j v d) ≡ (if j == k then some v else lookup k d)
  unfolding lookup insert
  lookup-insert k j v [] = refl
  lookup-insert k j v ((i, w) ∷ d) =
      ground (arith, lookup-insert k j v d, eq_iff i j, eq_iff i k, eq_iff j k)
