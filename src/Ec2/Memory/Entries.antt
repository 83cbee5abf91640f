-- ===== src/Ec2/Memory/Entries.antt =====
-- The state file of `dnslab/providers/ec2.py` as a mapping from names to entries: what remembering and
-- forgetting do to each entry.
use mathlib.Core.Path.{subst}
use gpt_jupyter_dns.Prelude.{
  String, ◌≡◌, refl, ap, sym, ◌∙◌, inl, inr, Bool, true, false, Option, none, some, List, [], ◌∷◌,
  ◌==◌, eq_iff, contains, Bool-cases, arith, if◌then◌else◌,
}
use gpt_jupyter_dns.Dict.{Dict, lookup, insert, lookup-insert}
use gpt_jupyter_dns.Result.{ok, ◌>>=◌, >>=-eq-ok}
use gpt_jupyter_dns.Value.{Value, dict, end, entries, to_dict, get_or, of_entries}
use gpt_jupyter_dns.Model.{Instance}
use gpt_jupyter_dns.Ec2.Memory.{
  entry_of, instances_of, remembered, is_forgotten, unless_forgotten, without_names,
  store_instances, forgotten,
}

entries-of_entries : (d : Dict Value) → entries (of_entries d) ≡ d
entries-of_entries [] = refl
entries-of_entries ((k, v) ∷ d) = ap (λ rest. (k, v) ∷ rest) (entries-of_entries d)

to_dict-dict : (d : Dict Value) → to_dict (dict (of_entries d)) ≡ ok d
unfolding to_dict
to_dict-dict d = ap ok (entries-of_entries d)

-- The mapping that is stored under `instances` is the one that is read.
instances_of-insert :
    (d known : Dict Value)
    → instances_of (dict (of_entries (insert "instances" (dict (of_entries known)) d))) ≡ ok known
unfolding instances_of ◌>>=◌
instances_of-insert d known = rw (to_dict-dict (insert "instances" (dict (of_entries known)) d)) (
    rw (lookup-insert "instances" "instances" (dict (of_entries known)) d, get_or)
      (to_dict-dict known))

state-to_dict :
    (st : Value) (known : Dict Value)
    → instances_of st ≡ ok known
    → (d : Dict Value) × (to_dict st ≡ ok d)
      × (to_dict (get_or d "instances" (dict end)) ≡ ok known)
unfolding instances_of
state-to_dict st known h = >>=-eq-ok (to_dict st) _ h

remembered-ok :
    (i : Instance) (st : Value) (known d : Dict Value)
    → to_dict st ≡ ok d
    → to_dict (get_or d "instances" (dict end)) ≡ ok known
    → remembered i st
      ≡ ok (
          dict (
            of_entries (
              insert "instances"
                (dict (of_entries (insert i.name (dict (of_entries (entry_of i))) known)))
                d)))
unfolding remembered ◌>>=◌
remembered-ok i st known d d_ok h = rw (d_ok, get_or, h) refl

-- An instance that is remembered in a well-formed state is found under its name, with its entry, and
-- no other name's entry changes.
pub remembered-lookup :
    (i : Instance) (st : Value) (known : Dict Value)
    → instances_of st ≡ ok known
    → (st' : Value) × (known' : Dict Value) × (remembered i st ≡ ok st')
      × (instances_of st' ≡ ok known')
      × ((k : String)
          → lookup k known'
            ≡ (if i.name == k then some (dict (of_entries (entry_of i))) else lookup k known))
remembered-lookup i st known h =
    let (d, d_ok, known_ok) = state-to_dict st known h in
    let known' = insert i.name (dict (of_entries (entry_of i))) known in
    (
      dict (of_entries (insert "instances" (dict (of_entries known')) d)),
      known',
      remembered-ok i st known d d_ok known_ok,
      instances_of-insert d known',
      λ k. lookup-insert k i.name (dict (of_entries (entry_of i))) known,
    )

is_forgotten-contains :
    (names : List String) (k : String) (v : Value)
    → contains k names ≡ true
    → is_forgotten names k v ≡ ok true
unfolding is_forgotten
is_forgotten-contains names k v h = rw (h) refl

-- What `without_names` keeps of one entry.
without-cons :
    (names : List String) (j : String) (v : Value) (d d' : Dict Value)
    → without_names names ((j, v) ∷ d) ≡ ok d'
    → (gone : Bool) × (rest : Dict Value) × (is_forgotten names j v ≡ ok gone)
      × (without_names names d ≡ ok rest)
      × (unless_forgotten gone (j, v) rest ≡ d')
unfolding without_names
without-cons names j v d d' h =
    let (gone, e, h₁) = >>=-eq-ok (is_forgotten names j v) _ h in
    let (rest, e₁, h₂) = >>=-eq-ok (without_names names d) _ h₁ in (gone, rest, e, e₁, cc)

without-nil :
    (names : List String) (d d' : Dict Value) → d ≡ [] → without_names names d ≡ ok d' → d' ≡ []
unfolding without_names
without-nil names d d' empty h = cc (rw (empty) at h)

without-forgets :
    (names : List String) (k : String) (d d' : Dict Value)
    → without_names names d ≡ ok d'
    → contains k names ≡ true
    → lookup k d' ≡ none
unfolding without_names lookup unless_forgotten
without-forgets names k [] d' h named = let same : d' ≡ [] = cc in rw (same) refl
without-forgets names k ((j, v) ∷ d) d' h named =
    let (gone, rest, e, e₁, e₂) = without-cons names j v d d' h in
    let none_left = without-forgets names k d rest e₁ named in
    elim (Bool-cases gone) [
      | inl y ↦ ground (arith, y, e₂, none_left)
      | inr n ↦ elim (Bool-cases (j == k)) [
        | inl same ↦
            let sure = is_forgotten-contains names k v named in
            let jk : j ≡ k = ground (arith, eq_iff j k, same) in absurd (cc (e, n, sure, jk))
        | inr other ↦ ground (arith, n, e₂, none_left, other)
      ]
    ]

without-keeps :
    (names : List String) (k : String) (v : Value) (d d' : Dict Value)
    → without_names names d ≡ ok d'
    → lookup k d ≡ some v
    → is_forgotten names k v ≡ ok false
    → lookup k d' ≡ some v
unfolding without_names lookup unless_forgotten
without-keeps names k v [] d' h found stays = absurd (cc)
without-keeps names k v ((j, u) ∷ d) d' h found stays =
    let (gone, rest, e, e₁, e₂) = without-cons names j u d d' h in
    elim (Bool-cases (j == k)) [
      | inl same ↦
          let jk : j ≡ k = ground (arith, eq_iff j k, same) in
          let uv : u ≡ v = ground (arith, same, found) in
          let kept : gone ≡ false = cc (e, stays, jk, uv) in ground (arith, kept, e₂, same, uv)
      | inr other ↦
          let later = without-keeps names k v d rest e₁ (ground (arith, other, found)) stays in
          elim (Bool-cases gone) [
            | inl y ↦ ground (arith, y, e₂, later)
            | inr n ↦ ground (arith, n, e₂, other, later)
          ]
    ]

default-empty :
    (d known : Dict Value)
    → lookup "instances" d ≡ none
    → to_dict (get_or d "instances" (dict end)) ≡ ok known
    → known ≡ []
unfolding to_dict
default-empty d known e h = cc (rw (e, get_or) at h)

instances_of-default :
    (d : Dict Value) → lookup "instances" d ≡ none → instances_of (dict (of_entries d)) ≡ ok []
unfolding instances_of ◌>>=◌ to_dict
instances_of-default d e = rw (entries-of_entries d) (rw (e, get_or) refl)

-- The mapping that is left is the one that is read, also where none was stored.
instances_of-store :
    (o : Option Value) (d known kept : Dict Value)
    → lookup "instances" d ≡ o
    → to_dict (get_or d "instances" (dict end)) ≡ ok known
    → (known ≡ [] → kept ≡ [])
    → instances_of (store_instances o kept d) ≡ ok kept
unfolding store_instances
instances_of-store (some v) d known kept e h empty = instances_of-insert d kept
instances_of-store none d known kept e h empty =
    let none_stored : known ≡ [] = default-empty d known e h in
    instances_of-default d e ∙ ap ok (sym (empty none_stored))

-- When forgetting names in a well-formed state returns, none of them has an entry, and an entry that
-- is under another name and has none of them for its id is kept.
pub forgotten-lookup :
    (names : List String) (st st' : Value) (known : Dict Value)
    → instances_of st ≡ ok known
    → forgotten names st ≡ ok st'
    → (known' : Dict Value) × (instances_of st' ≡ ok known')
      × ((k : String) → contains k names ≡ true → lookup k known' ≡ none)
      × ((k : String) (v : Value)
          → lookup k known ≡ some v
          → is_forgotten names k v ≡ ok false
          → lookup k known' ≡ some v)
unfolding forgotten
forgotten-lookup names st st' known h done =
    let (d, d_ok, known_ok) = state-to_dict st known h in
    let (d₁, e₁, h₁) = >>=-eq-ok (to_dict st) _ done in
    let (known₁, e₂, h₂) = >>=-eq-ok (instances_of st) _ h₁ in
    let (kept, e₃, h₃) = >>=-eq-ok (without_names names known₁) _ h₂ in
    let same : known₁ ≡ known = cc (e₂, h) in
    let same_d : d ≡ d₁ = cc (d_ok, e₁) in
    let stored : store_instances (lookup "instances" d₁) kept d₁ ≡ st' = cc (h₃) in
    let left : without_names names known ≡ ok kept = ap (without_names names) (sym same) ∙ e₃ in
    (
      kept,
      ap instances_of (sym stored)
          ∙ instances_of-store (lookup "instances" d₁) d₁ known kept refl
              (subst (λ x. to_dict (get_or x "instances" (dict end)) ≡ ok known) same_d known_ok)
              (λ empty. without-nil names known kept empty left),
      λ k named. without-forgets names k known kept left named,
      λ k v found stays. without-keeps names k v known kept left found stays,
    )
