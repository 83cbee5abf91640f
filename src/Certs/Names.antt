-- ===== src/Certs/Names.antt =====
-- The alternative names that `ensure_cert` of `dnslab/certs.py` makes of the wanted names.
use gpt_jupyter_dns.Prelude.{
  String, ◌≡◌, refl, ap, sym, ◌⊎◌, inl, inr, eq_refl, Option-cases, true, Bool-cases, some, List,
  [], ◌∷◌, ◌==◌, contains, eq_iff, arith,
}
use mathlib.Core.Path.{subst}
use gpt_jupyter_dns.Result.{Result, ok, err, Result-cases}
use gpt_jupyter_dns.State.{Env}
use gpt_jupyter_dns.State.Files.{Files}
use gpt_jupyter_dns.Certs.{
  San, ip_san, dns_san, san_text, san_entry, and_entry, Crypto, san_texts, san_entries,
}

module _ {W K C : Type 0} (crypto : Crypto W K C) (files : Files W) (env : Env) where
  -- One of the texts is the name, or its canonical form when it is an address.
  abbrev pub Named : String → List String → Type 0
  Named s texts =
      (contains s texts ≡ true)
      ⊎ ((address : String) × (crypto.ip_address s ≡ some address)
          × (contains address texts ≡ true))

  Named-here : (s t : String) (ts : List String) → s ≡ t → Named s (t ∷ ts)
  Named-here s t ts e = inl (ground (arith, eq_refl t, e))

  Named-later : (s t : String) (ts : List String) → Named s ts → Named s (t ∷ ts)
  Named-later s t ts h = elim h [
    | inl there ↦ inl (ground (arith, there))
    | inr (a, is, there) ↦ inr (a, is, ground (arith, there))
  ]

  -- What is made of one name.
  san_entry-Named :
      (s : String) (e : San) (ts : List String)
      → san_entry crypto files env s ≡ ok e
      → Named s (san_text e ∷ ts)
  unfolding san_entry
  san_entry-Named s e ts h = elim (Option-cases (crypto.ip_address s)) [
    | inl no_address ↦ elim (Result-cases (crypto.dns_name s)) [
      | inl (_, fine) ↦
          let made : san_entry crypto files env s ≡ ok (dns_san s) =
            rw (san_entry, no_address, fine) in
          let is_dns : dns_san s ≡ e = cc (made, h) in
          Named-here s (san_text e) ts (ap san_text is_dns)
      | inr (x, refused) ↦
          let raised : san_entry crypto files env s ≡ err x = rw (san_entry, no_address, refused) in
          absurd (cc (raised, h))
    ]
    | inr (address, is) ↦
        let made : san_entry crypto files env s ≡ ok (ip_san address) = rw (san_entry, is) in
        let is_ip : ip_san address ≡ e = cc (made, h) in
        inr (
          address,
          is,
          (let same : address ≡ san_text e = ap san_text is_ip in
              ground (arith, eq_refl address, same)),
        )
  ]

  and_entry-ok :
      (r : Result San) (rs : Result (List San)) (es : List San)
      → and_entry crypto files env r rs ≡ ok es
      → (e : San) × (rest : List San) × (r ≡ ok e) × (rs ≡ ok rest) × (es ≡ e ∷ rest)
  and_entry-ok (err x) rs es h = absurd (cc)
  and_entry-ok (ok e) (err x) es h = absurd (cc)
  and_entry-ok (ok e) (ok rest) es h = (e, rest, refl, refl, cc)

  pub san_entries-Named :
      (ss : List String) (es : List San)
      → san_entries crypto files env ss ≡ ok es
      → (s : String) → contains s ss ≡ true
      → Named s (san_texts (some es))
  unfolding san_entries
  san_entries-Named [] es h s found = absurd (cc)
  san_entries-Named (t ∷ ss) es h s found =
      let (e, rest, first, others, split) =
        and_entry-ok (san_entry crypto files env t) (san_entries crypto files env ss) es h in
      subst (λ xs. Named s (san_texts (some xs))) (sym split)
        (elim (Bool-cases (t == s)) [
          | inl same ↦
              subst (λ x. Named x (san_text e ∷ san_texts (some rest))) ((eq_iff t s).0 same)
                (san_entry-Named t e (san_texts (some rest)) first)
          | inr other ↦
              Named-later s (san_text e) (san_texts (some rest))
                (san_entries-Named ss rest others s (ground (arith, other, found)))
        ])
