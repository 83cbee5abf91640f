-- ===== src/Certs/Issued.antt =====
-- The certificate that `ensure_cert` of `dnslab/certs.py` leaves, over a store that keeps what is
-- written.
use gpt_jupyter_dns.Prelude.{
  String, ◌<>◌, ◌≡◌, refl, ap, sym, ◌∙◌, ◌⊎◌, inl, inr, Bool, true, false, Bool-cases, Option, some,
  List, [], ◌∷◌, ◌==◌, contains, all, eq_iff, arith,
}
use mathlib.Core.Path.{subst}
use gpt_jupyter_dns.Result.{ok}
use gpt_jupyter_dns.Action.{lift, Ends, Ends-bind, Ends-return, >>=-eq-ok}
use gpt_jupyter_dns.State.{Env}
use gpt_jupyter_dns.State.Files.{Place, Files, certs_dir}
use gpt_jupyter_dns.Certs.Names.{Named, san_entries-Named}
use gpt_jupyter_dns.Certs.{
  Crypto, Body, san_texts, unique, wanted_names, write_key, write_cert, look, needs, ensure_ca,
  san_entries, leaf_body, issue_leaf, serves, issue_unless, reuse_leaf, ensure_cert,
}

-- The certificate files keep what is written, and a signed certificate says what its builder said.
pub record IsLawful {W K C : Type 0} (crypto : Crypto W K C) : Type 0 where
  pub content : W → Place → Option C
  pub read_content :
      (p : Place) (w w' : W) (c : C)
      → crypto.read_cert p w ≡ (ok c, w')
      → (content w p ≡ some c) × (w ≡ w')
  pub content-write :
      (p : Place) (c : C) (w w' : W)
      → crypto.write_cert_bytes p c w ≡ (ok tt, w')
      → content w' p ≡ some c
  pub content-chmod :
      (p : Place) (w w' : W) → crypto.chmod_file p w ≡ (ok tt, w') → content w' p ≡ content w p
  pub body_of-sign :
      (body : Body) (k : K) (w w' : W) (c : C)
      → crypto.sign body k w ≡ (ok c, w')
      → crypto.body_of c ≡ body

all-contains :
    (p : String → Bool) (ws : List String) (s : String)
    → all p ws ≡ true
    → contains s ws ≡ true
    → p s ≡ true
all-contains p [] s h found = absurd (cc)
all-contains p (w ∷ ws) s h found = elim (Bool-cases (w == s)) [
  | inl same ↦
      let ws_eq : w ≡ s = ground (arith, eq_iff w s, same) in
      subst (λ x. p x ≡ true) ws_eq (ground (arith, h))
  | inr other ↦ all-contains p ws s (ground (arith, h)) (ground (arith, other, found))
]

-- `dict.fromkeys` loses no name.
unique-contains :
    (seen ss : List String) (s : String)
    → contains s ss ≡ true
    → contains s seen ≡ false
    → contains s (unique seen ss) ≡ true
unfolding unique
unique-contains seen [] s found fresh = absurd (cc)
unique-contains seen (t ∷ ss) s found fresh = elim (Bool-cases (t == s)) [
  | inl same ↦
      let ts : t ≡ s = ground (arith, eq_iff t s, same) in
      let new : contains t seen ≡ false = ap (λ x. contains x seen) ts ∙ fresh in
      ground (arith, new, same)
  | inr other ↦
      let rest : contains s ss ≡ true = ground (arith, other, found) in
      elim (Bool-cases (contains t seen)) [
        | inl old ↦ ground (arith, old, unique-contains seen ss s rest fresh)
        | inr new ↦
            ground (arith, new, unique-contains (t ∷ seen) ss s rest (ground (arith, other, fresh)))
      ]
]

module _ {W K C : Type 0} (crypto : Crypto W K C) (files : Files W) (env : Env)
    (lawful : IsLawful crypto) where
  -- The certificate names every one of these.
  abbrev pub Covers : List String → Body → Type 0
  Covers wanted body =
      (s : String) → contains s wanted ≡ true → Named crypto files env s (san_texts body.sans)

  -- The file holds a certificate that does.
  abbrev pub Holds : List String → Place → W → Type 0
  Holds wanted p w = (c : C) × (lawful.content w p ≡ some c) × Covers wanted (crypto.body_of c)

  write_cert-holds :
      (p : Place) (c : C) (w w' : W)
      → write_cert crypto files env p c w ≡ (ok tt, w')
      → lawful.content w' p ≡ some c
  unfolding write_cert
  write_cert-holds p c w w' h =
      let (u, w₁, written, moded) = >>=-eq-ok (crypto.write_cert_bytes p c) _ w h in
      lawful.content-chmod p w₁ w' moded ∙ lawful.content-write p c w w₁ written

  abbrev Issued : List String → Place × Place → W → Type 0
  Issued wanted r w = Holds wanted r.0 w

  issue_leaf-Issued :
      (cert_path key_path : Place) (wanted : List String) (ca : Place × Place) (w : W)
      → Ends (Issued wanted) (issue_leaf crypto files env cert_path key_path wanted ca w)
  unfolding issue_leaf leaf_body
  issue_leaf-Issued cert_path key_path wanted (ca_cert_path, ca_key_path) w =
      Ends-bind _ (crypto.read_cert ca_cert_path) _ w λ ca_cert w₁ _.
        Ends-bind _ (crypto.read_key ca_key_path) _ w₁ λ ca_key w₂ _.
          Ends-bind _ crypto.generate_key _ w₂ λ key w₃ _.
            Ends-bind _ (lift (san_entries crypto files env wanted)) _ w₃ λ entries w₃' listed.
              Ends-bind _ (look crypto files env crypto.now) _ w₃' λ now w₄ _.
                Ends-bind _
                  (crypto.sign
                    (leaf_body crypto files env key (crypto.body_of ca_cert) wanted entries now)
                    ca_key)
                  _ w₄
                  λ cert w₅ signed.
                    Ends-bind _ (write_key crypto files env key_path key) _ w₅ λ _ w₆ _.
                      Ends-bind _ (write_cert crypto files env cert_path cert) _ w₆ λ _ w₇ written.
                        let says = lawful.body_of-sign _ ca_key w₄ w₅ cert signed in
                        Ends-return (Issued wanted) (cert_path, key_path) w₇
                          (
                            cert,
                            write_cert-holds cert_path cert w₆ w₇ written,
                            subst (Covers wanted) (sym says) (
                                san_entries-Named crypto files env wanted entries
                                  (ap (λ r. r.0) listed)),
                          )

  issue_unless-Issued :
      (cert_path key_path : Place) (wanted : List String) (ca : Place × Place) (b : Bool) (w : W)
      → (b ≡ true → Holds wanted cert_path w)
      → Ends (Issued wanted) (issue_unless crypto files env cert_path key_path wanted ca b w)
  unfolding issue_unless
  issue_unless-Issued cert_path key_path wanted ca true w h =
      Ends-return (Issued wanted) (cert_path, key_path) w (h refl)
  issue_unless-Issued cert_path key_path wanted ca false w h =
      issue_leaf-Issued cert_path key_path wanted ca w

  serves-Covers :
      (wanted : List String) (leaf ca : Body)
      → serves crypto files env wanted leaf ca ≡ true
      → Covers wanted leaf
  unfolding serves
  serves-Covers wanted leaf ca h s found =
      inl (all-contains (λ t. contains t (san_texts leaf.sans)) wanted s (ground (arith, h)) found)

  reuse_leaf-Issued :
      (cert_path key_path : Place) (wanted : List String) (ca : Place × Place) (stale : Bool)
      (w : W)
      → Ends (Issued wanted) (reuse_leaf crypto files env cert_path key_path wanted ca stale w)
  unfolding reuse_leaf
  reuse_leaf-Issued cert_path key_path wanted ca true w =
      issue_leaf-Issued cert_path key_path wanted ca w
  reuse_leaf-Issued cert_path key_path wanted ca false w =
      Ends-bind _ (crypto.read_cert cert_path) _ w λ cert w₁ e₁.
        Ends-bind _ (crypto.read_cert ca.0) _ w₁ λ ca_cert w₂ e₂.
          issue_unless-Issued cert_path key_path wanted ca _ w₂ λ ok_now.
            let (there, same₁) = lawful.read_content cert_path w w₁ cert e₁ in
            let (there_too, same₂) = lawful.read_content ca.0 w₁ w₂ ca_cert e₂ in
            (
              cert,
              subst (λ x. lawful.content x cert_path ≡ some cert) (same₁ ∙ same₂) there,
              serves-Covers wanted (crypto.body_of cert) (crypto.body_of ca_cert) ok_now,
            )

  ensure_cert-Issued :
      (instance_name : String) (sans : List String) (force : Bool) (w : W)
      → Ends
          (Issued (wanted_names instance_name sans))
          (ensure_cert crypto files env instance_name sans force w)
  unfolding ensure_cert
  ensure_cert-Issued instance_name sans force w =
      Ends-bind _ (ensure_ca crypto files env false) _ w λ ca w₁ _.
        Ends-bind _ (certs_dir files env) _ w₁ λ d w₂ _.
          Ends-bind _
            (needs crypto files env force ((instance_name <> ".pem") ∷ d)
              ((instance_name <> ".key") ∷ d))
            _ w₂
            λ stale w₃ _.
              reuse_leaf-Issued ((instance_name <> ".pem") ∷ d) ((instance_name <> ".key") ∷ d)
                (wanted_names instance_name sans) ca stale w₃

  -- When `ensure_cert` returns, whether it reused the instance's certificate or issued a new one, the
  -- file that it returns holds a certificate that names `<instance>.dnslab.test` and every name that
  -- was asked for: its alternative names have the name itself, or the canonical text of the address that
  -- the name is. The store is assumed to keep what is written, and to sign what it is given.
  pub ensure_cert-covers :
      (instance_name : String) (sans : List String) (force : Bool) (w w' : W)
      (cert_path key_path : Place)
      → ensure_cert crypto files env instance_name sans force w ≡ (ok (cert_path, key_path), w')
      → (c : C) × (lawful.content w' cert_path ≡ some c)
        × ((s : String)
            → contains s ((instance_name <> ".dnslab.test") ∷ sans) ≡ true
            → (contains s (san_texts (crypto.body_of c).sans) ≡ true)
              ⊎ ((address : String) × (crypto.ip_address s ≡ some address)
                  × (contains address (san_texts (crypto.body_of c).sans) ≡ true)))
  unfolding ensure_cert wanted_names
  ensure_cert-covers instance_name sans force w w' cert_path key_path h =
      let asked : List String = (instance_name <> ".dnslab.test") ∷ sans in
      let (c, there, covers) =
        (ensure_cert-Issued instance_name sans force w).at (cert_path, key_path) w' h in
      (c, there, λ s found. covers s (unique-contains [] asked s found refl))
