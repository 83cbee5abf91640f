-- ===== src/Tests/Certs.antt =====
-- A certificate issued into an empty store.
use gpt_jupyter_dns.Prelude.{
  ℕ, String, ◌<>◌, ◌≡◌, refl, ap, sym, ◌∙◌, ◌⊎◌, true, false, Option, none, some, [], ◌∷◌, ◌==◌,
  contains, if◌then◌else◌,
}
use gpt_jupyter_dns.Result.{Result, ok, err, file_not_found}
use gpt_jupyter_dns.Action.{Action, pure}
use gpt_jupyter_dns.State.Files.{Place, same}
use gpt_jupyter_dns.State.Files.Levels.{same_refl}
use gpt_jupyter_dns.Certs.{Crypto, Body, san_texts, ensure_cert}
use gpt_jupyter_dns.Certs.Issued.{IsLawful, ensure_cert-covers}
use gpt_jupyter_dns.Tests.Aws.{still}

-- The certificate in every file.
abbrev Store : Type 0
Store = Place → Option Body

abbrev read_store : Option Body → Store → Result Body × Store
read_store none w = (err (file_not_found ""), w)
read_store (some c) w = (ok c, w)

abbrev store : Crypto Store ℕ Body
store = record {
  generate_key = pure 7;
  key_id = λ k. "key";
  sign = λ body k. pure body;
  body_of = λ c. c;
  read_cert = λ p w. read_store (w p) w;
  read_key = λ p. pure 7;
  write_cert_bytes = λ p c w. (ok tt, λ q. if same p q then some c else w q);
  write_key_bytes = λ p k. pure tt;
  chmod_file = λ p. pure tt;
  now = λ w. 1000000000;
  ip_address = λ s. if s == "2001:DB8::1" then some "2001:db8::1" else none;
  dns_name = λ s. ok tt;
  glob = λ p suffix. pure [];
  unlink = λ p. pure tt;
}

read_store-ok :
    (o : Option Body) (w w' : Store) (c : Body)
    → read_store o w ≡ (ok c, w')
    → (o ≡ some c) × (w ≡ w')
read_store-ok none w w' c h = absurd (cc (ap (λ r. r.0) h))
read_store-ok (some b) w w' c h = (ap some (cc (ap (λ r. r.0) h)), ap (λ r. r.1) h)

signed_ok : (body c : Body) (k : ℕ) (w w' : Store) → store.sign body k w ≡ (ok c, w') → c ≡ body
signed_ok body c k w w' h = cc (ap (λ r. r.0) h)

stored : (p : Place) (c : Body) (w : Store) → (if same p p then some c else w p) ≡ some c
stored p c w = rw (same_refl p) refl

abbrev store-IsLawful : IsLawful store
store-IsLawful = record {
  content = λ w p. w p;
  read_content = λ p w w' c h. read_store-ok (w p) w w' c h;
  content-write = λ p c w w' h. ap (λ r. r.1 p) (sym h) ∙ stored p c w;
  content-chmod = λ p w w' h. ap (λ r. r.1 p) (sym h);
  body_of-sign = λ body k w w' c h. signed_ok body c k w w' h;
}

abbrev empty : Store
empty p = none

abbrev dir : Place
dir = "dnslab" ∷ "certs" ∷ "workspace" ∷ "repo" ∷ []

abbrev after : Store
after = (ensure_cert store still [] "ns1" ("2001:DB8::1" ∷ []) false empty).1

returned :
    (ensure_cert store still [] "ns1" ("2001:DB8::1" ∷ []) false empty).0
    ≡ ok ("ns1.pem" ∷ dir, "ns1.key" ∷ dir)
unfolding ensure_cert gpt_jupyter_dns.Action.◌>>=◌ gpt_jupyter_dns.Certs.ensure_ca
    gpt_jupyter_dns.State.Files.certs_dir gpt_jupyter_dns.State.Files.workspace_root
    gpt_jupyter_dns.Dict.lookup
returned = refl

ensure_cert-covers_example :
    (c : Body) × (after ("ns1.pem" ∷ dir) ≡ some c)
    × ((s : String)
        → contains s (("ns1" <> ".dnslab.test") ∷ "2001:DB8::1" ∷ []) ≡ true
        → (contains s (san_texts c.sans) ≡ true)
          ⊎ ((address : String) × (store.ip_address s ≡ some address)
              × (contains address (san_texts c.sans) ≡ true)))
ensure_cert-covers_example =
    ensure_cert-covers store still [] store-IsLawful "ns1" ("2001:DB8::1" ∷ []) false empty after
      ("ns1.pem" ∷ dir) ("ns1.key" ∷ dir) (ap (λ r. (r, after)) returned)
