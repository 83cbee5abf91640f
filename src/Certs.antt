-- ===== src/Certs.antt =====
-- `dnslab/certs.py`: the lab CA and the leaf certificates of the instances. The cryptography library
-- is the parameter `Crypto`, over keys `K` and certificates `C`; times are microseconds.
pub mod Names
pub mod Issued
use gpt_jupyter_dns.Prelude.{
  ℕ, ◌+◌, ◌-◌, ◌*◌, String, ◌<>◌, Bool, true, false, ◌||◌, ◌&&◌, not, Option, none, some, List, [],
  ◌∷◌, ◌==◌, leb, contains, all, if◌then◌else◌,
}
use gpt_jupyter_dns.Result.{Result, ok, err, Error}
use gpt_jupyter_dns.Action.{Action, pure, raise, lift, catch, ◌>>=◌, ◌>>◌}
use gpt_jupyter_dns.State.{Env}
use gpt_jupyter_dns.State.Files.{Place, Files, certs_dir}

abbrev pub ca_name : String
ca_name = "dnslab-ca"

abbrev pub second : ℕ
second = 1000000

abbrev pub day : ℕ
day = 86400 * second

abbrev pub five_minutes : ℕ
five_minutes = 300 * second

-- CA_DAYS and LEAF_DAYS
abbrev pub ca_days : ℕ
ca_days = 3650

abbrev pub leaf_days : ℕ
leaf_days = 730

-- A subject alternative name: an address or a DNS name, with its text.
pub data San : Type 0 where
  ip_san dns_san : String → San

-- `str(g.value)`
abbrev pub san_text : San → String
san_text (ip_san s) = s
san_text (dns_san s) = s

-- What the builder is given. A key is named by its identifier.
pub record Body : Type 0 where
  pub subject : String
  pub issuer : String
  pub key_id : String
  pub not_before : ℕ
  pub not_after : ℕ
  pub sans : Option (List San)
  pub is_ca : Bool
  pub path_length : Option ℕ
  pub authority : Option String
  pub usages : List String

pub record Crypto (W K C : Type 0) : Type 0 where
  -- `generate_private_key`, and the subject key identifier of its public key
  pub generate_key : Action W K
  pub key_id : K → String
  -- `builder.serial_number(random).sign(key, SHA256)`
  pub sign : Body → K → Action W C
  pub body_of : C → Body
  -- the parts of a PEM file
  pub read_cert : Place → Action W C
  pub read_key : Place → Action W K
  pub write_cert_bytes : Place → C → Action W (Unit {0})
  pub write_key_bytes : Place → K → Action W (Unit {0})
  -- `chmod(0o644)`
  pub chmod_file : Place → Action W (Unit {0})
  -- `datetime.now(utc)`
  pub now : W → ℕ
  -- the text of `ipaddress.ip_address(s)`, unless it raises its `ValueError`
  pub ip_address : String → Option String
  -- `x509.DNSName(s)`, which refuses some texts
  pub dns_name : String → Result (Unit {0})
  -- the files of a directory with a suffix, and `unlink`
  pub glob : Place → String → Action W (List Place)
  pub unlink : Place → Action W (Unit {0})

-- `list(dict.fromkeys(…))`: the first of each
unfoldable pub unique : List String → List String → List String
unique seen [] = []
unique seen (s ∷ ss) =
    let new = unique (s ∷ seen) ss in
    let old = unique seen ss in if contains s seen then old else s ∷ new

-- The names that an instance's certificate has to have.
unfoldable pub wanted_names : String → List String → List String
unfolding unique
wanted_names instance_name sans = unique [] ((instance_name <> ".dnslab.test") ∷ sans)

abbrev pub san_texts : Option (List San) → List String
san_texts none = []
san_texts (some []) = []
san_texts (some (s ∷ ss)) = san_text s ∷ san_texts (some ss)

module _ {W K C : Type 0} (crypto : Crypto W K C) (files : Files W) (env : Env) where
  write_key : Place → K → Action W (Unit {0})
  write_key p key = do crypto.write_key_bytes p key; crypto.chmod_file p

  write_cert : Place → C → Action W (Unit {0})
  write_cert p cert = do crypto.write_cert_bytes p cert; crypto.chmod_file p

  abbrev look : {A : Type 0} → (W → A) → Action W A
  look f w = (ok (f w), w)

  -- `_expired_or_missing`: within a day of its end a certificate counts as expired
  expires_soon : Bool → Place → Action W Bool
  expires_soon true cert_path = pure true
  expires_soon false cert_path = do
    cert ← crypto.read_cert cert_path
    now ← look crypto.now
    pure (leb (crypto.body_of cert).not_after (now + day))

  unfoldable pub expired_or_missing : Place → Place → Action W Bool
  unfolding expires_soon
  expired_or_missing cert_path key_path = do
    missing ← look (λ w. not (files.exists cert_path w) || not (files.exists key_path w))
    expires_soon missing cert_path

  abbrev pub ca_cert_path : Place → Place
  ca_cert_path d = (ca_name <> ".pem") ∷ d

  abbrev pub ca_key_path : Place → Place
  ca_key_path d = (ca_name <> ".key") ∷ d

  ca_body : K → ℕ → Body
  ca_body key now = record {
    subject = "dnslab lab CA";
    issuer = "dnslab lab CA";
    key_id = crypto.key_id key;
    not_before = now - five_minutes;
    not_after = now + ca_days * day;
    sans = none;
    is_ca = true;
    path_length = some 0;
    authority = none;
    usages = "digital_signature" ∷ "key_cert_sign" ∷ "crl_sign" ∷ [];
  }

  issue_ca : Place → Action W (Place × Place)
  unfolding write_key write_cert ca_body
  issue_ca d = do
    key ← crypto.generate_key
    now ← look crypto.now
    cert ← crypto.sign (ca_body key now) key
    write_key (ca_key_path d) key
    write_cert (ca_cert_path d) cert
    pure (ca_cert_path d, ca_key_path d)

  ca_unless : Place → Bool → Action W (Place × Place)
  unfolding issue_ca
  ca_unless d false = pure (ca_cert_path d, ca_key_path d)
  ca_unless d true = issue_ca d

  -- `not force and not _expired_or_missing(…)`, negated
  needs : Bool → Place → Place → Action W Bool
  unfolding expired_or_missing
  needs force cert_path key_path =
      if force then pure true else expired_or_missing cert_path key_path

  unfoldable pub ensure_ca : Bool → Action W (Place × Place)
  unfolding ca_unless needs
  ensure_ca force = do
    d ← certs_dir files env
    stale ← needs force (ca_cert_path d) (ca_key_path d)
    ca_unless d stale

  unfoldable pub ca_file : Action W Place
  ca_file = do ensure_ca false; d ← certs_dir files env; pure (ca_cert_path d)

  -- one round of the loop over the wanted names
  san_entry : String → Result San
  san_entry s = elim (crypto.ip_address s) [
    | some address ↦ ok (ip_san address)
    | none ↦ elim (crypto.dns_name s) [ ok _ ↦ ok (dns_san s) | err x ↦ err x ]
  ]

  abbrev and_entry : Result San → Result (List San) → Result (List San)
  and_entry (err x) r = err x
  and_entry (ok e) (err x) = err x
  and_entry (ok e) (ok es) = ok (e ∷ es)

  pub san_entries : List String → Result (List San)
  unfolding san_entry
  san_entries [] = ok []
  san_entries (s ∷ ss) = and_entry (san_entry s) (san_entries ss)

  -- `wanted[0]`, which is there
  abbrev first_name : List String → String
  first_name [] = ""
  first_name (s ∷ ss) = s

  leaf_body : K → Body → List String → List San → ℕ → Body
  leaf_body key ca wanted entries now = record {
    subject = first_name wanted;
    issuer = ca.subject;
    key_id = crypto.key_id key;
    not_before = now - five_minutes;
    not_after = now + leaf_days * day;
    sans = some entries;
    is_ca = false;
    path_length = none;
    authority = some ca.key_id;
    usages = "server_auth" ∷ [];
  }

  issue_leaf : Place → Place → List String → Place × Place → Action W (Place × Place)
  unfolding san_entries leaf_body write_key write_cert
  issue_leaf cert_path key_path wanted (ca_cert_path, ca_key_path) = do
    ca_cert ← crypto.read_cert ca_cert_path
    ca_key ← crypto.read_key ca_key_path
    key ← crypto.generate_key
    entries ← lift (san_entries wanted)
    now ← look crypto.now
    cert ← crypto.sign (leaf_body key (crypto.body_of ca_cert) wanted entries now) ca_key
    write_key key_path key
    write_cert cert_path cert
    pure (cert_path, key_path)

  -- The leaf is no older than the CA and has all the names.
  serves : List String → Body → Body → Bool
  serves wanted leaf ca =
      leb ca.not_before leaf.not_before && all (λ s. contains s (san_texts leaf.sans)) wanted

  issue_unless : Place → Place → List String → Place × Place → Bool → Action W (Place × Place)
  unfolding issue_leaf
  issue_unless cert_path key_path wanted ca true = pure (cert_path, key_path)
  issue_unless cert_path key_path wanted ca false = issue_leaf cert_path key_path wanted ca

  -- `ensure_cert` behind the test for age
  reuse_leaf : Place → Place → List String → Place × Place → Bool → Action W (Place × Place)
  unfolding issue_unless serves
  reuse_leaf cert_path key_path wanted ca true = issue_leaf cert_path key_path wanted ca
  reuse_leaf cert_path key_path wanted ca false = do
    cert ← crypto.read_cert cert_path
    ca_cert ← crypto.read_cert ca.0
    issue_unless cert_path key_path wanted ca
        (serves wanted (crypto.body_of cert) (crypto.body_of ca_cert))

  unfoldable pub ensure_cert : String → List String → Bool → Action W (Place × Place)
  unfolding reuse_leaf needs wanted_names
  ensure_cert instance_name sans force = do
    ca ← ensure_ca false
    d ← certs_dir files env
    let cert_path = (instance_name <> ".pem") ∷ d
    let key_path = (instance_name <> ".key") ∷ d
    stale ← needs force cert_path key_path
    reuse_leaf cert_path key_path (wanted_names instance_name sans) ca stale

  unlink_all : List Place → Action W (Unit {0})
  unlink_all [] = pure tt
  unlink_all (p ∷ ps) = do crypto.unlink p; unlink_all ps

  wipe : Place → Bool → Action W (Unit {0})
  unfolding unlink_all
  wipe d false = pure tt
  wipe d true = do
    certs ← crypto.glob d ".pem"
    unlink_all certs
    keys ← crypto.glob d ".key"
    unlink_all keys

  unfoldable pub regen : Bool → Action W (Unit {0})
  unfolding wipe ensure_ca
  regen force = do d ← certs_dir files env; wipe d force; ensure_ca true; pure tt
