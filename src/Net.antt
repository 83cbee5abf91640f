-- ===== src/Net.antt =====
-- The network as `dnslab/checks.py` uses it: what dnspython, `ssl` and `kdig` are given and return,
-- and `Net`, a parameter of the checks, over the state `W` of the network.
use gpt_jupyter_dns.Prelude.{ℕ, String, Bool, Option, List}
use gpt_jupyter_dns.Result.{Result, Error}
use gpt_jupyter_dns.Action.{Action}
use gpt_jupyter_dns.Value.{ℤ}

-- A name and a record type.
abbrev pub Question : Type 0
Question = String × String

-- What `dns.message.make_query` is given. `payload` is set for a query with EDNS.
pub record Query : Type 0 where
  pub qname : String
  pub qtype : String
  pub payload : Option ℕ
  pub want_dnssec : Bool

-- `rdatas` holds, for each string of each record, what decoding it gives.
pub record RRset : Type 0 where
  pub rdtype : ℕ
  pub rdatas : List (List (Result String))

-- An EDNS option: an extended DNS error with its code and text, or another.
pub data EdnsOption : Type 0 where
  ede : ℕ → String → EdnsOption
  other_option : EdnsOption

pub record Edns : Type 0 where
  pub do_bit : Bool
  pub payload : ℕ
  pub options : List EdnsOption

-- `edns` is `none` where dnspython says -1.
pub record Response : Type 0 where
  pub rcode : ℕ
  pub flags : ℕ
  pub answer : List RRset
  pub edns : Option Edns

-- The peer's certificate, as `getpeercert()` gives it.
pub record PeerCert : Type 0 where
  pub alt_names : List (String × String)
  pub not_after : Option String

pub record Kdig : Type 0 where
  pub returncode : ℤ
  pub stderr : String

pub record Net (W : Type 0) : Type 0 where
  -- `dns.message.make_query` raises on a name or a type that it cannot read
  pub make_query : Query → Result (Unit {0})
  -- `dns.query.tls` at an address, a port, a timeout in seconds, a CA file and a TLS name;
  -- `ssl.create_default_context` is part of it
  pub tls : Query → String → Option ℤ → ℕ → String → String → Action W Response
  -- `dns.query.udp` and `dns.query.udp_with_fallback`
  pub udp : Query → String → Option ℤ → ℕ → Action W Response
  pub udp_with_fallback : Query → String → Option ℤ → ℕ → Action W Response
  -- a TLS handshake, and the certificate that was presented
  pub peer_cert : String → ℤ → String → String → Action W PeerCert
  -- `subprocess.run` of a command line, with a timeout in seconds
  pub run_kdig : List String → ℕ → Action W Kdig
  -- `time.monotonic()`, in microseconds
  pub clock : W → ℕ
  pub rcode_text : ℕ → String
  pub flags_text : ℕ → String
  -- the name of an extended DNS error
  pub ede_name : ℕ → Option String
  -- `repr` and `str` of an exception
  pub repr_error : Error → String

-- dns.rdatatype.TXT and dns.rdatatype.RRSIG
abbrev pub txt : ℕ
txt = 16

abbrev pub rrsig : ℕ
rrsig = 46
