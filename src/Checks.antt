-- ===== src/Checks.antt =====
-- `dnslab/checks.py`: the functional checks of one target. What dnspython, `ssl` and `kdig` do is
-- the parameter `Net`. Latencies are whole microseconds and are not rounded.
pub mod Windows
pub mod Verdicts
pub mod Dot
pub mod Marker
pub mod Forwarding
pub mod Report
pub mod Matrix
use gpt_jupyter_dns.Prelude.{
  ℕ, zero, suc, ◌-◌, String, ◌<>◌, Bool, true, false, ◌||◌, ◌&&◌, not, Option, none, some, List, [],
  ◌∷◌, ◌++◌, ◌==◌, ends_with, contains, eqb, length, is_some, if◌then◌else◌,
}
use gpt_jupyter_dns.Dict.{Dict, insert}
use gpt_jupyter_dns.Result.{Result, ok, err, Error, file_not_found}
use gpt_jupyter_dns.Action.{Action, pure, raise, lift, catch, ◌>>=◌, ◌>>◌}
use gpt_jupyter_dns.Value.{ℤ, pos, negsuc, has_text, show_ℕ, show_ℤ, repr_text}
use gpt_jupyter_dns.Text.{strip, take, pad, repr_list}
use gpt_jupyter_dns.Model.{Capabilities, Target, address, Status, pass, fail, skip, CheckResult}
use gpt_jupyter_dns.Net.{
  Question, Query, RRset, EdnsOption, ede, other_option, Edns, Response, PeerCert, Kdig, Net, txt,
  rrsig,
}

abbrev pub marker_qname : String
marker_qname = "transport-marker.lab.test"

abbrev pub lab_zone_soa : String
lab_zone_soa = "lab.test"

abbrev pub public_probe : Question
public_probe = ("example.com", "A")

decode_all : List (Result String) → Result (List String)
decode_all [] = ok []
decode_all (ok s ∷ rest) = elim (decode_all rest) [ ok ss ↦ ok (s ∷ ss) | err e ↦ err e ]
decode_all (err e ∷ rest) = err e

abbrev append_ok : Result (List String) → Result (List String) → Result (List String)
append_ok (ok ss) (ok ts) = ok (ss ++ ts)
append_ok (ok ss) (err e) = err e
append_ok (err e) r = err e

decode_rdatas : List (List (Result String)) → Result (List String)
unfolding decode_all
decode_rdatas [] = ok []
decode_rdatas (d ∷ ds) = append_ok (decode_all d) (decode_rdatas ds)

-- `_txt_values`
unfoldable pub txt_values : List RRset → Result (List String)
unfolding decode_rdatas
txt_values [] = ok []
txt_values (r ∷ rs) =
    let rest = txt_values rs in
    if eqb r.rdtype txt then append_ok (decode_rdatas r.rdatas) rest else rest

-- `_basic_probe`
unfoldable pub basic_probe : Target → Question
basic_probe t = if t.provider == "docker" then (lab_zone_soa, "SOA") else public_probe

-- The defaults of `query_do53` and `query_dot`: both parts are given, or neither counts.
unfoldable pub probe_of : Target → Option String → Option String → Question
unfolding basic_probe
probe_of t (some qname) (some qtype) = (qname, qtype)
probe_of t (some qname) none = basic_probe t
probe_of t none qtype = basic_probe t

abbrev pub result : String → Target → Status → String → Option ℕ → CheckResult
result check t status detail latency = record {
  check = check;
  target = t.name;
  status = status;
  detail = detail;
  latency = latency;
}

-- The first half of `query_dot`: the answer's latency, or the result that ends the check.
pub data Probe : Type 0 where
  answered : ℕ → Probe
  ended : CheckResult → Probe

-- the DNS names of `subjectAltName`
pub dns_names : List (String × String) → List String
dns_names [] = []
dns_names ((k, v) ∷ rest) = let more = dns_names rest in if k == "DNS" then v ∷ more else more

module _ {W : Type 0} (net : Net W) where
  exchange : Target → Query → Bool → ℕ → Action W Response
  unfolding address
  exchange t q true timeout = net.tls q (address t) t.port_dot timeout t.ca_file t.tls_hostname
  exchange t q false timeout = net.udp q (address t) t.port_do53 timeout

  -- `_query`: the response, and the time that it took
  unfoldable pub query : Target → Question → Bool → ℕ → Action W (Response × ℕ)
  unfolding exchange
  query t (qname, qtype) dot timeout = do
    let q : Query = record { qname = qname; qtype = qtype; payload = none; want_dnssec = false }
    lift (net.make_query q)
    t0 ← (λ w. (ok (net.clock w), w))
    resp ← exchange t q dot timeout
    t1 ← (λ w. (ok (net.clock w), w))
    pure (resp, t1 - t0)

  -- `except Exception as e:` with a FAIL whose detail begins with `prefix`
  abbrev or_fail : String → Target → String → Action W CheckResult → Action W CheckResult
  or_fail check t prefix m =
      catch m λ e. some (pure (result check t fail (prefix <> net.repr_error e) none))

  rcode_verdict : String → Target → Response → ℕ → CheckResult
  rcode_verdict check t resp ms =
      result check t (if eqb resp.rcode 0 then pass else fail)
        ("rcode=" <> net.rcode_text resp.rcode) (some ms)

  -- `query_do53`, on the port of the target
  do53_on : Option ℤ → Target → Question → Action W CheckResult
  unfolding rcode_verdict
  do53_on none t q = pure (result "do53-query" t skip "no Do53 listener in this profile" none)
  do53_on (some port) t q =
      or_fail "do53-query" t ""
        do (resp, ms) ← query t q false 5; pure (rcode_verdict "do53-query" t resp ms)

  unfoldable pub query_do53 : Target → Option String → Option String → Action W CheckResult
  unfolding do53_on
  query_do53 t qname qtype = do53_on t.port_do53 t (probe_of t qname qtype)

  pub kdig_args : Target → ℤ → Question → List String
  unfolding address
  kdig_args t port (qname, qtype) =
      "kdig"
      ∷ ("+tls-ca=" <> t.ca_file)
      ∷ ("+tls-hostname=" <> t.tls_hostname)
      ∷ "-p"
      ∷ show_ℤ port
      ∷ ("@" <> address t)
      ∷ qname
      ∷ qtype
      ∷ []

  -- What the cross-check by `kdig` makes of a dnspython answer that took `ms`.
  kdig_verdict : Target → ℕ → Kdig → CheckResult
  kdig_verdict t ms k = elim k.returncode [
    | pos zero ↦ result "dot-query" t pass "dnspython + kdig agree" (some ms)
    | _ ↦
        result "dot-query" t fail ("dnspython ok but kdig failed: " <> take 200 (strip k.stderr))
          (some ms)
  ]

  -- `except FileNotFoundError`
  without_kdig : Target → ℕ → Error → Option (Action W CheckResult)
  without_kdig t ms (file_not_found path) =
      some (
        pure
          (result "dot-query" t pass "dnspython ok (kdig unavailable for cross-check)" (some ms)))
  without_kdig t ms e = none

  -- Only a missing `kdig` is caught here; any other exception of `subprocess.run` is passed on.
  cross_check : Target → ℤ → Question → ℕ → Action W CheckResult
  unfolding kdig_args kdig_verdict without_kdig
  cross_check t port q ms =
      catch (do k ← net.run_kdig (kdig_args t port q) 15; pure (kdig_verdict t ms k))
        (without_kdig t ms)

  first_half : Target → Response → ℕ → Probe
  first_half t resp ms =
      if eqb resp.rcode 0
      then answered ms
      else ended (result "dot-query" t fail ("rcode=" <> net.rcode_text resp.rcode) (some ms))

  probe_dot : Target → Question → Action W Probe
  unfolding first_half
  probe_dot t q =
      catch (do (resp, ms) ← query t q true 5; pure (first_half t resp ms))
        λ e.
          some (pure (ended (result "dot-query" t fail ("dnspython: " <> net.repr_error e) none)))

  finish_dot : Target → ℤ → Question → Probe → Action W CheckResult
  unfolding cross_check
  finish_dot t port q (answered ms) = cross_check t port q ms
  finish_dot t port q (ended r) = pure r

  -- `query_dot`, on the port of the target
  dot_on : Option ℤ → Target → Question → Action W CheckResult
  unfolding probe_dot finish_dot
  dot_on none t q = pure (
      result "dot-query" t skip
        (if t.capabilities.dot_listener
          then "no DoT listener in this profile"
          else "DoT listener unsupported")
        none)
  dot_on (some port) t q = do probe ← probe_dot t q; finish_dot t port q probe

  unfoldable pub query_dot : Target → Option String → Option String → Action W CheckResult
  unfolding dot_on
  query_dot t qname qtype = dot_on t.port_dot t (probe_of t qname qtype)

  cert_verdict : Target → PeerCert → CheckResult
  unfolding dns_names
  cert_verdict t cert =
      if contains t.tls_hostname (dns_names cert.alt_names)
      then result "cert" t pass
          ("SAN ok, expires " <> (elim cert.not_after [ none ↦ "?" | some date ↦ date ])) none
      else result "cert" t fail
          (t.tls_hostname <> " not in SANs " <> repr_list (dns_names cert.alt_names)) none

  -- `check_cert`, on the port of the target
  cert_on : Option ℤ → Target → Action W CheckResult
  unfolding cert_verdict address
  cert_on none t = pure (result "cert" t skip "no DoT listener" none)
  cert_on (some port) t =
      or_fail "cert" t "" do
        cert ← net.peer_cert (address t) port t.ca_file t.tls_hostname
        pure (cert_verdict t cert)

  unfoldable pub check_cert : Target → Action W CheckResult
  unfolding cert_on
  check_cert t = cert_on t.port_dot t

  abbrev transport_name : Bool → String
  transport_name dot = if dot then "dot" else "do53"

  -- The port that a query over this transport needs.
  abbrev pub port_for : Target → Bool → Option ℤ
  port_for t dot = if dot then t.port_dot else t.port_do53

  -- `forwarding` on a docker target: the marker record has to come back.
  marker_verdict : Target → Bool → Response → ℕ → List String → CheckResult
  marker_verdict t dot resp ms [] =
      result "forwarding" t fail ("no TXT answer (rcode=" <> net.rcode_text resp.rcode <> ")")
        (some ms)
  marker_verdict t dot resp ms (v ∷ vs) =
      result "forwarding" t pass ("marker=" <> repr_text v <> " via " <> transport_name dot)
        (some ms)

  -- `forwarding` on any other target: the public name has to resolve.
  public_verdict : Target → Bool → Response → ℕ → CheckResult
  public_verdict t dot resp ms =
      if eqb resp.rcode 0 && not (eqb (length resp.answer) 0)
      then result "forwarding" t pass ("resolved example.com/A via " <> transport_name dot)
          (some ms)
      else result "forwarding" t fail
          ("example.com/A: rcode="
            <> net.rcode_text resp.rcode
            <> ", "
            <> show_ℕ (length resp.answer)
            <> " answer rrsets")
          (some ms)

  forward_query : Target → Bool → Action W CheckResult
  unfolding marker_verdict public_verdict
  forward_query t dot =
      if t.provider == "docker"
      then (do
        (resp, ms) ← query t (marker_qname, "TXT") dot 10
        vals ← lift (txt_values resp.answer)
        pure (marker_verdict t dot resp ms vals))
      else (do (resp, ms) ← query t public_probe dot 10; pure (public_verdict t dot resp ms))

  -- The transport of `check_forwarding` when none is asked for: Do53 if the target listens there.
  unfoldable pub chosen : Target → Option Bool → Bool
  chosen t none = not (is_some t.port_do53)
  chosen t (some dot) = dot

  -- `check_forwarding` over a transport, on its port
  forwarding_on : Option ℤ → Target → Bool → Action W CheckResult
  unfolding forward_query
  forwarding_on none t dot =
      pure (result "forwarding" t skip ("no " <> transport_name dot <> " listener") none)
  forwarding_on (some port) t dot = or_fail "forwarding" t "" (forward_query t dot)

  unfoldable pub check_forwarding : Target → Option Bool → Action W CheckResult
  unfolding forwarding_on chosen
  check_forwarding t dot = forwarding_on (port_for t (chosen t dot)) t (chosen t dot)

  marker_upstream_verdict : Target → ℕ → List String → CheckResult
  marker_upstream_verdict t ms vals =
      if contains "dot" vals
      then result "dot-upstream" t pass "marker TXT == \"dot\" (DoT-only upstream answered)"
          (some ms)
      else result "dot-upstream" t fail
          ("marker=" <> repr_list vals <> " — answer did not come from the DoT upstream") (some ms)

  unfoldable pub check_dot_upstream_marker : Target → Action W CheckResult
  unfolding marker_upstream_verdict
  check_dot_upstream_marker t =
      if not (has_text "forwarder" t.capabilities.roles)
        && not (has_text "recursive" t.capabilities.roles)
      then pure (result "dot-upstream" t skip "not a forwarder" none)
      else if not t.capabilities.dot_upstream_forwarding
      then pure (result "dot-upstream" t skip "DoT upstream forwarding unsupported" none)
      else if not (ends_with t.profile "dot")
      then pure (
          result "dot-upstream" t skip
            ("profile " <> repr_text t.profile <> " does not forward over DoT") none)
      else or_fail "dot-upstream" t "" (do
        (resp, ms) ← query t (marker_qname, "TXT") (not (is_some t.port_do53)) 10
        vals ← lift (txt_values resp.answer)
        pure (marker_upstream_verdict t ms vals))
