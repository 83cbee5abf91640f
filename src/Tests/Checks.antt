-- ===== src/Tests/Checks.antt =====
-- The theorems on the checks, over networks with one fixed answer.
use gpt_jupyter_dns.Prelude.{◌≡◌, refl, true, false, none, some, List, [], ◌∷◌}
use gpt_jupyter_dns.Result.{ok, err, other_error}
use gpt_jupyter_dns.Action.{Action}
use gpt_jupyter_dns.Value.{ℤ, pos}
use gpt_jupyter_dns.Model.{Target, pass, skip, CheckResult}
use gpt_jupyter_dns.Net.{Net, Response, Kdig}
use gpt_jupyter_dns.Checks.{
  query, probe_of, query_do53, query_dot, check_dot_upstream_marker, result,
}
use gpt_jupyter_dns.Checks.Matrix.{run_checks}
use gpt_jupyter_dns.Checks.Forwarding.{
  Checked, Forwards, IsCertified, check_forwarding-judged, check_cert-judged,
}
use gpt_jupyter_dns.Checks.{check_forwarding, check_cert, chosen}
use gpt_jupyter_dns.Prelude.{All, ◌↔◌}
use gpt_jupyter_dns.Checks.Matrix.{explain}
use gpt_jupyter_dns.Checks.Matrix.Explain.{Passes, explain-nil_iff}
use gpt_jupyter_dns.Checks.Verdicts.{Reports, Judges, Resolves, query_do53-judged}
use gpt_jupyter_dns.Checks.Dot.{Confirmed, query_dot-pass, run_checks-loses}
use gpt_jupyter_dns.Checks.Marker.{is_asked, AskedVerdict, check_dot_upstream_marker-judged}
use gpt_jupyter_dns.Checks.Report.{Item, bare, typed, query_report}
use gpt_jupyter_dns.Checks.Report.Rows.{Reported, query_report-judged}
use gpt_jupyter_dns.Tests.{bind_capabilities}

abbrev answer : Response
answer = record {
  rcode = 0;
  flags = 0;
  answer = record { rdtype = 16; rdatas = (ok "dot" ∷ []) ∷ [] } ∷ [];
  edns = none;
}

-- A network that answers everything in no time, and on which `kdig` does what is given.
abbrev net_with : Action (Unit {0}) Kdig → Net (Unit {0})
net_with kdig = record {
  make_query = λ q. ok tt;
  tls = λ q address port timeout ca name w. (ok answer, w);
  udp = λ q address port timeout w. (ok answer, w);
  udp_with_fallback = λ q address port timeout w. (ok answer, w);
  peer_cert = λ address port ca name w.
      (ok (record { alt_names = ("DNS", "ns1") ∷ []; not_after = none }), w);
  run_kdig = λ args timeout. kdig;
  clock = λ w. 0;
  rcode_text = λ n. "NOERROR";
  flags_text = λ n. "";
  ede_name = λ n. none;
  repr_error = λ e. "error";
}

abbrev agrees : Action (Unit {0}) Kdig
agrees w = (ok (record { returncode = pos 0; stderr = "" }), w)

abbrev times_out : Action (Unit {0}) Kdig
times_out w = (err (other_error "TimeoutExpired"), w)

abbrev forwarder : Target
forwarder = record {
  name = "ns1";
  host = "ns1";
  ip = "10.0.0.2";
  port_do53 = some (pos 53);
  port_dot = some (pos 853);
  tls_hostname = "ns1";
  ca_file = "ca.crt";
  provider = "docker";
  profile = "forward-dot";
  capabilities = record bind_capabilities { dot_upstream_forwarding = true };
}

query_do53-judged_example :
    (c : CheckResult) × Reports
      (net_with agrees)
      "do53-query"
      forwarder
      (query_do53 (net_with agrees) forwarder none none tt).0
      c
    × Judges
        (net_with agrees)
        (some (pos 53))
        (Resolves (net_with agrees) forwarder (probe_of forwarder none none) false 5 tt)
        c
query_do53-judged_example = query_do53-judged (net_with agrees) forwarder none none tt

abbrev confirmed : CheckResult
confirmed = result "dot-query" forwarder pass "dnspython + kdig agree" (some 0)

confirms : (query_dot (net_with agrees) forwarder none none tt).0 ≡ ok confirmed
unfolding query_dot gpt_jupyter_dns.Action.◌>>=◌ gpt_jupyter_dns.Action.catch query
confirms = refl

query_dot-pass_example :
    (port : ℤ) × (forwarder.port_dot ≡ some port)
    × Confirmed (net_with agrees) forwarder port (probe_of forwarder none none) tt
query_dot-pass_example =
    query_dot-pass (net_with agrees) forwarder none none tt confirmed confirms refl

asks :
    (kdig : Action (Unit {0}) Kdig)
    → query (net_with kdig) forwarder (probe_of forwarder none none) true 5 tt
      ≡ (ok (answer, 0), tt)
unfolding query gpt_jupyter_dns.Action.◌>>=◌
asks kdig = refl

run_checks-loses_example :
    run_checks (net_with times_out) forwarder tt ≡ (err (other_error "TimeoutExpired"), tt)
run_checks-loses_example =
    run_checks-loses (net_with times_out) forwarder tt tt (other_error "TimeoutExpired")
      (pos 853, answer, 0, tt, refl, asks times_out, refl, refl, λ path e. absurd (cc))

check_dot_upstream_marker-judged_example :
    (is_asked forwarder ≡ true
      → AskedVerdict
          (net_with agrees)
          forwarder
          tt
          (check_dot_upstream_marker (net_with agrees) forwarder tt).0)
    × (is_asked forwarder ≡ false
        → (c : CheckResult) × (check_dot_upstream_marker (net_with agrees) forwarder tt
            ≡ (ok c, tt))
          × (c.status ≡ skip))
check_dot_upstream_marker-judged_example =
    check_dot_upstream_marker-judged (net_with agrees) forwarder tt

query_report-judged_example :
    Reported
      (net_with agrees)
      (some (pos 853))
      forwarder
      ("lab.test", "SOA")
      true
      true
      10
      tt
      (query_report (net_with agrees) forwarder ("lab.test", "SOA") true true 10 tt)
query_report-judged_example =
    query_report-judged (net_with agrees) forwarder ("lab.test", "SOA") true true 10 tt refl

abbrev items : List Item
items = bare "lab.test" ∷ typed "lab.test" "SOA" ∷ []

check_forwarding-judged_example :
    Checked
      (net_with agrees)
      (some (pos 53))
      (Forwards (net_with agrees) forwarder false tt)
      (check_forwarding (net_with agrees) forwarder none tt).0
unfolding chosen
check_forwarding-judged_example = check_forwarding-judged (net_with agrees) forwarder none tt

check_cert-judged_example :
    Checked
      (net_with agrees)
      (some (pos 853))
      (IsCertified (net_with agrees) (some (pos 853)) forwarder tt)
      (check_cert (net_with agrees) forwarder tt).0
check_cert-judged_example = check_cert-judged (net_with agrees) forwarder tt

explain-nil_iff_example :
    (explain (("ns1", confirmed ∷ []) ∷ []) ≡ []) ↔ All Passes (("ns1", confirmed ∷ []) ∷ [])
explain-nil_iff_example = explain-nil_iff (("ns1", confirmed ∷ []) ∷ [])
