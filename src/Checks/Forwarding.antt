-- ===== src/Checks/Forwarding.antt =====
-- `check_forwarding` and `check_cert`: they always return, and what a PASS of them shows.
use gpt_jupyter_dns.Prelude.{
  ℕ, String, ◌<>◌, ◌≡◌, refl, ap, ◌∙◌, ◌≢◌, ◌↔◌, ◌⊎◌, inl, inr, Bool, true, Option, none, some,
  List, [], ◌∷◌, ◌==◌, length, contains, eq_iff, arith, Bool-cases,
}
use gpt_jupyter_dns.Result.{Result, ok}
use gpt_jupyter_dns.Action.{
  Action, pure, lift, catch-ok, catch-err, run-cases, Ends, Ends-bind, Ends-return, ◌>>=◌,
}
use gpt_jupyter_dns.Value.{ℤ}
use gpt_jupyter_dns.Model.{Target, address, pass, fail, skip, CheckResult}
use gpt_jupyter_dns.Net.{Net, Response, PeerCert}
use gpt_jupyter_dns.Checks.{
  marker_qname, public_probe, txt_values, query, result, or_fail, port_for, chosen, marker_verdict,
  public_verdict, forward_query, forwarding_on, check_forwarding, dns_names, cert_verdict, cert_on,
  check_cert,
}

module _ {W : Type 0} (net : Net W) where
  -- A check that returns, with SKIP exactly without a port, and PASS only if `P` holds.
  abbrev pub Checked : Option ℤ → Type 0 → Result CheckResult → Type 0
  Checked port P r =
      (c : CheckResult) × (r ≡ ok c)
      × ((c.status ≡ skip) ↔ (port ≡ none))
      × (c.status ≡ pass → (port ≢ none) × P)

  -- A verdict: no SKIP, and PASS only if `P` holds.
  abbrev Verdict : Type 0 → CheckResult → W → Type 0
  Verdict P c w = (c.status ≢ skip) × (c.status ≡ pass → P)

  -- `except Exception` turns every end of the body into a verdict.
  or_fail-Checked :
      (check : String) (t : Target) (prefix : String) (port : ℤ) (P : Type 0)
      (m : Action W CheckResult) (w : W)
      → Ends (Verdict P) (m w)
      → Checked (some port) P (or_fail net check t prefix m w).0
  or_fail-Checked check t prefix port P m w ends = elim (run-cases m w) [
    | inl (c, w', e) ↦
        let (judged, shows) = ends.at c w' e in
        (
          c,
          ap (λ r. r.0) (catch-ok m _ w e),
          (λ h. absurd (judged h), λ h. absurd (cc)),
          λ h. ((λ p. cc), shows h),
        )
    | inr (x, w', e) ↦
        let c = result check t fail (prefix <> net.repr_error x) none in
        (
          c,
          ap (λ r. r.0) (catch-err m _ w {k = pure c} e refl),
          (λ h. absurd (cc), λ h. absurd (cc)),
          λ h. absurd (cc),
        )
  ]

  -- The marker record comes back on a docker target; the public name resolves on any other.
  abbrev pub Forwards : Target → Bool → W → Type 0
  Forwards t dot w =
      ((t.provider ≡ "docker")
        × (resp : Response) × (ms : ℕ) × (w' : W) × (v : String) × (vs : List String) × (query net t
              (marker_qname, "TXT") dot 10 w
            ≡ (ok (resp, ms), w'))
        × (txt_values resp.answer ≡ ok (v ∷ vs)))
      ⊎ ((t.provider ≢ "docker")
          × (resp : Response) × (ms : ℕ) × (w' : W) × (query net t public_probe dot 10 w
              ≡ (ok (resp, ms), w'))
          × (resp.rcode ≡ 0)
          × (resp.answer ≢ []))

  marker_verdict-Verdict :
      (t : Target) (dot : Bool) (resp : Response) (ms : ℕ) (vals : List String) (w : W)
      → Verdict
          ((v : String) × (vs : List String) × (vals ≡ v ∷ vs))
          (marker_verdict net t dot resp ms vals)
          w
  unfolding marker_verdict
  marker_verdict-Verdict t dot resp ms [] w = ((λ h. cc), λ h. absurd (cc))
  marker_verdict-Verdict t dot resp ms (v ∷ vs) w = ((λ h. cc), λ h. (v, vs, refl))

  public_verdict-Verdict :
      (t : Target) (dot : Bool) (resp : Response) (ms : ℕ) (w : W)
      → Verdict ((resp.rcode ≡ 0) × (resp.answer ≢ [])) (public_verdict net t dot resp ms) w
  unfolding public_verdict
  public_verdict-Verdict t dot resp ms w =
      ((λ h. ground arith), λ h. (ground arith, λ none_left. ground (arith, ap length none_left)))

  forward_query-Verdict :
      (t : Target) (dot : Bool) (w : W)
      → Ends (Verdict (Forwards t dot w)) (forward_query net t dot w)
  unfolding forward_query
  forward_query-Verdict t dot w = elim (Bool-cases (t.provider == "docker")) [
    | inl docker ↦ rw docker (
        Ends-bind (Verdict (Forwards t dot w)) (query net t (marker_qname, "TXT") dot 10) _ w
          λ a w₁ e. Ends-bind _ (lift (txt_values a.0.answer)) _ w₁ λ vals w₂ d.
            let (judged, shows) = marker_verdict-Verdict t dot a.0 a.1 vals w₂ in
            Ends-return (Verdict (Forwards t dot w)) (marker_verdict net t dot a.0 a.1 vals) w₂ (
              judged,
              λ h.
                  let (v, vs, is) = shows h in
                  inl ((eq_iff _ _).0 docker, a.0, a.1, w₁, v, vs, e, ap (λ r. r.0) d ∙ ap ok is),
            ))
    | inr other ↦ rw other (
        Ends-bind (Verdict (Forwards t dot w)) (query net t public_probe dot 10) _ w λ a w₁ e.
          let (judged, shows) = public_verdict-Verdict t dot a.0 a.1 w₁ in
          Ends-return (Verdict (Forwards t dot w)) (public_verdict net t dot a.0 a.1) w₁ (
            judged,
            λ h.
                let (fine, some_left) = shows h in
                inr ((λ p. cc (other, (eq_iff _ _).1 p)), a.0, a.1, w₁, e, fine, some_left),
          ))
  ]

  forwarding_on-Checked :
      (port : Option ℤ) (t : Target) (dot : Bool) (w : W)
      → Checked port (Forwards t dot w) (forwarding_on net port t dot w).0
  unfolding forwarding_on
  forwarding_on-Checked none t dot w = (_, refl, (λ h. refl, λ h. refl), λ h. absurd (cc))
  forwarding_on-Checked (some port) t dot w =
      or_fail-Checked "forwarding" t "" port (Forwards t dot w) (forward_query net t dot) w
        (forward_query-Verdict t dot w)

  -- `check_forwarding` always returns, with SKIP exactly if the target has no port for the
  -- transport, which is Do53 by default if the target has it. It passes only if the target forwards
  -- over this transport: a docker target answers the marker's TXT record, and any other target
  -- answers the public name with NOERROR and records.
  pub check_forwarding-judged :
      (t : Target) (dot : Option Bool) (w : W)
      → Checked
          (port_for net t (chosen net t dot))
          (Forwards t (chosen net t dot) w)
          (check_forwarding net t dot w).0
  unfolding check_forwarding
  check_forwarding-judged t dot w =
      forwarding_on-Checked (port_for net t (chosen net t dot)) t (chosen net t dot) w

  -- The handshake succeeds at the port, and the certificate names the target.
  abbrev pub IsCertified : Option ℤ → Target → W → Type 0
  IsCertified port t w =
      (p : ℤ) × (cert : PeerCert) × (w' : W) × (port ≡ some p)
      × (net.peer_cert (address t) p t.ca_file t.tls_hostname w ≡ (ok cert, w'))
      × (contains t.tls_hostname (dns_names cert.alt_names) ≡ true)

  cert_verdict-Verdict :
      (t : Target) (cert : PeerCert) (w : W)
      → Verdict
          (contains t.tls_hostname (dns_names cert.alt_names) ≡ true)
          (cert_verdict net t cert)
          w
  unfolding cert_verdict
  cert_verdict-Verdict t cert w = ((λ h. ground arith), λ h. ground arith)

  cert_on-Checked :
      (port : Option ℤ) (t : Target) (w : W)
      → Checked port (IsCertified port t w) (cert_on net port t w).0
  unfolding cert_on
  cert_on-Checked none t w = (_, refl, (λ h. refl, λ h. refl), λ h. absurd (cc))
  cert_on-Checked (some port) t w =
      or_fail-Checked "cert" t "" port (IsCertified (some port) t w)
        (net.peer_cert (address t) port t.ca_file t.tls_hostname >>= λ cert.
          pure (cert_verdict net t cert))
        w
        (Ends-bind (Verdict (IsCertified (some port) t w))
          (net.peer_cert (address t) port t.ca_file t.tls_hostname) _ w
          λ cert w₁ e.
            let (judged, shows) = cert_verdict-Verdict t cert w₁ in
            Ends-return (Verdict (IsCertified (some port) t w)) (cert_verdict net t cert) w₁
              (judged, λ h. (port, cert, w₁, refl, e, shows h)))

  -- `check_cert` always returns, with SKIP exactly if the target has no DoT port. It passes only if
  -- the TLS handshake against the CA succeeds there, for the target's TLS name, and the certificate
  -- lists this name among its DNS names.
  pub check_cert-judged :
      (t : Target) (w : W) → Checked t.port_dot (IsCertified t.port_dot t w) (check_cert net t w).0
  unfolding check_cert
  check_cert-judged t w = cert_on-Checked t.port_dot t w
