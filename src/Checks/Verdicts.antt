-- ===== src/Checks/Verdicts.antt =====
-- What the status of each check says about the network, and that a skipped check sends nothing.
use gpt_jupyter_dns.Prelude.{
  ℕ, String, ◌<>◌, ◌≡◌, refl, ◌≢◌, ◌↔◌, ◌⊎◌, inl, inr, Bool, false, Option, none, some, ap, arith,
}
use gpt_jupyter_dns.Result.{Result, ok, err, Error}
use gpt_jupyter_dns.Action.{pure, catch-ok, catch-err, run-cases, >>=-ok, >>=-err, ◌>>=◌}
use gpt_jupyter_dns.Value.{ℤ}
use gpt_jupyter_dns.Model.{Target, pass, fail, skip, CheckResult}
use gpt_jupyter_dns.Net.{Net, Question, Response}
use gpt_jupyter_dns.Checks.{query, probe_of, result, or_fail, rcode_verdict, do53_on, query_do53}

module _ {W : Type 0} (net : Net W) where
  -- The exchange comes back with this response.
  abbrev pub Answers : Target → Question → Bool → ℕ → W → Response → Type 0
  Answers t q dot timeout w resp =
      (ms : ℕ) × (w' : W) × (query net t q dot timeout w ≡ (ok (resp, ms), w'))

  -- A check ended with a result under its own name, for its own target.
  abbrev pub Reports : String → Target → Result CheckResult → CheckResult → Type 0
  Reports name t r c = (r ≡ ok c) × (c.check ≡ name) × (c.target ≡ t.name)

  -- `try: resp, ms = _query(…); return f(resp, ms)` with a FAIL on any exception
  or_fail-query :
      (check : String) (t : Target) (prefix : String) (q : Question) (dot : Bool) (timeout : ℕ)
      (f : Response → ℕ → CheckResult) (w : W)
      → ((resp : Response) × (ms : ℕ) × (w' : W) × (query net t q dot timeout w
            ≡ (ok (resp, ms), w'))
          × (or_fail net check t prefix (query net t q dot timeout >>= λ a. pure (f a.0 a.1)) w
              ≡ (ok (f resp ms), w')))
        ⊎ ((e : Error) × (w' : W) × (query net t q dot timeout w ≡ (err e, w'))
            × (or_fail net check t prefix (query net t q dot timeout >>= λ a. pure (f a.0 a.1)) w
                ≡ (ok (result check t fail (prefix <> net.repr_error e) none), w')))
  or_fail-query check t prefix q dot timeout f w = elim (run-cases (query net t q dot timeout) w) [
    | inl ((resp, ms), w', e) ↦ inl (
      resp,
      ms,
      w',
      e,
      catch-ok (query net t q dot timeout >>= λ a. pure (f a.0 a.1)) _ w
          (>>=-ok (query net t q dot timeout) _ w e),
    )
    | inr (x, w', e) ↦ inr (
      x,
      w',
      e,
      catch-err (query net t q dot timeout >>= λ a. pure (f a.0 a.1)) _ w
          {k = pure (result check t fail (prefix <> net.repr_error x) none)}
          (>>=-err (query net t q dot timeout) _ w e) refl,
    )
  ]

  -- The status is SKIP exactly without a port, and PASS exactly if there is one and `P` holds.
  abbrev pub Judges : Option ℤ → Type 0 → CheckResult → Type 0
  Judges port P c = ((c.status ≡ skip) ↔ (port ≡ none)) × ((c.status ≡ pass) ↔ ((port ≢ none) × P))

  -- The exchange brings a NOERROR response.
  abbrev pub Resolves : Target → Question → Bool → ℕ → W → Type 0
  Resolves t q dot timeout w = (resp : Response) × Answers t q dot timeout w resp × (resp.rcode ≡ 0)

  Answers-unique :
      (t : Target) (q : Question) (dot : Bool) (timeout : ℕ) (w : W) (r r' : Response)
      → Answers t q dot timeout w r
      → Answers t q dot timeout w r'
      → r ≡ r'
  Answers-unique t q dot timeout w r r' (ms, w', e) (ms', w'', e') = cc

  Answers-not_err :
      (t : Target) (q : Question) (dot : Bool) (timeout : ℕ) (w w' : W) (r : Response) (x : Error)
      → query net t q dot timeout w ≡ (err x, w')
      → ¬ (Answers t q dot timeout w r)
  Answers-not_err t q dot timeout w w' r x e (ms, w'', e') = cc

  -- With a port, a result that is no SKIP is judged by what PASS means.
  Judges-some :
      (port : ℤ) (P : Type 0) (c : CheckResult)
      → c.status ≢ skip
      → (c.status ≡ pass → P)
      → (P → c.status ≡ pass)
      → Judges (some port) P c
  Judges-some port P c judged to from =
      ((λ h. absurd (judged h), λ h. cc), (λ h. (λ p. cc, to h), λ h. from h.1))

  do53_on-judged :
      (port : Option ℤ) (t : Target) (q : Question) (w : W)
      → (c : CheckResult) × Reports "do53-query" t (do53_on net port t q w).0 c
        × Judges port (Resolves t q false 5 w) c
  unfolding do53_on
  do53_on-judged none t q w =
      (_, (refl, refl, refl), ((λ _. refl, λ _. refl), (λ h. cc, λ h. absurd (h.0 refl))))
  do53_on-judged (some port) t q w =
      elim (or_fail-query "do53-query" t "" q false 5 (rcode_verdict net "do53-query" t) w) [
        | inl (resp, ms, w', e, done) ↦ (
          rcode_verdict net "do53-query" t resp ms,
          (ap (λ r. r.0) done, refl, refl),
          Judges-some port _ (rcode_verdict net "do53-query" t resp ms) (λ h. ground arith)
              (λ h. (resp, (ms, w', e), ground arith))
              (λ (resp', answers, fine). ground (
                arith,
                ap (λ (r : Response). r.rcode)
                    (Answers-unique t q false 5 w resp resp' (ms, w', e) answers),
              )),
        )
        | inr (x, w', e, done) ↦ (
          result "do53-query" t fail ("" <> net.repr_error x) none,
          (ap (λ r. r.0) done, refl, refl),
          Judges-some port _ (result "do53-query" t fail ("" <> net.repr_error x) none) (λ h. cc)
              (λ h. absurd (cc))
              (λ (resp', answers, fine).
                absurd (Answers-not_err t q false 5 w w' resp' x e answers)),
        )
      ]

  -- `query_do53` always returns, with SKIP exactly if the target has no Do53 port, and with PASS
  -- exactly if it has one and the plain query comes back with NOERROR.
  pub query_do53-judged :
      (t : Target) (qname qtype : Option String) (w : W)
      → (c : CheckResult) × Reports "do53-query" t (query_do53 net t qname qtype w).0 c
        × Judges t.port_do53 (Resolves t (probe_of t qname qtype) false 5 w) c
  unfolding query_do53
  query_do53-judged t qname qtype w = do53_on-judged t.port_do53 t (probe_of t qname qtype) w
