-- ===== src/Checks/Dot.antt =====
-- `query_dot`: what its two halves decide, and the one exception that it lets through.
use mathlib.Core.Path.{subst}
use gpt_jupyter_dns.Prelude.{
  ℕ, String, ◌<>◌, ◌≡◌, refl, ◌≢◌, ◌⊎◌, inl, inr, true, Option, none, some, ◌∙◌, ap, sym, arith,
}
use gpt_jupyter_dns.Result.{ok, err, Error, file_not_found}
use gpt_jupyter_dns.Action.{
  Action, pure, catch-ok, catch-err, catch-passes_on, run-cases, >>=-ok, >>=-err, ◌>>=◌,
}
use gpt_jupyter_dns.Value.{ℤ, pos}
use gpt_jupyter_dns.Model.{Target, pass, fail, CheckResult}
use gpt_jupyter_dns.Net.{Net, Question, Response, Kdig}
use gpt_jupyter_dns.Checks.{
  query, probe_of, result, kdig_args, kdig_verdict, without_kdig, cross_check, Probe, answered,
  ended, first_half, probe_dot, finish_dot, dot_on, query_dot, query_do53,
}
use gpt_jupyter_dns.Checks.Matrix.{run_checks}
use gpt_jupyter_dns.Checks.Verdicts.{query_do53-judged}

module _ {W : Type 0} (net : Net W) where
  -- The first half, by what the query did.
  probe_dot-cases :
      (t : Target) (q : Question) (w : W)
      → ((resp : Response) × (ms : ℕ) × (w' : W) × (query net t q true 5 w ≡ (ok (resp, ms), w'))
          × (probe_dot net t q w ≡ (ok (first_half net t resp ms), w')))
        ⊎ ((e : Error) × (w' : W) × (query net t q true 5 w ≡ (err e, w'))
            × (probe_dot net t q w ≡ (
              ok (ended (result "dot-query" t fail ("dnspython: " <> net.repr_error e) none)),
              w',
            )))
  unfolding probe_dot
  probe_dot-cases t q w = elim (run-cases (query net t q true 5) w) [
    | inl ((resp, ms), w', e) ↦ inl (
      resp,
      ms,
      w',
      e,
      catch-ok (query net t q true 5 >>= λ a. pure (first_half net t a.0 a.1)) _ w
          (>>=-ok (query net t q true 5) _ w e),
    )
    | inr (x, w', e) ↦ inr (
      x,
      w',
      e,
      catch-err (query net t q true 5 >>= λ a. pure (first_half net t a.0 a.1)) _ w
          {k = pure (ended (result "dot-query" t fail ("dnspython: " <> net.repr_error x) none))}
          (>>=-err (query net t q true 5) _ w e) refl,
    )
  ]

  -- The cross-check ran, and `kdig` exited with 0; or there is no `kdig`.
  abbrev pub Agrees : Target → ℤ → Question → W → Type 0
  Agrees t port q w =
      ((k : Kdig) × (w' : W) × (net.run_kdig (kdig_args net t port q) 15 w ≡ (ok k, w'))
        × (k.returncode ≡ pos 0))
      ⊎ ((path : String) × (w' : W) × (net.run_kdig (kdig_args net t port q) 15 w
            ≡ (err (file_not_found path), w')))

  kdig_verdict-pass :
      (t : Target) (ms : ℕ) (k : Kdig)
      → (kdig_verdict net t ms k).status ≡ pass
      → k.returncode ≡ pos 0
  unfolding kdig_verdict
  kdig_verdict-pass t ms k h = ground arith

  abbrev body : Target → ℤ → Question → ℕ → Action W CheckResult
  body t port q ms =
      net.run_kdig (kdig_args net t port q) 15 >>= λ k. pure (kdig_verdict net t ms k)

  cross_check-raises :
      (t : Target) (port : ℤ) (q : Question) (ms : ℕ) (w w' : W) (x : Error)
      → net.run_kdig (kdig_args net t port q) 15 w ≡ (err x, w')
      → without_kdig net t ms x ≡ none
      → cross_check net t port q ms w ≡ (err x, w')
  unfolding cross_check
  cross_check-raises t port q ms w w' x e missed =
      catch-passes_on (body t port q ms) (without_kdig net t ms) w
        (>>=-err (net.run_kdig (kdig_args net t port q) 15) _ w e) missed

  -- An exception of `kdig` either means that it is missing, or is passed on.
  cross_check-failed :
      (t : Target) (port : ℤ) (q : Question) (ms : ℕ) (w w' : W) (x : Error) (c : CheckResult)
      → net.run_kdig (kdig_args net t port q) 15 w ≡ (err x, w')
      → (cross_check net t port q ms w).0 ≡ ok c
      → (path : String) × (x ≡ file_not_found path)
  unfolding without_kdig
  cross_check-failed t port q ms w w' (file_not_found path) c e h = (path, refl)
  cross_check-failed t port q ms w w' x c e h =
      absurd (cc (ap (λ r. r.0) (cross_check-raises t port q ms w w' _ e refl), h))

  cross_check-pass :
      (t : Target) (port : ℤ) (q : Question) (ms : ℕ) (w : W) (c : CheckResult)
      → (cross_check net t port q ms w).0 ≡ ok c
      → c.status ≡ pass
      → Agrees t port q w
  unfolding cross_check
  cross_check-pass t port q ms w c h p =
      elim (run-cases (net.run_kdig (kdig_args net t port q) 15) w) [
        | inl (k, w', e) ↦
            let done =
              catch-ok (body t port q ms) (without_kdig net t ms) w
                (>>=-ok (net.run_kdig (kdig_args net t port q) 15) _ w e) in
            let same : kdig_verdict net t ms k ≡ c = cc (ap (λ r. r.0) done, h) in
            inl (k, w', e, kdig_verdict-pass t ms k (ap (λ (x : CheckResult). x.status) same ∙ p))
        | inr (x, w', e) ↦
            let (path, missing) = cross_check-failed t port q ms w w' x c e h in inr (path, w', cc)
      ]

  -- The answer of dnspython is accepted exactly if it is a NOERROR one.
  first_half-answered :
      (t : Target) (resp : Response) (ms ms' : ℕ)
      → first_half net t resp ms ≡ answered ms'
      → resp.rcode ≡ 0
  unfolding first_half
  first_half-answered t resp ms ms' h = ground arith

  first_half-ended :
      (t : Target) (resp : Response) (ms : ℕ) (c : CheckResult)
      → first_half net t resp ms ≡ ended c
      → c.status ≡ fail
  unfolding first_half
  first_half-ended t resp ms c h = ground arith

  -- What a PASS of `query_dot` over a port shows.
  abbrev pub Confirmed : Target → ℤ → Question → W → Type 0
  Confirmed t port q w =
      (resp : Response) × (ms : ℕ) × (w' : W) × (query net t q true 5 w ≡ (ok (resp, ms), w'))
      × (resp.rcode ≡ 0)
      × Agrees t port q w'

  finish_dot-pass :
      (t : Target) (port : ℤ) (q : Question) (resp : Response) (ms : ℕ) (probe : Probe) (w w' : W)
      (c : CheckResult)
      → query net t q true 5 w ≡ (ok (resp, ms), w')
      → first_half net t resp ms ≡ probe
      → (finish_dot net t port q probe w').0 ≡ ok c
      → c.status ≡ pass
      → Confirmed t port q w
  unfolding finish_dot
  finish_dot-pass t port q resp ms (answered n) w w' c asked half h p = (
    resp,
    ms,
    w',
    asked,
    first_half-answered t resp ms n half,
    cross_check-pass t port q n w' c h p,
  )
  finish_dot-pass t port q resp ms (ended r) w w' c asked half h p =
      absurd (cc (first_half-ended t resp ms r half, h, p))

  dot_on-pass :
      (port : ℤ) (t : Target) (q : Question) (w : W) (c : CheckResult)
      → (dot_on net (some port) t q w).0 ≡ ok c
      → c.status ≡ pass
      → Confirmed t port q w
  unfolding dot_on finish_dot
  dot_on-pass port t q w c h p = elim (probe_dot-cases t q w) [
    | inl (resp, ms, w', asked, half) ↦
        let done = >>=-ok (probe_dot net t q) (finish_dot net t port q) w half in
        finish_dot-pass t port q resp ms _ w w' c asked refl (ap (λ r. r.0) (sym done) ∙ h) p
    | inr (x, w', asked, half) ↦
        let done = >>=-ok (probe_dot net t q) (finish_dot net t port q) w half in
        absurd (cc (ap (λ r. r.0) done, h, p))
  ]

  port-pass :
      (port : Option ℤ) (t : Target) (q : Question) (w : W) (c : CheckResult)
      → (dot_on net port t q w).0 ≡ ok c
      → c.status ≡ pass
      → (p : ℤ) × (port ≡ some p) × Confirmed t p q w
  unfolding dot_on
  port-pass none t q w c h p = absurd (cc)
  port-pass (some port) t q w c h p = (port, refl, dot_on-pass port t q w c h p)

  -- A PASS of `query_dot` means that the target has a DoT port, that dnspython got a NOERROR
  -- answer over TLS, and that `kdig`, asked the same at the same port afterwards, either exited
  -- with 0 or could not be found.
  pub query_dot-pass :
      (t : Target) (qname qtype : Option String) (w : W) (c : CheckResult)
      → (query_dot net t qname qtype w).0 ≡ ok c
      → c.status ≡ pass
      → (port : ℤ) × (t.port_dot ≡ some port) × Confirmed t port (probe_of t qname qtype) w
  unfolding query_dot
  query_dot-pass t qname qtype w c h p = port-pass t.port_dot t (probe_of t qname qtype) w c h p

  -- `kdig` is run after a NOERROR answer of dnspython, and raises something else than
  -- FileNotFoundError.
  abbrev pub Escapes : Option ℤ → Target → Question → W → Error → W → Type 0
  Escapes port t q w x w'' =
      (p : ℤ) × (resp : Response) × (ms : ℕ) × (w' : W) × (port ≡ some p)
      × (query net t q true 5 w ≡ (ok (resp, ms), w'))
      × (resp.rcode ≡ 0)
      × (net.run_kdig (kdig_args net t p q) 15 w' ≡ (err x, w''))
      × ((path : String) → x ≢ file_not_found path)

  without_kdig-none :
      (t : Target) (ms : ℕ) (x : Error)
      → ((path : String) → x ≢ file_not_found path)
      → without_kdig net t ms x ≡ none
  unfolding without_kdig
  without_kdig-none t ms (file_not_found path) other = absurd (other path refl)
  without_kdig-none t ms x other = refl

  first_half-fine :
      (t : Target) (resp : Response) (ms : ℕ)
      → resp.rcode ≡ 0
      → first_half net t resp ms ≡ answered ms
  unfolding first_half
  first_half-fine t resp ms h = ground arith

  probe_dot-answered :
      (t : Target) (q : Question) (w w' : W) (resp : Response) (ms : ℕ)
      → query net t q true 5 w ≡ (ok (resp, ms), w')
      → resp.rcode ≡ 0
      → probe_dot net t q w ≡ (ok (answered ms), w')
  unfolding probe_dot
  probe_dot-answered t q w w' resp ms asked fine =
      catch-ok (query net t q true 5 >>= λ a. pure (first_half net t a.0 a.1)) _ w (
        >>=-ok (query net t q true 5) _ w asked
        ∙ ap (λ r. (ok r, w')) (first_half-fine t resp ms fine))

  dot_on-raises :
      (port : Option ℤ) (t : Target) (q : Question) (w w'' : W) (x : Error)
      → Escapes port t q w x w''
      → dot_on net port t q w ≡ (err x, w'')
  unfolding dot_on finish_dot
  dot_on-raises none t q w w'' x (p, resp, ms, w', e, asked, fine, raised, other) = absurd (cc)
  dot_on-raises (some port) t q w w'' x (p, resp, ms, w', e, asked, fine, raised, other) =
      let here : p ≡ port = cc (e) in
      let probed : probe_dot net t q w ≡ (ok (answered ms), w') =
        probe_dot-answered t q w w' resp ms asked fine in
      >>=-ok (probe_dot net t q) (finish_dot net t port q) w probed
      ∙ (subst (λ n. cross_check net t n q ms w' ≡ (err x, w'')) here
          (cross_check-raises t p q ms w' w'' x raised (without_kdig-none t ms x other)))

  -- An exception of `kdig` that is no FileNotFoundError, such as the timeout of
  -- `subprocess.run`, ends `run_checks` as a whole: no result of any check is returned.
  pub run_checks-loses :
      (t : Target) (w w'' : W) (x : Error)
      → Escapes t.port_dot t (probe_of t none none) (query_do53 net t none none w).1 x w''
      → run_checks net t w ≡ (err x, w'')
  unfolding run_checks query_dot
  run_checks-loses t w w'' x h =
      let (c, (done, named, at), judged) = query_do53-judged net t none none w in
      >>=-ok (query_do53 net t none none) _ w {a = c} {w' = (query_do53 net t none none w).1}
        (ground arith)
      ∙ (>>=-err (query_dot net t none none) _ (query_do53 net t none none w).1
          (dot_on-raises t.port_dot t (probe_of t none none) _ w'' x h))
