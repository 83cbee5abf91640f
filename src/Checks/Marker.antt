-- ===== src/Checks/Marker.antt =====
-- `check_dot_upstream_marker`: when it asks, and what its verdict shows.
use mathlib.Core.Path.{subst}
use gpt_jupyter_dns.Prelude.{
  ℕ, String, ◌<>◌, ◌≡◌, refl, ◌≢◌, inl, inr, Bool, true, false, none, some, List, ◌&&◌, ◌||◌, not,
  is_some, ends_with, contains, ◌∙◌, ap, sym, arith, Bool-cases,
}
use gpt_jupyter_dns.Result.{Result, ok, Result-cases}
use gpt_jupyter_dns.Action.{
  Action, pure, lift, catch, catch-ok, catch-err, run-cases, >>=-ok, >>=-err, ◌>>=◌,
}
use gpt_jupyter_dns.Value.{has_text, repr_text}
use gpt_jupyter_dns.Model.{Target, pass, fail, skip, CheckResult}
use gpt_jupyter_dns.Net.{Net, Response}
use gpt_jupyter_dns.Checks.{
  marker_qname, txt_values, query, result, marker_upstream_verdict, check_dot_upstream_marker,
}

-- The targets that are asked: a forwarding role, the capability, and a profile named for DoT.
abbrev pub is_asked : Target → Bool
is_asked t =
    (has_text "forwarder" t.capabilities.roles || has_text "recursive" t.capabilities.roles)
    && t.capabilities.dot_upstream_forwarding
    && ends_with t.profile "dot"

module _ {W : Type 0} (net : Net W) where
  -- The query for the marker, over DoT if the target has no Do53 port.
  abbrev pub marker_query : Target → Action W (Response × ℕ)
  marker_query t = query net t (marker_qname, "TXT") (not (is_some t.port_do53)) 10

  -- The marker's TXT strings include `dot`.
  abbrev pub FromDot : Target → W → Type 0
  FromDot t w =
      (resp : Response) × (ms : ℕ) × (w' : W) × (vals : List String) × (marker_query t w
        ≡ (ok (resp, ms), w'))
      × (txt_values resp.answer ≡ ok vals)
      × (contains "dot" vals ≡ true)

  abbrev finish : Target → Response × ℕ → Action W CheckResult
  finish t a =
      lift (txt_values a.0.answer) >>= λ vals. pure (marker_upstream_verdict net t a.1 vals)

  asked_body : Target → Action W CheckResult
  asked_body t =
      catch (marker_query t >>= finish t)
        λ e. some (pure (result "dot-upstream" t fail ("" <> net.repr_error e) none))

  verdict-pass :
      (t : Target) (ms : ℕ) (vals : List String)
      → (marker_upstream_verdict net t ms vals).status ≡ pass
      → contains "dot" vals ≡ true
  unfolding marker_upstream_verdict
  verdict-pass t ms vals h = ground arith

  verdict-not_skip :
      (t : Target) (ms : ℕ) (vals : List String)
      → (marker_upstream_verdict net t ms vals).status ≢ skip
  unfolding marker_upstream_verdict
  verdict-not_skip t ms vals h = ground arith

  -- Whatever happens, a target that is asked gets a verdict, and PASS only from the DoT upstream.
  abbrev pub AskedVerdict : Target → W → Result CheckResult → Type 0
  AskedVerdict t w r =
      (c : CheckResult) × (r ≡ ok c) × (c.status ≢ skip) × (c.status ≡ pass → FromDot t w)

  body_cases : (t : Target) (w : W) → AskedVerdict t w (asked_body t w).0
  unfolding asked_body
  body_cases t w = elim (run-cases (marker_query t) w) [
    | inl ((resp, ms), w', e) ↦ elim (Result-cases (txt_values resp.answer)) [
      | inl (vals, d) ↦ (
        marker_upstream_verdict net t ms vals,
        ap (λ r. r.0)
            (catch-ok (marker_query t >>= finish t) _ w (
              >>=-ok (marker_query t) (finish t) w e
              ∙ (>>=-ok (lift (txt_values resp.answer)) _ w' (ap (λ r. (r, w')) d)))),
        verdict-not_skip t ms vals,
        λ h. (resp, ms, w', vals, e, d, verdict-pass t ms vals h),
      )
      | inr (x, d) ↦ (
        result "dot-upstream" t fail ("" <> net.repr_error x) none,
        ap (λ r. r.0)
            (catch-err (marker_query t >>= finish t) _ w
              {k = pure (result "dot-upstream" t fail ("" <> net.repr_error x) none)}
              (>>=-ok (marker_query t) (finish t) w e
                ∙ (>>=-err (lift (txt_values resp.answer)) _ w' (ap (λ r. (r, w')) d)))
              refl),
        (λ h. cc),
        (λ h. absurd (cc)),
      )
    ]
    | inr (x, w', e) ↦ (
      result "dot-upstream" t fail ("" <> net.repr_error x) none,
      ap (λ r. r.0)
          (catch-err (marker_query t >>= finish t) _ w
            {k = pure (result "dot-upstream" t fail ("" <> net.repr_error x) none)}
            (>>=-err (marker_query t) (finish t) w e) refl),
      (λ h. cc),
      (λ h. absurd (cc)),
    )
  ]

  asked_lem : (t : Target) → is_asked t ≡ true → check_dot_upstream_marker net t ≡ asked_body t
  unfolding check_dot_upstream_marker asked_body
  asked_lem t h = ground arith

  unasked_lem :
      (t : Target) (w : W)
      → is_asked t ≡ false
      → (c : CheckResult) × (check_dot_upstream_marker net t w ≡ (ok c, w)) × (c.status ≡ skip)
  unfolding check_dot_upstream_marker
  unasked_lem t w h =
      elim (Bool-cases
        (has_text "forwarder" t.capabilities.roles || has_text "recursive" t.capabilities.roles)) [
          | inr r ↦ (result "dot-upstream" t skip "not a forwarder" none, ground arith, refl)
          | inl r ↦ elim (Bool-cases t.capabilities.dot_upstream_forwarding) [
            | inr u ↦ (
              result "dot-upstream" t skip "DoT upstream forwarding unsupported" none,
              ground arith,
              refl,
            )
            | inl u ↦ (
              result "dot-upstream" t skip
                  ("profile " <> repr_text t.profile <> " does not forward over DoT") none,
              ground arith,
              refl,
            )
          ]
        ]

  -- On a target that is asked, the check always returns PASS or FAIL, and PASS only if the
  -- marker's TXT strings include `dot`. On any other target it returns SKIP and sends nothing.
  pub check_dot_upstream_marker-judged :
      (t : Target) (w : W)
      → (is_asked t ≡ true → AskedVerdict t w (check_dot_upstream_marker net t w).0)
        × (is_asked t ≡ false
            → (c : CheckResult) × (check_dot_upstream_marker net t w ≡ (ok c, w))
              × (c.status ≡ skip))
  check_dot_upstream_marker-judged t w = (
    λ h. subst (λ m. AskedVerdict t w (m w).0) (sym (asked_lem t h)) (body_cases t w),
    unasked_lem t w,
  )
