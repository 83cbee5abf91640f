-- ===== src/Checks/Report/Rows.antt =====
-- What the rows of a report say, and which rows `run_query_matrix` returns.
use gpt_jupyter_dns.Prelude.{
  ℕ, ◌-◌, String, ◌≡◌, refl, ◌≢◌, ◌↔◌, inl, inr, Bool, Option, none, some, List, [], ◌∷◌, ◌++◌,
  ◌==◌, map, ap, ◌∙◌, arith, if◌then◌else◌,
}
use gpt_jupyter_dns.Result.{Result, ok}
use gpt_jupyter_dns.Action.{lift, catch-ok, catch-err, run-cases, >>=-ok, >>=-err, ◌>>=◌}
use gpt_jupyter_dns.Value.{ℤ}
use gpt_jupyter_dns.Model.{Target, pass, fail, skip}
use gpt_jupyter_dns.Net.{Net, Query, Question, Response, Edns}
use gpt_jupyter_dns.Checks.Report.{
  Row, transport_of, empty_row, Item, question_of, report_query, with_edns, answer_row, send,
  report_sent, report_on, query_report,
}

-- The target, the question and the transport of a row.
abbrev pub Asked : Type 0
Asked = String × String × String × String

abbrev pub asked : Row → Asked
asked r = (r.target, r.qname, r.qtype, r.transport)

abbrev pub asked_of : Target → Question → Bool → Asked
asked_of t q dot = (t.name, q.0, q.1, transport_of dot)

module _ {W : Type 0} (net : Net W) where
  with_edns-asked : (e : Option Edns) (row : Row) → asked (with_edns net e row) ≡ asked row
  unfolding with_edns
  with_edns-asked none row = refl
  with_edns-asked (some e) row = refl

  answer_row-asked :
      (row : Row) (resp : Response) (ms : ℕ) → asked (answer_row net row resp ms) ≡ asked row
  unfolding answer_row
  answer_row-asked row resp ms = with_edns-asked resp.edns row

  answer_row-status :
      (row : Row) (resp : Response) (ms : ℕ)
      → ((answer_row net row resp ms).status ≢ skip)
        × (((answer_row net row resp ms).status ≡ pass) ↔ (resp.rcode ≡ 0))
  unfolding answer_row
  answer_row-status row resp ms = (λ h. ground arith, (λ h. ground arith, λ h. ground arith))

  -- The exchange brings a NOERROR response.
  abbrev pub Succeeds : Target → Query → Bool → ℕ → W → Type 0
  Succeeds t q dot timeout w =
      (resp : Response) × (w' : W) × (send net t q dot timeout w ≡ (ok resp, w')) × (resp.rcode ≡ 0)

  -- A row about this question, which is no SKIP, and PASS exactly if the exchange succeeds.
  abbrev pub Sent : Asked → Type 0 → Row → Type 0
  Sent a P row = (asked row ≡ a) × (row.status ≢ skip) × ((row.status ≡ pass) ↔ P)

  report_sent-Sent :
      (t : Target) (row : Row) (q : Query) (dot : Bool) (timeout t0 : ℕ) (w : W)
      → (r : Row) × (w' : W) × (report_sent net t row q dot timeout t0 w ≡ (ok r, w'))
        × Sent (asked row) (Succeeds t q dot timeout w) r
  unfolding report_sent ◌>>=◌
  report_sent-Sent t row q dot timeout t0 w = elim (run-cases (send net t q dot timeout) w) [
    | inl (resp, w', e) ↦
        let (judged, (to, from)) = answer_row-status row resp (net.clock w' - t0) in
        (
          answer_row net row resp (net.clock w' - t0),
          w',
          catch-ok _ _ w (>>=-ok (send net t q dot timeout) _ w e),
          (
            answer_row-asked row resp (net.clock w' - t0),
            judged,
            (
              λ h. (resp, w', e, to h),
              λ (resp', w'', e', fine).
                  from (ap (λ (r : Response). r.rcode) {x = resp} {y = resp'} (cc (e, e')) ∙ fine),
            ),
          ),
        )
    | inr (x, w', e) ↦ (
      record row { status = fail; ede = net.repr_error x; latency = some (net.clock w' - t0) },
      w',
      catch-err _ _ w (>>=-err (send net t q dot timeout) _ w e) refl,
      (refl, (λ h. cc), (λ h. absurd (cc), λ (resp', w'', e', fine). absurd (cc))),
    )
  ]

  -- Over one transport a report returns a row about its question: SKIP exactly without a port, and
  -- PASS exactly if there is one and the exchange succeeds.
  abbrev pub Reported : Option ℤ → Target → Question → Bool → Bool → ℕ → W → Result Row × W → Type 0
  Reported port t q dot want_dnssec timeout w r =
      (row : Row) × (w' : W) × (r ≡ (ok row, w'))
      × (asked row ≡ asked_of t q dot)
      × ((row.status ≡ skip) ↔ (port ≡ none))
      × ((row.status ≡ pass)
          ↔ ((port ≢ none) × Succeeds t (report_query q want_dnssec) dot timeout w))

  report_on-Reported :
      (port : Option ℤ) (t : Target) (q : Question) (dot want_dnssec : Bool) (timeout : ℕ) (w : W)
      → net.make_query (report_query q want_dnssec) ≡ ok tt
      → Reported port t q dot want_dnssec timeout w
          (report_on net port t q dot want_dnssec timeout w)
  unfolding report_on empty_row
  report_on-Reported none t q dot want_dnssec timeout w readable =
      (_, w, refl, refl, (λ h. refl, λ h. refl), (λ h. absurd (cc), λ h. absurd (h.0 refl)))
  report_on-Reported (some port) t q dot want_dnssec timeout w readable =
      let (row, w', sent, (about, judged, iff)) =
        report_sent-Sent t (empty_row t q dot) (report_query q want_dnssec) dot timeout
          (net.clock w) w in
      (
        row,
        w',
        >>=-ok (lift (net.make_query (report_query q want_dnssec))) _ w {a = tt} {w' = w}
              (rw readable)
            ∙ >>=-ok (λ v. (ok (net.clock v), v)) _ w {a = net.clock w} {w' = w} refl
            ∙ sent,
        about,
        (λ h. absurd (judged h), λ h. absurd (cc)),
        (λ h. (λ p. cc, iff.0 h), λ h. iff.1 h.1),
      )

  -- For a question that `make_query` can read, `query_report` always returns a row about it. Its
  -- status is SKIP exactly if the target has no port for the transport, and PASS exactly if it has
  -- one and the exchange comes back with NOERROR.
  pub query_report-judged :
      (t : Target) (q : Question) (dot want_dnssec : Bool) (timeout : ℕ) (w : W)
      → net.make_query (report_query q want_dnssec) ≡ ok tt
      → Reported
          (if dot then t.port_dot else t.port_do53)
          t
          q
          dot
          want_dnssec
          timeout
          w
          (query_report net t q dot want_dnssec timeout w)
  unfolding query_report
  query_report-judged t q dot want_dnssec timeout w readable =
      report_on-Reported (if dot then t.port_dot else t.port_do53) t q dot want_dnssec timeout w
        readable

  abbrev transports_asked : Target → Question → List String → List Asked
  transports_asked t q [] = []
  transports_asked t q (tr ∷ trs) = asked_of t q (tr == "dot") ∷ transports_asked t q trs

  abbrev queries_asked : Target → List Item → List String → List Asked
  queries_asked t [] trs = []
  queries_asked t (i ∷ is) trs = transports_asked t (question_of i) trs ++ queries_asked t is trs

  -- Every target with every query over every transport, in this order.
  abbrev pub matrix_asked : List Target → List Item → List String → List Asked
  matrix_asked [] is trs = []
  matrix_asked (t ∷ ts) is trs = queries_asked t is trs ++ matrix_asked ts is trs

  -- An action that returns rows about these questions.
  abbrev pub ReturnsRows : List Asked → Result (List Row) × W → Type 0
  ReturnsRows about r =
      (rows : List Row) × (w' : W) × (r ≡ (ok rows, w')) × (map asked rows ≡ about)
