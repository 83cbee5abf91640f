-- ===== src/Checks/Report.antt =====
-- `query_report` and `run_query_matrix` of `dnslab/checks.py`: one query in full detail, and all
-- queries over all transports. A query item is a name, or a name and a type.
pub mod Rows
use gpt_jupyter_dns.Prelude.{
  ℕ, ◌-◌, ◌+◌, String, ◌<>◌, Bool, true, false, ◌||◌, not, Option, none, some, List, [], ◌∷◌, ◌++◌,
  ◌==◌, eqb, length, if◌then◌else◌,
}
use gpt_jupyter_dns.Result.{ok, Error}
use gpt_jupyter_dns.Action.{Action, pure, lift, catch, ◌>>=◌, ◌>>◌}
use gpt_jupyter_dns.Value.{ℤ, show_ℕ}
use gpt_jupyter_dns.Model.{Target, address, Status, pass, fail, skip}
use gpt_jupyter_dns.Net.{
  Net, Query, Question, RRset, EdnsOption, ede, other_option, Edns, Response, rrsig,
}

-- The dictionary `row`; `none` is Python's None. `latency` is in microseconds.
pub record Row : Type 0 where
  pub target : String
  pub qname : String
  pub qtype : String
  pub transport : String
  pub status : Status
  pub rcode : String
  pub flags : String
  pub do_bit : Option Bool
  pub payload : Option ℕ
  pub ede : String
  pub rrsig : Option Bool
  pub answers : Option ℕ
  pub latency : Option ℕ

abbrev pub transport_of : Bool → String
transport_of dot = if dot then "dot" else "do53"

-- The row before anything is sent.
unfoldable pub empty_row : Target → Question → Bool → Row
empty_row t (qname, qtype) dot = record {
  target = t.name;
  qname = qname;
  qtype = qtype;
  transport = transport_of dot;
  status = skip;
  rcode = "";
  flags = "";
  do_bit = none;
  payload = none;
  ede = "";
  rrsig = none;
  answers = none;
  latency = none;
}

-- What `queries` lists.
pub data Item : Type 0 where
  bare : String → Item
  typed : String → String → Item

unfoldable pub question_of : Item → Question
question_of (bare qname) = (qname, "A")
question_of (typed qname qtype) = (qname, qtype)

has_rrsig : List RRset → Bool
has_rrsig [] = false
has_rrsig (r ∷ rs) = eqb r.rdtype rrsig || has_rrsig rs

count_rdatas : List RRset → ℕ
count_rdatas [] = 0
count_rdatas (r ∷ rs) = length r.rdatas + count_rdatas rs

-- `"; ".join(edes)`
join_edes : List String → String
join_edes [] = ""
join_edes (s ∷ []) = s
join_edes (s ∷ t ∷ ss) = s <> "; " <> join_edes (t ∷ ss)

unfoldable pub report_query : Question → Bool → Query
report_query (qname, qtype) want_dnssec = record {
  qname = qname;
  qtype = qtype;
  payload = some 1232;
  want_dnssec = want_dnssec;
}

module _ {W : Type 0} (net : Net W) where
  -- the code's name, or its number
  code_name : ℕ → String
  code_name n = elim (net.ede_name n) [ none ↦ show_ℕ n | some name ↦ name ]

  ede_texts : List EdnsOption → List String
  unfolding code_name
  ede_texts [] = []
  ede_texts (ede code text ∷ os) =
      (show_ℕ code <> " " <> code_name code <> (if text == "" then "" else ": " <> text))
      ∷ ede_texts os
  ede_texts (other_option ∷ os) = ede_texts os

  with_edns : Option Edns → Row → Row
  unfolding ede_texts join_edes
  with_edns none row = row
  with_edns (some e) row = record row {
    do_bit = some e.do_bit;
    payload = some e.payload;
    ede = join_edes (ede_texts e.options);
  }

  answer_row : Row → Response → ℕ → Row
  unfolding with_edns has_rrsig count_rdatas
  answer_row row resp ms = record (with_edns resp.edns row) {
    status = if eqb resp.rcode 0 then pass else fail;
    rcode = net.rcode_text resp.rcode;
    flags = net.flags_text resp.flags;
    rrsig = some (has_rrsig resp.answer);
    answers = some (count_rdatas resp.answer);
    latency = some ms;
  }

  pub send : Target → Query → Bool → ℕ → Action W Response
  unfolding address
  send t q true timeout = net.tls q (address t) t.port_dot timeout t.ca_file t.tls_hostname
  send t q false timeout = net.udp_with_fallback q (address t) t.port_do53 timeout

  -- The query behind the test for a port: it is sent at `t0`, and any exception is a FAIL.
  report_sent : Target → Row → Query → Bool → ℕ → ℕ → Action W Row
  unfolding answer_row send
  report_sent t row q dot timeout t0 =
      catch
        (do
          resp ← send t q dot timeout
          t1 ← (λ w. (ok (net.clock w), w))
          pure (answer_row row resp (t1 - t0)))
        λ e. some λ w. (
          ok (record row {
            status = fail;
            ede = net.repr_error e;
            latency = some (net.clock w - t0);
          }),
          w,
        )

  -- A name or type that `make_query` cannot read raises: it is built outside the `try`.
  report_on : Option ℤ → Target → Question → Bool → Bool → ℕ → Action W Row
  unfolding report_sent empty_row
  report_on none t question dot want_dnssec timeout =
      pure (record (empty_row t question dot) { ede = "no " <> transport_of dot <> " listener" })
  report_on (some port) t question dot want_dnssec timeout = do
    lift (net.make_query (report_query question want_dnssec))
    t0 ← (λ w. (ok (net.clock w), w))
    report_sent t (empty_row t question dot) (report_query question want_dnssec) dot timeout t0

  unfoldable pub query_report : Target → Question → Bool → Bool → ℕ → Action W Row
  unfolding report_on
  query_report t question dot want_dnssec timeout =
      report_on (if dot then t.port_dot else t.port_do53) t question dot want_dnssec timeout

  over_transports : Target → Question → Bool → List String → Action W (List Row)
  over_transports t question want_dnssec [] = pure []
  over_transports t question want_dnssec (tr ∷ trs) = do
    row ← query_report t question (tr == "dot") want_dnssec 10
    rows ← over_transports t question want_dnssec trs
    pure (row ∷ rows)

  over_queries : Target → List Item → Bool → List String → Action W (List Row)
  unfolding over_transports
  over_queries t [] want_dnssec trs = pure []
  over_queries t (item ∷ items) want_dnssec trs = do
    rows ← over_transports t (question_of item) want_dnssec trs
    more ← over_queries t items want_dnssec trs
    pure (rows ++ more)

  unfoldable pub run_query_matrix :
      List Target → List Item → List String → Bool → Action W (List Row)
  unfolding over_queries
  run_query_matrix [] items trs want_dnssec = pure []
  run_query_matrix (t ∷ ts) items trs want_dnssec = do
    rows ← over_queries t items want_dnssec trs
    more ← run_query_matrix ts items trs want_dnssec
    pure (rows ++ more)
