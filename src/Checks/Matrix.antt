-- ===== src/Checks/Matrix.antt =====
-- `dnslab/checks.py`: all checks on a target, the matrix over several targets, and its explanation.
pub mod Explain
use gpt_jupyter_dns.Prelude.{String, ◌<>◌, none, List, [], ◌∷◌, ◌++◌}
use gpt_jupyter_dns.Dict.{Dict, insert}
use gpt_jupyter_dns.Action.{Action, pure, ◌>>=◌}
use gpt_jupyter_dns.Text.{pad}
use gpt_jupyter_dns.Model.{Target, Status, pass, fail, skip, CheckResult}
use gpt_jupyter_dns.Net.{Net}
use gpt_jupyter_dns.Checks.{
  query_do53, query_dot, check_cert, check_forwarding, check_dot_upstream_marker,
}

module _ {W : Type 0} (net : Net W) where
  -- `run_checks`: the calls of `ALL_CHECKS`, in order
  unfoldable pub run_checks : Target → Action W (List CheckResult)
  run_checks t = do
    a ← query_do53 net t none none
    b ← query_dot net t none none
    c ← check_cert net t
    d ← check_forwarding net t none
    e ← check_dot_upstream_marker net t
    pure (a ∷ b ∷ c ∷ d ∷ e ∷ [])

  statuses : List CheckResult → Dict Status → Dict Status
  statuses [] row = row
  statuses (r ∷ rs) row = statuses rs (insert r.check r.status row)

  -- The loop of `run_matrix` over the targets; a later target replaces one of the same name.
  matrix_loop :
      List Target
      → Dict (Dict Status) × Dict (List CheckResult)
      → Action W (Dict (Dict Status) × Dict (List CheckResult))
  unfolding statuses
  matrix_loop [] acc = pure acc
  matrix_loop (t ∷ ts) (rows, details) = do
    results ← run_checks t
    matrix_loop ts (insert t.name (statuses results []) rows, insert t.name results details)

  -- `run_matrix`: the rows of the data frame, and its `details`
  unfoldable pub run_matrix : List Target → Action W (Dict (Dict Status) × Dict (List CheckResult))
  unfolding matrix_loop
  run_matrix ts = matrix_loop ts ([], [])

abbrev pub status_text : Status → String
status_text pass = "PASS"
status_text fail = "FAIL"
status_text skip = "SKIP"

explain_results : String → List CheckResult → List String
explain_results name [] = []
explain_results name (r ∷ rs) =
    let rest = explain_results name rs in
    let line =
      pad 24 name
      <> " "
      <> pad 14 r.check
      <> " "
      <> pad 5 (status_text r.status)
      <> " "
      <> r.detail in
    elim r.status [ pass ↦ rest | _ ↦ line ∷ rest ]

-- `explain`: the lines that it prints, from the `details`
unfoldable pub explain : Dict (List CheckResult) → List String
unfolding explain_results
explain [] = []
explain ((name, results) ∷ rest) = explain_results name results ++ explain rest
