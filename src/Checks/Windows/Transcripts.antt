-- ===== src/Checks/Windows/Transcripts.antt =====
-- The verdict of the report on a Windows client, of `dnslab/checks.py`, against the lines of its
-- transcript.
use mathlib.Core.Path.{subst}
use gpt_jupyter_dns.Prelude.{
  ℕ, String, ◌≡◌, refl, ◌≢◌, ap, sym, ◌∙◌, inl, inr, Bool, true, false, ◌&&◌, Option, none, some,
  List, [], ◌∷◌, ◌++◌, ◌==◌, eq_iff, eq_refl, All, all, starts_with, Bool-cases, arith,
}
use gpt_jupyter_dns.Dict.{Dict, lookup, lookup-insert}
use gpt_jupyter_dns.Result.{ok}
use gpt_jupyter_dns.Action.{raise, lift, Ends, Ends-bind, Ends-return, Ends-if}
use gpt_jupyter_dns.Value.{Value}
use gpt_jupyter_dns.Text.{strip, join_texts}
use gpt_jupyter_dns.Model.{Instance, fail}
use gpt_jupyter_dns.Registry.{Disk, get}
use gpt_jupyter_dns.State.{Env}
use gpt_jupyter_dns.State.Files.{Files}
use gpt_jupyter_dns.Ec2.Cloud.{Cloud, Invocation}
use gpt_jupyter_dns.Ec2.Waits.{run_command}
use gpt_jupyter_dns.Ec2.Discovery.{discover}
use gpt_jupyter_dns.Checks.Windows.{
  Transcript, Report, resolved, set_conns, set_line, read_lines, nonempty, all_ok, make_report,
  running_client, upstreams_of, server_addresses, run_report, windows_dot_client_report,
}

-- The line reports no verdict on the name.
abbrev pub IsSilent : String → String → Type 0
IsSilent qn line = (verdict : String) → resolved (strip line) ≢ some (qn, verdict)

set_conns-resolves : (o : Option String) (t : Transcript) → (set_conns o t).resolves ≡ t.resolves
set_conns-resolves none t = refl
set_conns-resolves (some rest) t = refl

set_line-silent :
    (o : Option (String × String)) (line qn : String) (t : Transcript)
    → ((verdict : String) → o ≢ some (qn, verdict))
    → lookup qn (set_line o line t).resolves ≡ lookup qn t.resolves
set_line-silent none line qn t h = ap (lookup qn) (set_conns-resolves _ t)
set_line-silent (some (k, v)) line qn t h = elim (Bool-cases (k == qn)) [
  | inl same ↦
      let k_eq : k ≡ qn = ground (arith, eq_iff k qn, same) in
      absurd (h v (ap (λ x. some (x, v)) k_eq))
  | inr other ↦ lookup-insert qn k v t.resolves ∙ rw (other) refl
]

-- Lines that are silent on a name leave its verdict.
read_lines-silent :
    (ls : List String) (qn : String) (t : Transcript)
    → All (IsSilent qn) ls
    → lookup qn (read_lines ls t).resolves ≡ lookup qn t.resolves
unfolding read_lines
read_lines-silent [] qn t h = refl
read_lines-silent (l ∷ ls) qn t (h, hs) =
    read_lines-silent ls qn (set_line (resolved (strip l)) (strip l) t) hs
    ∙ set_line-silent (resolved (strip l)) (strip l) qn t h

-- The last verdict on a name counts.
read_lines-last :
    (before after : List String) (l qn verdict : String) (t : Transcript)
    → resolved (strip l) ≡ some (qn, verdict)
    → All (IsSilent qn) after
    → lookup qn (read_lines (before ++ l ∷ after) t).resolves ≡ some verdict
unfolding read_lines
read_lines-last [] after l qn verdict t reports silent =
    read_lines-silent after qn (set_line (resolved (strip l)) (strip l) t) silent
    ∙ ap (λ o. lookup qn (set_line o (strip l) t).resolves) reports
    ∙ lookup-insert qn qn verdict t.resolves
    ∙ rw (eq_refl qn) refl
read_lines-last (b ∷ before) after l qn verdict t reports silent =
    read_lines-last before after l qn verdict (set_line (resolved (strip b)) (strip b) t) reports
      silent

all-lookup :
    (p : String → Bool) (d : Dict String) (k v : String)
    → lookup k d ≡ some v
    → p v ≡ false
    → all (λ (j, w). p w) d ≡ false
unfolding lookup
all-lookup p [] k v found bad = absurd (cc)
all-lookup p ((j, w) ∷ d) k v found bad = elim (Bool-cases (j == k)) [
  | inl same ↦ let vw : w ≡ v = ground (arith, same, found) in rw (ap p vw ∙ bad) refl
  | inr other ↦
      let rest = all-lookup p d k v (ground (arith, other, found)) bad in ground (arith, rest)
]

and_false : (b c : Bool) → c ≡ false → (b && c) ≡ false
and_false true c h = h
and_false false c h = refl

all_ok-false :
    (d : Dict String) (k v : String)
    → lookup k d ≡ some v
    → starts_with v "NOERROR" ≡ false
    → all_ok d ≡ false
unfolding all_ok
all_ok-false d k v found bad =
    and_false (nonempty d) _ (all-lookup (λ s. starts_with s "NOERROR") d k v found bad)

-- A name that the transcript at last reports as not resolved.
pub record Unresolved (lines : List String) : Type 0 where
  pub before : List String
  pub line : String
  pub after : List String
  pub split : lines ≡ before ++ line ∷ after
  pub qn : String
  pub verdict : String
  pub reports : resolved (strip line) ≡ some (qn, verdict)
  pub silent : All (IsSilent qn) after
  pub is_error : starts_with verdict "NOERROR" ≡ false

module _ {W : Type 0} (cloud : Cloud W) (files : Files W) (env : Env) where
  -- The verdict is FAIL when the raw transcript leaves a name unresolved.
  abbrev IsJudged : Report → W → Type 0
  IsJudged r w = Unresolved (cloud.splitlines r.raw) → r.verdict ≡ fail

  make_report-IsJudged :
      (i : Instance) (blocked : Bool) (res : Invocation) (w : W)
      → IsJudged
          (make_report i blocked res
            (read_lines (cloud.splitlines res.stdout) (record { resolves = []; conns = "" })))
          w
  unfolding make_report
  make_report-IsJudged i blocked res w u =
      let t : Transcript = record { resolves = []; conns = "" } in
      let found = read_lines-last u.before u.after u.line u.qn u.verdict t u.reports u.silent in
      let here =
        subst (λ ls. lookup u.qn (read_lines ls t).resolves ≡ some u.verdict) (sym u.split) found in
      let bad = all_ok-false _ u.qn u.verdict here u.is_error in rw (bad) refl

  run_report-IsJudged :
      (i : Instance) (names : List String) (blocked : Bool) (timeout : ℕ) (ups : List (Dict Value))
      (w : W)
      → Ends IsJudged (run_report cloud files env i names blocked timeout ups w)
  unfolding run_report
  run_report-IsJudged i names blocked timeout ups w =
      Ends-if IsJudged (join_texts "," (server_addresses ups) == "") (raise _) _ w
        (record { at = λ a w' h. absurd (cc (ap (λ r. r.0) h)) })
        (Ends-bind IsJudged (run_command cloud i.id _ timeout) _ w
          λ res w₁ _. Ends-return IsJudged _ w₁ (make_report-IsJudged i blocked res w₁))

  -- The report on a Windows client never says PASS when the transcript that it carries has a name whose
  -- last line of a verdict is other than NOERROR, whether plaintext was blocked or not.
  pub windows_dot_client_report-judged :
      (disk : Disk) (root name : String) (names : List String) (blocked : Bool) (timeout : ℕ)
      (w w' : W) (r : Report)
      → windows_dot_client_report cloud files env disk root name names blocked timeout w
        ≡ (ok r, w')
      → Unresolved (cloud.splitlines r.raw)
      → r.verdict ≡ fail
  unfolding windows_dot_client_report
  windows_dot_client_report-judged disk root name names blocked timeout w w' r h =
      (Ends-bind IsJudged (discover cloud files env) _ w λ found w₁ _.
          Ends-bind IsJudged (lift (running_client name found)) _ w₁ λ i w₂ _.
            Ends-bind IsJudged (lift (get disk root i.server)) _ w₂ λ spec w₃ _.
              Ends-bind IsJudged (lift (upstreams_of (lookup i.profile spec.profiles))) _ w₃
                λ ups w₄ _. run_report-IsJudged i names blocked timeout ups w₄).at
        r w' h
