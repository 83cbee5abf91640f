-- ===== src/Checks/Matrix/Explain.antt =====
-- When `explain` is silent.
use gpt_jupyter_dns.Prelude.{
  String, ◌≡◌, refl, ◌↔◌, ◌⊎◌, inl, inr, List, [], ◌∷◌, ◌++◌, All, sym, ◌∙◌,
}
use gpt_jupyter_dns.Dict.{Dict}
use gpt_jupyter_dns.Model.{Status, pass, fail, skip, CheckResult}
use gpt_jupyter_dns.Checks.Matrix.{explain_results, explain}

-- Every result of a target is a PASS.
abbrev pub Passes : String × List CheckResult → Type 0
Passes (name, results) = All (λ r. r.status ≡ pass) results

explain_results-cons_pass :
    (name : String) (r : CheckResult) (rs : List CheckResult)
    → r.status ≡ pass
    → explain_results name (r ∷ rs) ≡ explain_results name rs
unfolding explain_results
explain_results-cons_pass name r rs h = rw (h, explain_results)

status-cases : (s : Status) → (s ≡ pass) ⊎ (s ≡ fail) ⊎ (s ≡ skip)
status-cases pass = inl refl
status-cases fail = inr (inl refl)
status-cases skip = inr (inr refl)

append-nil_parts : (xs ys : List String) → xs ++ ys ≡ [] → (xs ≡ []) × (ys ≡ [])
append-nil_parts [] ys h = (refl, h)
append-nil_parts (x ∷ xs) ys h = absurd (cc)

explain_results-nil_iff :
    (name : String) (rs : List CheckResult) → (explain_results name rs ≡ []) ↔ Passes (name, rs)
unfolding explain_results
explain_results-nil_iff name [] = (λ h. tt, λ h. refl)
explain_results-nil_iff name (r ∷ rs) = (
  λ silent. elim (status-cases r.status) [
    | inl fine ↦ (
      fine,
      (explain_results-nil_iff name rs).0 (sym (explain_results-cons_pass name r rs fine) ∙ silent),
    )
    | inr (inl failed) ↦ absurd (cc (rw (explain_results, failed) at silent))
    | inr (inr skipped) ↦ absurd (cc (rw (explain_results, skipped) at silent))
  ],
  λ h. explain_results-cons_pass name r rs h.0 ∙ (explain_results-nil_iff name rs).1 h.1,
)

-- `explain` prints nothing exactly if every result of every target is a PASS.
pub explain-nil_iff :
    (details : Dict (List CheckResult)) → (explain details ≡ []) ↔ All Passes details
unfolding explain
explain-nil_iff [] = (λ h. tt, λ h. refl)
explain-nil_iff ((name, results) ∷ rest) = (
  λ silent.
      let (first, more) = append-nil_parts (explain_results name results) (explain rest) silent in
      ((explain_results-nil_iff name results).0 first, (explain-nil_iff rest).0 more),
  λ h. rw ((explain_results-nil_iff name results).1 h.0, (explain-nil_iff rest).1 h.1) refl,
)
