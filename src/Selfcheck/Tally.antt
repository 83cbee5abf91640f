-- ===== src/Selfcheck/Tally.antt =====
-- `dnslab/selfcheck.py`: how many failures one profile's check returns, and how many lines on failures it
-- has printed by then.
use mathlib.Core.Path.{subst}
use gpt_jupyter_dns.Prelude.{
  ℕ, ◌+◌, String, ◌≡◌, refl, ap, ◌∙◌, inl, inr, Bool, true, false, ◌||◌, Option, none, some, List,
  ◌==◌, if◌then◌else◌,
}
use gpt_jupyter_dns.Dict.{Dict}
use gpt_jupyter_dns.Result.{ok, err, Error}
use gpt_jupyter_dns.Action.{
  Action, pure, catch, catch-ok, catch-err, catch-passes_on, run-cases, ◌>>=◌, ◌>>◌, >>=-ok,
  >>=-err,
}
use gpt_jupyter_dns.Action.Kept.{Kept, Kept-pure, Kept-lift, Kept-bind, Kept-if}
use gpt_jupyter_dns.Value.{Value, null, truthy, get_or}
use gpt_jupyter_dns.Model.{Profile, ServerSpec}
use gpt_jupyter_dns.Selfcheck.{
  Line, fine, failed, not_loaded, Tools, is_manifest_error, finally, lint_file, lint_with,
  lint_rendered, linted, render_and_lint, check_profile,
}

-- The lines that begin with `FAIL`, of a profile, an instance, or a manifest that does not load.
abbrev pub failure : Line → ℕ
failure (failed label why) = 1
failure (not_loaded e) = 1
failure l = 0

-- A count of the failures that were printed: printing adds to it, and nothing else changes it.
pub record Counts {W : Type 0} (tools : Tools W) (fails : W → ℕ) : Type 0 where
  pub print :
      (l : Line) (w : W)
      → (w' : W) × (tools.print l w ≡ (ok tt, w')) × (fails w' ≡ fails w + failure l)
  pub render :
      (k : ℕ) (dir : String) (template : Value) (ctx : Dict Value)
      → Kept (λ w. fails w ≡ k) (tools.render dir template ctx)
  pub which : (k : ℕ) (program : String) → Kept (λ w. fails w ≡ k) (tools.which program)
  pub make_temp : (k : ℕ) → Kept (λ w. fails w ≡ k) tools.make_temp
  pub write_temp :
      (k : ℕ) (path text : String) → Kept (λ w. fails w ≡ k) (tools.write_temp path text)
  pub unlink : (k : ℕ) (path : String) → Kept (λ w. fails w ≡ k) (tools.unlink path)
  pub run : (k : ℕ) (cmd : List String) → Kept (λ w. fails w ≡ k) (tools.run cmd)

module _ {W : Type 0} (tools : Tools W) (fails : W → ℕ) (counts : Counts tools fails) where
  abbrev Same : ℕ → W → Type 0
  Same k w = fails w ≡ k

  finally-Kept :
      (k : ℕ) {A : Type 0} {m : Action W A} {cleanup : Action W (Unit {0})}
      → Kept (Same k) m
      → Kept (Same k) cleanup
      → Kept (Same k) (finally tools m cleanup)
  finally-Kept k {m = m} hm hc = record {
    at = λ w h. (Kept-bind (Same k) hc λ _. Kept-lift (Same k) (m w).0).at (m w).1 (hm.at w h);
  }

  lint_with-Kept :
      (k : ℕ) (rendered tool : String) (found : Bool)
      → Kept (Same k) (lint_with tools rendered tool found)
  unfolding lint_with lint_file
  lint_with-Kept k rendered tool false = Kept-pure (Same k) none
  lint_with-Kept k rendered tool true = Kept-bind (Same k) (counts.make_temp k) λ path.
      Kept-bind (Same k) (counts.write_temp k path rendered) λ _.
        finally-Kept k
          (Kept-bind (Same k) (Kept-lift (Same k) _)
            λ cmd. Kept-bind (Same k) (counts.run k cmd) λ r. Kept-pure (Same k) _)
          (counts.unlink k path)

  lint_rendered-Kept :
      (k : ℕ) (spec : ServerSpec) (rendered : String)
      → Kept (Same k) (lint_rendered tools spec rendered)
  unfolding lint_rendered
  lint_rendered-Kept k spec rendered =
      Kept-if (Same k) (truthy (get_or spec.raw "lint" null))
        (Kept-bind (Same k) (Kept-lift (Same k) _) λ tool.
          Kept-bind (Same k) (Kept-lift (Same k) _) λ program.
            Kept-bind (Same k) (counts.which k program)
              λ found. lint_with-Kept k rendered tool found)
        (Kept-pure (Same k) none)

  -- What an action returns is how many failures it has printed; when it raises, it has printed none.
  pub data Tallied (m : Action W ℕ) (w : W) : Type 0 where
    told : (n : ℕ) (w' : W) → m w ≡ (ok n, w') → fails w' ≡ fails w + n → Tallied m w
    raised : (x : Error) (w' : W) → m w ≡ (err x, w') → fails w' ≡ fails w → Tallied m w

  -- what another action, run from a world with as many failures, tells
  Tallied-shift :
      (m k : Action W ℕ) (w w₁ : W) → m w ≡ k w₁ → fails w₁ ≡ fails w → Tallied k w₁ → Tallied m w
  Tallied-shift m k w w₁ e same (told n w' h c) = told n w' (e ∙ h) (c ∙ ap (λ x. x + n) same)
  Tallied-shift m k w w₁ e same (raised x w' h c) = raised x w' (e ∙ h) (c ∙ same)

  Tallied-bind :
      {A : Type 0} (m : Action W A) (f : A → Action W ℕ) (w : W)
      → ((k : ℕ) → Kept (Same k) m)
      → ((a : A) (w' : W) → Tallied (f a) w')
      → Tallied (m >>= f) w
  Tallied-bind m f w kept h = elim (run-cases m w) [
    | inl (a, w', e) ↦
        Tallied-shift (m >>= f) (f a) w w' (>>=-ok m f w e)
          (subst (λ r. fails r.1 ≡ fails w) e ((kept (fails w)).at w refl)) (h a w')
    | inr (x, w', e) ↦
        raised x w' (>>=-err m f w e)
          (subst (λ r. fails r.1 ≡ fails w) e ((kept (fails w)).at w refl))
  ]

  told-print :
      (l : Line) (n : ℕ) (w : W) → failure l ≡ n → Tallied (tools.print l >>= λ _. pure n) w
  told-print l n w one =
      let (w', printed, more) = counts.print l w in
      told n w' (>>=-ok (tools.print l) (λ _. pure n) w printed) (more ∙ ap (λ x. fails w + x) one)

  Tallied-if :
      (b : Bool) (m k : Action W ℕ) (w : W)
      → Tallied m w
      → Tallied k w
      → Tallied (if b then m else k) w
  Tallied-if true m k w h g = h
  Tallied-if false m k w h g = g

  linted-Tallied : (label : String) (e : Option String) (w : W) → Tallied (linted tools label e) w
  unfolding linted
  linted-Tallied label none w = told-print (fine label) 0 w refl
  linted-Tallied label (some e) w =
      Tallied-if (e == "") (tools.print (fine label) >> pure 0)
        (tools.print (failed label e) >> pure 1) w (told-print (fine label) 0 w refl)
        (told-print (failed label e) 1 w refl)

  render_and_lint-Tallied :
      (spec : ServerSpec) (profile : Profile) (label : String) (w : W)
      → Tallied (render_and_lint tools spec profile label) w
  unfolding render_and_lint
  render_and_lint-Tallied spec profile label w =
      Tallied-bind _ _ w (λ k. counts.render k spec.dir profile.template _)
        λ rendered w₁.
          Tallied-bind _ _ w₁ (λ k. lint_rendered-Kept k spec rendered)
            λ e w₂. linted-Tallied label e w₂

  -- A failure that is caught is printed.
  caught-Tallied :
      (m : Action W ℕ) (handler : Error → Option (Action W ℕ)) (w w' : W) (x : Error) (b : Bool)
      (l : Line)
      → m w ≡ (err x, w')
      → fails w' ≡ fails w
      → failure l ≡ 1
      → handler x ≡ (if b then some (tools.print l >> pure 1) else none)
      → Tallied (catch m handler) w
  caught-Tallied m handler w w' x true l e same one caught =
      Tallied-shift (catch m handler) (tools.print l >> pure 1) w w'
        (catch-err m handler w e caught) same (told-print l 1 w' one)
  caught-Tallied m handler w w' x false l e same one missed =
      raised x w' (catch-passes_on m handler w e missed) same

  pub check_profile-Tallied :
      (spec : ServerSpec) (profile : Profile) (label : String) (w : W)
      → Tallied (check_profile tools spec profile label) w
  unfolding check_profile
  check_profile-Tallied spec profile label w = elim (render_and_lint-Tallied spec profile label w) [
    | told n w' e c ↦ told n w' (catch-ok (render_and_lint tools spec profile label) _ w e) c
    | raised x w' e same ↦
        caught-Tallied (render_and_lint tools spec profile label) _ w w' x
          (tools.is_template_error x || is_manifest_error x) (failed label (tools.str_error x)) e
          same refl refl
  ]
