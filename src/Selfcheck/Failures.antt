-- ===== src/Selfcheck/Failures.antt =====
-- The exit code of `dnslab/selfcheck.py` and the lines that it prints on failures.
use mathlib.Core.Path.{subst}
use gpt_jupyter_dns.Prelude.{
  ℕ, ◌+◌, ◌<◌, String, ◌<>◌, ◌≡◌, refl, ap, sym, ◌∙◌, ◌⊎◌, inl, inr, true, List, [], ◌∷◌, eqb,
  sorted, Bool-cases, arith, if◌then◌else◌,
}
use gpt_jupyter_dns.Dict.{Dict, has_key}
use gpt_jupyter_dns.Result.{Result, ok, err, Error}
use gpt_jupyter_dns.Action.{Action, pure, raise, lift, ◌>>◌, Ends, Ends-bind, Ends-return, Ends-if}
use gpt_jupyter_dns.Model.{Profile, ServerSpec}
use gpt_jupyter_dns.Registry.{Disk, discover}
use gpt_jupyter_dns.Certs.{unique}
use gpt_jupyter_dns.Selfcheck.{
  Line, failed, not_loaded, nothing_found, summary, count, Tools, sorted_items, is_not_loaded,
  load_named, check_profile, check_profiles, check_instances, check_specs, check_all, check_loaded,
  main,
}
use gpt_jupyter_dns.Selfcheck.Tally.{Counts, failure, Tallied, told, raised, check_profile-Tallied}

module _ {W : Type 0} (tools : Tools W) (fails : W → ℕ) (counts : Counts tools fails) where
  Tallied-ok :
      (m : Action W ℕ) (w : W) (n : ℕ) (w' : W)
      → Tallied tools fails counts m w
      → m w ≡ (ok n, w')
      → fails w' ≡ fails w + n
  Tallied-ok m w n w' (told k w₁ e c) h = cc (e, c, h)
  Tallied-ok m w n w' (raised x w₁ e c) h = absurd (cc (ap (λ r. r.0) e, ap (λ r. r.0) h))

  -- As many failures have been printed since as the count has grown by.
  abbrev Adds : ℕ → W → ℕ → W → Type 0
  Adds failures w n w' = fails w' + failures ≡ fails w + n

  check_profiles-Adds :
      (spec : ServerSpec) (name : String) (ps : Dict Profile) (failures : ℕ) (w : W)
      → Ends (Adds failures w) (check_profiles tools spec name ps failures w)
  unfolding check_profiles
  check_profiles-Adds spec name [] failures w = Ends-return (Adds failures w) failures w refl
  check_profiles-Adds spec name ((pname, profile) ∷ rest) failures w =
      Ends-bind (Adds failures w) (check_profile tools spec profile (name <> ":" <> pname)) _ w
        λ n w₁ e.
          let one =
            Tallied-ok _ w n w₁
              (check_profile-Tallied tools fails counts spec profile (name <> ":" <> pname) w) e in
          record {
            at = λ m w₂ h.
                let others = (check_profiles-Adds spec name rest (failures + n) w₁).at m w₂ h in
                omega arith;
          }

  check_instances-Adds :
      (spec : ServerSpec) (name : String) (is : Dict String) (failures : ℕ) (w : W)
      → Ends (Adds failures w) (check_instances tools spec name is failures w)
  unfolding check_instances
  check_instances-Adds spec name [] failures w = Ends-return (Adds failures w) failures w refl
  check_instances-Adds spec name ((iname, pname) ∷ rest) failures w =
      Ends-if (Adds failures w) (has_key pname spec.profiles)
        (check_instances tools spec name rest failures)
        (tools.print (failed name pname) >> check_instances tools spec name rest (failures + 1)) w
        (check_instances-Adds spec name rest failures w)
        (Ends-bind (Adds failures w) (tools.print (failed name pname)) _ w λ _ w₁ e.
          let (w', printed, more) = counts.print (failed name pname) w in
          let there : fails w₁ ≡ fails w' = ap (λ r. fails r.1) (sym e ∙ printed) in
          record {
            at = λ m w₂ h.
                let others = (check_instances-Adds spec name rest (failures + 1) w₁).at m w₂ h in
                omega arith;
          })

  check_specs-Adds :
      (specs : Dict ServerSpec) (failures : ℕ) (w : W)
      → Ends (Adds failures w) (check_specs tools specs failures w)
  unfolding check_specs
  check_specs-Adds [] failures w = Ends-return (Adds failures w) failures w refl
  check_specs-Adds ((name, spec) ∷ rest) failures w =
      Ends-bind (Adds failures w)
        (check_profiles tools spec name (sorted_items spec.profiles) failures) _ w
        λ n w₁ e₁.
          Ends-bind (Adds failures w) (check_instances tools spec name spec.instances n) _ w₁
            λ m w₂ e₂.
              let profiles =
                (check_profiles-Adds spec name (sorted_items spec.profiles) failures w).at n w₁
                  e₁ in
              let instances = (check_instances-Adds spec name spec.instances n w₁).at m w₂ e₂ in
              record {
                at = λ k w₃ h. let others = (check_specs-Adds rest m w₂).at k w₃ h in omega arith;
              }

  -- What an exit code says of the lines that were printed since `w`.
  abbrev pub Exit : W → ℕ → W → Type 0
  Exit w code w' =
      ((code ≡ 2) × ((fails w' ≡ fails w) ⊎ (fails w' ≡ fails w + 1)))
      ⊎ ((code ≡ 0) × (fails w' ≡ fails w))
      ⊎ ((code ≡ 1) × (fails w < fails w'))

  -- printing a line that reports no failure
  print-same :
      (l : Line) (w w' : W) → failure l ≡ 0 → tools.print l w ≡ (ok tt, w') → fails w' ≡ fails w
  print-same l w w' none_failed e =
      let (w₁, printed, more) = counts.print l w in
      let there : fails w' ≡ fails w₁ = ap (λ r. fails r.1) (sym e ∙ printed) in omega arith

  Exit-two : (l : Line) (w : W) → failure l ≡ 0 → Ends (Exit w) ((tools.print l >> pure 2) w)
  Exit-two l w none_failed =
      Ends-bind (Exit w) (tools.print l) _ w
        λ _ w₁ e. Ends-return (Exit w) 2 w₁ (inl (refl, inl (print-same l w w₁ none_failed e)))

  Exit-not_loaded : (e : Error) (w : W) → Ends (Exit w) ((tools.print (not_loaded e) >> pure 2) w)
  Exit-not_loaded e w = Ends-bind (Exit w) (tools.print (not_loaded e)) _ w λ _ w₁ printed.
      let (w₂, same, more) = counts.print (not_loaded e) w in
      Ends-return (Exit w) 2 w₁ (inl (refl, inr (ap (λ r. fails r.1) (sym printed ∙ same) ∙ more)))

  Exit-counted :
      (w w' : W) (failures : ℕ)
      → fails w' ≡ fails w + failures
      → Exit w (if eqb failures 0 then 0 else 1) w'
  Exit-counted w w' failures h = elim (Bool-cases (eqb failures 0)) [
    | inl clean ↦ inr (inl (rw (clean) refl, ground (arith, clean, h)))
    | inr some_failed ↦ inr (inr (rw (some_failed) refl, ground (arith, some_failed, h)))
  ]

  check_all-Exit : (specs : Dict ServerSpec) (w : W) → Ends (Exit w) (check_all tools specs w)
  unfolding check_all
  check_all-Exit [] w = Exit-two nothing_found w refl
  check_all-Exit (e ∷ specs) w =
      Ends-bind (Exit w) (check_specs tools (sorted_items (e ∷ specs)) 0) _ w λ failures w₁ e₁.
        Ends-bind (Exit w) (tools.print (summary (count (e ∷ specs)) failures)) _ w₁ λ _ w₂ e₂.
          let checked = (check_specs-Adds (sorted_items (e ∷ specs)) 0 w).at failures w₁ e₁ in
          let quiet = print-same (summary (count (e ∷ specs)) failures) w₁ w₂ refl e₂ in
          Ends-return (Exit w) _ w₂ (Exit-counted w w₂ failures (omega arith))

  check_loaded-Exit :
      (r : Result (Dict ServerSpec)) (w : W) → Ends (Exit w) (check_loaded tools r w)
  unfolding check_loaded
  check_loaded-Exit (ok specs) w = check_all-Exit specs w
  check_loaded-Exit (err e) w =
      Ends-if (Exit w) (is_not_loaded e) (tools.print (not_loaded e) >> pure 2) (raise e) w
        (Exit-not_loaded e w) (record { at = λ a w' h. absurd (cc (ap (λ r. r.0) h)) })

  -- When the self-check returns an exit code, it is 0, 1 or 2: with 0 it has printed no line that begins with
  -- `FAIL`, with 1 at least one, and with 2, for manifests that are missing or do not load, at most one.
  -- Printing is assumed to return, and nothing else to print.
  pub main-exit :
      (disk : Disk) (root : String) (argv : List String) (w w' : W) (code : ℕ)
      → main tools disk root argv w ≡ (ok code, w')
      → ((code ≡ 2) × ((fails w' ≡ fails w) ⊎ (fails w' ≡ fails w + 1)))
        ⊎ ((code ≡ 0) × (fails w' ≡ fails w))
        ⊎ ((code ≡ 1) × (fails w < fails w'))
  unfolding main
  main-exit disk root [] w w' code h =
      (Ends-bind (Exit w) (lift (discover disk root true)) (check_all tools) w λ specs w₁ e.
          subst (λ x. Ends (Exit x) (check_all tools specs w₁)) (sym (ap (λ r. r.1) e))
            (check_all-Exit specs w₁)).at
        code w' h
  main-exit disk root (name ∷ names) w w' code h =
      (check_loaded-Exit (load_named disk root (sorted (unique [] (name ∷ names))) []) w).at code w'
        h
