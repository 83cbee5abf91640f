-- ===== src/Ec2/Waits/Online.antt =====
-- Waiting for the SSM agent of an instance, of `dnslab/providers/ec2.py`, comes to an end, and how.
use mathlib.Core.Path.{subst}
use gpt_jupyter_dns.Prelude.{
  ℕ, suc, ◌+◌, ◌*◌, ◌≤◌, String, ◌≡◌, refl, sym, ap, ◌∙◌, ◌⊎◌, inl, inr, true, Option, some, List,
  Bool-cases, arith, if◌then◌else◌,
}
use gpt_jupyter_dns.Result.{Result, ok, err, Error, timeout_error}
use gpt_jupyter_dns.Action.{Action, pure, run-cases, ◌>>=◌, >>=-ok, >>=-err}
use gpt_jupyter_dns.Action.Loop.{repeat, Round, again, done, fails, repeat-ends}
use gpt_jupyter_dns.Ec2.{second}
use gpt_jupyter_dns.Ec2.Cloud.{Cloud}
use gpt_jupyter_dns.Ec2.Access.{connect}
use gpt_jupyter_dns.Ec2.Waits.{rounds, look, pause, is_online, ssm_round, wait_ssm_online}
use gpt_jupyter_dns.Ec2.Waits.Ends.{Sleeps, Steady, pause-sleeps, rounds-enough}
use gpt_jupyter_dns.Ec2.Waits.Healthy.{until-Round}

module _ {W : Type 0} (cloud : Cloud W) where
  -- What waiting for the agent ends with: AWS listed it as online, or the TimeoutError, or an exception
  -- of the call that lists it.
  abbrev pub Awaited : String → Result (Unit {0}) → Type 0
  Awaited id r =
      ((statuses : List String) × (w : W) × (w' : W) × (cloud.ping_statuses id w
          ≡ (ok statuses, w'))
        × (is_online statuses ≡ true)
        × (r ≡ ok tt))
      ⊎ (r ≡ err (timeout_error id))
      ⊎ ((x : Error) × (w : W) × (w' : W) × (cloud.ping_statuses id w ≡ (err x, w')) × (r ≡ err x))

  abbrev judge : List String → Action W (Option (Unit {0}))
  judge statuses = if is_online statuses then pure (some tt) else pause cloud 10

  ssm_round-Round :
      Sleeps cloud
      → (id : String) → Steady cloud (cloud.ping_statuses id)
      → (deadline : ℕ) (w : W)
      → Round cloud.clock deadline (10 * second) (Awaited id) (ssm_round cloud id deadline) w
  unfolding ssm_round
  ssm_round-Round sleeps id steady deadline w =
      until-Round cloud deadline (10 * second) (Awaited id) (timeout_error id)
        (cloud.ping_statuses id >>= judge) w (inr (inl refl))
        λ early. elim (run-cases (cloud.ping_statuses id) w) [
          | inr (x, w₁, e) ↦
              fails x w₁ (>>=-err (cloud.ping_statuses id) judge w e)
                (inr (inr (x, w, w₁, e, refl)))
          | inl (statuses, w₁, e) ↦
              let later = subst (λ r. cloud.clock w ≤ cloud.clock r.1) e (steady w) in
              let listed = >>=-ok (cloud.ping_statuses id) judge w e in
              elim (Bool-cases (is_online statuses)) [
                | inl online ↦
                    done tt w₁
                      (listed ∙ ap (λ b. (if b then pure (some tt) else pause cloud 10) w₁) online)
                      (inl (statuses, w, w₁, e, online, refl))
                | inr offline ↦
                    let (w₂, slept, after) = pause-sleeps cloud sleeps {A = Unit {0}} 10 w₁ in
                    again w₂
                      (listed
                        ∙ ap (λ b. (if b then pure (some tt) else pause cloud 10) w₁) offline
                        ∙ slept)
                      early (omega arith)
              ]
        ]

  -- Waiting for the SSM agent, once there is a client, comes to an end: it returns when AWS listed the
  -- agent as online, or raises the TimeoutError, or what the call that lists it raises. It needs a
  -- `sleep` that takes its time, and a clock that does not go back during that call.
  pub wait_ssm_online-ends :
      Sleeps cloud
      → (id : String) (timeout : ℕ) (w w₁ : W) → connect cloud "ssm" w ≡ (ok tt, w₁)
      → Steady cloud (cloud.ping_statuses id)
      → Awaited id (wait_ssm_online cloud id timeout w).0
  unfolding wait_ssm_online
  wait_ssm_online-ends sleeps id timeout w w₁ connected steady =
      let deadline = cloud.clock w₁ + timeout in
      let ends =
        repeat-ends cloud.clock deadline (10 * second) (Awaited id) (ssm_round cloud id deadline)
          (ssm_round-Round sleeps id steady deadline) (rounds timeout 10) w₁
          (grind (arith, rounds-enough timeout)) in
      subst (λ r. Awaited id r.0)
        (sym (
          >>=-ok (connect cloud "ssm") _ w connected
          ∙ >>=-ok (look cloud cloud.clock)
              (λ start. repeat (suc (rounds timeout 10)) (ssm_round cloud id (start + timeout))) w₁
              refl))
        ends
