-- ===== src/Ec2/Waits/Command.antt =====
-- Running a command on an instance, of `dnslab/providers/ec2.py`, comes to an end, and how.
use mathlib.Core.Path.{subst}
use gpt_jupyter_dns.Prelude.{
  ℕ, suc, ◌+◌, ◌*◌, ◌≤◌, ◌<◌, String, ◌<>◌, ◌≡◌, refl, sym, ap, ◌∙◌, ◌⊎◌, inl, inr, false, Option,
  none, some, Bool-cases, contains, arith, if◌then◌else◌,
}
use gpt_jupyter_dns.Result.{Result, ok, err, Error, timeout_error}
use gpt_jupyter_dns.Action.{
  Action, pure, catch, catch-ok, catch-err, catch-passes_on, run-cases, ◌>>=◌, >>=-ok, >>=-err,
}
use gpt_jupyter_dns.Action.Loop.{repeat, Round, again, done, fails, repeat-ends}
use gpt_jupyter_dns.Ec2.{second}
use gpt_jupyter_dns.Ec2.Cloud.{Cloud, Invocation}
use gpt_jupyter_dns.Ec2.Access.{connect, or_wrap}
use gpt_jupyter_dns.Ec2.Waits.{
  rounds, look, unfinished, finished, min_ℕ, command_round, run_command,
}
use gpt_jupyter_dns.Ec2.Waits.Ends.{Sleeps, Steady}
use gpt_jupyter_dns.Ec2.Waits.Healthy.{rounds-enough_5, until-Round}

module _ {W : Type 0} (cloud : Cloud W) where
  -- What running a command ends with: an invocation that AWS gave, whose status is a final one, or the
  -- TimeoutError, or another exception of the call that asks for it.
  abbrev pub Ran : String → String → Result Invocation → Type 0
  Ran cmd id r =
      ((inv : Invocation) × (w : W) × (w' : W) × (cloud.get_command_invocation cmd id w
          ≡ (ok inv, w'))
        × (contains inv.status (unfinished cloud) ≡ false)
        × (r ≡ ok inv))
      ⊎ (r ≡ err (timeout_error cmd))
      ⊎ ((x : Error) × (w : W) × (w' : W) × (cloud.get_command_invocation cmd id w ≡ (err x, w'))
          × (cloud.is_invocation_missing x ≡ false)
          × (r ≡ err x))

  abbrev asked : String → String → Action W (Option Invocation)
  asked cmd id = cloud.get_command_invocation cmd id >>= λ i. pure (some i)

  abbrev handler : Error → Option (Action W (Option Invocation))
  handler e = if cloud.is_invocation_missing e then some (pure none) else none

  abbrev ask : String → String → Action W (Option Invocation)
  ask cmd id = catch (asked cmd id) handler >>= λ inv. pure (finished cloud inv)

  ask-ok :
      (cmd id : String) (inv : Option Invocation) (w w' : W)
      → catch (asked cmd id) handler w ≡ (ok inv, w')
      → ask cmd id w ≡ (ok (finished cloud inv), w')
  ask-ok cmd id inv w w' e =
      >>=-ok (catch (asked cmd id) handler) (λ i. pure (finished cloud i)) w e

  -- One look at the invocation, after a pause that began at `w`.
  ask-Round :
      (cmd id : String) (deadline : ℕ) (w w₁ : W)
      → cloud.clock w < deadline
      → cloud.clock w + 5 * second ≤ cloud.clock w₁
      → Steady cloud (cloud.get_command_invocation cmd id)
      → (m : Action W (Option Invocation)) → m w ≡ ask cmd id w₁
      → Round cloud.clock deadline (5 * second) (Ran cmd id) m w
  unfolding finished
  ask-Round cmd id deadline w w₁ early late steady m e =
      elim (run-cases (cloud.get_command_invocation cmd id) w₁) [
        | inl (inv, w₂, got) ↦
            let later : cloud.clock w₁ ≤ cloud.clock w₂ =
              subst (λ r. cloud.clock w₁ ≤ cloud.clock r.1) got (steady w₁) in
            let answer = ask-ok cmd id (some inv) w₁ w₂ (
              catch-ok (asked cmd id) handler w₁
                (>>=-ok (cloud.get_command_invocation cmd id) (λ i. pure (some i)) w₁ got)) in
            elim (Bool-cases (contains inv.status (unfinished cloud))) [
              | inl more ↦
                  again w₂ (e ∙ answer ∙ ap (λ b. (ok (if b then none else some inv), w₂)) more)
                    early (omega arith)
              | inr final ↦
                  done inv w₂ (e ∙ answer ∙ ap (λ b. (ok (if b then none else some inv), w₂)) final)
                    (inl (inv, w₁, w₂, got, final, refl))
            ]
        | inr (x, w₂, got) ↦
            let later : cloud.clock w₁ ≤ cloud.clock w₂ =
              subst (λ r. cloud.clock w₁ ≤ cloud.clock r.1) got (steady w₁) in
            let missed =
              >>=-err (cloud.get_command_invocation cmd id) (λ i. pure (some i)) w₁ got in
            elim (Bool-cases (cloud.is_invocation_missing x)) [
              | inl gone ↦
                  again w₂
                    (e
                      ∙ ask-ok cmd id none w₁ w₂ (
                          catch-err (asked cmd id) handler w₁ {k = pure none} missed
                            (ap (λ b. if b then some (pure none) else none) gone)))
                    early (omega arith)
              | inr other ↦
                  fails x w₂
                    (e
                      ∙ >>=-err (catch (asked cmd id) handler) (λ i. pure (finished cloud i)) w₁
                          (catch-passes_on (asked cmd id) handler w₁ missed
                            (ap (λ b. if b then some (pure none) else none) other)))
                    (inr (inr (x, w₁, w₂, got, other, refl)))
            ]
      ]

  command_round-Round :
      Sleeps cloud
      → (cmd id : String) → Steady cloud (cloud.get_command_invocation cmd id)
      → (deadline : ℕ) (w : W)
      → Round cloud.clock deadline (5 * second) (Ran cmd id) (command_round cloud cmd id deadline) w
  unfolding command_round
  command_round-Round sleeps cmd id steady deadline w =
      until-Round cloud deadline (5 * second) (Ran cmd id) (timeout_error cmd)
        (cloud.sleep (5 * second) >>= λ _. ask cmd id) w (inr (inl refl))
        λ early.
          let (w₁, slept, late) = sleeps.at (5 * second) w in
          ask-Round cmd id deadline w w₁ early late steady _
            (>>=-ok (cloud.sleep (5 * second)) (λ _. ask cmd id) w slept)

  -- Running a command, once it was sent, comes to an end: it returns an invocation that AWS gave and
  -- whose status is a final one, or raises the TimeoutError, or passes on what the call that asks for the
  -- invocation raises, unless that only says that there is none yet. It needs a `sleep` that takes its
  -- time, and a clock that does not go back during that call.
  pub run_command-ends :
      Sleeps cloud
      → (id script cmd : String) (timeout : ℕ) (w w₁ w₂ : W) → connect cloud "ssm" w ≡ (ok tt, w₁)
      → cloud.send_command id script (min_ℕ cloud timeout 3600) w₁ ≡ (ok cmd, w₂)
      → Steady cloud (cloud.get_command_invocation cmd id)
      → Ran cmd id (run_command cloud id script timeout w).0
  unfolding run_command
  run_command-ends sleeps id script cmd timeout w w₁ w₂ connected sent steady =
      let us = timeout * second in
      let deadline = cloud.clock w₂ + us in
      let ends =
        repeat-ends cloud.clock deadline (5 * second) (Ran cmd id)
          (command_round cloud cmd id deadline) (command_round-Round sleeps cmd id steady deadline)
          (rounds us 5) w₂ (grind (arith, rounds-enough_5 us)) in
      subst (λ r. Ran cmd id r.0)
        (sym (
          >>=-ok (connect cloud "ssm") _ w connected
          ∙ >>=-ok
              (or_wrap cloud ("sending SSM command to " <> id)
                (cloud.send_command id script (min_ℕ cloud timeout 3600)))
              _ w₁ (catch-ok (cloud.send_command id script (min_ℕ cloud timeout 3600)) _ w₁ sent)
          ∙ >>=-ok (look cloud cloud.clock)
              (λ start. repeat (suc (rounds us 5)) (command_round cloud cmd id (start + us))) w₂
              refl))
        ends
