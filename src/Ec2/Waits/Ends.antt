-- ===== src/Ec2/Waits/Ends.antt =====
-- The waiting loops of `dnslab/providers/ec2.py` come to an end, and how. What they need of the clock
-- is what the documentation of `time` promises: it does not go back, and `sleep` takes its time.
use mathlib.Core.Path.{subst}
use gpt_jupyter_dns.Prelude.{
  ℕ, suc, ◌+◌, ◌*◌, ◌≤◌, String, ◌<>◌, ◌≡◌, refl, sym, ◌⊎◌, inl, inr, Bool, true, ◌||◌, not, Option,
  none, some, Bool-cases, leb, arith,
}
use gpt_jupyter_dns.Result.{Result, ok, err, Error}
use gpt_jupyter_dns.Action.{Action, pure, catch-ok, catch-err, run-cases, ◌>>=◌, >>=-ok, >>=-err}
use gpt_jupyter_dns.Action.Loop.{repeat, Round, Round-shift, again, done, fails, repeat-ends}
use gpt_jupyter_dns.Text.{has_substring}
use gpt_jupyter_dns.Ec2.{second}
use gpt_jupyter_dns.Ec2.Cloud.{Cloud}
use gpt_jupyter_dns.Ec2.Access.{wrap}
use gpt_jupyter_dns.Ec2.Waits.{rounds, look, pause, delete_failed, delete_round, delete_sg}

-- Enough rounds are allowed for any timeout.
pub rounds-enough : (timeout : ℕ) → timeout ≤ rounds timeout 10 * (10 * second)
rounds-enough timeout = omega arith

module _ {W : Type 0} (cloud : Cloud W) where
  -- `time.sleep` returns, and not before its time is over.
  pub record Sleeps : Type 0 where
    pub at :
        (n : ℕ) (w : W)
        → (w' : W) × (cloud.sleep n w ≡ (ok tt, w')) × (cloud.clock w + n ≤ cloud.clock w')

  -- The clock does not go back while an action runs.
  abbrev pub Steady : {A : Type 0} → Action W A → Type 0
  Steady m = (w : W) → cloud.clock w ≤ cloud.clock (m w).1

  pub pause-sleeps :
      Sleeps
      → {A : Type 0} (seconds : ℕ) (w : W)
      → (w' : W) × (pause cloud seconds {A = A} w ≡ (ok none, w'))
        × (cloud.clock w + seconds * second ≤ cloud.clock w')
  pause-sleeps sleeps {A} seconds w =
      let (w', e, later) = sleeps.at (seconds * second) w in
      (w', >>=-ok (cloud.sleep (seconds * second)) (λ _. pure none) w e, later)

  -- What `_delete_sg` ends with: it returns True, or raises the RuntimeError.
  abbrev pub Deleted : String → Result Bool → Type 0
  Deleted sg_id r = (r ≡ ok true) ⊎ (r ≡ err (wrap ("deleting security group " <> sg_id)))

  delete_failed-Round :
      Sleeps
      → (sg_id : String) (deadline : ℕ) (x : Error) (w : W)
      → Round cloud.clock deadline
          (10 * second)
          (Deleted sg_id)
          (delete_failed cloud sg_id deadline x)
          w
  unfolding delete_failed
  delete_failed-Round sleeps sg_id deadline x w =
      elim (Bool-cases (has_substring "InvalidGroup.NotFound" (cloud.str_error x))) [
        | inl gone ↦ done true w (rw (gone)) (inl refl)
        | inr there ↦
            elim (Bool-cases (
              not (has_substring "DependencyViolation" (cloud.str_error x))
              || leb deadline (cloud.clock w))) [
                | inl over ↦
                    fails (wrap ("deleting security group " <> sg_id)) w (rw (there, over))
                      (inr refl)
                | inr more ↦
                    let (w', slept, later) = pause-sleeps sleeps {A = Bool} 10 w in
                    again w' (rw (there, more) slept) (ground arith) later
              ]
      ]

  delete_round-Round :
      Sleeps
      → (sg_id : String) → Steady (cloud.delete_security_group sg_id)
      → (deadline : ℕ) (w : W)
      → Round cloud.clock deadline
          (10 * second)
          (Deleted sg_id)
          (delete_round cloud sg_id deadline)
          w
  unfolding delete_round
  delete_round-Round sleeps sg_id steady deadline w =
      let attempt : Action W (Option Bool) =
        cloud.delete_security_group sg_id >>= λ _. pure (some true) in
      let handler : Error → Option (Action W (Option Bool)) =
        λ e. some (delete_failed cloud sg_id deadline e) in
      elim (run-cases (cloud.delete_security_group sg_id) w) [
        | inl (a, w', e) ↦
            done true w'
              (catch-ok attempt handler w
                (>>=-ok (cloud.delete_security_group sg_id) (λ _. pure (some true)) w e))
              (inl refl)
        | inr (x, w', e) ↦
            Round-shift cloud.clock deadline (10 * second) (Deleted sg_id)
              (delete_round cloud sg_id deadline) (delete_failed cloud sg_id deadline x) w w'
              (catch-err attempt handler w
                (>>=-err (cloud.delete_security_group sg_id) (λ _. pure (some true)) w e) refl)
              (subst (λ r. cloud.clock w ≤ cloud.clock r.1) e (steady w))
              (delete_failed-Round sleeps sg_id deadline x w')
      ]

  -- Deleting a security group comes to an end, whatever AWS answers: it returns True, or it raises
  -- the RuntimeError that says what was being done. It needs a `sleep` that takes its time, and a
  -- clock that does not go back during a call of `delete_security_group`.
  pub delete_sg-ends :
      Sleeps
      → (sg_id : String) (retry : ℕ) (w : W) → Steady (cloud.delete_security_group sg_id)
      → ((delete_sg cloud sg_id retry w).0 ≡ ok true)
        ⊎ ((delete_sg cloud sg_id retry w).0 ≡ err (wrap ("deleting security group " <> sg_id)))
  unfolding delete_sg
  delete_sg-ends sleeps sg_id retry w steady =
      let deadline = cloud.clock w + retry in
      let ends =
        repeat-ends cloud.clock deadline (10 * second) (Deleted sg_id)
          (delete_round cloud sg_id deadline) (delete_round-Round sleeps sg_id steady deadline)
          (rounds retry 10) w (grind (arith, rounds-enough retry)) in
      subst (λ r. Deleted sg_id r.0)
        (sym (
          >>=-ok (look cloud cloud.clock)
            (λ start. repeat (suc (rounds retry 10)) (delete_round cloud sg_id (start + retry))) w
            refl))
        ends
