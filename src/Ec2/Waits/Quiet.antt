-- ===== src/Ec2/Waits/Quiet.antt =====
-- `_delete_sg_quiet` of `dnslab/providers/ec2.py` makes one attempt.
use mathlib.Core.Path.{subst}
use gpt_jupyter_dns.Prelude.{
  ℕ, suc, ◌+◌, ◌≤◌, String, ◌<>◌, ◌≡◌, refl, ap, sym, ◌∙◌, ◌⊎◌, inl, inr, Bool, true, Option, some,
  leb, Bool-cases, arith,
}
use gpt_jupyter_dns.Result.{Result, ok, err, Error}
use gpt_jupyter_dns.Action.{Action, pure, catch-ok, catch-err, run-cases, ◌>>=◌, >>=-ok, >>=-err}
use gpt_jupyter_dns.Action.Loop.{repeat, next_round}
use gpt_jupyter_dns.Text.{has_substring}
use gpt_jupyter_dns.Ec2.Cloud.{Cloud}
use gpt_jupyter_dns.Ec2.Access.{wrap}
use gpt_jupyter_dns.Ec2.Waits.{
  rounds, look, delete_failed, delete_round, delete_sg, delete_sg_quiet,
}
use gpt_jupyter_dns.Ec2.Waits.Ends.{Steady}

module _ {W : Type 0} (cloud : Cloud W) where
  -- An action on a group that ends in `w'`, with this value or with the error of a failed deletion.
  abbrev EndsIn : {A : Type 0} → A → String → W → Result A × W → Type 0
  EndsIn a sg_id w' r =
      (r ≡ (ok a, w')) ⊎ (r ≡ (err (wrap ("deleting security group " <> sg_id)), w'))

  delete_failed-late :
      (sg_id : String) (deadline : ℕ) (x : Error) (w : W)
      → leb deadline (cloud.clock w) ≡ true
      → EndsIn (some true) sg_id w (delete_failed cloud sg_id deadline x w)
  unfolding delete_failed
  delete_failed-late sg_id deadline x w late =
      elim (Bool-cases (has_substring "InvalidGroup.NotFound" (cloud.str_error x))) [
        | inl gone ↦ inl (rw (gone))
        | inr there ↦ inr (rw (there, late) (ground arith))
      ]

  -- A round in which the time is over makes the one call, and does nothing else.
  delete_round-once :
      (sg_id : String) (w : W)
      → Steady cloud (cloud.delete_security_group sg_id)
      → EndsIn
          (some true)
          sg_id
          (cloud.delete_security_group sg_id w).1
          (delete_round cloud sg_id (cloud.clock w + 0) w)
  unfolding delete_round
  delete_round-once sg_id w steady =
      let deadline = cloud.clock w + 0 in
      let handler : Error → Option (Action W (Option Bool)) =
        λ e. some (delete_failed cloud sg_id deadline e) in
      elim (run-cases (cloud.delete_security_group sg_id) w) [
        | inl (a, w', e) ↦ inl (
            catch-ok (cloud.delete_security_group sg_id >>= λ _. pure (some true)) handler w
              (>>=-ok (cloud.delete_security_group sg_id) (λ _. pure (some true)) w e)
            ∙ ap (λ r. (ok (some true), r.1)) (sym e))
        | inr (x, w', e) ↦
            let caught =
              catch-err (cloud.delete_security_group sg_id >>= λ _. pure (some true)) handler w
                (>>=-err (cloud.delete_security_group sg_id) (λ _. pure (some true)) w e) refl in
            subst (λ u. EndsIn (some true) sg_id u (delete_round cloud sg_id deadline w))
              (ap (λ r. r.1) (sym e))
              (subst (EndsIn (some true) sg_id w') (sym caught) (
                delete_failed-late sg_id deadline x w' (
                  let later = subst (λ r. cloud.clock w ≤ cloud.clock r.1) e (steady w) in
                  ground arith)))
      ]

  delete_sg-once :
      (sg_id : String) (w : W)
      → Steady cloud (cloud.delete_security_group sg_id)
      → EndsIn true sg_id (cloud.delete_security_group sg_id w).1 (delete_sg cloud sg_id 0 w)
  unfolding delete_sg repeat
  delete_sg-once sg_id w steady =
      let body = delete_round cloud sg_id (cloud.clock w + 0) in
      let next = next_round (repeat (rounds 0 10) body) in
      let started : delete_sg cloud sg_id 0 w ≡ (body >>= next) w =
        >>=-ok (look cloud cloud.clock)
          (λ start. repeat (suc (rounds 0 10)) (delete_round cloud sg_id (start + 0))) w refl in
      elim (delete_round-once sg_id w steady) [
        | inl gone ↦ inl (started ∙ >>=-ok body next w gone)
        | inr failed ↦ inr (started ∙ >>=-err body next w failed)
      ]

  pub delete_sg_quiet-once :
      (sg_id : String) (w : W)
      → Steady cloud (cloud.delete_security_group sg_id)
      → delete_sg_quiet cloud sg_id w ≡ (ok tt, (cloud.delete_security_group sg_id w).1)
  unfolding delete_sg_quiet
  delete_sg_quiet-once sg_id w steady = elim (delete_sg-once sg_id w steady) [
    | inl gone ↦ catch-ok _ _ w (>>=-ok (delete_sg cloud sg_id 0) _ w gone)
    | inr failed ↦
        catch-err (delete_sg cloud sg_id 0 >>= λ _. pure tt) _ w {k = pure tt}
          (>>=-err (delete_sg cloud sg_id 0) _ w failed) refl
  ]
