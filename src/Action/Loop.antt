-- ===== src/Action/Loop.antt =====
-- Loops that wait for something: the body is run until it returns a value. A loop over the clock
-- has no bound of its own, so it takes fuel, and `repeat-ends` says how much is enough.
use mathlib.Core.Path.{subst}
use gpt_jupyter_dns.Prelude.{
  ℕ, zero, suc, ◌+◌, ◌*◌, ◌≤◌, ◌<◌, ◌≡◌, sym, ◌∙◌, Option, none, some, arith,
}
use gpt_jupyter_dns.Result.{Result, ok, err, Error, out_of_fuel}
use gpt_jupyter_dns.Action.{Action, pure, raise, ◌>>=◌, >>=-ok, >>=-err}

module _ {W A : Type 0} where
  -- What a round leaves to do.
  abbrev pub next_round : Action W A → Option A → Action W A
  next_round again none = again
  next_round again (some a) = pure a

  unfoldable pub repeat : ℕ → Action W (Option A) → Action W A
  repeat zero body = raise out_of_fuel
  repeat (suc fuel) body = body >>= next_round (repeat fuel body)

  -- What one round does: it leaves more to do, which it does before the deadline only and not
  -- before `d` has passed, or it ends the loop in a way that `Q` allows.
  pub data Round (clock : W → ℕ) (deadline d : ℕ) (Q : Result A → Type 0)
      (body : Action W (Option A)) (w : W) : Type 0 where
    again :
        (w' : W)
        → body w ≡ (ok none, w')
        → clock w < deadline
        → clock w + d ≤ clock w'
        → Round clock deadline d Q body w
    done :
        (a : A) (w' : W) → body w ≡ (ok (some a), w') → Q (ok a) → Round clock deadline d Q body w
    fails :
        (x : Error) (w' : W) → body w ≡ (err x, w') → Q (err x) → Round clock deadline d Q body w

  module _ (clock : W → ℕ) (deadline d : ℕ) (Q : Result A → Type 0)
      (body : Action W (Option A)) where
    repeat-fails :
        (fuel : ℕ) (w w' : W) (x : Error)
        → body w ≡ (err x, w')
        → Q (err x)
        → Q (repeat (suc fuel) body w).0
    unfolding repeat
    repeat-fails fuel w w' x e q =
        subst (λ r. Q r.0) (sym (>>=-err body (next_round (repeat fuel body)) w e)) q

    repeat-done :
        (fuel : ℕ) (w w' : W) (a : A)
        → body w ≡ (ok (some a), w')
        → Q (ok a)
        → Q (repeat (suc fuel) body w).0
    unfolding repeat
    repeat-done fuel w w' a e q =
        subst (λ r. Q r.0) (sym (>>=-ok body (next_round (repeat fuel body)) w e)) q

    repeat-again :
        (fuel : ℕ) (w w' : W)
        → body w ≡ (ok none, w')
        → Q (repeat fuel body w').0
        → Q (repeat (suc fuel) body w).0
    unfolding repeat
    repeat-again fuel w w' e q =
        subst (λ r. Q r.0) (sym (>>=-ok body (next_round (repeat fuel body)) w e)) q

    -- Fuel for one round more than the time up to the deadline allows is enough.
    pub repeat-ends :
        ((w : W) → Round clock deadline d Q body w)
        → (fuel : ℕ) (w : W) → deadline ≤ clock w + fuel * d
        → Q (repeat (suc fuel) body w).0
    repeat-ends rounds zero w enough = elim (rounds w) [
      | fails x w' e q ↦ repeat-fails 0 w w' x e q
      | done a w' e q ↦ repeat-done 0 w w' a e q
      | again w' e early later ↦ absurd (omega arith)
    ]
    repeat-ends rounds (suc fuel) w enough = elim (rounds w) [
      | fails x w' e q ↦ repeat-fails (suc fuel) w w' x e q
      | done a w' e q ↦ repeat-done (suc fuel) w w' a e q
      | again w' e early later ↦
          repeat-again (suc fuel) w w' e (repeat-ends rounds fuel w' (grind arith))
    ]

    -- A round that comes to run another action, later, is what that action is.
    pub Round-shift :
        (k : Action W (Option A)) (w w1 : W)
        → body w ≡ k w1
        → clock w ≤ clock w1
        → Round clock deadline d Q k w1
        → Round clock deadline d Q body w
    Round-shift k w w1 e later (again w' h early takes) =
        again w' (e ∙ h) (omega arith) (omega arith)
    Round-shift k w w1 e later (done a w' h q) = done a w' (e ∙ h) q
    Round-shift k w w1 e later (fails x w' h q) = fails x w' (e ∙ h) q
