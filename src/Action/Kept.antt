-- ===== src/Action/Kept.antt =====
-- What an action leaves true of the world however it ends: a rule for every way to build actions.
use gpt_jupyter_dns.Prelude.{
  ℕ, zero, suc, ◌≡◌, refl, sym, ◌⊎◌, inl, inr, Bool, true, false, Option, none, some, if◌then◌else◌,
}
use gpt_jupyter_dns.Result.{Result, ok, err, Error}
use gpt_jupyter_dns.Action.{
  Action, pure, raise, lift, catch, catch-ok, catch-err, catch-passes_on, run-cases, ◌>>=◌, >>=-ok,
  >>=-err,
}
use gpt_jupyter_dns.Action.Loop.{repeat, next_round}
use mathlib.Core.Path.{subst}

module _ {W : Type 0} (I : W → Type 0) where
  -- Whether it returns or raises, the action leaves `I` true if it was.
  pub record Kept {A : Type 0} (m : Action W A) : Type 0 where
    pub at : (w : W) → I w → I (m w).1

  pub Kept-pure : {A : Type 0} (a : A) → Kept (pure a)
  Kept-pure a = record { at = λ w h. h }

  pub Kept-raise : {A : Type 0} (e : Error) → Kept {A = A} (raise e)
  Kept-raise e = record { at = λ w h. h }

  pub Kept-lift : {A : Type 0} (r : Result A) → Kept (lift r)
  Kept-lift r = record { at = λ w h. h }

  pub Kept-look : {A : Type 0} (f : W → A) → Kept (λ w. (ok (f w), w))
  Kept-look f = record { at = λ w h. h }

  pub Kept-bind :
      {A B : Type 0} {m : Action W A} {f : A → Action W B}
      → Kept m
      → ((a : A) → Kept (f a))
      → Kept (m >>= f)
  Kept-bind {A} {B} {m} {f} hm hf = record {
    at = λ w h. elim (run-cases m w) [
      | inl (a, w', e) ↦
          let moved : I w' = subst (λ r. I r.1) {x = m w} {y = (ok a, w')} e (hm.at w h) in
          subst (λ r. I r.1) (sym (>>=-ok m f w e)) ((hf a).at w' moved)
      | inr (x, w', e) ↦
          let moved : I w' = subst (λ r. I r.1) {x = m w} {y = (err x, w')} e (hm.at w h) in
          subst (λ r. I r.1) (sym (>>=-err m f w e)) moved
    ];
  }

  pub Kept-if :
      {A : Type 0} (b : Bool) {m k : Action W A} → Kept m → Kept k → Kept (if b then m else k)
  Kept-if true hm hk = hm
  Kept-if false hm hk = hk

  -- Every handler has to keep it.
  abbrev pub KeptHandler : {A : Type 0} → Option (Action W A) → Type 0
  KeptHandler none = Unit
  KeptHandler (some k) = Kept k

  Kept-handled :
      {A : Type 0} (m : Action W A) (handler : Error → Option (Action W A)) (w w' : W) (x : Error)
      (k : Option (Action W A))
      → m w ≡ (err x, w')
      → handler x ≡ k
      → KeptHandler k
      → I w'
      → I (catch m handler w).1
  Kept-handled m handler w w' x none e passed hk h =
      subst (λ r. I r.1) (sym (catch-passes_on m handler w e passed)) h
  Kept-handled m handler w w' x (some k) e caught hk h =
      subst (λ r. I r.1) (sym (catch-err m handler w {k = k} e caught)) (hk.at w' h)

  pub Kept-catch :
      {A : Type 0} {m : Action W A} (handler : Error → Option (Action W A))
      → Kept m
      → ((e : Error) → KeptHandler (handler e))
      → Kept (catch m handler)
  Kept-catch {A} {m} handler hm hh = record {
    at = λ w h. elim (run-cases m w) [
      | inl (a, w', e) ↦
          subst (λ r. I r.1) (sym (catch-ok m handler w e))
            (subst (λ r. I r.1) {x = m w} {y = (ok a, w')} e (hm.at w h))
      | inr (x, w', e) ↦
          Kept-handled m handler w w' x (handler x) e refl (hh x)
            (subst (λ r. I r.1) {x = m w} {y = (err x, w')} e (hm.at w h))
    ];
  }

  Kept-next_round :
      {A : Type 0} {again : Action W A} (r : Option A) → Kept again → Kept (next_round again r)
  Kept-next_round none h = h
  Kept-next_round (some a) h = Kept-pure a

  pub Kept-repeat :
      {A : Type 0} (fuel : ℕ) {body : Action W (Option A)} → Kept body → Kept (repeat fuel body)
  unfolding repeat
  Kept-repeat zero h = Kept-raise _
  Kept-repeat (suc fuel) h = Kept-bind h λ r. Kept-next_round r (Kept-repeat fuel h)

  -- Unless there is an `X`, what follows the first step leaves `I` true.
  pub Kept-unless :
      {X A B : Type 0} (m : Action W A) (f : A → Action W B) (w : W)
      → Kept m
      → I w
      → ((a : A) (w' : W) → m w ≡ (ok a, w') → I w' → I (f a w').1 ⊎ X)
      → I ((m >>= f) w).1 ⊎ X
  Kept-unless {X} m f w hm h hf = elim (run-cases m w) [
    | inl (a, w', e) ↦
        let moved : I w' = subst (λ r. I r.1) {x = m w} {y = (ok a, w')} e (hm.at w h) in
        subst (λ r. I r.1 ⊎ X) (sym (>>=-ok m f w e)) (hf a w' e moved)
    | inr (x, w', e) ↦
        let moved : I w' = subst (λ r. I r.1) {x = m w} {y = (err x, w')} e (hm.at w h) in
        inl (subst (λ r. I r.1) (sym (>>=-err m f w e)) moved)
  ]
