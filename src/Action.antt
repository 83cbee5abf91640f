-- ===== src/Action.antt =====
-- Actions that run against the state of the world and may raise. What was done before a raise
-- stays done, so the world comes back beside the error.
pub mod Loop
pub mod Kept
use mathlib.Core.Path.{subst₂}
use gpt_jupyter_dns.Prelude.{
  ◌≡◌, ◌⊎◌, inl, inr, Option, none, some, Bool, true, false, arith, if◌then◌else◌,
}
use gpt_jupyter_dns.Result.{Result, ok, err, Error, Result-cases}

-- An action on a world of type `W`.
abbrev pub Action {ℓ} : Type ℓ → Type ℓ → Type ℓ
Action W A = W → Result A × W

module _ {ℓ} {W A : Type ℓ} where
  abbrev pub pure : A → Action W A
  pure a w = (ok a, w)

  abbrev pub raise : Error → Action W A
  raise e w = (err e, w)

  abbrev pub lift : Result A → Action W A
  lift r w = (r, w)

  abbrev resume : Option (Action W A) → Error → Action W A
  resume none e w = (err e, w)
  resume (some k) e w = k w

  abbrev rescue : Result A × W → (Error → Option (Action W A)) → Result A × W
  rescue (ok a, w) handler = (ok a, w)
  rescue (err e, w) handler = resume (handler e) e w

  -- `try: m except: handler`, where `none` passes the exception on
  unfoldable pub catch : Action W A → (Error → Option (Action W A)) → Action W A
  catch m handler w = rescue (m w) handler

  pub catch-ok :
      (m : Action W A) (handler : Error → Option (Action W A)) (w : W) {a : A} {w' : W}
      → m w ≡ (ok a, w')
      → catch m handler w ≡ (ok a, w')
  unfolding catch
  catch-ok m handler w e = rw (e, catch)

  pub catch-err :
      (m : Action W A) (handler : Error → Option (Action W A)) (w : W) {x : Error} {w' : W}
      {k : Action W A}
      → m w ≡ (err x, w')
      → handler x ≡ some k
      → catch m handler w ≡ k w'
  unfolding catch
  catch-err m handler w e caught = rw (e, catch, caught)

  pub catch-passes_on :
      (m : Action W A) (handler : Error → Option (Action W A)) (w : W) {x : Error} {w' : W}
      → m w ≡ (err x, w')
      → handler x ≡ none
      → catch m handler w ≡ (err x, w')
  unfolding catch
  catch-passes_on m handler w e missed = rw (e, catch, missed)

module _ {ℓ} {W A B : Type ℓ} where
  abbrev after : Result A × W → (A → Action W B) → Result B × W
  after (ok a, w) f = f a w
  after (err e, w) f = (err e, w)

  -- Shut, so that a proof can follow a block by `Ends-bind`; `ground` needs it unfolded.
  infixl 5 ◌>>=◌ ◌>>◌
  unfoldable pub ◌>>=◌ : Action W A → (A → Action W B) → Action W B
  ◌>>=◌ m f w = after (m w) f

  abbrev pub ◌>>◌ : Action W A → Action W B → Action W B
  m >> k = m >>= λ _. k

  -- A block that returned has returned from its first step.
  pub >>=-eq-ok :
      (m : Action W A) (f : A → Action W B) (w : W) {b : B} {w'' : W}
      → (m >>= f) w ≡ (ok b, w'')
      → (a : A) × (w' : W) × (m w ≡ (ok a, w')) × (f a w' ≡ (ok b, w''))
  unfolding ◌>>=◌
  >>=-eq-ok m f w h = elim (Result-cases (m w).0) [
    | inl (a, e) ↦ (a, (m w).1, ground arith, rw (e, ◌>>=◌) at h)
    | inr (x, e) ↦ absurd (cc (rw (e, ◌>>=◌) at h))
  ]

  pub >>=-ok :
      (m : Action W A) (f : A → Action W B) (w : W) {a : A} {w' : W}
      → m w ≡ (ok a, w')
      → (m >>= f) w ≡ f a w'
  unfolding ◌>>=◌
  >>=-ok m f w e = rw (e, ◌>>=◌)

  pub >>=-err :
      (m : Action W A) (f : A → Action W B) (w : W) {x : Error} {w' : W}
      → m w ≡ (err x, w')
      → (m >>= f) w ≡ (err x, w')
  unfolding ◌>>=◌
  >>=-err m f w e = rw (e, ◌>>=◌)

-- `P` holds of what is returned and of the world then, if the action returns.
pub record Ends {ℓ κ} {W A : Type ℓ} (P : A → W → Type κ) (r : Result A × W) : Type (ℓ ⊔ κ) where
  pub at : (a : A) (w : W) → r ≡ (ok a, w) → P a w

pub Ends-bind {ℓ κ} :
    {W A B : Type ℓ} (P : B → W → Type κ) (m : Action W A) (f : A → Action W B) (w : W)
    → ((a : A) (w' : W) → m w ≡ (ok a, w') → Ends P (f a w'))
    → Ends P ((m >>= f) w)
Ends-bind P m f w h = record {
  at = λ b w'' e. let (a, w', m_ok, f_ok) = >>=-eq-ok m f w e in (h a w' m_ok).at b w'' f_ok;
}

pub Ends-return {ℓ κ} :
    {W A : Type ℓ} (P : A → W → Type κ) (a : A) (w : W) → P a w → Ends P (ok a, w)
Ends-return P a w h = record { at = λ b w' e. subst₂ P (cc) (cc) h }

-- To split on how an action ends and keep the equation.
pub run-cases {ℓ} :
    {W A : Type ℓ} (m : Action W A) (w : W)
    → ((a : A) × (w' : W) × (m w ≡ (ok a, w'))) ⊎ ((e : Error) × (w' : W) × (m w ≡ (err e, w')))
run-cases m w = elim (Result-cases (m w).0) [
  | inl (a, p) ↦ inl (a, (m w).1, ground arith)
  | inr (e, p) ↦ inr (e, (m w).1, ground arith)
]

-- What a handler may return, if anything.
abbrev pub EndsHandler {ℓ κ} :
    {W A : Type ℓ} → (A → W → Type κ) → Option (Action W A) → W → Type (ℓ ⊔ κ)
EndsHandler P none w = Unit
EndsHandler P (some k) w = Ends P (k w)

Ends-resume {ℓ κ} :
    {W A : Type ℓ} (P : A → W → Type κ) (k : Option (Action W A)) (x : Error) (w : W)
    → EndsHandler P k w
    → Ends P (resume k x w)
Ends-resume P none x w h = record { at = λ a w' e. absurd (cc) }
Ends-resume P (some k) x w h = h

pub Ends-catch {ℓ κ} :
    {W A : Type ℓ} (P : A → W → Type κ) (m : Action W A) (handler : Error → Option (Action W A))
    (w : W)
    → Ends P (m w)
    → ((x : Error) (w' : W) → EndsHandler P (handler x) w')
    → Ends P (catch m handler w)
unfolding catch
Ends-catch P m handler w h hh = elim (run-cases m w) [
  | inl (a, w', e) ↦ rw (e) (rw (e) at h)
  | inr (x, w', e) ↦ rw (e) (Ends-resume P (handler x) x w' (hh x w'))
]

pub Ends-if {ℓ κ} :
    {W A : Type ℓ} (P : A → W → Type κ) (b : Bool) (m k : Action W A) (w : W)
    → Ends P (m w)
    → Ends P (k w)
    → Ends P ((if b then m else k) w)
Ends-if P true m k w h g = h
Ends-if P false m k w h g = g
