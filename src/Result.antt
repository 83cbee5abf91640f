-- ===== src/Result.antt =====
-- Exceptions as values, for the code that computes without touching the world.
-- An exception is modelled by its class and the names that it carries, not by its prose.
use mathlib.Core.Path.{subst}
use gpt_jupyter_dns.Prelude.{String, ◌≡◌, refl, ◌⊎◌, inl, inr, Bool, true, false}

-- What a `ManifestError` of `dnslab/registry.py` complains of.
pub data Fault : Type 0 where
  not_a_mapping bad_provider bad_name no_profiles : Fault
  missing_key : String → Fault
  template_missing : String → Fault
  unknown_profile : String → Fault

-- What the `RuntimeError`s that `dnslab` raises itself complain of.
pub data Reason : Type 0 where
  not_running ambiguous not_answering not_configured : String → Reason
  lacks_capability : String → String → String → Reason
  foreign : String → Reason

pub data Error : Type 0 where
  manifest_error : Fault → Error
  key_error : String → Error
  runtime_error : Reason → Error
  timeout_error : String → Error
  value_error type_error attribute_error not_implemented stop_iteration : Error
  file_not_found : String → Error
  import_error index_error : Error
  -- a loop of the model ran out of fuel; no Python exception
  out_of_fuel : Error
  -- any exception class that the program does not tell apart, by its `repr`
  other_error : String → Error

pub data Result {ℓ} (A : Type ℓ) : Type ℓ where
  ok : A → Result A
  err : Error → Result A

-- `if not test: raise e`
abbrev pub guard : Bool → Error → Result (Unit {0})
guard false fault = err fault
guard true fault = ok tt

pub guard-eq-ok : (test : Bool) (fault : Error) → guard test fault ≡ ok tt → test ≡ true
guard-eq-ok false fault h = cc
guard-eq-ok true fault h = refl

-- A `do` block of code that may raise. It is shut, so that a proof can follow the block by
-- `OnOk-bind`; `ground` needs it unfolded.
module _ {ℓ κ} {A : Type ℓ} {B : Type κ} where
  infixl 5 ◌>>=◌
  unfoldable pub ◌>>=◌ : Result A → (A → Result B) → Result B
  err e >>= next = err e
  ok a >>= next = next a

  -- A block that returned has passed its first step.
  pub >>=-eq-ok :
      (first : Result A) (next : A → Result B) {b : B}
      → (first >>= next) ≡ ok b
      → (a : A) × (first ≡ ok a) × (next a ≡ ok b)
  unfolding ◌>>=◌
  >>=-eq-ok (err e) next h = absurd (cc)
  >>=-eq-ok (ok a) next h = (a, refl, h)

module _ {κ} {B : Type κ} where
  infixl 5 ◌>>◌
  abbrev pub ◌>>◌ : Result (Unit {0}) → Result B → Result B
  first >> rest = first >>= λ _. rest

-- To split on a computed result and keep the equation.
pub Result-cases {ℓ} :
    {A : Type ℓ} (r : Result A) → ((a : A) × (r ≡ ok a)) ⊎ ((e : Error) × (r ≡ err e))
Result-cases (ok a) = inl (a, refl)
Result-cases (err e) = inr (e, refl)

-- `P` holds of what is returned, if anything is.
pub record OnOk {ℓ κ} {A : Type ℓ} (P : A → Type κ) (r : Result A) : Type (ℓ ⊔ κ) where
  pub at : (a : A) → r ≡ ok a → P a

pub OnOk-bind {ℓ κ μ} :
    {A : Type ℓ} {B : Type κ} (P : B → Type μ) (m : Result A) (f : A → Result B)
    → ((a : A) → m ≡ ok a → OnOk P (f a))
    → OnOk P (m >>= f)
OnOk-bind P m f h = record {
  at = λ b e. let (a, m_ok, f_ok) = >>=-eq-ok m f e in (h a m_ok).at b f_ok;
}

pub OnOk-return {ℓ κ} : {A : Type ℓ} (P : A → Type κ) (a : A) → P a → OnOk P (ok a)
OnOk-return P a h = record { at = λ b e. subst P (cc) h }

-- `isinstance(e, RuntimeError)`; `NotImplementedError` is one
abbrev pub is_runtime : Error → Bool
is_runtime (runtime_error r) = true
is_runtime not_implemented = true
is_runtime e = false
