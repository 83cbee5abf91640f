-- ===== src/State/Files/Levels.antt =====
-- Which directories `_mkdir_traversable` opens to other users.
use gpt_jupyter_dns.Prelude.{
  String, ◌≡◌, refl, true, false, List, [], ◌∷◌, ◌++◌, length, length-append, arith, Bool-cases,
  inl, inr, eq_refl,
}
use gpt_jupyter_dns.Action.{Action, pure, ◌>>=◌}
use gpt_jupyter_dns.State.{Env}
use gpt_jupyter_dns.State.Files.{Place, same, Files, chmod_up, mkdir_traversable}

pub same_refl : (p : Place) → same p p ≡ true
unfolding same
same_refl [] = refl
same_refl (n ∷ p) = ground (arith, same_refl p, eq_refl n)

same-length : (p q : Place) → same p q ≡ true → length p ≡ length q
unfolding same
same-length [] [] h = refl
same-length [] (m ∷ q) h = absurd (cc)
same-length (n ∷ p) [] h = absurd (cc)
same-length (n ∷ p) (m ∷ q) h = ground (arith, same-length p q (ground arith))

same-longer : (n : String) (ns stop : Place) → same (n ∷ ns ++ stop) stop ≡ false
same-longer n ns stop = elim (Bool-cases (same (n ∷ ns ++ stop) stop)) [
  | inl equal ↦
      absurd (omega (arith, same-length (n ∷ ns ++ stop) stop equal, length-append ns stop))
  | inr different ↦ different
]

-- The directories from `names` above `stop` down to just below `stop`, the innermost first.
abbrev pub levels : List String → Place → List Place
levels [] stop = []
levels (n ∷ ns) stop = (n ∷ ns ++ stop) ∷ levels ns stop

module _ {W : Type 0} where
  -- Every action in turn.
  abbrev pub each : (Place → Action W (Unit {0})) → List Place → Action W (Unit {0})
  each f [] = pure tt
  each f (p ∷ ps) = f p >>= λ _. each f ps

module _ {W : Type 0} (files : Files W) (env : Env) where
  chmod_up-stop : (stop : Place) → chmod_up files env stop stop ≡ pure tt
  unfolding chmod_up
  chmod_up-stop [] = refl
  chmod_up-stop (n ∷ p) = rw (chmod_up, same_refl)

  chmod_up-levels :
      (ns stop : Place) → chmod_up files env (ns ++ stop) stop ≡ each files.chmod (levels ns stop)
  unfolding chmod_up
  chmod_up-levels [] stop = chmod_up-stop stop
  chmod_up-levels (n ∷ ns) stop = rw (chmod_up, same-longer, chmod_up-levels ns stop)

  -- For a directory below `stop`, `_mkdir_traversable` makes it, and then opens it and every
  -- directory between the two, once each, the innermost first; `stop` and what is above it are
  -- left as they are.
  pub mkdir_traversable-levels :
      (ns stop : Place)
      → mkdir_traversable files env (ns ++ stop) stop ≡ (
          files.mkdir (ns ++ stop) >>= λ _.
          each files.chmod (levels ns stop) >>= λ _. pure (ns ++ stop))
  unfolding mkdir_traversable
  mkdir_traversable-levels ns stop = rw (mkdir_traversable, chmod_up-levels ns stop)
