-- ===== src/Facade/Status.antt =====
-- `target` when a name is not unique.
use mathlib.Core.Path.{subst}
use gpt_jupyter_dns.Prelude.{
  String, ◌≡◌, refl, sym, ap, ◌∙◌, true, ◌||◌, ◌==◌, List, [], ◌∷◌, ◌++◌, arith,
}
use gpt_jupyter_dns.Result.{ok, err, runtime_error, ambiguous}
use gpt_jupyter_dns.Action.{>>=-ok}
use gpt_jupyter_dns.Model.{Instance}
use gpt_jupyter_dns.Registry.{Disk}
use gpt_jupyter_dns.Provider.{Makers, Session}
use gpt_jupyter_dns.Facade.{all_instances, find, matches, matching, select_target, target}

matching-append :
    (name : String) (is js : List Instance)
    → matching name (is ++ js) ≡ matching name is ++ matching name js
unfolding matching
matching-append name [] js = refl
matching-append name (i ∷ is) js = ground (arith, matching-append name is js)

matching-hit :
    (name : String) (i : Instance) (is : List Instance)
    → matches name i ≡ true
    → matching name (i ∷ is) ≡ i ∷ matching name is
unfolding matching
matching-hit name i is hit = rw hit

-- At least two instances.
abbrev Several : List Instance → Type 0
Several is = (i j : Instance) × (rest : List Instance) × (is ≡ i ∷ j ∷ rest)

Several-behind : (is js : List Instance) → Several js → Several (is ++ js)
Several-behind [] js h = h
Several-behind (i ∷ []) js (j, k, rest, e) = (i, j, k ∷ rest, rw e)
Several-behind (i ∷ j ∷ is) js h = (i, j, is ++ js, refl)

Several-after :
    (i : Instance) (is bs : List Instance) (j : Instance) (cs : List Instance)
    → is ≡ bs ++ j ∷ cs
    → Several (i ∷ is)
Several-after i is [] j cs e = (i, j, cs, rw e)
Several-after i is (b ∷ bs) j cs e = (i, b, bs ++ j ∷ cs, rw e)

matching-Several :
    (name : String) (front bs cs : List Instance) (i j : Instance)
    → matches name i ≡ true
    → matches name j ≡ true
    → Several (matching name (front ++ i ∷ (bs ++ j ∷ cs)))
matching-Several name front bs cs i j hit hit' =
    subst Several (sym (matching-append name front (i ∷ (bs ++ j ∷ cs)))) (
      Several-behind (matching name front) _ (
        subst Several (sym (matching-hit name i (bs ++ j ∷ cs) hit)) (
          Several-after i (matching name (bs ++ j ∷ cs)) (matching name bs) j (matching name cs) (
            matching-append name bs (j ∷ cs)
            ∙ ap (λ is. matching name bs ++ is) (matching-hit name j cs hit')))))

module _ {W : Type 0} (makers : Makers W) where
  -- `target(name)` refuses a name that two instances match, by their name or by their server's, wherever
  -- the two stand among all those that are found: the result is the `RuntimeError` on the ambiguous name,
  -- and nothing is done after the search.
  pub target-ambiguous :
      (disk : Disk) (root name : String) (front bs cs : List Instance) (i j : Instance)
      (s s' : Session W)
      → all_instances makers s ≡ (ok (front ++ i ∷ (bs ++ j ∷ cs)), s')
      → (i.name == name || i.server == name) ≡ true
      → (j.name == name || j.server == name) ≡ true
      → target makers disk root name s ≡ (err (runtime_error (ambiguous name)), s')
  unfolding target select_target find
  target-ambiguous disk root name front bs cs i j s s' found hit hit' =
      let (k, l, rest, several) = matching-Several name front bs cs i j hit hit' in
      >>=-ok (find makers name) (select_target makers disk root name) s
        {a = matching name (front ++ i ∷ (bs ++ j ∷ cs))} {w' = s'}
        (>>=-ok (all_instances makers) _ s found)
      ∙ ap (λ ms. select_target makers disk root name ms s') several
