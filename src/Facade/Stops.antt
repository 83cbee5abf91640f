-- ===== src/Facade/Stops.antt =====
-- What `stop` has done when it returns.
use gpt_jupyter_dns.Prelude.{String, ◌≡◌, Bool, true, false, Option, none, some, List, [], ◌∷◌}
use gpt_jupyter_dns.Result.{ok}
use gpt_jupyter_dns.Action.{Action}
use gpt_jupyter_dns.Model.{Instance}
use gpt_jupyter_dns.Provider.{Provider, Makers, Session, get_provider}
use gpt_jupyter_dns.Facade.{all_instances, matching, find, stop}

-- The instances that `stop` is about, of those that are found: all of them without a name or with
-- `all`, otherwise those that have the name, or whose server has it.
abbrev pub selected : Option String → Bool → List Instance → List Instance
selected none all is = is
selected (some name) true is = is
selected (some name) false is = matching name is

module _ {W : Type 0} (makers : Makers W) where
  -- One after the other, the instance's provider was there and its `stop` returned; nothing else
  -- was done between the two sessions.
  abbrev pub Stopped : List Instance → Session W → Session W → Type 0
  Stopped [] s s' = s' ≡ s
  Stopped (i ∷ is) s s' =
      (p : Provider W) × (s₁ : Session W) × (w : W) × (get_provider makers i.provider s
        ≡ (ok p, s₁))
      × (p.stop i s₁.world ≡ (ok tt, w))
      × Stopped is (record s₁ { world = w }) s'

  -- The search that `stop` begins with.
  searched : Option String → Bool → Action (Session W) (List Instance)
  searched none all = all_instances makers
  searched (some name) true = all_instances makers
  searched (some name) false = find makers name
