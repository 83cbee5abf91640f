-- ===== src/Ec2/Teardown/Order.antt =====
-- `Ec2Provider.nuke` of `dnslab/providers/ec2.py`: what it does only when the instances are gone.
use gpt_jupyter_dns.Prelude.{String, ◌≡◌, ◌⊎◌, true, List, [], ◌∷◌, ◌++◌, ◌≢◌, All, contains}
use gpt_jupyter_dns.Result.{ok}
use gpt_jupyter_dns.Action.{Action}
use gpt_jupyter_dns.Action.Kept.{Kept}
use gpt_jupyter_dns.State.Files.{Files}
use gpt_jupyter_dns.Ec2.Cloud.{Cloud, AwsInstance}

-- Every instance that is not shutting down is among the ids.
abbrev pub Covered : List String → List AwsInstance → Type 0
Covered ids = All (λ i. (i.state ≡ "shutting-down") ⊎ (contains i.id ids ≡ true))

-- Each of the ids is that of an instance that is listed and not shutting down.
abbrev pub Only : List String → List AwsInstance → Type 0
Only ids is =
    All
      (λ id.
        (before after : List AwsInstance) × (i : AwsInstance) × (is ≡ before ++ i ∷ after)
        × (i.id ≡ id)
        × (i.state ≢ "shutting-down"))
      ids

-- A call on some instances that returned; without any instance it is left out.
abbrev pub Returned :
    {W : Type 0} → (List String → Action W (Unit {0})) → List String → W → W → Type 0
Returned call ids w w' = ((ids ≡ []) × (w' ≡ w)) ⊎ (call ids w ≡ (ok tt, w'))
