-- ===== src/Ec2/Start/Reuse.antt =====
-- `Ec2Provider.start` of `dnslab/providers/ec2.py` on an instance that is there: what the way to reuse
-- it leaves alone, and when `start` leaves that way.
use gpt_jupyter_dns.Prelude.{
  ℕ, String, ◌≡◌, refl, ◌≢◌, ap, sym, ◌∙◌, ◌⊎◌, inl, inr, Bool, true, false, Option, none, some,
  List, if◌then◌else◌,
}
use gpt_jupyter_dns.Result.{ok}
use gpt_jupyter_dns.Action.{Action, pure, lift, >>=-eq-ok}
use gpt_jupyter_dns.Action.Kept.{Kept-lift, Kept-unless}
use gpt_jupyter_dns.Model.{Profile, ServerSpec, Instance}
use gpt_jupyter_dns.Provider.{StartOptions}
use gpt_jupyter_dns.State.{Env}
use gpt_jupyter_dns.State.Files.{Files}
use gpt_jupyter_dns.Ec2.Cloud.{Cloud, AwsInstance}
use gpt_jupyter_dns.Ec2.Access.{connect, describe}
use gpt_jupyter_dns.Ec2.Discovery.{discover}
use gpt_jupyter_dns.Ec2.Start.{
  timeout_for, instance_type, find_match, is_unchanged, named, live_states, render_userdata, resume,
  reuse, reuse_found, reuse_unchanged, reuse_match, try_reuse, launch_unless, confhash_of, start,
}
use gpt_jupyter_dns.Ec2.Start.Spared.{Spares, connect-Kept}
use gpt_jupyter_dns.Ec2.Start.Reusing.{render_userdata-Kept, try_reuse-Kept}

-- Why the way to reuse an instance, taken in the world `w`, finds none.
pub data Replaces {W : Type 0} (cloud : Cloud W) (files : Files W) (env : Env) (profile : Profile)
    (name : String) (o : StartOptions) (confhash : String) (w : W) : Type 0 where
  forced : o.force ≡ true → Replaces cloud files env profile name o confhash w
  -- AWS lists no instance with this name
  absent :
      (w₁ : W) (found : List AwsInstance)
      → describe cloud live_states w ≡ (ok found, w₁)
      → find_match name found ≡ none
      → Replaces cloud files env profile name o confhash w
  -- the one that it lists has another profile or another fingerprint
  changed :
      (w₁ : W) (found : List AwsInstance) (aws : AwsInstance)
      → describe cloud live_states w ≡ (ok found, w₁)
      → find_match name found ≡ some aws
      → is_unchanged profile confhash aws ≡ false
      → Replaces cloud files env profile name o confhash w
  -- the discovery that follows misses the name
  unseen :
      (w₁ w₂ w₃ : W) (found : List AwsInstance) (aws : AwsInstance) (is : List Instance)
      → describe cloud live_states w ≡ (ok found, w₁)
      → find_match name found ≡ some aws
      → resume cloud files env aws.state aws.id w₁ ≡ (ok tt, w₂)
      → discover cloud files env w₂ ≡ (ok is, w₃)
      → named name is ≡ none
      → Replaces cloud files env profile name o confhash w

module _ {W : Type 0} (cloud : Cloud W) (files : Files W) (env : Env) where
  -- Reusing an instance that was seen either returns it or raises.
  reuse-ne-none :
      (spec : ServerSpec) (o : StartOptions) (timeout : ℕ) (resumed : Bool) (i : Instance)
      (w w' : W)
      → reuse cloud files env spec o timeout resumed i w ≢ (ok none, w')
  unfolding reuse
  reuse-ne-none spec o timeout resumed i w w' h =
      let (a, w₁, e₁, h₁) = >>=-eq-ok _ _ w h in
      let (b, w₂, e₂, h₂) = >>=-eq-ok _ _ w₁ h₁ in let (c, w₃, e₃, h₃) = >>=-eq-ok _ _ w₂ h₂ in cc

  -- A branch that returned none, or its alternative did.
  skipped :
      (b : Bool) (m : Action W (Option Instance)) (w w' : W)
      → (if b then m else pure none) w ≡ (ok none, w')
      → ((b ≡ true) × (m w ≡ (ok none, w'))) ⊎ (b ≡ false)
  skipped true m w w' h = inl (refl, h)
  skipped false m w w' h = inr refl

  kept_on :
      (b : Bool) (m : Action W (Option Instance)) (w w' : W)
      → (if b then pure none else m) w ≡ (ok none, w')
      → (b ≡ true) ⊎ (m w ≡ (ok none, w'))
  kept_on true m w w' h = inl refl
  kept_on false m w w' h = inr h

  reuse_found-none :
      (spec : ServerSpec) (o : StartOptions) (timeout : ℕ) (resumed : Bool)
      (found : Option Instance) (w w' : W)
      → reuse_found cloud files env spec o timeout resumed found w ≡ (ok none, w')
      → found ≡ none
  unfolding reuse_found
  reuse_found-none spec o timeout resumed none w w' h = refl
  reuse_found-none spec o timeout resumed (some i) w w' h =
      absurd (reuse-ne-none spec o timeout resumed i w w' h)

  reuse_match-Replaces :
      (spec : ServerSpec) (profile : Profile) (name : String) (o : StartOptions) (timeout : ℕ)
      (confhash : String) (match : Option AwsInstance) (w₀ w w' : W) (found : List AwsInstance)
      → describe cloud live_states w₀ ≡ (ok found, w)
      → find_match name found ≡ match
      → reuse_match cloud files env spec profile name o timeout confhash match w ≡ (ok none, w')
      → Replaces cloud files env profile name o confhash w₀
  unfolding reuse_match reuse_unchanged
  reuse_match-Replaces spec profile name o timeout confhash none w₀ w w' found e m h =
      absent w found e m
  reuse_match-Replaces spec profile name o timeout confhash (some aws) w₀ w w' found e m h =
      elim (skipped (is_unchanged profile confhash aws) _ w w' h) [
        | inr differs ↦ changed w found aws e m differs
        | inl (same, k) ↦
            let (t, w₁, e₁, h₁) = >>=-eq-ok (resume cloud files env aws.state aws.id) _ w k in
            let (is, w₂, e₂, h₂) = >>=-eq-ok (discover cloud files env) _ w₁ h₁ in
            unseen w w₁ w₂ found aws is e m e₁ e₂
              (reuse_found-none spec o timeout _ (named name is) w₂ w' h₂)
      ]

  try_reuse-Replaces :
      (spec : ServerSpec) (profile : Profile) (name : String) (o : StartOptions) (timeout : ℕ)
      (confhash : String) (w w' : W)
      → try_reuse cloud files env spec profile name o timeout confhash w ≡ (ok none, w')
      → Replaces cloud files env profile name o confhash w
  unfolding try_reuse
  try_reuse-Replaces spec profile name o timeout confhash w w' h = elim (kept_on o.force _ w w' h) [
    | inl force ↦ forced force
    | inr k ↦
        let (found, w₁, e₁, h₁) = >>=-eq-ok (describe cloud live_states) _ w k in
        reuse_match-Replaces spec profile name o timeout confhash (find_match name found) w w₁ w'
          found e₁ refl h₁
  ]

  module _ (I : W → Type 0) (spares : Spares cloud files I) where
    launch_unless-Kept :
        (spec : ServerSpec) (profile : Profile) (name : String) (o : StartOptions) (timeout : ℕ)
        (userdata confhash : String) (w w' : W) (r : Option Instance)
        → try_reuse cloud files env spec profile name o timeout confhash w ≡ (ok r, w')
        → I w'
        → I (launch_unless cloud files env spec profile name o timeout userdata confhash r w').1
          ⊎ Replaces cloud files env profile name o confhash w
    unfolding launch_unless
    launch_unless-Kept spec profile name o timeout userdata confhash w w' (some i) e h = inl h
    launch_unless-Kept spec profile name o timeout userdata confhash w w' none e h =
        inr (try_reuse-Replaces spec profile name o timeout confhash w w' e)

    -- Starting a server, however it ends, leaves true whatever the calls that reuse an instance leave
    -- true, such as that no instance was launched or terminated and no security group created or
    -- deleted. It may do otherwise only if, after the configuration was rendered, the start is forced,
    -- or AWS lists no instance of the name, or the one that it lists has another profile or another
    -- fingerprint of the configuration, or the discovery that follows misses the name.
    pub start-spares :
        (spec : ServerSpec) (profile : Profile) (name : String) (o : StartOptions) (w : W)
        → I w
        → I (start cloud files env spec profile name o w).1
          ⊎ ((w₁ : W) × (w₂ : W) × (userdata : String) × (connect cloud "ec2" w ≡ (ok tt, w₁))
              × (render_userdata cloud files env spec profile name o.overrides w₁
                  ≡ (ok userdata, w₂))
              × Replaces cloud files env profile name o
                  (confhash_of cloud files env userdata (instance_type spec))
                  w₂)
    unfolding start
    start-spares spec profile name o w h =
        Kept-unless I (connect cloud "ec2") _ w (connect-Kept cloud files env I spares "ec2") h
          λ _ w₁ e₁ h₁.
            Kept-unless I (lift (timeout_for spec o.timeout)) _ w₁ (Kept-lift I _) h₁
              λ timeout w' e h'.
                Kept-unless I (render_userdata cloud files env spec profile name o.overrides) _ w'
                  (render_userdata-Kept cloud files env I spares spec profile name o.overrides) h'
                  λ userdata w₂ e₂ h₂.
                    let hash = confhash_of cloud files env userdata (instance_type spec) in
                    Kept-unless I (try_reuse cloud files env spec profile name o timeout hash) _ w₂
                      (try_reuse-Kept cloud files env I spares spec profile name o timeout hash) h₂
                      λ r w₃ e₃ h₃.
                        elim (launch_unless-Kept spec profile name o timeout userdata hash w₂ w₃ r
                          e₃ h₃) [
                            | inl kept ↦ inl kept
                            | inr why ↦
                                let stays : w' ≡ w₁ = sym (ap (λ r. r.1) e) in
                                inr (
                                  w₁,
                                  w₂,
                                  userdata,
                                  e₁,
                                  ap (render_userdata cloud files env spec profile name o.overrides)
                                        (sym stays)
                                      ∙ e₂,
                                  why,
                                )
                          ]
