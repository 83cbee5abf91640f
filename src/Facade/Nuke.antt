-- ===== src/Facade/Nuke.antt =====
-- How `nuke` treats a provider whose teardown fails.
use gpt_jupyter_dns.Prelude.{String, ◌<>◌, ◌≡◌, refl, ◌∙◌, List, [], ◌∷◌}
use gpt_jupyter_dns.Result.{ok, err, Error, runtime_error, foreign, Reason}
use gpt_jupyter_dns.Action.{catch-ok, pure, catch-err, >>=-ok, ◌>>=◌}
use gpt_jupyter_dns.Provider.{Provider, Makers, Session, get_provider, on_world}
use gpt_jupyter_dns.Text.{repr_list}
use gpt_jupyter_dns.State.{Env}
use gpt_jupyter_dns.State.Files.{Files}
use gpt_jupyter_dns.Registry.{Disk}
use gpt_jupyter_dns.Ec2.Cloud.{Cloud, AwsInstance}
use gpt_jupyter_dns.Ec2.Access.{connect, describe}
use gpt_jupyter_dns.Ec2.Discovery.{active_states}
use gpt_jupyter_dns.Ec2.Teardown.{terminable}
use gpt_jupyter_dns.Ec2.Contract.{ec2_provider, nuke-refused}
use gpt_jupyter_dns.Facade.{nuke_from, nuke}

module _ {W : Type 0} (makers : Makers W) where
  nuke_from-ok :
      (pname : String) (s s₁ : Session W) (p : Provider W) (removed : List String) (w : W)
      → get_provider makers pname s ≡ (ok p, s₁)
      → p.nuke s₁.world ≡ (ok removed, w)
      → nuke_from makers pname s ≡ (ok removed, record s₁ { world = w })
  unfolding nuke_from
  nuke_from-ok pname s s₁ p removed w got done =
      catch-ok (get_provider makers pname >>= λ q. on_world q.nuke) _ s
        (>>=-ok (get_provider makers pname) _ s got ∙ (rw done))

  nuke_from-err :
      (pname : String) (s s₁ : Session W) (p : Provider W) (reason : Reason) (w : W)
      → get_provider makers pname s ≡ (ok p, s₁)
      → p.nuke s₁.world ≡ (err (runtime_error reason), w)
      → nuke_from makers pname s ≡ (ok [], record s₁ { world = w })
  unfolding nuke_from
  nuke_from-err pname s s₁ p reason w got fails =
      catch-err (get_provider makers pname >>= λ q. on_world q.nuke) _ s {x = runtime_error reason}
        {w' = record s₁ { world = w }} {k = pure []}
        (>>=-ok (get_provider makers pname) _ s got ∙ (rw fails)) refl

  -- AWS lists instances that are not shutting down and refuses to terminate them, for whatever reason:
  -- `nuke` returns all the same, does nothing after the refused call, and reports for EC2 the empty list, as
  -- it does when there was nothing to remove. The docker provider is there and its teardown returned, the
  -- EC2 provider is there, and connecting and describing the instances returned.
  pub nuke-swallows :
      (cloud : Cloud W) (files : Files W) (env : Env) (disk : Disk) (root : String) (d : Provider W)
      (removed : List String) (instances : List AwsInstance) (i : String) (is : List String)
      (x : Error) (s s₁ s₂ : Session W) (w w₁ w₂ w₃ : W)
      → get_provider makers "docker" s ≡ (ok d, s₁)
      → d.nuke s₁.world ≡ (ok removed, w)
      → get_provider makers "ec2" (record s₁ { world = w })
        ≡ (ok (ec2_provider cloud files env disk root), s₂)
      → connect cloud "ec2" s₂.world ≡ (ok tt, w₁)
      → describe cloud active_states w₁ ≡ (ok instances, w₂)
      → terminable instances ≡ i ∷ is
      → cloud.terminate_instances (i ∷ is) w₂ ≡ (err x, w₃)
      → nuke makers s ≡ (ok (("docker", removed) ∷ ("ec2", []) ∷ []), record s₂ { world = w₃ })
  unfolding nuke
  nuke-swallows cloud files env disk root d removed instances i is x s s₁ s₂ w w₁ w₂ w₃ got done
        got' connected listed running refused =
      let fails =
        nuke-refused cloud files env disk root instances i is x s₂.world w₁ w₂ w₃ connected listed
          running refused in
      >>=-ok (nuke_from makers "docker") _ s (nuke_from-ok "docker" s s₁ d removed w got done)
      ∙ >>=-ok (nuke_from makers "ec2") _ (record s₁ { world = w })
          (nuke_from-err "ec2" (record s₁ { world = w }) s₂ (ec2_provider cloud files env disk root)
            (foreign ("terminating " <> repr_list (i ∷ is))) w₃ got' fails)

  -- A failure of the docker teardown with a `RuntimeError` does not keep EC2 from being torn down.
  pub nuke-isolates :
      (d e : Provider W) (removed : List String) (reason : Reason) (s s₁ s₂ : Session W) (w w' : W)
      → get_provider makers "docker" s ≡ (ok d, s₁)
      → d.nuke s₁.world ≡ (err (runtime_error reason), w)
      → get_provider makers "ec2" (record s₁ { world = w }) ≡ (ok e, s₂)
      → e.nuke s₂.world ≡ (ok removed, w')
      → nuke makers s ≡ (ok (("docker", []) ∷ ("ec2", removed) ∷ []), record s₂ { world = w' })
  unfolding nuke
  nuke-isolates d e removed reason s s₁ s₂ w w' got fails got' done =
      >>=-ok (nuke_from makers "docker") _ s (nuke_from-err "docker" s s₁ d reason w got fails)
      ∙ >>=-ok (nuke_from makers "ec2") _ (record s₁ { world = w })
          (nuke_from-ok "ec2" (record s₁ { world = w }) s₂ e removed w' got' done)
