-- ===== src/Ec2/Contract.antt =====
-- The class `Ec2Provider` of `dnslab/providers/ec2.py`, and how its teardown ends when AWS refuses it.
use gpt_jupyter_dns.Prelude.{String, ◌<>◌, ◌≡◌, refl, ap, ◌∙◌, List, ◌∷◌}
use gpt_jupyter_dns.Result.{ok, err, Error}
use gpt_jupyter_dns.Action.{catch-err, >>=-ok, >>=-err}
use gpt_jupyter_dns.Text.{repr_list}
use gpt_jupyter_dns.State.{Env}
use gpt_jupyter_dns.State.Files.{Files}
use gpt_jupyter_dns.Registry.{Disk}
use gpt_jupyter_dns.Provider.{Provider}
use gpt_jupyter_dns.Ec2.Cloud.{Cloud, AwsInstance}
use gpt_jupyter_dns.Ec2.Access.{connect, describe, wrap}
use gpt_jupyter_dns.Ec2.Discovery.{active_states, discover, target, logs}
use gpt_jupyter_dns.Ec2.Teardown.{terminable, terminate_all, stop, nuke}
use gpt_jupyter_dns.Ec2.Start.{start}

module _ {W : Type 0} (cloud : Cloud W) (files : Files W) (env : Env) where
  -- The class: its methods, with its own `nuke`.
  unfoldable pub ec2_provider : Disk → String → Provider W
  unfolding start stop discover target logs nuke
  ec2_provider disk root = record {
    start = start cloud files env;
    stop = stop cloud files env;
    discover = discover cloud files env;
    target = target disk root;
    logs = logs cloud files env;
    nuke = nuke cloud files env;
  }

  terminate_all-refused :
      (i : String) (is : List String) (x : Error) (w w' : W)
      → cloud.terminate_instances (i ∷ is) w ≡ (err x, w')
      → terminate_all cloud files env (i ∷ is) w
        ≡ (err (wrap ("terminating " <> repr_list (i ∷ is))), w')
  unfolding terminate_all
  terminate_all-refused i is x w w' refused =
      catch-err (cloud.terminate_instances (i ∷ is)) _ w refused refl

  -- AWS lists instances that are not shutting down, and refuses to terminate them.
  pub nuke-refused :
      (disk : Disk) (root : String) (instances : List AwsInstance) (i : String) (is : List String)
      (x : Error) (w w₁ w₂ w₃ : W)
      → connect cloud "ec2" w ≡ (ok tt, w₁)
      → describe cloud active_states w₁ ≡ (ok instances, w₂)
      → terminable instances ≡ i ∷ is
      → cloud.terminate_instances (i ∷ is) w₂ ≡ (err x, w₃)
      → (ec2_provider disk root).nuke w ≡ (err (wrap ("terminating " <> repr_list (i ∷ is))), w₃)
  unfolding ec2_provider nuke
  nuke-refused disk root instances i is x w w₁ w₂ w₃ connected listed running refused =
      >>=-ok (connect cloud "ec2") _ w connected
      ∙ >>=-ok (describe cloud active_states) _ w₁ listed
      ∙ >>=-err (terminate_all cloud files env (terminable instances)) _ w₂ (
          ap (λ ids. terminate_all cloud files env ids w₂) running
          ∙ terminate_all-refused i is x w₂ w₃ refused)
