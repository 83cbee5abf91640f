-- ===== src/Ec2/Start/Launching.antt =====
-- The launch of an instance by `Ec2Provider.start` of `dnslab/providers/ec2.py`, when AWS refuses it.
use gpt_jupyter_dns.Prelude.{◌<>◌, ◌≡◌, refl, ◌∙◌}
use gpt_jupyter_dns.Result.{err, Error}
use gpt_jupyter_dns.Action.{catch-err, >>=-ok}
use gpt_jupyter_dns.Model.{ServerSpec}
use gpt_jupyter_dns.State.{Env}
use gpt_jupyter_dns.State.Files.{Files}
use gpt_jupyter_dns.Ec2.Cloud.{Cloud, Launch}
use gpt_jupyter_dns.Ec2.Access.{wrap}
use gpt_jupyter_dns.Ec2.Waits.{delete_sg_quiet}
use gpt_jupyter_dns.Ec2.Waits.Ends.{Steady}
use gpt_jupyter_dns.Ec2.Waits.Quiet.{delete_sg_quiet-once}
use gpt_jupyter_dns.Ec2.Start.{run}

module _ {W : Type 0} (cloud : Cloud W) where
  -- When AWS refuses to launch an instance, whatever its reason, the security group that was made for it
  -- is asked to be deleted, once, and however that call ends the RuntimeError is raised that names the
  -- server and the image. Nothing else is done in between, no waiting either. The clock is assumed not to
  -- go back during a call of `delete_security_group`.
  pub run-refused :
      (files : Files W) (env : Env) (spec : ServerSpec) (l : Launch) (x : Error) (w w₁ : W)
      → Steady cloud (cloud.delete_security_group l.group)
      → cloud.run_instances l w ≡ (err x, w₁)
      → run cloud files env spec l w ≡ (
        err (wrap ("launching " <> spec.name <> " (" <> l.image <> ")")),
        (cloud.delete_security_group l.group w₁).1,
      )
  unfolding run
  run-refused files env spec l x w w₁ steady refused =
      catch-err (cloud.run_instances l) _ w refused refl
      ∙ >>=-ok (delete_sg_quiet cloud l.group) _ w₁ (delete_sg_quiet-once cloud l.group w₁ steady)
