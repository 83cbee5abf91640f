-- ===== src/Ec2/Start/Reusing.antt =====
-- `Ec2Provider.start` of `dnslab/providers/ec2.py`: what rendering the configuration and the way to reuse
-- an instance leave alone.
use gpt_jupyter_dns.Prelude.{ℕ, String, Bool, Option, none, some, ◌==◌}
use gpt_jupyter_dns.Dict.{Dict}
use gpt_jupyter_dns.Result.{Error, timeout_error}
use gpt_jupyter_dns.Action.{raise}
use gpt_jupyter_dns.Action.Kept.{
  Kept, Kept-pure, Kept-raise, Kept-bind, Kept-if, Kept-catch, KeptHandler,
}
use gpt_jupyter_dns.Value.{Value, null, truthy, get_or}
use gpt_jupyter_dns.Model.{Profile, ServerSpec, Instance}
use gpt_jupyter_dns.Provider.{StartOptions}
use gpt_jupyter_dns.State.{Env}
use gpt_jupyter_dns.State.Files.{Files}
use gpt_jupyter_dns.State.Files.Frame.{state_dir-Kept}
use gpt_jupyter_dns.Ec2.Cloud.{Cloud, AwsInstance}
use gpt_jupyter_dns.Ec2.Start.{
  find_match, is_unchanged, is_paused, is_client, named, live_states, rdp_of, render_userdata,
  resume, wait_reused, reauthorize, reuse, reuse_found, reuse_unchanged, reuse_match, try_reuse,
}
use gpt_jupyter_dns.Ec2.Start.Spared.{
  Spares, describe-Kept, remember-Kept, discover-Kept, authorize-Kept, wait_ssm_online-Kept,
  wait_healthy-Kept,
}

module _ {W : Type 0} (cloud : Cloud W) (files : Files W) (env : Env) (I : W → Type 0)
    (spares : Spares cloud files I) where
  pub render_userdata-Kept :
      (spec : ServerSpec) (profile : Profile) (name : String) (overrides : Dict Value)
      → Kept I (render_userdata cloud files env spec profile name overrides)
  unfolding render_userdata
  render_userdata-Kept spec profile name overrides =
      Kept-bind I (spares.render spec.dir profile.template _) λ rendered.
        Kept-bind I (state_dir-Kept files env I spares.state_files (some name))
          λ d. Kept-bind I (spares.state_files.write _ rendered) λ _. Kept-pure I rendered

  resume-Kept : (state id : String) → Kept I (resume cloud files env state id)
  unfolding resume
  resume-Kept state id =
      Kept-if I (is_paused state)
        (Kept-bind I (Kept-if I (state == "stopping") (spares.wait_until _ _ _ _) (Kept-pure I tt))
          λ _. Kept-bind I (spares.start_instances _) λ _. spares.wait_until _ _ _ _)
        (Kept-pure I tt)

  late-KeptHandler :
      (name : String) (e : Error)
      → KeptHandler I {A = Unit {0}}
          (elim e [ timeout_error s ↦ some (raise (timeout_error name)) | _ ↦ none ])
  late-KeptHandler name (timeout_error s) = Kept-raise I _
  late-KeptHandler name e = tt

  wait_reused-Kept :
      (spec : ServerSpec) (i : Instance) (timeout : ℕ)
      → Kept I (wait_reused cloud files env spec i timeout)
  unfolding wait_reused
  wait_reused-Kept spec i timeout =
      Kept-if I (is_client spec) (wait_ssm_online-Kept cloud files env I spares i.id timeout) (
        Kept-catch I _ (wait_healthy-Kept cloud files env I spares spec i timeout)
          (late-KeptHandler i.name))

  reuse-Kept :
      (spec : ServerSpec) (o : StartOptions) (timeout : ℕ) (resumed : Bool) (i : Instance)
      → Kept I (reuse cloud files env spec o timeout resumed i)
  unfolding reuse reauthorize
  reuse-Kept spec o timeout resumed i =
      Kept-bind I
        (Kept-if I (truthy (get_or i.extra "sg_id" null))
          (authorize-Kept cloud files env I spares _ (rdp_of spec)) (Kept-pure I tt))
        λ _.
          Kept-bind I (Kept-if I o.wait (wait_reused-Kept spec i timeout) (Kept-pure I tt))
            λ _. Kept-bind I (remember-Kept cloud files env I spares _) λ _. Kept-pure I _

  reuse_found-Kept :
      (spec : ServerSpec) (o : StartOptions) (timeout : ℕ) (resumed : Bool)
      (found : Option Instance)
      → Kept I (reuse_found cloud files env spec o timeout resumed found)
  unfolding reuse_found
  reuse_found-Kept spec o timeout resumed none = Kept-pure I none
  reuse_found-Kept spec o timeout resumed (some i) = reuse-Kept spec o timeout resumed i

  reuse_match-Kept :
      (spec : ServerSpec) (profile : Profile) (name : String) (o : StartOptions) (timeout : ℕ)
      (confhash : String) (found : Option AwsInstance)
      → Kept I (reuse_match cloud files env spec profile name o timeout confhash found)
  unfolding reuse_match reuse_unchanged
  reuse_match-Kept spec profile name o timeout confhash none = Kept-pure I none
  reuse_match-Kept spec profile name o timeout confhash (some aws) =
      Kept-if I (is_unchanged profile confhash aws)
        (Kept-bind I (resume-Kept aws.state aws.id) λ _.
          Kept-bind I (discover-Kept cloud files env I spares)
            λ is. reuse_found-Kept spec o timeout (is_paused aws.state) (named name is))
        (Kept-pure I none)

  pub try_reuse-Kept :
      (spec : ServerSpec) (profile : Profile) (name : String) (o : StartOptions) (timeout : ℕ)
      (confhash : String)
      → Kept I (try_reuse cloud files env spec profile name o timeout confhash)
  unfolding try_reuse
  try_reuse-Kept spec profile name o timeout confhash = Kept-if I o.force (Kept-pure I none) (
      Kept-bind I (describe-Kept cloud files env I spares live_states)
        λ found. reuse_match-Kept spec profile name o timeout confhash (find_match name found))
