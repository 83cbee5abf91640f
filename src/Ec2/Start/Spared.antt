-- ===== src/Ec2/Start/Spared.antt =====
-- `dnslab/providers/ec2.py`: what discovering, remembering, authorizing and waiting leave alone, which
-- is what the calls that they make leave alone.
use gpt_jupyter_dns.Prelude.{
  ℕ, suc, ◌+◌, String, inl, inr, Bool, Option, none, some, List, [], ◌∷◌, ◌==◌, Bool-cases, ltb,
}
use gpt_jupyter_dns.Dict.{Dict}
use gpt_jupyter_dns.Result.{Error, import_error, runtime_error, not_configured, timeout_error}
use gpt_jupyter_dns.Action.{Action, raise}
use gpt_jupyter_dns.Action.Kept.{
  Kept, Kept-pure, Kept-raise, Kept-lift, Kept-look, Kept-bind, Kept-if, Kept-catch, Kept-repeat,
  KeptHandler,
}
use gpt_jupyter_dns.Value.{Value, ℤ}
use gpt_jupyter_dns.Ec2.{Rule}
use gpt_jupyter_dns.Model.{ServerSpec, Instance}
use gpt_jupyter_dns.State.{Env}
use gpt_jupyter_dns.State.Files.{Files}
use gpt_jupyter_dns.State.Files.Frame.{FilesKeep, load_state-Kept, save_state-Kept}
use gpt_jupyter_dns.Ec2.Cloud.{Cloud}
use gpt_jupyter_dns.Ec2.Access.{
  boto3, check_region, connect, describe, caller_public_ip, authorize_current_ip,
}
use gpt_jupyter_dns.Ec2.Waits.{
  until, pause, is_online, ssm_round, wait_ssm_online, health_round, healthy_at, healthcheck_of,
  rounds, wait_healthy,
}
use gpt_jupyter_dns.Ec2.Discovery.{
  remember, forget, remember_all, forget_stale, discover, active_states,
}

-- Everything that reusing an instance asks of AWS, of the clock and of the file system leaves `I`
-- true. Nothing is asked of the calls that launch and terminate instances, or that create and delete
-- security groups.
pub record Spares {W : Type 0} (cloud : Cloud W) (files : Files W) (I : W → Type 0) : Type 0 where
  pub import_boto3 : Kept I cloud.import_boto3
  pub region_name : Kept I cloud.region_name
  pub client : (service : String) → Kept I (cloud.client service)
  pub describe_pages : (states : List String) → Kept I (cloud.describe_pages states)
  pub start_instances : (ids : List String) → Kept I (cloud.start_instances ids)
  pub wait_until :
      (what : String) (ids : List String) (delay attempts : ℕ)
      → Kept I (cloud.wait_until what ids delay attempts)
  pub authorize_ingress :
      (id : String) (rules : List Rule) → Kept I (cloud.authorize_ingress id rules)
  pub fetch : (url : String) (timeout : ℕ) → Kept I (cloud.fetch url timeout)
  pub ping_statuses : (id : String) → Kept I (cloud.ping_statuses id)
  pub sleep : (n : ℕ) → Kept I (cloud.sleep n)
  pub probe :
      (qname qtype : Value) (ip : String) (port : ℤ) → Kept I (cloud.probe qname qtype ip port)
  pub render :
      (dir : String) (template : Value) (ctx : Dict Value) → Kept I (cloud.render dir template ctx)
  pub state_files : FilesKeep files I

module _ {W : Type 0} (cloud : Cloud W) (files : Files W) (env : Env) (I : W → Type 0)
    (spares : Spares cloud files I) where
  missing-KeptHandler :
      (e : Error)
      → KeptHandler I {A = Unit {0}} (elim e [
        | import_error ↦ some (raise (runtime_error (not_configured "boto3")))
        | _ ↦ none
      ])
  missing-KeptHandler import_error = Kept-raise I _
  missing-KeptHandler e = tt

  check_region-Kept : (region : Option String) → Kept I (check_region cloud region)
  unfolding check_region
  check_region-Kept none = Kept-raise I _
  check_region-Kept (some r) = Kept-if I (r == "") (Kept-raise I _) (Kept-pure I tt)

  pub connect-Kept : (service : String) → Kept I (connect cloud service)
  unfolding connect boto3
  connect-Kept service = Kept-bind I (Kept-catch I _ spares.import_boto3 missing-KeptHandler) λ _.
      Kept-bind I spares.region_name
        λ region. Kept-bind I (check_region-Kept region) λ _. spares.client service

  pub describe-Kept : (states : List String) → Kept I (describe cloud states)
  unfolding describe
  describe-Kept states = Kept-bind I (connect-Kept "ec2") λ _.
      Kept-catch I _ (Kept-bind I (spares.describe_pages states) λ pages. Kept-pure I _)
        λ e. Kept-raise I _

  pub remember-Kept : (i : Instance) → Kept I (remember cloud files env i)
  unfolding remember
  remember-Kept i = Kept-bind I (load_state-Kept files env I spares.state_files "ec2") λ st.
      Kept-bind I (Kept-lift I _) λ st'. save_state-Kept files env I spares.state_files "ec2" st'

  forget-Kept : (names : List String) → Kept I (forget cloud files env names)
  unfolding forget
  forget-Kept names = Kept-bind I (load_state-Kept files env I spares.state_files "ec2") λ st.
      Kept-bind I (Kept-lift I _) λ st'. save_state-Kept files env I spares.state_files "ec2" st'

  remember_all-Kept : (is : List Instance) → Kept I (remember_all cloud files env is)
  unfolding remember_all
  remember_all-Kept [] = Kept-pure I tt
  remember_all-Kept (i ∷ is) = Kept-bind I (remember-Kept i) λ _. remember_all-Kept is

  forget_stale-Kept : (ns : List String) → Kept I (forget_stale cloud files env ns)
  unfolding forget_stale
  forget_stale-Kept [] = Kept-pure I tt
  forget_stale-Kept (n ∷ ns) = forget-Kept (n ∷ ns)

  pub discover-Kept : Kept I (discover cloud files env)
  unfolding discover
  discover-Kept = Kept-bind I (load_state-Kept files env I spares.state_files "ec2") λ st.
      Kept-bind I (Kept-lift I _) λ known. Kept-bind I (describe-Kept active_states) λ found.
        Kept-bind I (Kept-look I _) λ now. Kept-bind I (Kept-lift I _) λ out.
          Kept-bind I (forget_stale-Kept _)
            λ _. Kept-bind I (remember_all-Kept out) λ _. Kept-pure I out

  pub authorize-Kept : (sg_id : String) (rdp : Bool) → Kept I (authorize_current_ip cloud sg_id rdp)
  unfolding authorize_current_ip caller_public_ip
  authorize-Kept sg_id rdp =
      Kept-bind I
        (Kept-catch I _
          (Kept-bind I (spares.fetch _ 10) λ text. Kept-bind I (Kept-lift I _) λ _. Kept-pure I _)
          λ e. Kept-raise I _)
        λ ip.
          Kept-catch I _ (spares.authorize_ingress sg_id _)
            λ e. Kept-if I _ (Kept-pure I tt) (Kept-raise I _)

  until-Kept :
      {A : Type 0} (deadline : ℕ) (late : Error) {m : Action W (Option A)}
      → Kept I m
      → Kept I (until cloud deadline late m)
  until-Kept deadline late {m} h = record {
    at = λ w i. elim (Bool-cases (ltb (cloud.clock w) deadline)) [
      | inl early ↦ rw (early) (h.at w i)
      | inr over ↦ rw (over) i
    ];
  }

  pause-Kept : {A : Type 0} (seconds : ℕ) → Kept I (pause cloud seconds {A = A})
  pause-Kept seconds = Kept-bind I (spares.sleep _) λ _. Kept-pure I _

  ssm_round-Kept : (id : String) (deadline : ℕ) → Kept I (ssm_round cloud id deadline)
  unfolding ssm_round
  ssm_round-Kept id deadline = until-Kept deadline (timeout_error id) (
      Kept-bind I (spares.ping_statuses id)
        λ statuses. Kept-if I (is_online statuses) (Kept-pure I (some tt)) (pause-Kept 10))

  pub wait_ssm_online-Kept : (id : String) (timeout : ℕ) → Kept I (wait_ssm_online cloud id timeout)
  unfolding wait_ssm_online
  wait_ssm_online-Kept id timeout = Kept-bind I (connect-Kept "ssm") λ _.
      Kept-bind I (Kept-look I cloud.clock)
        λ start. Kept-repeat I (suc (rounds timeout 10)) (ssm_round-Kept id (start + timeout))

  health_round-Kept :
      (spec : ServerSpec) (name : String) (hc : Dict Value) (ip : String) (deadline : ℕ)
      → Kept I (health_round cloud spec name hc ip deadline)
  unfolding health_round
  health_round-Kept spec name hc ip deadline =
      until-Kept deadline (timeout_error name)
        (Kept-catch I _ (Kept-bind I (spares.probe _ _ ip _) λ _. Kept-pure I _) λ e. pause-Kept 5)

  healthy_at-Kept :
      (ip : Option String) (spec : ServerSpec) (name : String) (timeout : ℕ)
      → Kept I (healthy_at cloud ip spec name timeout)
  unfolding healthy_at
  healthy_at-Kept none spec name timeout = Kept-raise I _
  healthy_at-Kept (some ip) spec name timeout = Kept-if I (ip == "") (Kept-raise I _) (
      Kept-bind I (Kept-lift I (healthcheck_of spec)) λ hc.
        Kept-bind I (Kept-look I cloud.clock) λ start.
          Kept-repeat I (suc (rounds timeout 5))
            (health_round-Kept spec name hc ip (start + timeout)))

  pub wait_healthy-Kept :
      (spec : ServerSpec) (i : Instance) (timeout : ℕ) → Kept I (wait_healthy cloud spec i timeout)
  unfolding wait_healthy
  wait_healthy-Kept spec i timeout = healthy_at-Kept i.ip spec i.name timeout
