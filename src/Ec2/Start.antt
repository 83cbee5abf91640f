-- ===== src/Ec2/Start.antt =====
-- `dnslab/providers/ec2.py`: `render_userdata` and `start`, with its ways to reuse an instance, to
-- resume a stopped one, and to launch anew.
pub mod Launching
pub mod Spared
pub mod Reusing
pub mod Reuse
use gpt_jupyter_dns.Prelude.{
  ℕ, ◌*◌, String, ◌<>◌, Bool, false, ◌&&◌, not, Option, none, some, List, [], ◌∷◌, ◌==◌, contains,
  if◌then◌else◌,
}
use gpt_jupyter_dns.Dict.{Dict, lookup, merge}
use gpt_jupyter_dns.Result.{Result, ok, err, timeout_error}
use gpt_jupyter_dns.Action.{Action, pure, raise, lift, catch, ◌>>=◌, ◌>>◌}
use gpt_jupyter_dns.Value.{
  Value, null, bool, int, str, dict, end, ℤ, pos, negsuc, truthy, to_int, to_text, get_or, has_text,
}
use gpt_jupyter_dns.Text.{take}
use gpt_jupyter_dns.Model.{Profile, ServerSpec, Instance}
use gpt_jupyter_dns.Provider.{StartOptions}
use gpt_jupyter_dns.State.{Env}
use gpt_jupyter_dns.State.Files.{Files, state_dir}
use gpt_jupyter_dns.Ec2.{second, expires_at}
use gpt_jupyter_dns.Ec2.Cloud.{Cloud, Tag, Launch, AwsInstance}
use gpt_jupyter_dns.Ec2.Access.{
  connect, describe, tags_dict, or_wrap, wrap, head, resolve_ami, authorize_current_ip, ensure_sg,
  ensure_ssm_profile,
}
use gpt_jupyter_dns.Ec2.Waits.{look, do53_port, wait_ssm_online, wait_healthy, delete_sg_quiet}
use gpt_jupyter_dns.Ec2.Discovery.{discover, remember, or_text}
use gpt_jupyter_dns.Ec2.Teardown.{stop}

abbrev pub domain : String
domain = "dnslab.test"

-- The template context of `render_userdata`; later entries replace earlier ones.
unfoldable pub userdata_context : ServerSpec → Profile → String → Dict Value → Dict Value
unfolding merge
userdata_context spec profile instance_name overrides =
    merge
      (merge
        (("instance_name", str instance_name)
          ∷ ("tls_hostname", str (instance_name <> "." <> domain))
          ∷ ("tls_cert_path", str "C:\\dnslab\\certs\\server.pem")
          ∷ ("tls_key_path", str "C:\\dnslab\\certs\\server.key")
          ∷ ("ca_path", str "C:\\dnslab\\certs\\dnslab-ca.pem")
          ∷ ("zones_dir", str "C:\\dnslab\\zones")
          ∷ ("listen_do53", bool (has_text "do53" profile.listeners))
          ∷ ("listen_dot", bool (has_text "dot" profile.listeners))
          ∷ ("port_do53", int (do53_port spec))
          ∷ ("port_dot", int (elim (lookup "dot" spec.ports) [ none ↦ pos 853 | some p ↦ p ]))
          ∷ ("upstream_do53", dict end)
          ∷ ("upstream_dot", dict end)
          ∷ [])
        profile.extra)
      overrides

-- seconds as microseconds; a negative timeout is over at once, as zero is
abbrev pub micros : ℤ → ℕ
micros (pos n) = n * second
micros (negsuc n) = 0

-- `timeout`, or the manifest's `start_timeout`, which is a whole number here, or ten minutes
unfoldable pub timeout_for : ServerSpec → Option ℕ → Result ℕ
timeout_for spec (some t) = ok (t * second)
timeout_for spec none = elim (to_int (get_or spec.raw "start_timeout" (int (pos 600)))) [
  | ok n ↦ ok (micros n)
  | err e ↦ err e
]

unfoldable pub instance_type : ServerSpec → String
instance_type spec = to_text (get_or spec.raw "instance_type" (str "t3.medium"))

-- The first instance whose tags carry this name.
unfoldable pub find_match : String → List AwsInstance → Option AwsInstance
unfolding tags_dict
find_match name [] = none
find_match name (aws ∷ rest) =
    let later = find_match name rest in
    elim (lookup "dnslab-instance" (tags_dict aws.tags)) [
      | none ↦ later
      | some n ↦ if n == name then some aws else later
    ]

abbrev is_tag : String → String → Dict String → Bool
is_tag key v tags = elim (lookup key tags) [ none ↦ false | some t ↦ t == v ]

-- Profile and rendered configuration are those of the tags.
unfoldable pub is_unchanged : Profile → String → AwsInstance → Bool
unfolding tags_dict
is_unchanged profile confhash aws =
    is_tag "dnslab-profile" profile.name (tags_dict aws.tags)
    && is_tag "dnslab-confhash" confhash (tags_dict aws.tags)

abbrev pub is_paused : String → Bool
is_paused state = contains state ("stopping" ∷ "stopped" ∷ [])

abbrev pub is_client : ServerSpec → Bool
is_client spec = not spec.capabilities.do53_listener && not spec.capabilities.dot_listener

unfoldable pub named : String → List Instance → Option Instance
named name [] = none
named name (i ∷ is) = let rest = named name is in if i.name == name then some i else rest

unfoldable pub launch_tags : ServerSpec → Profile → String → String → String → String → List Tag
launch_tags spec profile instance_name session expires confhash =
    ("dnslab", "1")
    ∷ ("dnslab-server", spec.name)
    ∷ ("dnslab-instance", instance_name)
    ∷ ("dnslab-profile", profile.name)
    ∷ ("dnslab-session", session)
    ∷ ("dnslab-expires", expires)
    ∷ ("dnslab-confhash", confhash)
    ∷ ("Name", "dnslab-" <> instance_name)
    ∷ []

-- The states in which an instance may be taken again.
abbrev pub live_states : List String
live_states = "pending" ∷ "running" ∷ "stopping" ∷ "stopped" ∷ []

-- `bool(spec.raw.get("rdp"))`
abbrev pub rdp_of : ServerSpec → Bool
rdp_of spec = truthy (get_or spec.raw "rdp" null)

module _ {W : Type 0} (cloud : Cloud W) (files : Files W) (env : Env) where
  unfoldable pub render_userdata : ServerSpec → Profile → String → Dict Value → Action W String
  unfolding userdata_context
  render_userdata spec profile instance_name overrides = do
    rendered ←
        cloud.render spec.dir profile.template
          (userdata_context spec profile instance_name overrides)
    d ← state_dir files env (some instance_name)
    files.write ("userdata.ps1" ∷ d) rendered
    pure rendered

  -- A paused instance is started again, once it has stopped.
  pub resume : String → String → Action W (Unit {0})
  resume state id =
      if is_paused state
      then (do
        (if state == "stopping"
            then cloud.wait_until "instance_stopped" (id ∷ []) 10 60
            else pure tt)
        cloud.start_instances (id ∷ [])
        cloud.wait_until "instance_running" (id ∷ []) 5 60)
      else pure tt

  -- Readiness: the SSM agent for a stub client, an answer for everything else.
  wait_ready : ServerSpec → Instance → ℕ → Action W (Unit {0})
  wait_ready spec i timeout =
      if is_client spec
      then wait_ssm_online cloud i.id timeout
      else wait_healthy cloud spec i timeout

  -- The same for a reused instance; only the text of the TimeoutError differs.
  wait_reused : ServerSpec → Instance → ℕ → Action W (Unit {0})
  wait_reused spec i timeout =
      if is_client spec
      then wait_ssm_online cloud i.id timeout
      else catch (wait_healthy cloud spec i timeout)
          λ e. elim e [ timeout_error s ↦ some (raise (timeout_error i.name)) | _ ↦ none ]

  -- `(reused.extra or {}).get("sg_id")`
  reauthorize : ServerSpec → Value → Action W (Unit {0})
  reauthorize spec sg_id =
      if truthy sg_id then authorize_current_ip cloud (to_text sg_id) (rdp_of spec) else pure tt

  reuse : ServerSpec → StartOptions → ℕ → Bool → Instance → Action W (Option Instance)
  unfolding reauthorize wait_reused
  reuse spec o timeout resumed i = do
    reauthorize spec (get_or i.extra "sg_id" null)
    (if o.wait then wait_reused spec i timeout else pure tt)
    let i' : Instance = record i {
      status = (if resumed then "resumed " else "reused ") <> i.status;
    }
    remember cloud files env i'
    pure (some i')

  -- the instance to reuse, when discovery sees it
  reuse_found : ServerSpec → StartOptions → ℕ → Bool → Option Instance → Action W (Option Instance)
  unfolding reuse
  reuse_found spec o timeout resumed none = pure none
  reuse_found spec o timeout resumed (some i) = reuse spec o timeout resumed i

  reuse_unchanged :
      ServerSpec → String → StartOptions → ℕ → AwsInstance → Action W (Option Instance)
  unfolding reuse_found resume named
  reuse_unchanged spec instance_name o timeout aws = do
    resume aws.state aws.id
    found ← discover cloud files env
    reuse_found spec o timeout (is_paused aws.state) (named instance_name found)

  reuse_match :
      ServerSpec
      → Profile
      → String
      → StartOptions
      → ℕ
      → String
      → Option AwsInstance
      → Action W (Option Instance)
  unfolding reuse_unchanged is_unchanged
  reuse_match spec profile instance_name o timeout confhash none = pure none
  reuse_match spec profile instance_name o timeout confhash (some aws) =
      if is_unchanged profile confhash aws
      then reuse_unchanged spec instance_name o timeout aws
      else pure none

  -- The first half of `start`: the instance that is reused, or none.
  unfoldable pub try_reuse :
      ServerSpec → Profile → String → StartOptions → ℕ → String → Action W (Option Instance)
  unfolding reuse_match find_match
  try_reuse spec profile instance_name o timeout confhash = if o.force then pure none else (do
    found ← describe cloud live_states
    reuse_match spec profile instance_name o timeout confhash (find_match instance_name found))

  -- the first word of a status
  first_word : String → Result String
  first_word status = head (cloud.split status)

  stop_previous : String → List Instance → Action W (Unit {0})
  unfolding first_word
  stop_previous name [] = pure tt
  stop_previous name (i ∷ is) = do
    (if i.name == name
        then (do
          word ← lift (first_word i.status)
          (if not (word == "terminated") then stop cloud files env i else pure tt))
        else pure tt)
    stop_previous name is

  iam_profile : Value → Action W (Option Value)
  iam_profile v =
      if truthy v
      then (do
        (elim v [
          | str s ↦ if s == "dnslab-ssm" then ensure_ssm_profile cloud "dnslab-ssm" else pure tt
          | _ ↦ pure tt
        ])
        pure (some v))
      else pure none

  -- `run_instances`; when it fails, the security group is removed first
  pub run : ServerSpec → Launch → Action W (List AwsInstance)
  run spec l = catch (cloud.run_instances l) λ e. some (do
    delete_sg_quiet cloud l.group
    raise (wrap ("launching " <> spec.name <> " (" <> l.image <> ")")))

  await_running : String → Action W AwsInstance
  await_running id = or_wrap cloud ("waiting for " <> id <> " to enter 'running'") do
    cloud.wait_until "instance_running" (id ∷ []) 5 60
    reservations ← cloud.describe_instance id
    r ← lift (head reservations)
    lift (head r)

  launched_instance :
      ServerSpec → Profile → String → String → String → String → String → AwsInstance → Instance
  launched_instance spec profile instance_name id session sg_id expires aws = record {
    name = instance_name;
    server = spec.name;
    profile = profile.name;
    provider = "ec2";
    id = id;
    host = or_text aws.public_dns (or_text aws.public_ip id);
    ip = aws.public_ip;
    status = "starting";
    extra =
        ("session", str session)
        ∷ ("sg_id", str sg_id)
        ∷ ("expires", str expires)
        ∷ ("launched", str aws.launched)
        ∷ [];
  }

  -- The second half of `start`: the replacement of what has this name by a new instance.
  unfoldable pub launch :
      ServerSpec → Profile → String → StartOptions → ℕ → String → String → Action W Instance
  unfolding stop_previous iam_profile run await_running launched_instance wait_ready launch_tags
  launch spec profile instance_name o timeout userdata confhash = do
    previous ← discover cloud files env
    stop_previous instance_name previous
    ami ← resolve_ami cloud spec
    session ← cloud.uuid4
    now ← look cloud cloud.now
    let expires = expires_at cloud.fromisoformat cloud.strftime now
    let tags = launch_tags spec profile instance_name session expires confhash
    sg_id ← ensure_sg cloud ("dnslab-" <> session) (rdp_of spec) tags
    iam ← iam_profile (get_or spec.raw "iam_instance_profile" null)
    launched ← run spec (record {
      image = ami;
      instance_type = instance_type spec;
      userdata = userdata;
      group = sg_id;
      tags = tags;
      iam_profile = iam;
    })
    first ← lift (head launched)
    aws ← await_running first.id
    let i = launched_instance spec profile instance_name first.id session sg_id expires aws
    remember cloud files env i
    (if o.wait then wait_ready spec i timeout else pure tt)
    remember cloud files env (record i { status = "running" })
    pure (record i { status = "running" })

  launch_unless :
      ServerSpec
      → Profile
      → String
      → StartOptions
      → ℕ
      → String
      → String
      → Option Instance
      → Action W Instance
  unfolding launch
  launch_unless spec profile instance_name o timeout userdata confhash (some i) = pure i
  launch_unless spec profile instance_name o timeout userdata confhash none =
      launch spec profile instance_name o timeout userdata confhash

  -- the first 16 digits of the hash of the user data, a zero byte and the instance type
  unfoldable pub confhash_of : String → String → String
  confhash_of userdata itype = take 16 (cloud.sha256 (userdata <> "\0" <> itype))

  unfoldable pub start : ServerSpec → Profile → String → StartOptions → Action W Instance
  unfolding launch_unless try_reuse render_userdata timeout_for
  start spec profile instance_name o = do
    connect cloud "ec2"
    timeout ← lift (timeout_for spec o.timeout)
    userdata ← render_userdata spec profile instance_name o.overrides
    let confhash = confhash_of userdata (instance_type spec)
    reused ← try_reuse spec profile instance_name o timeout confhash
    launch_unless spec profile instance_name o timeout userdata confhash reused
