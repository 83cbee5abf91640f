-- ===== src/Facade.antt =====
-- `dnslab/__init__.py`: the functions that a notebook calls. The session is the provider cache
-- and the world; the `Disk` holds the manifests below `root`.
pub mod Plan
pub mod Nuke
pub mod Status
pub mod Stops
use gpt_jupyter_dns.Prelude.{
  String, ◌<>◌, Bool, true, false, ◌||◌, not, Option, none, some, List, [], ◌∷◌, ◌++◌, map, ◌==◌,
  if◌then◌else◌,
}
use gpt_jupyter_dns.Dict.{Dict, insert}
use gpt_jupyter_dns.Result.{
  Result, ok, err, Error, key_error, runtime_error, not_implemented, type_error, not_running,
  ambiguous, lacks_capability,
}
use gpt_jupyter_dns.Action.{Action, pure, raise, lift, catch, ◌>>=◌, ◌>>◌}
use gpt_jupyter_dns.Value.{Value, str, ℤ}
use gpt_jupyter_dns.Model.{Capabilities, Profile, ServerSpec, profile_for, Instance, Target}
use gpt_jupyter_dns.Registry.{Disk, get, discover}
use gpt_jupyter_dns.State.{Env}
use gpt_jupyter_dns.State.Files.{Place, Files}
use gpt_jupyter_dns.Certs
use gpt_jupyter_dns.Certs.{Crypto}
use gpt_jupyter_dns.Provider.{StartOptions, Provider, Makers, Session, on_world, get_provider}

-- `registry()`
unfoldable pub registry : Disk → String → Result (Dict ServerSpec)
registry disk root = discover disk root false

-- `ca_file()`; `path_text` is `str` of a path
module _ {W K C : Type 0} (crypto : Crypto W K C) (files : Files W) (env : Env) where
  unfoldable pub ca_file : (Place → String) → Action W String
  ca_file path_text = do p ← Certs.ca_file crypto files env; pure (path_text p)

abbrev nonempty : List Value → Bool
nonempty [] = false
nonempty (v ∷ vs) = true

-- The truth of `getattr(spec.capabilities, flag, False)`. Of the attributes that are no fields
-- only `from_dict` is known here: a flag is taken to be no double-underscore name.
unfoldable pub has_capability : Capabilities → String → Bool
has_capability c flag =
    if flag == "roles"
    then nonempty c.roles
    else if flag == "do53_listener"
    then c.do53_listener
    else if flag == "dot_listener"
    then c.dot_listener
    else if flag == "dot_upstream_forwarding"
    then c.dot_upstream_forwarding
    else if flag == "dot_listener_via_proxy"
    then c.dot_listener_via_proxy
    else if flag == "dot_client"
    then c.dot_client
    else if flag == "notes"
    then not (c.notes == "")
    else flag == "from_dict"

-- The loop over `prof.requires`; `getattr` wants a text.
unfoldable pub check_requires : ServerSpec → Profile → List Value → Result (Unit {0})
check_requires spec prof [] = ok tt
check_requires spec prof (str flag ∷ flags) =
    if has_capability spec.capabilities flag
    then check_requires spec prof flags
    else err (runtime_error (lacks_capability spec.name prof.name flag))
check_requires spec prof (v ∷ flags) = err type_error

-- The instances to start, each with the profile that is asked for.
abbrev pub Plan : Type 0
Plan = List (String × Option String)

unfoldable pub declared : Dict String → Plan
declared [] = []
declared ((i, p) ∷ rest) = (i, some p) ∷ declared rest

unfoldable pub declared_with : String → Dict String → Plan
declared_with profile [] = []
declared_with profile ((i, p) ∷ rest) =
    let more = declared_with profile rest in if p == profile then (i, some p) ∷ more else more

abbrev or_key_error : String → Plan → Result Plan
or_key_error profile [] = err (key_error profile)
or_key_error profile (step ∷ steps) = ok (step ∷ steps)

pub make_plan : Dict String → String → Option String → Result Plan
unfolding declared declared_with
make_plan [] name profile = ok ((name, profile) ∷ [])
make_plan instances name (some profile) = or_key_error profile (declared_with profile instances)
make_plan instances name none = ok (declared instances)

-- The exceptions that mean "provider unavailable"; `NotImplementedError` is a `RuntimeError`.
abbrev pub is_unavailable : Error → Bool
is_unavailable (runtime_error r) = true
is_unavailable not_implemented = true
is_unavailable e = false

-- `name in (i.name, i.server)`
abbrev pub matches : String → Instance → Bool
matches name i = i.name == name || i.server == name

unfoldable pub matching : String → List Instance → List Instance
matching name [] = []
matching name (i ∷ is) = let rest = matching name is in if matches name i then i ∷ rest else rest

-- A row of the table that `status` makes.
pub record StatusRow : Type 0 where
  pub instance_name : String
  pub server : String
  pub profile : String
  pub provider : String
  pub status : String
  pub ip : Option String
  pub host : String

abbrev pub status_row : Instance → StatusRow
status_row i = record {
  instance_name = i.name;
  server = i.server;
  profile = i.profile;
  provider = i.provider;
  status = i.status;
  ip = i.ip;
  host = i.host;
}

-- the loop of `start` over its plan
module _ {W : Type 0} where
  launch_all : ServerSpec → Provider W → StartOptions → Plan → Action (Session W) (List Instance)
  launch_all spec provider options [] = pure []
  launch_all spec provider options ((instance_name, prof_name) ∷ plan) = do
    prof ← lift (profile_for spec prof_name)
    lift (check_requires spec prof prof.requires)
    inst ← on_world (provider.start spec prof instance_name options)
    rest ← launch_all spec provider options plan
    pure (inst ∷ rest)

module _ {W : Type 0} (makers : Makers W) where
  -- One round of `_all_instances`.
  discover_from : String → Action (Session W) (List Instance)
  discover_from pname =
      catch (get_provider makers pname >>= λ p. on_world p.discover)
        λ e. if is_unavailable e then some (pure []) else none

  unfoldable pub all_instances : Action (Session W) (List Instance)
  unfolding discover_from
  all_instances = do
    containers ← discover_from "docker"
    machines ← discover_from "ec2"
    pure (containers ++ machines)

  -- `status(as_df=False)`, and the rows of the table that it makes by default
  unfoldable pub status : Action (Session W) (List Instance)
  unfolding all_instances
  status = all_instances

  unfoldable pub status_table : Action (Session W) (List StatusRow)
  unfolding all_instances
  status_table = do insts ← all_instances; pure (map status_row insts)

  -- `_find`
  unfoldable pub find : String → Action (Session W) (List Instance)
  find name = do found ← all_instances; pure (matching name found)

  -- `get_provider(i.provider).target(i)`
  target_of : Instance → Action (Session W) Target
  target_of i = do p ← get_provider makers i.provider; on_world (p.target i)

  targets_running : List Instance → Action (Session W) (List Target)
  targets_running [] = pure []
  targets_running (i ∷ is) = do t ← target_of i; ts ← targets_running is; pure (t ∷ ts)

  logs_each : ℤ → List Instance → Action (Session W) (List String)
  logs_each tail [] = pure []
  logs_each tail (i ∷ is) = do
    p ← get_provider makers i.provider
    text ← on_world (p.logs i tail)
    rest ← logs_each tail is
    pure (("== " <> i.name <> " ==\n" <> text) ∷ rest)

  abbrev joined : List String → String
  joined [] = ""
  joined (s ∷ []) = s
  joined (s ∷ t ∷ ss) = s <> "\n\n" <> joined (t ∷ ss)

  show_logs : String → ℤ → List Instance → Action (Session W) String
  unfolding logs_each
  show_logs name tail [] = pure (name <> ": not running")
  show_logs name tail (i ∷ is) = do parts ← logs_each tail (i ∷ is); pure (joined parts)

  unfoldable pub logs : String → ℤ → Action (Session W) String
  unfolding show_logs
  logs name tail = do found ← find name; show_logs name tail found

  stop_all : List Instance → Action (Session W) (List String)
  stop_all [] = pure []
  stop_all (i ∷ is) = do
    p ← get_provider makers i.provider
    on_world (p.stop i)
    rest ← stop_all is
    pure (i.name ∷ rest)

  -- `stop(name, all=all)`; a name that matches nothing gives `[]`, as an empty loop does
  unfoldable pub stop : Option String → Bool → Action (Session W) (List String)
  unfolding stop_all
  stop none all = do found ← all_instances; stop_all found
  stop (some name) all = do found ← (if all then all_instances else find name); stop_all found

  nuke_from : String → Action (Session W) (List String)
  nuke_from pname =
      catch (get_provider makers pname >>= λ p. on_world p.nuke)
        λ e. if is_unavailable e then some (pure []) else none

  unfoldable pub nuke : Action (Session W) (Dict (List String))
  unfolding nuke_from
  nuke = do
    containers ← nuke_from "docker"
    machines ← nuke_from "ec2"
    pure (("docker", containers) ∷ ("ec2", machines) ∷ [])

module _ {W : Type 0} (makers : Makers W) (disk : Disk) (root : String) where
  unfoldable pub start : String → Option String → StartOptions → Action (Session W) (List Instance)
  unfolding launch_all make_plan
  start name profile options = do
    spec ← lift (get disk root name)
    provider ← get_provider makers spec.provider
    plan ← lift (make_plan spec.instances name profile)
    launch_all spec provider options plan

  abbrev no_options : StartOptions
  no_options = record { wait = true; timeout = none; force = false; overrides = [] }

  external_target : ServerSpec → String → Action (Session W) Target
  external_target spec name = do
    p ← get_provider makers "external"
    prof ← lift (profile_for spec none)
    inst ← on_world (p.start spec prof name no_options)
    on_world (p.target inst)

  -- `target` when nothing matches: an external server is started on the fly
  absent_target : String → Action (Session W) Target
  unfolding external_target
  absent_target name = do
    spec ← lift (get disk root name)
    (if spec.provider == "external"
        then external_target spec name
        else raise (runtime_error (not_running name)))

  select_target : String → List Instance → Action (Session W) Target
  unfolding absent_target target_of
  select_target name [] = absent_target name
  select_target name (i ∷ []) = target_of makers i
  select_target name (i ∷ j ∷ is) = raise (runtime_error (ambiguous name))

  unfoldable pub target : String → Action (Session W) Target
  unfolding select_target
  target name = do found ← find makers name; select_target name found

  targets_named : List String → Action (Session W) (List Target)
  targets_named [] = pure []
  targets_named (n ∷ ns) = do t ← target n; ts ← targets_named ns; pure (t ∷ ts)

  unfoldable pub targets : List String → Action (Session W) (List Target)
  unfolding targets_named targets_running target_of
  targets [] = do found ← all_instances makers; targets_running makers found
  targets (n ∷ ns) = targets_named (n ∷ ns)
