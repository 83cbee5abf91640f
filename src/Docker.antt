-- ===== src/Docker.antt =====
-- `dnslab/providers/docker.py`: what the provider asks of the docker daemon and of the other
-- libraries, `Daemon`, and the parts of it that only look: discovery, upstreams, targets and logs.
pub mod Render
pub mod Start
use gpt_jupyter_dns.Prelude.{
  ℕ, String, ◌<>◌, Bool, true, false, ◌||◌, ◌&&◌, not, Option, none, some, List, [], ◌∷◌, ◌++◌,
  ◌==◌, starts_with, ends_with, if◌then◌else◌,
}
use gpt_jupyter_dns.Dict.{Dict, lookup, insert}
use gpt_jupyter_dns.Result.{Result, ok, err, Error, runtime_error, not_configured, import_error}
use gpt_jupyter_dns.Action.{Action, pure, raise, lift, catch, ◌>>=◌, ◌>>◌}
use gpt_jupyter_dns.Value.{Value, null, int, str, dict, field, end, ℤ, pos, has_text}
use gpt_jupyter_dns.Text.{take}
use gpt_jupyter_dns.Model.{Profile, ServerSpec, Instance, Target}
use gpt_jupyter_dns.Registry.{Disk, get}
use gpt_jupyter_dns.State.{Env, network_name, behind}
use gpt_jupyter_dns.State.Files.{Place}

abbrev pub domain : String
domain = "dnslab.test"

abbrev pub certs_mount : String
certs_mount = "/dnslab/certs"

abbrev pub zones_mount : String
zones_mount = "/dnslab/zones"

pub record Container : Type 0 where
  pub id : String
  pub name : String
  pub status : String
  pub labels : Dict String
  -- the address in each network
  pub networks : Dict String

-- The arguments of `containers.create`. A volume is its source, its mount point and its mode.
pub record Create : Type 0 where
  pub image : String
  pub command : Value
  pub name : String
  pub hostname : String
  pub labels : Dict String
  pub volumes : Dict (String × String)

pub record Daemon (W : Type 0) : Type 0 where
  -- `import docker`, and `docker.from_env()`
  pub import_docker : Action W (Unit {0})
  pub from_env : Action W (Unit {0})
  pub get_network : String → Action W (Unit {0})
  pub create_network : String → Action W (Unit {0})
  -- all containers with the label `dnslab=1`
  pub list_containers : Action W (List Container)
  pub get_container : String → Action W Container
  -- `reload`, of a container's id
  pub reload : String → Action W Container
  -- `remove(force=True)`
  pub remove : String → Action W (Unit {0})
  pub create : Create → Action W Container
  -- a network, a container's id and its aliases there
  pub connect : String → String → List String → Action W (Unit {0})
  pub start_container : String → Action W (Unit {0})
  -- the last lines of a container's logs, decoded
  pub container_logs : String → ℤ → Action W String
  -- a build from a path under a tag, and images by name
  pub build_image : String → String → Action W (Unit {0})
  pub get_image : String → Action W (Unit {0})
  pub pull_image : String → Action W (Unit {0})
  pub is_not_found : Error → Bool
  pub is_image_not_found : Error → Bool
  -- a template of a directory, rendered with strict undefined names
  pub render : String → Value → Dict Value → Action W String
  -- `chmod(0o644)`, `rmtree`, `copytree`, and the modes of all that is below a directory
  pub chmod_file : Place → Action W (Unit {0})
  pub remove_tree : Place → Action W (Unit {0})
  pub copy_tree : Place → Place → Action W (Unit {0})
  pub chmod_tree : Place → Action W (Unit {0})
  pub is_file : Place → W → Bool
  pub read_bytes : Place → Action W String
  pub write_bytes : Place → String → Action W (Unit {0})
  -- the files below a directory, sorted, each with its name and its bytes
  pub tree_files : Place → Action W (List (String × String))
  -- `Path(v).expanduser()`, `str(path.resolve())`, and `str(path)`
  pub expanduser : Value → Result Place
  pub resolve : Place → W → String
  pub path_text : Place → String
  -- `json.dumps` of a list, and the hash of the bytes that are put in one after the other
  pub dumps_list : List Value → String
  pub sha256 : List String → String
  pub clock : W → ℕ
  pub sleep : ℕ → Action W (Unit {0})
  -- `make_query` and a query with three seconds: name, type, address and port; over TLS also the
  -- CA file and the host
  pub probe_udp : Value → Value → Option String → ℤ → Action W (Unit {0})
  pub probe_tls : Value → Value → Option String → ℤ → String → String → Action W (Unit {0})

-- `s.removeprefix(t)`
abbrev pub remove_prefix : String → String → String
remove_prefix t s = elim (behind t s) [ none ↦ s | some rest ↦ rest ]

abbrev pub text_or : Option String → String → String
text_or none s = s
text_or (some t) s = t

-- What `upstreams` collects, and its two empty dictionaries.
abbrev no_upstreams : Dict Value
no_upstreams = ("upstream_do53", dict end) ∷ ("upstream_dot", dict end) ∷ []

upstream_info : Instance → ℕ → Value
upstream_info i port = dict (
    field "host" (str i.host) (
      field "ip" (elim i.ip [ none ↦ null | some ip ↦ str ip ])
        (field "tls_hostname" (str i.host) (field "port" (int (pos port)) end))))

add_upstream : Instance → Dict Value → Dict Value
unfolding upstream_info
add_upstream i out =
    if not (i.server == "lab-auth")
    then out
    else if ends_with i.name "do53"
    then insert "upstream_do53" (upstream_info i 53) out
    else if ends_with i.name "dot"
    then insert "upstream_dot" (upstream_info i 853) out
    else out

unfoldable pub upstreams_of : List Instance → Dict Value → Dict Value
unfolding add_upstream
upstreams_of [] out = out
upstreams_of (i ∷ is) out = upstreams_of is (add_upstream i out)

module _ {W : Type 0} (daemon : Daemon W) (env : Env) where
  -- `_client`, which the constructor calls
  unfoldable pub make_client : Action W (Unit {0})
  make_client = do
    catch daemon.import_docker λ e. elim e [
      | import_error ↦ some (raise (runtime_error (not_configured "docker")))
      | _ ↦ none
    ]
    daemon.from_env

  unfoldable pub ensure_network : Action W (Unit {0})
  unfolding network_name
  ensure_network =
      catch (daemon.get_network (network_name env))
        λ e. if daemon.is_not_found e then some (daemon.create_network (network_name env)) else none

  -- `_container_ip`
  unfoldable pub container_ip : Container → Action W (Option String)
  unfolding network_name
  container_ip c = do fresh ← daemon.reload c.id; pure (lookup (network_name env) fresh.networks)

  unfoldable pub instance_of : Container → Action W Instance
  unfolding container_ip
  instance_of c = do
    let inst_name = text_or (lookup "dnslab-instance" c.labels) (remove_prefix "dnslab-" c.name)
    ip ← container_ip c
    pure (record {
      name = inst_name;
      server = text_or (lookup "dnslab-server" c.labels) inst_name;
      profile = text_or (lookup "dnslab-profile" c.labels) "?";
      provider = "docker";
      id = take 12 c.id;
      host = inst_name <> "." <> domain;
      ip = ip;
      status = c.status;
      extra = [];
    })

  instances_of : List Container → Action W (List Instance)
  instances_of [] = pure []
  instances_of (c ∷ cs) = do i ← instance_of c; is ← instances_of cs; pure (i ∷ is)

  unfoldable pub discover : Action W (List Instance)
  unfolding instances_of
  discover = do cs ← daemon.list_containers; instances_of cs

  unfoldable pub upstreams : Action W (Dict Value)
  unfolding upstreams_of
  upstreams = do is ← discover; pure (upstreams_of is no_upstreams)

  -- The container of an instance, or none when the daemon has none.
  unfoldable pub find_container : String → Action W (Option Container)
  find_container name =
      catch (daemon.get_container ("dnslab-" <> name) >>= λ c. pure (some c))
        λ e. if daemon.is_not_found e then some (pure none) else none

  remove_found : Option Container → Action W (Unit {0})
  remove_found none = pure tt
  remove_found (some c) = daemon.remove c.id

  unfoldable pub stop : Instance → Action W (Unit {0})
  unfolding remove_found find_container
  stop i = do found ← find_container i.name; remove_found found

  logs_of : Instance → ℤ → Option Container → Action W String
  logs_of i tail none = pure (i.name <> ": no container")
  logs_of i tail (some c) = daemon.container_logs c.id tail

  unfoldable pub logs : Instance → ℤ → Action W String
  unfolding logs_of find_container
  logs i tail = do found ← find_container i.name; logs_of i tail found

-- A profile that the manifest no longer has counts as one with both listeners.
listens : Option Profile → String → Bool
listens none l = l == "do53" || l == "dot"
listens (some p) l = has_text l p.listeners

target_from : ServerSpec → Instance → String → Target
unfolding listens
target_from spec i ca_file =
    let caps = spec.capabilities in
    let profile = lookup i.profile spec.profiles in
    record {
      name = i.name;
      host = i.host;
      ip = text_or i.ip "";
      port_do53 =
          if listens profile "do53" && caps.do53_listener then lookup "do53" spec.ports else none;
      port_dot =
          if listens profile "dot" && (caps.dot_listener || caps.dot_listener_via_proxy)
          then lookup "dot" spec.ports
          else none;
      tls_hostname = i.host;
      ca_file = ca_file;
      provider = "docker";
      profile = i.profile;
      capabilities = caps;
    }

-- `target`; `ca_file` is `str(certs.ca_file())`
module _ {W : Type 0} (ca_file : Action W String) where
  unfoldable pub target : Disk → String → Instance → Action W Target
  unfolding target_from
  target disk root i = do
    spec ← lift (get disk root i.server)
    ca ← ca_file
    pure (target_from spec i ca)
