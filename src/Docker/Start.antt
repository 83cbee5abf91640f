-- ===== src/Docker/Start.antt =====
-- `dnslab/providers/docker.py`: `start`, which reuses a healthy unchanged container or makes a new
-- one, and `_wait_healthy`. Times are microseconds.
pub mod Contract
pub mod Ends
use gpt_jupyter_dns.Prelude.{
  ℕ, zero, suc, ◌+◌, ◌*◌, ◌/◌, String, ◌<>◌, Bool, true, false, ◌||◌, ◌&&◌, not, Option, none, some,
  [], ◌∷◌, ◌==◌, ltb, leb, if◌then◌else◌,
}
use gpt_jupyter_dns.Dict.{Dict, lookup, insert}
use gpt_jupyter_dns.Result.{
  Result, ok, err, Error, runtime_error, not_answering, timeout_error, out_of_fuel, value_error,
  file_not_found, is_runtime,
}
use gpt_jupyter_dns.Action.{Action, pure, raise, lift, catch, ◌>>=◌, ◌>>◌}
use gpt_jupyter_dns.Value.{
  Value, null, int, str, ℤ, pos, negsuc, truthy, to_int, to_dict, to_text, get_or, has_text,
}
use gpt_jupyter_dns.Text.{take}
use gpt_jupyter_dns.Model.{Profile, ServerSpec, Instance}
use gpt_jupyter_dns.Provider.{StartOptions}
use gpt_jupyter_dns.State.{Env, network_name, to_host_path}
use gpt_jupyter_dns.State.Files.{Place, Files, certs_dir}
use gpt_jupyter_dns.Certs.{Crypto, ensure_cert, ca_file, second}
use gpt_jupyter_dns.Docker.{
  Daemon, Container, domain, certs_mount, zones_mount, ensure_network, container_ip, find_container,
}
use gpt_jupyter_dns.Docker.Render.{render, confhash}

abbrev is_timeout : Error → Bool
is_timeout (timeout_error s) = true
is_timeout e = false

-- seconds as microseconds; a negative timeout is over at once, as zero is
abbrev micros : ℤ → ℕ
micros (pos n) = n * second
micros (negsuc n) = 0

-- `timeout`, or the manifest's `start_timeout`, which is a whole number here, or a minute
unfoldable pub timeout_for : ServerSpec → Option ℕ → Result ℕ
timeout_for spec (some t) = ok (t * second)
timeout_for spec none = elim (to_int (get_or spec.raw "start_timeout" (int (pos 60)))) [
  | ok n ↦ ok (micros n)
  | err e ↦ err e
]

abbrev port_or : String → ℕ → ServerSpec → ℤ
port_or name n spec = elim (lookup name spec.ports) [ none ↦ pos n | some p ↦ p ]

abbrev is_label : String → String → Dict String → Bool
is_label key v labels = elim (lookup key labels) [ none ↦ false | some t ↦ t == v ]

-- It runs, with the same profile and the same fingerprint.
unfoldable pub is_unchanged : Profile → String → Container → Bool
is_unchanged profile hash c =
    c.status == "running"
    && is_label "dnslab-profile" profile.name c.labels
    && is_label "dnslab-confhash" hash c.labels

unfoldable pub without_key : String → Dict Value → Dict Value
without_key k [] = []
without_key k ((j, v) ∷ d) = let rest = without_key k d in if j == k then rest else (j, v) ∷ rest

new_instance : ServerSpec → Profile → String → String → Option String → String → Instance
new_instance spec profile instance_name id ip status = record {
  name = instance_name;
  server = spec.name;
  profile = profile.name;
  provider = "docker";
  id = take 12 id;
  host = instance_name <> "." <> domain;
  ip = ip;
  status = status;
  extra = [];
}

abbrev pub labels_of : ServerSpec → Profile → String → String → Dict String
labels_of spec profile instance_name hash =
    ("dnslab", "1")
    ∷ ("dnslab-server", spec.name)
    ∷ ("dnslab-instance", instance_name)
    ∷ ("dnslab-profile", profile.name)
    ∷ ("dnslab-confhash", hash)
    ∷ []

-- `self._container_ip(container) or inst.ip`
abbrev or_ip : Option String → Option String → Option String
or_ip none old = old
or_ip (some ip) old = if ip == "" then old else some ip

module _ {W K C : Type 0} (daemon : Daemon W) (crypto : Crypto W K C) (files : Files W)
    (env : Env) where
  abbrev look : {A : Type 0} → (W → A) → Action W A
  look f w = (ok (f w), w)

  -- the healthcheck's name and type
  abbrev pub question_of : ServerSpec → Result (Dict Value)
  question_of spec = if truthy spec.healthcheck then to_dict spec.healthcheck else ok []

  -- one query: over TLS when the profile has no Do53 listener
  unfoldable pub probe :
      ServerSpec → Profile → Instance → Dict Value → Option String → Action W (Unit {0})
  probe spec profile i hc ip =
      if not (has_text "do53" profile.listeners)
      then (do
        ca ← ca_file crypto files env
        daemon.probe_tls (get_or hc "qname" (str ".")) (get_or hc "qtype" (str "SOA")) ip
            (port_or "dot" 853 spec) (daemon.path_text ca) i.host)
      else daemon.probe_udp (get_or hc "qname" (str ".")) (get_or hc "qtype" (str "SOA")) ip
          (port_or "do53" 53 spec)

  -- A round that the deadline allows: a container that has exited is an error. The address is read
  -- again each time, and kept with whether the query was answered.
  check_round :
      ServerSpec
      → Profile
      → Instance
      → String
      → Dict Value
      → Option String
      → Action W (Option String × Bool)
  unfolding probe container_ip
  check_round spec profile i id hc old = do
    c ← daemon.reload id
    (if c.status == "exited"
        then (do daemon.container_logs id (pos 30); raise (runtime_error (not_answering i.name)))
        else (do
          found ← container_ip daemon env c
          let ip = or_ip found old
          catch (probe spec profile i hc ip >>= λ _. pure (ip, true))
              λ e. some (do daemon.sleep 500000; pure (ip, false))))

  late : Instance → String → Action W (Option String × Bool)
  late i id = do daemon.container_logs id (pos 30); raise (timeout_error i.name)

  health_round :
      ServerSpec
      → Profile
      → Instance
      → String
      → Dict Value
      → ℕ
      → Option String
      → Action W (Option String × Bool)
  unfolding check_round late
  health_round spec profile i id hc deadline ip w =
      if ltb (daemon.clock w) deadline then check_round spec profile i id hc ip w else late i id w

  -- after a round, with what is left of the loop
  abbrev next_check :
      (Option String → Action W (Option String)) → Option String × Bool → Action W (Option String)
  next_check again (ip, true) = pure ip
  next_check again (ip, false) = again ip

  unfoldable pub health_loop :
      ServerSpec
      → Profile
      → Instance
      → String
      → Dict Value
      → ℕ
      → ℕ
      → Option String
      → Action W (Option String)
  unfolding health_round
  health_loop spec profile i id hc deadline zero ip = raise out_of_fuel
  health_loop spec profile i id hc deadline (suc fuel) ip =
      health_round spec profile i id hc deadline ip
      >>= next_check (health_loop spec profile i id hc deadline fuel)

  -- Half-second rounds that start before the timeout, the last look, and one to spare.
  abbrev rounds : ℕ → ℕ
  rounds timeout = suc (suc (timeout / 500000))

  -- `_wait_healthy`, and the address that the instance has then
  unfoldable pub wait_healthy :
      ServerSpec → Profile → Instance → String → ℕ → Action W (Option String)
  unfolding health_loop
  wait_healthy spec profile i id timeout = do
    hc ← lift (question_of spec)
    start ← look daemon.clock
    health_loop spec profile i id hc (start + timeout) (rounds timeout) i.ip

  -- the optional CA bundle: its bytes, and the overrides that name its copy
  stage_ca : String → Value → Dict Value → Action W (String × Dict Value)
  stage_ca instance_name upstream_ca overrides =
      if truthy upstream_ca
      then (do
        src ← lift (daemon.expanduser upstream_ca)
        there ← look (daemon.is_file src)
        (if there then pure tt else raise (file_not_found (daemon.path_text src)))
        bytes ← daemon.read_bytes src
        d ← certs_dir files env
        let name = "upstream-ca-" <> instance_name <> ".pem"
        daemon.write_bytes (name ∷ d) bytes
        daemon.chmod_file (name ∷ d)
        pure (bytes, insert "upstream_ca_path" (str (certs_mount <> "/" <> name)) overrides))
      else pure ("", overrides)

  -- a container that may be reused, when it still answers
  reuse : ServerSpec → Profile → String → ℕ → Container → Action W (Option Instance)
  unfolding new_instance container_ip wait_healthy
  reuse spec profile instance_name timeout c = do
    ip ← container_ip daemon env c
    let i = new_instance spec profile instance_name c.id ip "running"
    catch
        (do
          ip' ←
              wait_healthy spec profile i c.id
                (if leb timeout (15 * second) then timeout else 15 * second)
          pure (some (record i { ip = ip'; status = "reused" })))
        λ e. if is_timeout e || is_runtime e then some (pure none) else none

  try_reuse :
      ServerSpec
      → Profile
      → String
      → Bool
      → ℕ
      → String
      → Option Container
      → Action W (Option Instance)
  unfolding reuse is_unchanged
  try_reuse spec profile instance_name force timeout hash none = pure none
  try_reuse spec profile instance_name force timeout hash (some c) =
      if not force && is_unchanged profile hash c
      then reuse spec profile instance_name timeout c
      else pure none

  -- The image to run: it is built, or there, or pulled.
  image_of : ServerSpec → Action W String
  image_of spec =
      if truthy spec.build
      then (do
        daemon.build_image (spec.dir <> "/" <> to_text spec.build)
            ("dnslab/" <> spec.name <> ":local")
        pure ("dnslab/" <> spec.name <> ":local"))
      else if truthy spec.image
      then (do
        catch (daemon.get_image (to_text spec.image)) λ e.
            if daemon.is_image_not_found e
            then some (daemon.pull_image (to_text spec.image))
            else none
        pure (to_text spec.image))
      else raise value_error

  -- `containers.get(cname).remove(force=True)`, unless there is none
  remove_previous : String → Action W (Unit {0})
  remove_previous instance_name =
      catch (daemon.get_container ("dnslab-" <> instance_name) >>= λ c. daemon.remove c.id)
        λ e. if daemon.is_not_found e then some (pure tt) else none

  abbrev host_path : Place → Action W String
  host_path p w = (ok (to_host_path (λ q. daemon.resolve q w) env p), w)

  zone_volume : Option Place → Dict (String × String) → Action W (Dict (String × String))
  unfolding to_host_path
  zone_volume none volumes = pure volumes
  zone_volume (some d) volumes = do src ← host_path d; pure (insert src (zones_mount, "ro") volumes)

  volumes_of : Profile → Place → Option Place → Action W (Dict (String × String))
  unfolding zone_volume to_host_path
  volumes_of profile config_file zones_dir = do
    config ← host_path config_file
    d ← certs_dir files env
    certs ← host_path d
    zone_volume zones_dir
        (insert certs (certs_mount, "ro") ((config, (to_text profile.config_path, "ro")) ∷ []))

  -- The second half of `start`: a new container in place of the old one.
  unfoldable pub create :
      ServerSpec
      → Profile
      → String
      → StartOptions
      → ℕ
      → Place
      → Option Place
      → String
      → Action W Instance
  unfolding image_of remove_previous volumes_of new_instance wait_healthy
  create spec profile instance_name o timeout config_file zones_dir hash = do
    image ← image_of spec
    remove_previous instance_name
    volumes ← volumes_of profile config_file zones_dir
    let alias = instance_name <> "." <> domain
    c ← daemon.create (record {
      image = image;
      command = spec.command;
      name = "dnslab-" <> instance_name;
      hostname = alias;
      labels = labels_of spec profile instance_name hash;
      volumes = volumes;
    })
    daemon.get_network (network_name env)
    daemon.connect (network_name env) c.id (alias ∷ instance_name ∷ [])
    daemon.start_container c.id
    ip ← container_ip daemon env c
    let i = new_instance spec profile instance_name c.id ip "starting"
    ip' ← (if o.wait then wait_healthy spec profile i c.id timeout else pure ip)
    pure (record i { ip = ip'; status = "running" })

  create_unless :
      ServerSpec
      → Profile
      → String
      → StartOptions
      → ℕ
      → Place
      → Option Place
      → String
      → Option Instance
      → Action W Instance
  unfolding create
  create_unless spec profile instance_name o timeout config_file zones_dir hash (some i) = pure i
  create_unless spec profile instance_name o timeout config_file zones_dir hash none =
      create spec profile instance_name o timeout config_file zones_dir hash

  unfoldable pub start : ServerSpec → Profile → String → StartOptions → Action W Instance
  unfolding create_unless try_reuse stage_ca timeout_for without_key
  start spec profile instance_name o = do
    timeout ← lift (timeout_for spec o.timeout)
    ensure_network daemon env
    ensure_cert crypto files env instance_name [] false
    staged ←
        stage_ca instance_name (get_or o.overrides "upstream_ca" null)
          (without_key "upstream_ca" o.overrides)
    rendered ← render daemon files env spec profile instance_name staged.1
    hash ← confhash daemon files env spec rendered.0 rendered.1 staged.0
    existing ← find_container daemon env instance_name
    reused ← try_reuse spec profile instance_name o.force timeout hash existing
    create_unless spec profile instance_name o timeout rendered.0 rendered.1 hash reused
