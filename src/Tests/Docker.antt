-- ===== src/Tests/Docker.antt =====
-- A start by the docker provider, with a daemon and a cryptography library that do what they are told.
use gpt_jupyter_dns.Prelude.{ℕ, ◌+◌, ◌<>◌, ◌≡◌, refl, true, false, none, some, [], ◌∷◌}
use gpt_jupyter_dns.Result.{ok, other_error}
use gpt_jupyter_dns.Action.{Action, pure, raise}
use gpt_jupyter_dns.Model.{Instance, ServerSpec}
use gpt_jupyter_dns.Value.{Value, str}
use gpt_jupyter_dns.Provider.{StartOptions}
use gpt_jupyter_dns.Certs.{Crypto, Body}
use gpt_jupyter_dns.Docker.{Daemon, Container, domain}
use gpt_jupyter_dns.Dict.{Dict}
use gpt_jupyter_dns.Result.{err, out_of_fuel}
use gpt_jupyter_dns.Docker.Start.{probe, question_of, wait_healthy}
use gpt_jupyter_dns.Docker.Start.Ends.{Steady, Timely, wait_healthy-ne-fuel}
use gpt_jupyter_dns.Prelude.{String, Option, ◌≤◌, ◌≢◌, arith}
use gpt_jupyter_dns.Docker.Start.Contract.{docker_provider, start-docker_provider}
use gpt_jupyter_dns.Tests.{lab_disk, bind_spec, plain_profile}
use gpt_jupyter_dns.Tests.Aws.{still}

abbrev box : Container
box = record {
  id = "0123456789abcdef";
  name = "dnslab-ns1";
  status = "running";
  labels = [];
  networks = ("dnslab", "172.18.0.2") ∷ [];
}

-- The world is the time; there is no container yet.
abbrev fresh : Daemon ℕ
fresh = record {
  import_docker = pure tt;
  from_env = pure tt;
  get_network = λ name. pure tt;
  create_network = λ name. pure tt;
  list_containers = pure [];
  get_container = λ name. raise (other_error "NotFound");
  reload = λ id. pure box;
  remove = λ id. pure tt;
  create = λ c. pure box;
  connect = λ name id aliases. pure tt;
  start_container = λ id. pure tt;
  container_logs = λ id tail. pure "";
  build_image = λ path tag. pure tt;
  get_image = λ name. pure tt;
  pull_image = λ name. pure tt;
  is_not_found = λ e. true;
  is_image_not_found = λ e. false;
  render = λ dir template ctx. pure "options {};";
  chmod_file = λ p. pure tt;
  remove_tree = λ p. pure tt;
  copy_tree = λ p q. pure tt;
  chmod_tree = λ p. pure tt;
  is_file = λ p w. false;
  read_bytes = λ p. pure "";
  write_bytes = λ p s. pure tt;
  tree_files = λ p. pure [];
  expanduser = λ v. ok [];
  resolve = λ p w. "/workspace";
  path_text = λ p. "ca.pem";
  dumps_list = λ vs. "[]";
  sha256 = λ parts. "cafe";
  clock = λ w. w;
  sleep = λ n w. (ok tt, w + n);
  probe_udp = λ qname qtype ip port. pure tt;
  probe_tls = λ qname qtype ip port ca host. pure tt;
}

-- A key is a number, and a certificate is what it says.
abbrev plain_crypto : Crypto ℕ ℕ Body
plain_crypto = record {
  generate_key = pure 7;
  key_id = λ k. "key";
  sign = λ body k. pure body;
  body_of = λ c. c;
  read_cert = λ p. pure issued;
  read_key = λ p. pure 7;
  write_cert_bytes = λ p c. pure tt;
  write_key_bytes = λ p k. pure tt;
  chmod_file = λ p. pure tt;
  now = λ w. w;
  ip_address = λ s. none;
  dns_name = λ s. ok tt;
  glob = λ p suffix. pure [];
  unlink = λ p. pure tt;
}
  where
    issued : Body
    issued = record {
      subject = "dnslab lab CA";
      issuer = "dnslab lab CA";
      key_id = "key";
      not_before = 0;
      not_after = 0;
      sans = none;
      is_ca = true;
      path_length = some 0;
      authority = none;
      usages = [];
    }

abbrev with_image : ServerSpec
with_image = record bind_spec { image = str "bind9" }

abbrev options : StartOptions
options = record { wait = true; timeout = some 1; force = false; overrides = [] }

abbrev ns1 : Instance
ns1 = record {
  name = "ns1";
  server = "bind";
  profile = "plain";
  provider = "docker";
  id = "0123456789ab";
  host = "ns1" <> "." <> domain;
  ip = some "172.18.0.2";
  status = "running";
  extra = [];
}

starts :
    ((docker_provider fresh plain_crypto still [] lab_disk "servers").start with_image plain_profile
      "ns1" options 0).0
    ≡ ok ns1
unfolding docker_provider gpt_jupyter_dns.Action.◌>>=◌ gpt_jupyter_dns.Docker.ensure_network
    gpt_jupyter_dns.Action.catch gpt_jupyter_dns.Certs.ensure_cert gpt_jupyter_dns.Certs.ensure_ca
    gpt_jupyter_dns.State.Files.certs_dir gpt_jupyter_dns.State.Files.workspace_root
    gpt_jupyter_dns.Dict.lookup gpt_jupyter_dns.Value.truthy gpt_jupyter_dns.Docker.Render.render
    gpt_jupyter_dns.State.Files.state_dir gpt_jupyter_dns.Docker.upstreams
    gpt_jupyter_dns.Docker.Render.confhash gpt_jupyter_dns.Value.to_dict gpt_jupyter_dns.Text.take
starts = refl

start-docker_provider_example :
    (ns1.name ≡ "ns1")
    × (ns1.server ≡ with_image.name)
    × (ns1.profile ≡ plain_profile.name)
    × (ns1.host ≡ "ns1" <> "." <> domain)
start-docker_provider_example =
    start-docker_provider fresh plain_crypto still [] lab_disk "servers" with_image plain_profile
      "ns1" options 0 ns1 starts

-- A container that never answers.
abbrev silent : Daemon ℕ
silent = record fresh { probe_udp = λ qname qtype ip port. raise (other_error "timed out") }

abbrev check : Dict Value
check = ("qname", str ".") ∷ ("qtype", str "SOA") ∷ []

probe_still :
    (ip : Option String) (w : ℕ)
    → (probe silent plain_crypto still [] with_image plain_profile ns1 check ip w).1 ≡ w
unfolding probe
probe_still ip w = refl

probe_forward :
    (ip : Option String) (w : ℕ)
    → w ≤ (probe silent plain_crypto still [] with_image plain_profile ns1 check ip w).1
probe_forward ip w = omega (arith, probe_still ip w)

still-Steady : {A : Type 0} (a : A) → Steady silent plain_crypto still [] (pure a)
still-Steady a = record { forward = λ w. omega arith; honest = λ w h. cc (h) }

silent-Timely : Timely silent plain_crypto still [] with_image plain_profile ns1 "0123" check
silent-Timely = record {
  sleep = λ n w. (w + n, refl, omega arith);
  reload = λ c. still-Steady box;
  logs = still-Steady "";
  probe = probe_forward;
}

asks : question_of silent plain_crypto still [] with_image ≡ ok check
unfolding gpt_jupyter_dns.Value.truthy gpt_jupyter_dns.Value.to_dict
asks = refl

wait_healthy-ne-fuel_example :
    (wait_healthy silent plain_crypto still [] with_image plain_profile ns1 "0123" 3000000 0).0
    ≢ err out_of_fuel
wait_healthy-ne-fuel_example =
    wait_healthy-ne-fuel silent plain_crypto still [] with_image plain_profile ns1 "0123" check
      silent-Timely 3000000 0 asks
