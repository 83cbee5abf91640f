-- ===== src/Provider/External.antt =====
-- `dnslab/providers/external.py`: servers that `dnslab` does not manage. The host, address and CA
-- file of a manifest are taken to be texts.
use gpt_jupyter_dns.Prelude.{String, ◌||◌, none, some, List, [], ◌∷◌, if◌then◌else◌}
use gpt_jupyter_dns.Dict.{lookup}
use gpt_jupyter_dns.Action.{Action, pure, lift, ◌>>=◌}
use gpt_jupyter_dns.Value.{Value, null, dict, end, truthy, to_text, to_dict, get_or}
use gpt_jupyter_dns.Model.{Profile, ServerSpec, Instance, Target}
use gpt_jupyter_dns.Provider.{Provider, base_nuke}
use gpt_jupyter_dns.Registry.{Disk, get}

-- `v or default()`
abbrev pub text_or : {W : Type 0} → Value → Action W String → Action W String
text_or v default = if truthy v then pure (to_text v) else default

module _ {W : Type 0} (resolve : String → Action W String) (ca_file : Action W String) where
  -- `ExternalProvider.start`; `resolve` is `socket.gethostbyname`
  unfoldable pub start : ServerSpec → Profile → String → Action W Instance
  start spec profile instance_name = do
    ext ← lift (to_dict (get_or spec.raw "external" (dict end)))
    host ← text_or (get_or ext "host" null) (pure instance_name)
    ip ← text_or (get_or ext "ip" null) (resolve host)
    pure (record {
      name = instance_name;
      server = spec.name;
      profile = profile.name;
      provider = "external";
      id = "external";
      host = host;
      ip = some ip;
      status = "running";
      extra = ("ca_file", get_or ext "ca_file" null) ∷ [];
    })

  -- `ExternalProvider.target`; `ca_file` is `certs.ca_file()`, which may create the CA
  unfoldable pub target : Disk → String → Instance → Action W Target
  target disk root i = do
    spec ← lift (get disk root i.server)
    let caps = spec.capabilities
    ca ← text_or (get_or i.extra "ca_file" null) ca_file
    pure (record {
      name = i.name;
      host = i.host;
      ip = elim i.ip [ none ↦ "" | some ip ↦ ip ];
      port_do53 = if caps.do53_listener then lookup "do53" spec.ports else none;
      port_dot =
          if caps.dot_listener || caps.dot_listener_via_proxy
          then lookup "dot" spec.ports
          else none;
      tls_hostname = i.host;
      ca_file = ca;
      provider = "external";
      profile = i.profile;
      capabilities = caps;
    })

module _ {W : Type 0} where
  -- `ExternalProvider.stop` and `ExternalProvider.discover`
  unfoldable pub stop : Instance → Action W (Unit {0})
  stop i = pure tt

  unfoldable pub discover : Action W (List Instance)
  discover = pure []

-- The class: its methods, with `logs` and `nuke` inherited.
module _ {W : Type 0} (resolve : String → Action W String) (ca_file : Action W String) where
  external_provider : Disk → String → Provider W
  unfolding start stop discover target
  external_provider disk root = record {
    start = λ spec profile name o. start resolve ca_file spec profile name;
    stop = stop;
    discover = discover;
    target = target resolve ca_file disk root;
    logs = λ i tail. pure "";
    nuke = base_nuke discover stop;
  }
