-- ===== src/Tests.antt =====
-- Sample data shared by the runs, and the theorems at concrete inputs.
mod Registry
mod Facade
mod Checks
mod State
mod Ec2
mod Aws
mod Waits
mod Reuse
mod Docker
mod Memory
mod Certs
mod Selfcheck
mod Nuke
mod Windows
use gpt_jupyter_dns.Prelude.{
  String, Bool, true, false, Option, none, some, List, [], ◌∷◌, ◌||◌, ◌==◌, if◌then◌else◌,
}
use gpt_jupyter_dns.Result.{Result, ok, err, manifest_error, not_a_mapping}
use gpt_jupyter_dns.Value.{
  Value, null, bool, int, str, list, dict, Values, nil, cons, Fields, end, field, pos, entries,
}
use gpt_jupyter_dns.Dict.{Dict}
use gpt_jupyter_dns.Model.{Capabilities, Profile, ServerSpec}
use gpt_jupyter_dns.Registry.{Disk}

-- A forwarder with two profiles, one of which needs a capability that it lacks.
abbrev pub bind_manifest : Value
bind_manifest = dict (
    field "name" (str "bind") (
      field "provider" (str "docker") (
        field "capabilities"
          (dict (
            field "roles" (list (cons (str "forwarder") nil))
              (field "dot_listener" (bool true) end)))
          (field "profiles"
            (dict (
              field "plain"
                (dict (field "template" (str "plain.j2") (field "config_path" (str "/c") end)))
                (field "tls"
                  (dict (
                    field "template" (str "tls.j2") (
                      field "config_path" (str "/c")
                        (field "requires" (list (cons (str "dot_client") nil)) end))))
                  end)))
            (field "ports" (dict (field "do53" (int (pos 53)) end)) end)))))

-- `bind` loads, and `broken` is no mapping.
abbrev pub lab_disk : Disk
lab_disk = record {
  read = λ path. if path == "servers/bind/manifest.yaml" then ok bind_manifest else ok null;
  is_file = λ path.
      path == "servers/bind/manifest.yaml"
      || path == "servers/broken/manifest.yaml"
      || path == "servers/bind/plain.j2"
      || path == "servers/bind/tls.j2";
  is_dir = λ path. path == "servers";
  glob = λ path. "broken" ∷ "bind" ∷ [];
}

abbrev pub bind_capabilities : Capabilities
bind_capabilities = record {
  roles = str "forwarder" ∷ [];
  do53_listener = true;
  dot_listener = true;
  dot_upstream_forwarding = false;
  dot_listener_via_proxy = false;
  dot_client = false;
  notes = "";
}

abbrev pub both : List Value
both = str "do53" ∷ str "dot" ∷ []

abbrev pub plain_profile : Profile
plain_profile = record {
  name = "plain";
  template = str "plain.j2";
  config_path = str "/c";
  listeners = both;
  requires = [];
  extra = [];
}

abbrev pub tls_profile : Profile
tls_profile = record {
  name = "tls";
  template = str "tls.j2";
  config_path = str "/c";
  listeners = both;
  requires = str "dot_client" ∷ [];
  extra = [];
}

abbrev get_dict : Value → Dict Value
get_dict (dict fs) = entries fs
get_dict v = []

-- What the manifest of `bind` loads as.
abbrev pub bind_spec : ServerSpec
bind_spec = record {
  name = "bind";
  dir = "servers/bind";
  provider = "docker";
  tier = pos 1;
  capabilities = bind_capabilities;
  profiles = ("plain", plain_profile) ∷ ("tls", tls_profile) ∷ [];
  ports = ("do53", pos 53) ∷ [];
  healthcheck = dict (field "qname" (str ".") (field "qtype" (str "SOA") end));
  image = null;
  build = null;
  command = null;
  default_profile = null;
  instances = [];
  raw = get_dict bind_manifest;
}
