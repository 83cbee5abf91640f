-- ===== src/Registry.antt =====
-- `dnslab/registry.py`: the server modules are the directories under `servers/` with a manifest.
-- The YAML parser and the file system are a parameter, `Disk`, which does not change meanwhile.
pub mod Loaded
pub mod Discover
use gpt_jupyter_dns.Prelude.{
  String, ◌<>◌, Bool, true, false, Option, none, some, List, [], ◌∷◌, ◌==◌, ◌||◌, not, is_some,
  contains, starts_with, sorted, if◌then◌else◌,
}
use gpt_jupyter_dns.Dict.{Dict, lookup, has_key, insert, keys}
use gpt_jupyter_dns.Result.{
  Result, ok, err, Error, manifest_error, not_a_mapping, missing_key, bad_provider, bad_name,
  no_profiles, template_missing, unknown_profile, key_error, type_error, attribute_error, guard,
  ◌>>=◌, ◌>>◌,
}
use gpt_jupyter_dns.Value.{
  Value, null, int, str, dict, end, field, ℤ, pos, is_hashable, to_int, to_dict, to_text, repr,
  entries, get_or, is_text,
}
use gpt_jupyter_dns.Model.{Profile, profile_from_dict, capabilities_from_dict, ServerSpec}

-- What the registry asks of the disk and of the YAML library.
pub record Disk : Type 0 where
  -- `yaml.safe_load(path.read_text())`
  pub read : String → Result Value
  pub is_file : String → Bool
  pub is_dir : String → Bool
  -- the names of the subdirectories that hold a `manifest.yaml`, in any order
  pub glob : String → List String

abbrev pub required_keys : List String
required_keys = "name" ∷ "provider" ∷ "capabilities" ∷ "profiles" ∷ "ports" ∷ []

abbrev pub valid_providers : List String
valid_providers = "docker" ∷ "ec2" ∷ "external" ∷ []

-- `path / name`, where an absolute name replaces the path
unfoldable pub join : String → String → String
join path name = if starts_with name "/" then name else path <> "/" <> name

as_mapping : Value → Result (Dict Value)
as_mapping (dict fs) = ok (entries fs)
as_mapping v = err (manifest_error not_a_mapping)

require_keys : List String → Dict Value → Result (Unit {0})
require_keys [] raw = ok tt
require_keys (k ∷ ks) raw = do
  guard (has_key k raw) (manifest_error (missing_key k))
  require_keys ks raw

as_provider : Value → Result String
as_provider (str p) = if contains p valid_providers then ok p else err (manifest_error bad_provider)
as_provider v = err (manifest_error bad_provider)

load_profiles : Dict Value → Result (Dict Profile)
load_profiles [] = ok []
load_profiles ((pname, pdata) ∷ rest) = do
  prof ← profile_from_dict pname pdata
  profiles ← load_profiles rest
  ok ((pname, prof) ∷ profiles)

-- `(path.parent / prof.template).is_file()`
has_template : Disk → String → Value → Result Bool
unfolding join
has_template disk dir (str t) = ok (disk.is_file (join dir t))
has_template disk dir v = err type_error

check_templates : Disk → String → Dict Profile → Result (Unit {0})
unfolding has_template
check_templates disk dir [] = ok tt
check_templates disk dir ((k, prof) ∷ rest) = do
  found ← has_template disk dir prof.template
  guard found (manifest_error (template_missing prof.name))
  check_templates disk dir rest

-- `idata["profile"] if isinstance(idata, dict) else str(idata)`
instance_profile : Value → Result Value
instance_profile (dict fs) = elim (lookup "profile" (entries fs)) [
  | none ↦ err (key_error "profile")
  | some v ↦ ok v
]
instance_profile v = ok (str (to_text v))

load_instances : Dict Value → Result (Dict Value)
unfolding instance_profile
load_instances [] = ok []
load_instances ((iname, idata) ∷ rest) = do
  profile ← instance_profile idata
  instances ← load_instances rest
  ok ((iname, profile) ∷ instances)

-- `pname not in profiles`
known_profile : Dict Profile → String → Value → Result String
known_profile profiles iname (str p) =
    if has_key p profiles then ok p else err (manifest_error (unknown_profile iname))
known_profile profiles iname v =
    if is_hashable v then err (manifest_error (unknown_profile iname)) else err type_error

-- The values that pass are names of profiles, and are kept as such.
check_instances : Dict Profile → Dict Value → Result (Dict String)
unfolding known_profile
check_instances profiles [] = ok []
check_instances profiles ((iname, pname) ∷ rest) = do
  p ← known_profile profiles iname pname
  instances ← check_instances profiles rest
  ok ((iname, p) ∷ instances)

load_ports : Dict Value → Result (Dict ℤ)
load_ports [] = ok []
load_ports ((k, v) ∷ rest) = do n ← to_int v; ports ← load_ports rest; ok ((k, n) ∷ ports)

abbrev default_healthcheck : Value
default_healthcheck = dict (field "qname" (str ".") (field "qtype" (str "SOA") end))

-- a name, which is a text behind the check of the manifest's name
name_text : Value → Result String
name_text (str s) = ok s
name_text v = err type_error

-- the construction of the `ServerSpec`, when the checks have passed
build_spec : String → String → Dict Value → Dict Profile → Dict String → Result ServerSpec
unfolding name_text load_ports
build_spec dir provider raw profiles instances = do
  name ← name_text (get_or raw "name" null)
  tier ← to_int (get_or raw "tier" (int (pos 1)))
  capabilities ← capabilities_from_dict (get_or raw "capabilities" null)
  port_values ← to_dict (get_or raw "ports" null)
  ports ← load_ports port_values
  ok (record {
    name = name;
    dir = dir;
    provider = provider;
    tier = tier;
    capabilities = capabilities;
    profiles = profiles;
    ports = ports;
    healthcheck = get_or raw "healthcheck" default_healthcheck;
    image = get_or raw "image" null;
    build = get_or raw "build" null;
    command = get_or raw "command" null;
    default_profile = get_or raw "default_profile" null;
    instances = instances;
    raw = raw;
  })

nonempty : Dict Profile → Bool
nonempty [] = false
nonempty (p ∷ ps) = true

-- The part of `load_manifest` behind the checks on the keys, the provider and the name.
load_body : Disk → String → String → Dict Value → Result ServerSpec
unfolding load_profiles check_templates load_instances check_instances build_spec nonempty
load_body disk dir provider raw = do
  profile_values ← to_dict (get_or raw "profiles" null)
  profiles ← load_profiles profile_values
  guard (nonempty profiles) (manifest_error no_profiles)
  check_templates disk dir profiles
  instance_values ← to_dict (get_or raw "instances" (dict end))
  instances ← load_instances instance_values
  checked ← check_instances profiles instances
  build_spec dir provider raw profiles checked

-- `load_manifest(root / name / "manifest.yaml")`, for a plain `name`
unfoldable pub load_manifest : Disk → String → String → Result ServerSpec
unfolding as_mapping require_keys as_provider load_body join
load_manifest disk root name = do
  v ← disk.read (root <> "/" <> name <> "/manifest.yaml")
  raw ← as_mapping v
  require_keys required_keys raw
  provider ← as_provider (get_or raw "provider" null)
  guard (is_text name (get_or raw "name" null)) (manifest_error bad_name)
  load_body disk (root <> "/" <> name) provider raw

-- The loop of `discover` over the manifests, in order, onto the specs found so far.
discover_loop : Disk → String → Bool → List String → Dict ServerSpec → Result (Dict ServerSpec)
discover_loop disk root strict [] specs = ok specs
discover_loop disk root strict (name ∷ names) specs = elim (load_manifest disk root name) [
  | ok spec ↦ discover_loop disk root strict names (insert spec.name spec specs)
  | err e ↦ if strict then err e else discover_loop disk root strict names specs
]

unfoldable pub discover : Disk → String → Bool → Result (Dict ServerSpec)
unfolding discover_loop
discover disk root strict =
    if disk.is_dir root then discover_loop disk root strict (sorted (disk.glob root)) [] else ok []

-- The `KeyError` at the end of `get` lists what `discover()` found, so `discover` runs first.
unfoldable pub get : Disk → String → String → Result ServerSpec
get disk root name =
    if disk.is_file (root <> "/" <> name <> "/manifest.yaml")
    then load_manifest disk root name
    else do specs ← discover disk root false; err (key_error name)
