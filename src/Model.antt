-- ===== src/Model.antt =====
-- `dnslab/model.py`: the data that the registry, the providers and the checks exchange.
-- A field that the loader copies from the manifest without a look stays a `Value`.
use gpt_jupyter_dns.Prelude.{
  ℕ, String, Bool, true, false, Option, none, some, List, [], ◌∷◌, ◌==◌, not, if◌then◌else◌,
}
use gpt_jupyter_dns.Dict.{Dict, lookup}
use gpt_jupyter_dns.Result.{Result, ok, err, key_error, type_error, stop_iteration, ◌>>=◌}
use gpt_jupyter_dns.Value.{
  Value, bool, str, list, nil, cons, ℤ, is_hashable, truthy, to_set, to_dict, to_text, repr,
  subscript, iterate, get_or,
}

pub record Capabilities : Type 0 where
  pub roles : List Value
  pub do53_listener : Bool
  pub dot_listener : Bool
  pub dot_upstream_forwarding : Bool
  pub dot_listener_via_proxy : Bool
  pub dot_client : Bool
  pub notes : String

-- `Capabilities.from_dict`
unfoldable pub capabilities_from_dict : Value → Result Capabilities
capabilities_from_dict v = do
  d ← to_dict v
  roles ← to_set (get_or d "roles" (list nil))
  ok (record {
    roles = roles;
    do53_listener = truthy (get_or d "do53_listener" (bool true));
    dot_listener = truthy (get_or d "dot_listener" (bool false));
    dot_upstream_forwarding = truthy (get_or d "dot_upstream_forwarding" (bool false));
    dot_listener_via_proxy = truthy (get_or d "dot_listener_via_proxy" (bool false));
    dot_client = truthy (get_or d "dot_client" (bool false));
    notes = to_text (get_or d "notes" (str ""));
  })

pub record Profile : Type 0 where
  pub name : String
  pub template : Value
  pub config_path : Value
  pub listeners : List Value
  pub requires : List Value
  pub extra : Dict Value

-- The entries of a mapping whose keys are not `known`.
unfoldable pub extras : Dict Value → Dict Value
extras [] = []
extras ((k, v) ∷ d) =
    let rest = extras d in
    if k == "template"
    then rest
    else if k == "config_path"
    then rest
    else if k == "listeners"
    then rest
    else if k == "requires"
    then rest
    else (k, v) ∷ rest

abbrev both_listeners : Value
both_listeners = list (cons (str "do53") (cons (str "dot") nil))

-- `Profile.from_dict`; `d["template"]` comes first, so it is what fails on a value that is no
-- mapping
unfoldable pub profile_from_dict : String → Value → Result Profile
unfolding extras
profile_from_dict name v = do
  template ← subscript v "template"
  config_path ← subscript v "config_path"
  d ← to_dict v
  listeners ← iterate (get_or d "listeners" both_listeners)
  requires ← iterate (get_or d "requires" (list nil))
  ok (record {
    name = name;
    template = template;
    config_path = config_path;
    listeners = listeners;
    requires = requires;
    extra = extras d;
  })

pub record ServerSpec : Type 0 where
  pub name : String
  pub dir : String
  pub provider : String
  pub tier : ℤ
  pub capabilities : Capabilities
  pub profiles : Dict Profile
  pub ports : Dict ℤ
  pub healthcheck : Value
  pub image : Value
  pub build : Value
  pub command : Value
  pub default_profile : Value
  pub instances : Dict String
  pub raw : Dict Value

-- `next(iter(self.profiles))`
abbrev first_key : Dict Profile → Result Value
first_key [] = err stop_iteration
first_key ((k, p) ∷ d) = ok (str k)

-- `requested or self.default_profile or next(iter(self.profiles))`
unfoldable pub profile_name : ServerSpec → Option String → Result Value
unfolding truthy
profile_name s none =
    if truthy s.default_profile then ok s.default_profile else first_key s.profiles
profile_name s (some requested) =
    if not (requested == "")
    then ok (str requested)
    else if truthy s.default_profile
    then ok s.default_profile
    else first_key s.profiles

-- `self.profiles[name]`; a key that is not hashable is a `TypeError`, which nothing catches
unfoldable pub profile_at : Dict Profile → Value → Result Profile
unfolding lookup repr
profile_at profiles (str name) = elim (lookup name profiles) [
  | none ↦ err (key_error name)
  | some p ↦ ok p
]
profile_at profiles v = if is_hashable v then err (key_error (repr v)) else err type_error

-- `ServerSpec.profile_for`
unfoldable pub profile_for : ServerSpec → Option String → Result Profile
unfolding profile_name profile_at
profile_for s requested = do name ← profile_name s requested; profile_at s.profiles name

pub record Instance : Type 0 where
  pub name : String
  pub server : String
  pub profile : String
  pub provider : String
  pub id : String
  pub host : String
  pub ip : Option String
  pub status : String
  pub extra : Dict Value

pub record Target : Type 0 where
  pub name : String
  pub host : String
  pub ip : String
  pub port_do53 : Option ℤ
  pub port_dot : Option ℤ
  pub tls_hostname : String
  pub ca_file : String
  pub provider : String
  pub profile : String
  pub capabilities : Capabilities

-- `Target.address`
unfoldable pub address : Target → String
address t = if t.ip == "" then t.host else t.ip

-- `CheckResult.status`
pub data Status : Type 0 where
  pass fail skip : Status

-- `latency` is in microseconds.
pub record CheckResult : Type 0 where
  pub check : String
  pub target : String
  pub status : Status
  pub detail : String
  pub latency : Option ℕ

-- `CheckResult.__bool__`
unfoldable pub passed : CheckResult → Bool
passed r = elim r.status [ pass ↦ true | _ ↦ false ]
