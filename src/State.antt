-- ===== src/State.antt =====
-- `dnslab/state.py`: the translation of paths for the docker daemon, and the network's name.
-- `os.environ` is a dictionary; how a path resolves to an absolute one is a parameter.
pub mod HostPath
pub mod Files
use Prim.Native.String
use gpt_jupyter_dns.Prelude.{
  String, ◌<>◌, ◌||◌, Option, none, some, ◌==◌, starts_with, if◌then◌else◌,
}
use gpt_jupyter_dns.Dict.{Dict, lookup}

-- `os.environ`
abbrev pub Env : Type 0
Env = Dict String

-- `p[len(prefix):]`, of a text that begins with the prefix
unfoldable pub behind : String → String → Option String
behind String.[] s = some s
behind (String.◌∷◌ c prefix) String.[] = none
behind (String.◌∷◌ c prefix) (String.◌∷◌ d s) =
    let rest = behind prefix s in
    if String.◌∷◌ c String.[] == String.◌∷◌ d String.[] then rest else none

-- `p == prefix or p.startswith(prefix + "/")`, and the slice then
unfoldable pub below : String → String → Option String
unfolding behind
below prefix p = if p == prefix || starts_with p (prefix <> "/") then behind prefix p else none

-- One mapping of `to_host_path`: an unset or empty variable maps nothing.
pub mapped : String → Option String → String → Option String
unfolding below
mapped prefix none p = none
mapped prefix (some host) p =
    if host == ""
    then none
    else elim (below prefix p) [ none ↦ none | some rest ↦ some (host <> rest) ]

abbrev pub or_else : Option String → String → String
or_else none s = s
or_else (some t) s = t

-- `to_host_path`, where `resolve` is `str(Path(path).resolve())`
unfoldable pub to_host_path {ℓ} : {A : Type ℓ} → (A → String) → Env → A → String
unfolding mapped
to_host_path resolve env path =
    let p = resolve path in
    or_else (mapped "/workspace" (lookup "DNSLAB_HOST_WORKSPACE" env) p)
      (or_else (mapped "/opt/dnslab/dnslab" (lookup "DNSLAB_HOST_DNSLAB" env) p) p)

-- `network_name`
unfoldable pub network_name : Env → String
network_name env = or_else (lookup "DNSLAB_NETWORK" env) "dnslab"
