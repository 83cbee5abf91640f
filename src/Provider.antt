-- ===== src/Provider.antt =====
-- `dnslab/providers/base.py` and `dnslab/providers/__init__.py`: the lifecycle contract, and the
-- lazy lookup of providers. `W` is the state of the world that the providers act on.
pub mod External
use gpt_jupyter_dns.Prelude.{
  ℕ, String, Bool, Option, none, some, List, [], ◌∷◌, ◌==◌, if◌then◌else◌,
}
use gpt_jupyter_dns.Dict.{Dict, lookup, insert}
use gpt_jupyter_dns.Result.{ok, err, key_error}
use gpt_jupyter_dns.Action.{Action, pure, raise, ◌>>=◌, ◌>>◌}
use gpt_jupyter_dns.Value.{Value, ℤ}
use gpt_jupyter_dns.Model.{Profile, ServerSpec, Instance, Target}

-- The keyword arguments of `start`; `timeout` in seconds.
pub record StartOptions : Type 0 where
  pub wait : Bool
  pub timeout : Option ℕ
  pub force : Bool
  pub overrides : Dict Value

-- The methods of the abstract class `Provider`.
pub record Provider (W : Type 0) : Type 0 where
  pub start : ServerSpec → Profile → String → StartOptions → Action W Instance
  pub stop : Instance → Action W (Unit {0})
  pub discover : Action W (List Instance)
  pub target : Instance → Action W Target
  pub logs : Instance → ℤ → Action W String
  pub nuke : Action W (List String)

-- What constructing each of the three classes does; it fails without docker or boto3.
pub record Makers (W : Type 0) : Type 0 where
  pub docker : Action W (Provider W)
  pub ec2 : Action W (Provider W)
  pub external : Action W (Provider W)

-- The module's `_cache` beside the world.
pub record Session (W : Type 0) : Type 0 where
  pub cache : Dict (Provider W)
  pub world : W

module _ {W : Type 0} where
  -- A provider's action leaves the cache alone.
  abbrev pub on_world : {A : Type 0} → Action W A → Action (Session W) A
  on_world m s = let (r, w) = m s.world in (r, record s { world = w })

  -- `_cache[name] = make()`
  abbrev remember : String → Action W (Provider W) → Action (Session W) (Provider W)
  remember name make = on_world make >>= λ p s. (ok p, record s { cache = insert name p s.cache })

  unfoldable pub get_provider : Makers W → String → Action (Session W) (Provider W)
  get_provider makers name s = elim (lookup name s.cache) [
    | some p ↦ (ok p, s)
    | none ↦
        if name == "docker"
        then remember name makers.docker s
        else if name == "ec2"
        then remember name makers.ec2 s
        else if name == "external"
        then remember name makers.external s
        else (err (key_error name), s)
  ]

  stop_each : (Instance → Action W (Unit {0})) → List Instance → Action W (List String)
  stop_each stop [] = pure []
  stop_each stop (i ∷ is) = do stop i; removed ← stop_each stop is; pure (i.name ∷ removed)

  -- `Provider.nuke`, which the docker provider inherits
  unfoldable pub base_nuke :
      Action W (List Instance) → (Instance → Action W (Unit {0})) → Action W (List String)
  unfolding stop_each
  base_nuke discover stop = do found ← discover; stop_each stop found
