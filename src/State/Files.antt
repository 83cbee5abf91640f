-- ===== src/State/Files.antt =====
-- `dnslab/state.py`: the directories and the JSON state files. A path is the list of its names,
-- innermost first, and the root is the empty list.
pub mod Kept
pub mod Levels
pub mod Frame
use gpt_jupyter_dns.Prelude.{
  String, ◌<>◌, Bool, true, false, ◌&&◌, Option, none, some, List, [], ◌∷◌, ◌==◌, if◌then◌else◌,
}
use gpt_jupyter_dns.Dict.{lookup}
use gpt_jupyter_dns.Result.{Result, ok, err, Error}
use gpt_jupyter_dns.Action.{Action, pure, lift, catch, ◌>>=◌, ◌>>◌}
use gpt_jupyter_dns.Value.{Value, dict, end}
use gpt_jupyter_dns.State.{Env}

abbrev pub Place : Type 0
Place = List String

-- `p == q` on paths
pub same : Place → Place → Bool
same [] [] = true
same (n ∷ p) (m ∷ q) = n == m && same p q
same p q = false

-- What the state module asks of the file system, `Path` and `json`.
pub record Files (W : Type 0) : Type 0 where
  -- `Path(text)`
  pub place : String → Place
  -- the directory above the package
  pub repo : Place
  pub is_dir : Place → W → Bool
  pub exists : Place → W → Bool
  -- `mkdir(parents=True, exist_ok=True)`
  pub mkdir : Place → Action W (Unit {0})
  -- `chmod(0o755)`
  pub chmod : Place → Action W (Unit {0})
  pub read : Place → Action W String
  pub write : Place → String → Action W (Unit {0})
  -- `json.loads`, and `json.dumps` with an indent and sorted keys
  pub loads : String → Result Value
  pub dumps : Value → String
  -- whether an exception is a `json.JSONDecodeError` or an `OSError`
  pub is_unreadable : Error → Bool

module _ {W : Type 0} (files : Files W) (env : Env) where
  fallback_root : Action W Place
  fallback_root w = (
    ok (if files.is_dir ("workspace" ∷ []) w then "workspace" ∷ [] else "workspace" ∷ files.repo),
    w,
  )

  root_from : Option String → Action W Place
  unfolding fallback_root
  root_from none = fallback_root
  root_from (some text) = if text == "" then fallback_root else pure (files.place text)

  unfoldable pub workspace_root : Action W Place
  unfolding root_from
  workspace_root = root_from (lookup "DNSLAB_WORKSPACE" env)

  -- the loop of `_mkdir_traversable`
  pub chmod_up : Place → Place → Action W (Unit {0})
  unfolding same
  chmod_up [] stop = pure tt
  chmod_up (n ∷ p) stop =
      let rest = chmod_up p stop in
      if same (n ∷ p) stop then pure tt else files.chmod (n ∷ p) >>= λ _. rest

  -- `_mkdir_traversable`
  unfoldable pub mkdir_traversable : Place → Place → Action W Place
  unfolding chmod_up
  mkdir_traversable d stop = do files.mkdir d; chmod_up d stop; pure d

  unfoldable pub certs_dir : Action W Place
  unfolding mkdir_traversable
  certs_dir = do root ← workspace_root; mkdir_traversable ("dnslab" ∷ "certs" ∷ root) root

  state_place : Option String → Place → Place
  state_place none root = "dnslab-state" ∷ root
  state_place (some instance_name) root =
      if instance_name == "" then "dnslab-state" ∷ root else instance_name ∷ "dnslab-state" ∷ root

  unfoldable pub state_dir : Option String → Action W Place
  unfolding state_place mkdir_traversable
  state_dir instance_name = do
    root ← workspace_root
    mkdir_traversable (state_place instance_name root) root

  -- `f.read_text()`, parsed, or `{}` for a file that cannot be read or parsed
  read_state : Place → Action W Value
  read_state f =
      catch (files.read f >>= λ text. lift (files.loads text))
        λ e. if files.is_unreadable e then some (pure (dict end)) else none

  state_at : Place → Bool → Action W Value
  unfolding read_state
  state_at f false = pure (dict end)
  state_at f true = read_state f

  unfoldable pub load_state : String → Action W Value
  unfolding state_at
  load_state name = do
    d ← state_dir none
    found ← (λ w. (ok (files.exists ((name <> ".json") ∷ d) w), w))
    state_at ((name <> ".json") ∷ d) found

  unfoldable pub save_state : String → Value → Action W (Unit {0})
  save_state name v = do
    d ← state_dir none
    files.write ((name <> ".json") ∷ d) (files.dumps v <> "\n")
