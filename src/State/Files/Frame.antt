-- ===== src/State/Files/Frame.antt =====
-- What reading and writing state files leaves alone: all that the file system's own calls do.
use gpt_jupyter_dns.Prelude.{
  String, ◌<>◌, Option, none, some, [], ◌∷◌, Bool, true, false, ◌==◌, if◌then◌else◌,
}
use gpt_jupyter_dns.Dict.{lookup}
use gpt_jupyter_dns.Action.{pure}
use gpt_jupyter_dns.Action.Kept.{
  Kept, Kept-pure, Kept-lift, Kept-look, Kept-bind, Kept-if, Kept-catch, KeptHandler,
}
use gpt_jupyter_dns.Value.{Value, dict, end}
use gpt_jupyter_dns.State.{Env}
use gpt_jupyter_dns.State.Files.{
  Place, same, Files, fallback_root, root_from, workspace_root, chmod_up, mkdir_traversable,
  state_place, state_dir, read_state, state_at, load_state, save_state,
}

pub record FilesKeep {W : Type 0} (files : Files W) (I : W → Type 0) : Type 0 where
  pub mkdir : (p : Place) → Kept I (files.mkdir p)
  pub chmod : (p : Place) → Kept I (files.chmod p)
  pub read : (p : Place) → Kept I (files.read p)
  pub write : (p : Place) (s : String) → Kept I (files.write p s)

module _ {W : Type 0} (files : Files W) (env : Env) (I : W → Type 0)
    (keep : FilesKeep files I) where
  fallback_root-Kept : Kept I (fallback_root files env)
  unfolding fallback_root
  fallback_root-Kept = record { at = λ w h. h }

  root_from-Kept : (root : Option String) → Kept I (root_from files env root)
  unfolding root_from
  root_from-Kept none = fallback_root-Kept
  root_from-Kept (some text) = Kept-if I (text == "") fallback_root-Kept (Kept-pure I _)

  chmod_up-Kept : (p stop : Place) → Kept I (chmod_up files env p stop)
  unfolding chmod_up
  chmod_up-Kept [] stop = Kept-pure I tt
  chmod_up-Kept (n ∷ p) stop =
      Kept-if I (same (n ∷ p) stop) (Kept-pure I tt)
        (Kept-bind I (keep.chmod (n ∷ p)) λ _. chmod_up-Kept p stop)

  mkdir_traversable-Kept : (d stop : Place) → Kept I (mkdir_traversable files env d stop)
  unfolding mkdir_traversable
  mkdir_traversable-Kept d stop =
      Kept-bind I (keep.mkdir d) λ _. Kept-bind I (chmod_up-Kept d stop) λ _. Kept-pure I d

  pub state_dir-Kept : (name : Option String) → Kept I (state_dir files env name)
  unfolding state_dir workspace_root
  state_dir-Kept name =
      Kept-bind I (root_from-Kept (lookup "DNSLAB_WORKSPACE" env))
        λ root. mkdir_traversable-Kept (state_place files env name root) root

  handler-Kept : (b : Bool) → KeptHandler I (if b then some (pure (dict end)) else none)
  handler-Kept true = Kept-pure I _
  handler-Kept false = tt

  state_at-Kept : (f : Place) (found : Bool) → Kept I (state_at files env f found)
  unfolding state_at read_state
  state_at-Kept f false = Kept-pure I _
  state_at-Kept f true =
      Kept-catch I _ (Kept-bind I (keep.read f) λ text. Kept-lift I _)
        λ e. handler-Kept (files.is_unreadable e)

  pub load_state-Kept : (name : String) → Kept I (load_state files env name)
  unfolding load_state
  load_state-Kept name =
      Kept-bind I (state_dir-Kept none)
        λ d. Kept-bind I (Kept-look I _) λ found. state_at-Kept ((name <> ".json") ∷ d) found

  pub save_state-Kept : (name : String) (v : Value) → Kept I (save_state files env name v)
  unfolding save_state
  save_state-Kept name v =
      Kept-bind I (state_dir-Kept none) λ d. keep.write ((name <> ".json") ∷ d) _
