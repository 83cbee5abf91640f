-- ===== src/Tests/State.antt =====
-- The theorems on host paths, at a mapped workspace, and on the files, over a store in memory.
use gpt_jupyter_dns.Prelude.{
  String, ◌<>◌, ◌≡◌, refl, ◌⊎◌, [], ◌∷◌, Option, none, some, is_some, ◌==◌, if◌then◌else◌, true,
  false,
}
use gpt_jupyter_dns.Result.{Result, ok, err, file_not_found}
use gpt_jupyter_dns.Action.{pure, ◌>>=◌}
use gpt_jupyter_dns.Value.{Value, dict, field, end, int, pos}
use gpt_jupyter_dns.State.Files.{Place, same, Files, mkdir_traversable, save_state}
use gpt_jupyter_dns.State.Files.Levels.{each, mkdir_traversable-levels}
use gpt_jupyter_dns.Dict.{lookup}
use gpt_jupyter_dns.State.{Env, to_host_path}
use gpt_jupyter_dns.State.HostPath.{Translated, to_host_path-translates, to_host_path-workspace}

abbrev env : Env
env = ("DNSLAB_HOST_WORKSPACE", "/home/lab/workspace") ∷ []

-- A file system with one link below the workspace.
abbrev resolve : String → String
resolve path = if path == "/workspace/link" then "/workspace/dnslab/certs" else path

to_host_path-translates_example :
    (to_host_path resolve env "/workspace/link" ≡ resolve "/workspace/link")
    ⊎ Translated env (resolve "/workspace/link") (to_host_path resolve env "/workspace/link")
to_host_path-translates_example = to_host_path-translates resolve env "/workspace/link"

is_set : lookup "DNSLAB_HOST_WORKSPACE" env ≡ some "/home/lab/workspace"
unfolding lookup
is_set = refl

to_host_path-workspace_example :
    to_host_path resolve env "/workspace/link" ≡ "/home/lab/workspace" <> "/" <> "dnslab/certs"
to_host_path-workspace_example =
    to_host_path-workspace resolve env "/workspace/link" "/home/lab/workspace" "dnslab/certs" refl
      is_set λ e. absurd (cc)

-- A directory that only begins with the same letters is left alone.
sibling : to_host_path resolve env "/workspace2/certs" ≡ "/workspace2/certs"
unfolding to_host_path lookup
sibling = refl

-- The text of every file.
abbrev Memory : Type 0
Memory = Place → Option String

abbrev read_text : Option String → Memory → Result String × Memory
read_text none w = (err (file_not_found ""), w)
read_text (some s) w = (ok s, w)

abbrev sample : Value
sample = dict (field "n" (int (pos 1)) end)

abbrev memory : Files Memory
memory = record {
  place = λ text. text ∷ [];
  repo = "repo" ∷ [];
  is_dir = λ p w. false;
  exists = λ p w. is_some (w p);
  mkdir = λ p w. (ok tt, w);
  chmod = λ p w. (ok tt, w);
  read = λ p w. read_text (w p) w;
  write = λ p s w. (ok tt, λ q. if same p q then some s else w q);
  loads = λ s. if s == "{n: 1}\n" then ok sample else err (file_not_found "");
  dumps = λ v. "{n: 1}";
  is_unreadable = λ e. true;
}

abbrev blank : Memory
blank p = none

abbrev home : Env
home = ("DNSLAB_WORKSPACE", "work") ∷ []

-- The world after the value was saved.
abbrev saved : Memory
saved = (save_state memory home "ec2" sample blank).1

mkdir_traversable-levels_example :
    mkdir_traversable memory home ("dnslab" ∷ "certs" ∷ "work" ∷ []) ("work" ∷ []) ≡ (
      memory.mkdir ("dnslab" ∷ "certs" ∷ "work" ∷ []) >>= λ _.
      each memory.chmod (("dnslab" ∷ "certs" ∷ "work" ∷ []) ∷ ("certs" ∷ "work" ∷ []) ∷ []) >>= λ _.
      pure ("dnslab" ∷ "certs" ∷ "work" ∷ []))
mkdir_traversable-levels_example =
    mkdir_traversable-levels memory home ("dnslab" ∷ "certs" ∷ []) ("work" ∷ [])
