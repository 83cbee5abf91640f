-- ===== src/State/Files/Kept.antt =====
-- That state which was saved is loaded again, over a file system that keeps what is written.
use gpt_jupyter_dns.Prelude.{String, ◌≡◌, ◌≢◌, Option, some, ◌∷◌, is_some}
use gpt_jupyter_dns.Dict.{lookup}
use gpt_jupyter_dns.Result.{ok}
use gpt_jupyter_dns.Value.{Value}
use gpt_jupyter_dns.State.{Env}
use gpt_jupyter_dns.State.Files.{Place, Files}

-- What a call that returned has done: making a directory and `chmod` change no file's text, writing
-- sets it, and reading gives it.
pub record IsLawful {W : Type 0} (files : Files W) : Type 0 where
  pub content : W → Place → Option String
  pub mkdir_keeps :
      (p q : Place) (w w' : W) → files.mkdir p w ≡ (ok tt, w') → content w' q ≡ content w q
  pub chmod_keeps :
      (p q : Place) (w w' : W) → files.chmod p w ≡ (ok tt, w') → content w' q ≡ content w q
  pub content-write :
      (p : Place) (s : String) (w w' : W) → files.write p s w ≡ (ok tt, w') → content w' p ≡ some s
  pub exists_content : (p : Place) (w : W) → files.exists p w ≡ is_some (content w p)
  pub read_content :
      (p : Place) (s : String) (w : W) (t : String) (w' : W)
      → content w p ≡ some s
      → files.read p w ≡ (ok t, w')
      → t ≡ s

module _ {W : Type 0} (files : Files W) (env : Env) (lawful : IsLawful files) where
  abbrev Same : W → W → Type 0
  Same w w' = (q : Place) → lawful.content w' q ≡ lawful.content w q

  module _ (text : String) (set : lookup "DNSLAB_WORKSPACE" env ≡ some text)
      (filled : text ≢ "") where
    abbrev state_root : Place
    state_root = "dnslab-state" ∷ files.place text
