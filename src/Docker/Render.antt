-- ===== src/Docker/Render.antt =====
-- `dnslab/providers/docker.py`: the rendered configuration and the staged zone files, and the
-- fingerprint of all that shapes a container.
use gpt_jupyter_dns.Prelude.{
  String, ◌<>◌, Bool, true, false, Option, none, some, List, [], ◌∷◌, ◌++◌, ◌==◌, if◌then◌else◌,
}
use gpt_jupyter_dns.Dict.{Dict, lookup, merge}
use gpt_jupyter_dns.Result.{ok}
use gpt_jupyter_dns.Action.{Action, pure, ◌>>=◌, ◌>>◌}
use gpt_jupyter_dns.Value.{Value, null, bool, int, str, pos, to_text, has_text}
use gpt_jupyter_dns.Text.{take}
use gpt_jupyter_dns.Model.{Profile, ServerSpec}
use gpt_jupyter_dns.State.{Env}
use gpt_jupyter_dns.State.Files.{Place, Files, state_dir}
use gpt_jupyter_dns.Certs.{ca_name}
use gpt_jupyter_dns.Docker.{Daemon, domain, certs_mount, zones_mount, upstreams}

-- The template context of `render`; later entries replace earlier ones.
unfoldable pub render_context : ServerSpec → Profile → String → Dict Value → Dict Value → Dict Value
unfolding merge
render_context spec profile instance_name ups overrides =
    merge
      (merge
        (merge
          (("instance_name", str instance_name)
            ∷ ("tls_hostname", str (instance_name <> "." <> domain))
            ∷ ("tls_cert_path", str (certs_mount <> "/" <> instance_name <> ".pem"))
            ∷ ("tls_key_path", str (certs_mount <> "/" <> instance_name <> ".key"))
            ∷ ("ca_path", str (certs_mount <> "/" <> ca_name <> ".pem"))
            ∷ ("zones_dir", str zones_mount)
            ∷ ("listen_do53", bool (has_text "do53" profile.listeners))
            ∷ ("listen_dot", bool (has_text "dot" profile.listeners))
            ∷ ("port_do53", int (elim (lookup "do53" spec.ports) [ none ↦ pos 53 | some p ↦ p ]))
            ∷ ("port_dot", int (elim (lookup "dot" spec.ports) [ none ↦ pos 853 | some p ↦ p ]))
            ∷ ("upstream_ca_path", null)
            ∷ [])
          ups)
        profile.extra)
      overrides

-- `s.rsplit("/", 1)[-1]`: what is behind the last slash
last_segment : String → String → String
last_segment acc String.[] = acc
last_segment acc (String.◌∷◌ c s) =
    last_segment (if String.◌∷◌ c String.[] == "/" then "" else acc <> String.◌∷◌ c String.[]) s

-- `s.removesuffix(t)`, of a text that ends with it
without_suffix : String → String → String
without_suffix t String.[] = String.[]
without_suffix t (String.◌∷◌ c s) =
    let rest = String.◌∷◌ c (without_suffix t s) in if String.◌∷◌ c s == t then "" else rest

-- The name of the configuration file that a template makes.
unfoldable pub config_name : String → String
unfolding last_segment without_suffix
config_name template = without_suffix ".j2" (last_segment "" template)

module _ {W : Type 0} (daemon : Daemon W) (files : Files W) (env : Env) where
  -- The copy of the zone files in the instance's directory, made afresh.
  stage_zones : Place → Place → Action W (Unit {0})
  stage_zones zones_src zones_dst = do
    old ← (λ w. (ok (files.exists zones_dst w), w))
    (if old then daemon.remove_tree zones_dst else pure tt)
    daemon.copy_tree zones_src zones_dst
    files.chmod zones_dst
    daemon.chmod_tree zones_dst

  stage_if : Bool → Place → Place → Action W (Option Place)
  unfolding stage_zones
  stage_if false zones_src zones_dst = pure none
  stage_if true zones_src zones_dst = do stage_zones zones_src zones_dst; pure (some zones_dst)

  -- `render`: the configuration file, and the zone directory if the server has one
  unfoldable pub render :
      ServerSpec → Profile → String → Dict Value → Action W (Place × Option Place)
  unfolding stage_if render_context config_name
  render spec profile instance_name overrides = do
    inst_dir ← state_dir files env (some instance_name)
    ups ← upstreams daemon env
    rendered ←
        daemon.render spec.dir profile.template
          (render_context spec profile instance_name ups overrides)
    let config_file = config_name (to_text profile.template) ∷ inst_dir
    files.write config_file rendered
    daemon.chmod_file config_file
    let zones_src = "zones" ∷ files.place spec.dir
    has_zones ← (λ w. (ok (files.is_dir zones_src w), w))
    zones ← stage_if has_zones zones_src ("zones" ∷ inst_dir)
    pure (config_file, zones)

  zone_bytes : List (String × String) → List String
  zone_bytes [] = []
  zone_bytes ((name, bytes) ∷ rest) = name ∷ bytes ∷ zone_bytes rest

  zones_part : Option Place → Action W (List String)
  unfolding zone_bytes
  zones_part none = pure []
  zones_part (some d) = do fs ← daemon.tree_files d; pure (zone_bytes fs)

  -- `_confhash`
  unfoldable pub confhash : ServerSpec → Place → Option Place → String → Action W String
  unfolding zones_part
  confhash spec config_file zones_dir extra = do
    config ← daemon.read_bytes config_file
    zones ← zones_part zones_dir
    pure (
        take 16 (
          daemon.sha256 (
            config
            ∷ (zones
                ++ daemon.dumps_list (spec.image ∷ spec.build ∷ spec.command ∷ []) ∷ extra ∷ []))))
