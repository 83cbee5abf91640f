-- ===== src/Docker/Start/Contract.antt =====
-- The class `DockerProvider` of `dnslab/providers/docker.py`, and that it keeps the contract that the
-- facade's `start` relies on.
use gpt_jupyter_dns.Prelude.{
  ℕ, String, ◌<>◌, ◌≡◌, refl, Bool, true, false, Option, none, some, [], if◌then◌else◌, arith, not,
  ◌&&◌,
}
use gpt_jupyter_dns.Result.{ok}
use gpt_jupyter_dns.Action.{
  Action, pure, lift, Ends, Ends-bind, Ends-return, Ends-catch, Ends-if, EndsHandler, ◌>>=◌,
}
use gpt_jupyter_dns.Model.{Profile, ServerSpec, Instance}
use gpt_jupyter_dns.Registry.{Disk}
use gpt_jupyter_dns.Provider.{StartOptions, Provider, base_nuke}
use gpt_jupyter_dns.State.{Env}
use gpt_jupyter_dns.State.Files.{Place, Files}
use gpt_jupyter_dns.Certs.{Crypto, ensure_cert, ca_file}
use gpt_jupyter_dns.Docker.{
  Daemon, Container, domain, ensure_network, container_ip, find_container, stop, discover, target,
  logs,
}
use gpt_jupyter_dns.Docker.Render.{render, confhash}
use gpt_jupyter_dns.Docker.Start.{
  timeout_for, is_unchanged, new_instance, stage_ca, reuse, try_reuse, image_of, remove_previous,
  volumes_of, create, create_unless, wait_healthy, start,
}

module _ {W K C : Type 0} (daemon : Daemon W) (crypto : Crypto W K C) (files : Files W)
    (env : Env) where
  -- `str(certs.ca_file())`
  ca_text : Action W String
  ca_text = do ca ← ca_file crypto files env; pure (daemon.path_text ca)

  -- The class: its methods, with `nuke` inherited.
  unfoldable pub docker_provider : Disk → String → Provider W
  unfolding ca_text start stop discover target logs
  docker_provider disk root = record {
    start = start daemon crypto files env;
    stop = stop daemon env;
    discover = discover daemon env;
    target = target ca_text disk root;
    logs = logs daemon env;
    nuke = base_nuke (discover daemon env) (stop daemon env);
  }

  abbrev IsAsked : ServerSpec → Profile → String → Instance → Type 0
  IsAsked spec prof name i =
      (i.name ≡ name)
      × (i.server ≡ spec.name)
      × (i.profile ≡ prof.name)
      × (i.host ≡ name <> "." <> domain)

  -- A reused instance, if there is one, is as asked for.
  abbrev MayBeAsked : ServerSpec → Profile → String → Option Instance → W → Type 0
  MayBeAsked spec prof name none w = Unit
  MayBeAsked spec prof name (some i) w = IsAsked spec prof name i

  unanswered-EndsHandler :
      (spec : ServerSpec) (prof : Profile) (name : String) (b : Bool) (w : W)
      → EndsHandler (MayBeAsked spec prof name) (if b then some (pure none) else none) w
  unanswered-EndsHandler spec prof name true w = Ends-return (MayBeAsked spec prof name) none w tt
  unanswered-EndsHandler spec prof name false w = tt

  reuse-MayBeAsked :
      (spec : ServerSpec) (prof : Profile) (name : String) (timeout : ℕ) (c : Container) (w : W)
      → Ends (MayBeAsked spec prof name) (reuse daemon crypto files env spec prof name timeout c w)
  unfolding reuse
  reuse-MayBeAsked spec prof name timeout c w =
      Ends-bind _ (container_ip daemon env c) _ w λ ip w₁ _.
        Ends-catch (MayBeAsked spec prof name) _ _ w₁
          (Ends-bind _
            (wait_healthy daemon crypto files env spec prof
              (new_instance spec prof name c.id ip "running") c.id _)
            _ w₁ λ ip' w₂ _. Ends-return (MayBeAsked spec prof name) _ w₂ (refl, refl, refl, refl))
          λ x w₃. unanswered-EndsHandler spec prof name _ w₃

  try_reuse-MayBeAsked :
      (spec : ServerSpec) (prof : Profile) (name : String) (force : Bool) (timeout : ℕ)
      (hash : String) (existing : Option Container) (w : W)
      → Ends
          (MayBeAsked spec prof name)
          (try_reuse daemon crypto files env spec prof name force timeout hash existing w)
  unfolding try_reuse
  try_reuse-MayBeAsked spec prof name force timeout hash none w =
      Ends-return (MayBeAsked spec prof name) none w tt
  try_reuse-MayBeAsked spec prof name force timeout hash (some c) w =
      Ends-if (MayBeAsked spec prof name) (not force && is_unchanged prof hash c)
        (reuse daemon crypto files env spec prof name timeout c) (pure none) w
        (reuse-MayBeAsked spec prof name timeout c w)
        (Ends-return (MayBeAsked spec prof name) none w tt)

  create-IsAsked :
      (spec : ServerSpec) (prof : Profile) (name : String) (o : StartOptions) (timeout : ℕ)
      (config : Place) (zones : Option Place) (hash : String) (w : W)
      → Ends
          (λ i _. IsAsked spec prof name i)
          (create daemon crypto files env spec prof name o timeout config zones hash w)
  unfolding create
  create-IsAsked spec prof name o timeout config zones hash w =
      Ends-bind _ (image_of daemon crypto files env spec) _ w λ image w₁ _.
        Ends-bind _ (remove_previous daemon crypto files env name) _ w₁ λ _ w₂ _.
          Ends-bind _ (volumes_of daemon crypto files env prof config zones) _ w₂ λ volumes w₃ _.
            Ends-bind _ (daemon.create _) _ w₃ λ c w₄ _.
              Ends-bind _ (daemon.get_network _) _ w₄ λ _ w₅ _.
                Ends-bind _ (daemon.connect _ c.id _) _ w₅ λ _ w₆ _.
                  Ends-bind _ (daemon.start_container c.id) _ w₆ λ _ w₇ _.
                    Ends-bind _ (container_ip daemon env c) _ w₇ λ ip w₈ _.
                      Ends-bind _
                        (if o.wait
                          then wait_healthy daemon crypto files env spec prof
                              (new_instance spec prof name c.id ip "starting") c.id timeout
                          else pure ip)
                        _ w₈
                        λ ip' w₉ _.
                          Ends-return (λ i _. IsAsked spec prof name i) _ w₉
                            (refl, refl, refl, refl)

  create_unless-IsAsked :
      (spec : ServerSpec) (prof : Profile) (name : String) (o : StartOptions) (timeout : ℕ)
      (config : Place) (zones : Option Place) (hash : String) (r : Option Instance) (w : W)
      → MayBeAsked spec prof name r w
      → Ends
          (λ i _. IsAsked spec prof name i)
          (create_unless daemon crypto files env spec prof name o timeout config zones hash r w)
  unfolding create_unless
  create_unless-IsAsked spec prof name o timeout config zones hash none w h =
      create-IsAsked spec prof name o timeout config zones hash w
  create_unless-IsAsked spec prof name o timeout config zones hash (some i) w h =
      Ends-return (λ i _. IsAsked spec prof name i) i w h

  start-IsAsked :
      (spec : ServerSpec) (prof : Profile) (name : String) (o : StartOptions) (w : W)
      → Ends (λ i _. IsAsked spec prof name i) (start daemon crypto files env spec prof name o w)
  unfolding start
  start-IsAsked spec prof name o w =
      Ends-bind _ (lift (timeout_for spec o.timeout)) _ w λ timeout w₁ _.
        Ends-bind _ (ensure_network daemon env) _ w₁ λ _ w₂ _.
          Ends-bind _ (ensure_cert crypto files env name [] false) _ w₂ λ _ w₃ _.
            Ends-bind _ (stage_ca daemon crypto files env name _ _) _ w₃ λ staged w₄ _.
              Ends-bind _ (render daemon files env spec prof name staged.1) _ w₄ λ rendered w₅ _.
                Ends-bind _ (confhash daemon files env spec rendered.0 rendered.1 staged.0) _ w₅
                  λ hash w₆ _. Ends-bind _ (find_container daemon env name) _ w₆ λ existing w₇ _.
                    Ends-bind _
                      (try_reuse daemon crypto files env spec prof name o.force timeout hash
                        existing)
                      _ w₇
                      λ r w₈ e.
                        create_unless-IsAsked spec prof name o timeout rendered.0 rendered.1 hash r
                          w₈
                          ((try_reuse-MayBeAsked spec prof name o.force timeout hash existing w₇).at
                            r w₈ e)

  -- What the docker provider's `start` returns, if it returns, whether the container is reused or new,
  -- has the name, the server and the profile that it was asked for, which is what the facade assumes
  -- of a provider, and the host name that its certificate is made for.
  pub start-docker_provider :
      (disk : Disk) (root : String) (spec : ServerSpec) (prof : Profile) (name : String)
      (o : StartOptions) (w : W) (i : Instance)
      → ((docker_provider disk root).start spec prof name o w).0 ≡ ok i
      → (i.name ≡ name)
        × (i.server ≡ spec.name)
        × (i.profile ≡ prof.name)
        × (i.host ≡ name <> "." <> domain)
  unfolding docker_provider
  start-docker_provider disk root spec prof name o w i h =
      (start-IsAsked spec prof name o w).at i (start daemon crypto files env spec prof name o w).1
        (ground arith)
