-- ===== src/Facade/Plan.antt =====
-- What `start` launches: the planned instances, each with a profile whose requirements are met.
use gpt_jupyter_dns.Prelude.{
  String, ◌≡◌, refl, true, false, Option, some, List, [], ◌∷◌, map, All, arith, ap, ◌∙◌,
}
use gpt_jupyter_dns.Dict.{lookup}
use gpt_jupyter_dns.Result.{ok, err, OnOk, OnOk-bind, runtime_error, lacks_capability}
use gpt_jupyter_dns.Action.{lift, Ends, Ends-bind, Ends-return, >>=-eq-ok, >>=-ok, >>=-err, ◌>>=◌}
use gpt_jupyter_dns.Value.{Value, str}
use gpt_jupyter_dns.Model.{
  Capabilities, Profile, ServerSpec, profile_name, profile_at, profile_for, Instance,
}
use gpt_jupyter_dns.Registry.{Disk, get}
use gpt_jupyter_dns.Provider.{StartOptions, Provider, Makers, Session, get_provider, on_world}
use gpt_jupyter_dns.Facade.{has_capability, check_requires, Plan, make_plan, launch_all, start}

-- Every required flag is a capability of the server.
abbrev pub MeetsRequires : Capabilities → List Value → Type 0
MeetsRequires c = All (λ v. (flag : String) × (v ≡ str flag) × (has_capability c flag ≡ true))

pub check_requires-MeetsRequires :
    (spec : ServerSpec) (prof : Profile) (flags : List Value) (u : Unit {0})
    → check_requires spec prof flags ≡ ok u
    → MeetsRequires spec.capabilities flags
unfolding check_requires
check_requires-MeetsRequires spec prof [] u h = tt
check_requires-MeetsRequires spec prof (str flag ∷ flags) u h =
    ((flag, refl, ground arith), check_requires-MeetsRequires spec prof flags u (ground arith))
check_requires-MeetsRequires spec prof (v ∷ flags) u h = cc

abbrev IsDeclared : ServerSpec → Profile → Type 0
IsDeclared spec prof = (k : String) × (lookup k spec.profiles ≡ some prof)

profile_at-IsDeclared :
    (spec : ServerSpec) (v : Value) → OnOk (IsDeclared spec) (profile_at spec.profiles v)
unfolding profile_at
profile_at-IsDeclared spec (str k) = record { at = λ prof e. (k, ground arith) }
profile_at-IsDeclared spec v = record { at = λ prof e. absurd (ground arith) }

-- A profile that `profile_for` returns is one of the manifest's.
pub profile_for-declared :
    (spec : ServerSpec) (requested : Option String) {prof : Profile}
    → profile_for spec requested ≡ ok prof
    → (k : String) × (lookup k spec.profiles ≡ some prof)
unfolding profile_for
profile_for-declared spec requested {prof} =
    (OnOk-bind (IsDeclared spec) (profile_name spec requested) _
        λ v _. profile_at-IsDeclared spec v).at
      prof

-- The contract of `Provider.start` that the facade relies on.
abbrev pub Honours : {W : Type 0} → Provider W → Type 0
Honours {W} p =
    (spec : ServerSpec) (prof : Profile) (name : String) (o : StartOptions) (w : W) (i : Instance)
    → (p.start spec prof name o w).0 ≡ ok i
    → (i.name ≡ name) × (i.server ≡ spec.name) × (i.profile ≡ prof.name)

-- The instance runs a declared profile whose requirements the server meets.
abbrev pub IsSupported : ServerSpec → Instance → Type 0
IsSupported spec i =
    (k : String) × (prof : Profile) × (lookup k spec.profiles ≡ some prof)
    × (i.profile ≡ prof.name)
    × (i.server ≡ spec.name)
    × MeetsRequires spec.capabilities prof.requires

abbrev pub plan_names : Plan → List String
plan_names = map (λ (name, _). name)

abbrev pub instance_names : List Instance → List String
instance_names = map (λ i. i.name)

module _ {W : Type 0} (spec : ServerSpec) (p : Provider W) (o : StartOptions)
    (honours : Honours p) where
  -- What the loop has returned by the end of `plan`.
  abbrev IsDone : Plan → List Instance → Session W → Type 0
  IsDone plan insts s = (instance_names insts ≡ plan_names plan) × All (IsSupported spec) insts

  launch_all-IsDone :
      (plan : Plan) (s : Session W) → Ends (IsDone plan) (launch_all spec p o plan s)
  unfolding launch_all
  launch_all-IsDone [] s = Ends-return _ [] s (refl, tt)
  launch_all-IsDone ((name, requested) ∷ plan) s =
      Ends-bind _ (lift (profile_for spec requested)) _ s λ prof s₁ found.
        Ends-bind _ (lift (check_requires spec prof prof.requires)) _ s₁ λ u s₂ met.
          Ends-bind _ (on_world (p.start spec prof name o)) _ s₂ λ i s₃ launched.
            Ends-bind _ (launch_all spec p o plan) _ s₃ λ insts s₄ rest.
              let (named, supported) = (launch_all-IsDone plan s₃).at insts s₄ rest in
              let (is_name, is_server, is_profile) =
                honours spec prof name o s₂.world i (ap (λ r. r.0) launched) in
              let (k, declared_at) = profile_for-declared spec requested (ap (λ r. r.0) found) in
              Ends-return (IsDone ((name, requested) ∷ plan)) (i ∷ insts) s₄ (
                cc,
                (
                  (
                    k,
                    prof,
                    declared_at,
                    is_profile,
                    is_server,
                    check_requires-MeetsRequires spec prof prof.requires u (ap (λ r. r.0) met),
                  ),
                  supported,
                ),
              )

module _ {W : Type 0} (makers : Makers W) (disk : Disk) (root name : String)
    (profile : Option String) (o : StartOptions) (s s₁ : Session W) (spec : ServerSpec)
    (p : Provider W) (got : get disk root name ≡ ok spec)
    (given : get_provider makers spec.provider s ≡ (ok p, s₁)) where
  -- `start` behind its two lookups.
  start-launch_all :
      start makers disk root name profile o s
      ≡ (lift (make_plan spec.instances name profile) >>= launch_all spec p o) s₁
  unfolding start
  start-launch_all =
      >>=-ok (lift (get disk root name)) _ s (rw got)
      ∙ >>=-ok (get_provider makers spec.provider) _ s given

  -- If `start` returns, it has started one instance for every step of the plan, in order, and each
  -- runs a profile of the manifest whose required capabilities the server has. The provider is
  -- assumed to return instances of the name, server and profile that it was asked for.
  pub start-IsSupported :
      (insts : List Instance) (s₂ : Session W)
      → Honours p
      → start makers disk root name profile o s ≡ (ok insts, s₂)
      → (plan : Plan) × (make_plan spec.instances name profile ≡ ok plan)
        × (instance_names insts ≡ plan_names plan)
        × All (IsSupported spec) insts
  start-IsSupported insts s₂ honours h =
      let (plan, s₃, planned, launched) =
        >>=-eq-ok (lift (make_plan spec.instances name profile)) _ s₁ (rw start-launch_all at h) in
      let (named, supported) = (launch_all-IsDone spec p o honours plan s₃).at insts s₂ launched in
      (plan, ap (λ r. r.0) planned, named, supported)

  -- A server without declared instances, the first required capability of whose profile it lacks,
  -- is refused with a `RuntimeError` before its provider is asked to start anything.
  pub start-refused :
      (prof : Profile) (flag : String) (flags : List Value)
      → spec.instances ≡ []
      → profile_for spec profile ≡ ok prof
      → prof.requires ≡ str flag ∷ flags
      → has_capability spec.capabilities flag ≡ false
      → start makers disk root name profile o s
        ≡ (err (runtime_error (lacks_capability spec.name prof.name flag)), s₁)
  unfolding make_plan launch_all check_requires
  start-refused prof flag flags none_declared found requires lacks =
      start-launch_all
      ∙ >>=-ok (lift (make_plan spec.instances name profile)) _ s₁ {a = (name, profile) ∷ []}
          {w' = s₁} (rw (none_declared, make_plan))
      ∙ >>=-ok (lift (profile_for spec profile)) _ s₁ {a = prof} {w' = s₁} (rw found)
      ∙ >>=-err (lift (check_requires spec prof prof.requires)) _ s₁ {w' = s₁}
          (rw (requires, check_requires, lacks))
