-- ===== src/Registry/Loaded.antt =====
-- What a manifest that loads is known to satisfy.
use gpt_jupyter_dns.Prelude.{
  String, ◌<>◌, ◌≡◌, refl, ◌≢◌, true, [], ◌∷◌, All, contains, eq_iff, arith,
}
use gpt_jupyter_dns.Dict.{Dict, has_key}
use gpt_jupyter_dns.Result.{Error, ok, guard, guard-eq-ok, OnOk, OnOk-return, OnOk-bind, ◌>>=◌}
use gpt_jupyter_dns.Value.{Value, null, str, get_or, is_text, to_int, to_dict}
use gpt_jupyter_dns.Model.{Profile, capabilities_from_dict, ServerSpec}
use gpt_jupyter_dns.Registry.{
  Disk, valid_providers, required_keys, join, has_template, check_templates, as_provider,
  known_profile, check_instances, nonempty, name_text, build_spec, load_body, load_manifest,
  as_mapping, require_keys, load_profiles, load_instances, load_ports,
}

-- The template of a profile is a text, and names a file below the server's directory.
abbrev pub HasTemplate : Disk → String → String × Profile → Type 0
HasTemplate disk dir (k, p) =
    (t : String) × (p.template ≡ str t) × (disk.is_file (join dir t) ≡ true)

-- An instance's profile is declared.
abbrev pub HasProfile : Dict Profile → String × String → Type 0
HasProfile profiles (i, p) = has_key p profiles ≡ true

pub record IsWellFormed (disk : Disk) (root name : String) (s : ServerSpec) : Type 0 where
  pub named : s.name ≡ name
  pub placed : s.dir ≡ root <> "/" <> name
  pub provided : contains s.provider valid_providers ≡ true
  pub profiled : s.profiles ≢ []
  pub templates : All (HasTemplate disk s.dir) s.profiles
  pub instances : All (HasProfile s.profiles) s.instances

has_template-HasTemplate :
    (disk : Disk) (dir k : String) (p : Profile)
    → has_template disk dir p.template ≡ ok true
    → HasTemplate disk dir (k, p)
unfolding has_template
has_template-HasTemplate disk dir k p h = ground arith

check_templates-All :
    (disk : Disk) (dir : String) (ps : Dict Profile)
    → check_templates disk dir ps ≡ ok tt
    → All (HasTemplate disk dir) ps
unfolding check_templates ◌>>=◌
check_templates-All disk dir [] h = tt
check_templates-All disk dir ((k, p) ∷ ps) h = (
  has_template-HasTemplate disk dir k p (ground arith),
  check_templates-All disk dir ps (ground arith),
)

known_profile-HasProfile :
    (profiles : Dict Profile) (i : String) (v : Value)
    → OnOk (λ p. HasProfile profiles (i, p)) (known_profile profiles i v)
unfolding known_profile
known_profile-HasProfile profiles i v = record { at = λ p e. ground arith }

check_instances-All :
    (profiles : Dict Profile) (raw : Dict Value)
    → OnOk (All (HasProfile profiles)) (check_instances profiles raw)
unfolding check_instances
check_instances-All profiles [] = OnOk-return _ [] tt
check_instances-All profiles ((i, v) ∷ raw) = OnOk-bind _ (known_profile profiles i v) _ λ p e.
    OnOk-bind _ (check_instances profiles raw) _ λ checked e'. OnOk-return _ ((i, p) ∷ checked) (
      (known_profile-HasProfile profiles i v).at p e,
      (check_instances-All profiles raw).at checked e',
    )

nonempty-ne-nil : (ps : Dict Profile) (e : Error) → guard (nonempty ps) e ≡ ok tt → ps ≢ []
unfolding nonempty
nonempty-ne-nil [] e h = absurd (cc)
nonempty-ne-nil (p ∷ ps) e h = λ q. cc

name_text-named :
    (name : String) (v : Value) (n : String) → is_text name v ≡ true → name_text v ≡ ok n → n ≡ name
unfolding name_text
name_text-named name v n named is_name = ground (arith, eq_iff n name)

-- A spec that is built from parts that passed the checks is well formed.
build_spec-IsWellFormed :
    (disk : Disk) (root name provider : String) (raw : Dict Value) (profiles : Dict Profile)
    (instances : Dict String)
    → is_text name (get_or raw "name" null) ≡ true
    → contains provider valid_providers ≡ true
    → profiles ≢ []
    → All (HasTemplate disk (root <> "/" <> name)) profiles
    → All (HasProfile profiles) instances
    → OnOk
        (IsWellFormed disk root name)
        (build_spec (root <> "/" <> name) provider raw profiles instances)
unfolding build_spec
build_spec-IsWellFormed disk root name provider raw profiles instances named valid some all_found
      known =
    OnOk-bind _ (name_text (get_or raw "name" null)) _ λ n is_name. OnOk-bind _ (to_int _) _ λ _ _.
      OnOk-bind _ (capabilities_from_dict _) _ λ _ _. OnOk-bind _ (to_dict _) _ λ port_values _.
        OnOk-bind _ (load_ports port_values) _ λ _ _.
          OnOk-return (IsWellFormed disk root name) _ (record {
            named = name_text-named name (get_or raw "name" null) n named is_name;
            placed = refl;
            provided = valid;
            profiled = some;
            templates = all_found;
            instances = known;
          })

load_body-IsWellFormed :
    (disk : Disk) (root name provider : String) (raw : Dict Value)
    → is_text name (get_or raw "name" null) ≡ true
    → contains provider valid_providers ≡ true
    → OnOk (IsWellFormed disk root name) (load_body disk (root <> "/" <> name) provider raw)
unfolding load_body
load_body-IsWellFormed disk root name provider raw named valid = OnOk-bind _ (to_dict _) _ λ _ _.
    OnOk-bind _ (load_profiles _) _ λ profiles _. OnOk-bind _ (guard _ _) _ λ _ some.
      OnOk-bind _ (check_templates disk (root <> "/" <> name) profiles) _ λ _ found.
        OnOk-bind _ (to_dict _) _ λ _ _. OnOk-bind _ (load_instances _) _ λ raw_instances _.
          OnOk-bind (IsWellFormed disk root name) (check_instances _ _) _ λ instances known.
            build_spec-IsWellFormed disk root name provider raw profiles instances named valid
              (nonempty-ne-nil profiles _ some) (check_templates-All disk _ profiles found)
              ((check_instances-All profiles raw_instances).at instances known)

as_provider-valid : (v : Value) → OnOk (λ p. contains p valid_providers ≡ true) (as_provider v)
unfolding as_provider
as_provider-valid v = record { at = λ p e. ground arith }

-- A manifest that loads gives a spec with the directory's name, a known provider, at least one
-- profile, a template file for every profile, and a declared profile for every instance.
pub load_manifest-IsWellFormed :
    (disk : Disk) (root name : String) {s : ServerSpec}
    → load_manifest disk root name ≡ ok s
    → IsWellFormed disk root name s
unfolding load_manifest
load_manifest-IsWellFormed disk root name {s} =
    (OnOk-bind (IsWellFormed disk root name) (disk.read _) _ λ v _.
        OnOk-bind _ (as_mapping v) _ λ raw _. OnOk-bind _ (require_keys required_keys raw) _ λ _ _.
          OnOk-bind _ (as_provider (get_or raw "provider" null)) _ λ provider e.
            OnOk-bind _ (guard _ _) _ λ _ named.
              load_body-IsWellFormed disk root name provider raw (guard-eq-ok _ _ named)
                ((as_provider-valid (get_or raw "provider" null)).at provider e)).at
      s
