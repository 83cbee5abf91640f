-- ===== src/Selfcheck.antt =====
-- `dnslab/selfcheck.py`: the lint of all manifests and templates, with its exit code. The template engine,
-- `subprocess` and the temporary file are the parameter `Tools`; what is printed is a `Line`, with the
-- texts that it carries.
pub mod Tally
pub mod Failures
use gpt_jupyter_dns.Prelude.{
  ℕ, zero, suc, ◌+◌, String, ◌<>◌, Bool, true, false, ◌||◌, not, Option, none, some, List, [], ◌∷◌,
  ◌++◌, ◌==◌, eqb, sorted, text_le, if◌then◌else◌,
}
use gpt_jupyter_dns.Dict.{Dict, lookup, insert, merge, has_key}
use gpt_jupyter_dns.Result.{
  Result, ok, err, Error, manifest_error, key_error, attribute_error, index_error,
}
use gpt_jupyter_dns.Action.{Action, pure, raise, lift, catch, ◌>>=◌, ◌>>◌}
use gpt_jupyter_dns.Value.{
  Value, null, bool, int, str, dict, field, end, ℤ, pos, negsuc, truthy, get_or, has_text,
}
use gpt_jupyter_dns.Text.{strip, has_substring}
use gpt_jupyter_dns.Model.{Profile, ServerSpec}
use gpt_jupyter_dns.Registry.{Disk, discover, get}
use gpt_jupyter_dns.Certs.{unique}

-- What is printed: a label, and what is wrong with it.
pub data Line : Type 0 where
  fine : String → Line
  failed : String → String → Line
  -- to the standard error
  not_loaded : Error → Line
  nothing_found : Line
  -- how many servers, and how many failures
  summary : ℕ → ℕ → Line

pub record Completed : Type 0 where
  pub returncode : ℤ
  pub stdout : String
  pub stderr : String

pub record Tools (W : Type 0) : Type 0 where
  -- a template of a directory, rendered with strict undefined names; `jinja2.TemplateError`
  pub render : String → Value → Dict Value → Action W String
  pub is_template_error : Error → Bool
  pub print : Line → Action W (Unit {0})
  pub which : String → Action W Bool
  -- a new temporary file's name, and writing and removing it
  pub make_temp : Action W String
  pub write_temp : String → String → Action W (Unit {0})
  pub unlink : String → Action W (Unit {0})
  -- `subprocess.run` with its output captured and thirty seconds
  pub run : List String → Action W Completed
  pub split : String → List String
  -- `tool.format(config=path)`
  pub format : String → String → Result String
  -- `str` of an exception
  pub str_error : Error → String

-- DUMMY_UPSTREAM, with a port
abbrev pub dummy_upstream : ℕ → Value
dummy_upstream port = dict (
    field "host" (str "upstream.dnslab.test") (
      field "ip" (str "192.0.2.53")
        (field "port" (int (pos port)) (field "tls_hostname" (str "upstream.dnslab.test") end))))

unfoldable pub dummy_context : ServerSpec → Profile → Dict Value
unfolding merge
dummy_context spec profile =
    merge
      (("instance_name", str spec.name)
        ∷ ("tls_hostname", str (spec.name <> ".dnslab.test"))
        ∷ ("tls_cert_path", str ("/dnslab/certs/" <> spec.name <> ".pem"))
        ∷ ("tls_key_path", str ("/dnslab/certs/" <> spec.name <> ".key"))
        ∷ ("ca_path", str "/dnslab/certs/dnslab-ca.pem")
        ∷ ("zones_dir", str "/dnslab/zones")
        ∷ ("listen_do53", bool (has_text "do53" profile.listeners))
        ∷ ("listen_dot", bool (has_text "dot" profile.listeners))
        ∷ ("port_do53", int (elim (lookup "do53" spec.ports) [ none ↦ pos 53 | some p ↦ p ]))
        ∷ ("port_dot", int (elim (lookup "dot" spec.ports) [ none ↦ pos 853 | some p ↦ p ]))
        ∷ ("upstream_ca_path", null)
        ∷ ("upstream_do53", dummy_upstream 53)
        ∷ ("upstream_dot", dummy_upstream 853)
        ∷ [])
      profile.extra

-- `sorted(d.items())`: the keys differ, so the values are not compared
insert_item : {V : Type 0} → String × V → Dict V → Dict V
insert_item e [] = e ∷ []
insert_item e (f ∷ d) =
    let rest = insert_item e d in if text_le e.0 f.0 then e ∷ f ∷ d else f ∷ rest

unfoldable pub sorted_items : {V : Type 0} → Dict V → Dict V
unfolding insert_item
sorted_items [] = []
sorted_items (e ∷ d) = insert_item e (sorted_items d)

abbrev first_of : List String → Result String
first_of [] = err index_error
first_of (s ∷ ss) = ok s

abbrev as_text : Value → Result String
as_text (str s) = ok s
as_text v = err attribute_error

abbrev or_stdout : Completed → String
or_stdout r = if strip r.stderr == "" then strip r.stdout else strip r.stderr

abbrev is_success : ℤ → Bool
is_success (pos n) = eqb n 0
is_success (negsuc n) = false

-- `{name: get(name) for name in names}`
load_named : Disk → String → List String → Dict ServerSpec → Result (Dict ServerSpec)
load_named disk root [] specs = ok specs
load_named disk root (name ∷ names) specs = elim (get disk root name) [
  | err e ↦ err e
  | ok spec ↦ load_named disk root names (insert name spec specs)
]

abbrev is_not_loaded : Error → Bool
is_not_loaded (manifest_error f) = true
is_not_loaded (key_error k) = true
is_not_loaded e = false

abbrev is_manifest_error : Error → Bool
is_manifest_error (manifest_error f) = true
is_manifest_error e = false

abbrev count : {V : Type 0} → Dict V → ℕ
count [] = 0
count (e ∷ d) = suc (count d)

module _ {W : Type 0} (tools : Tools W) where
  -- `try: m finally: cleanup`
  abbrev finally : {A : Type 0} → Action W A → Action W (Unit {0}) → Action W A
  finally m cleanup w = (cleanup >>= λ _. lift (m w).0) (m w).1

  -- The command, and what it finds wrong.
  lint_file : String → String → Action W (Option String)
  lint_file tool path = do
    cmd ← lift (
        if has_substring "{config}" tool
        then (elim (tools.format tool path) [ ok s ↦ ok (tools.split s) | err e ↦ err e ])
        else ok (tools.split tool ++ path ∷ []))
    r ← tools.run cmd
    pure (if is_success r.returncode then none else some (tool <> ": " <> or_stdout r))

  lint_with : String → String → Bool → Action W (Option String)
  unfolding lint_file
  lint_with rendered tool false = pure none
  lint_with rendered tool true = do
    path ← tools.make_temp
    tools.write_temp path rendered
    finally (lint_file tool path) (tools.unlink path)

  unfoldable pub lint_rendered : ServerSpec → String → Action W (Option String)
  unfolding lint_with
  lint_rendered spec rendered =
      if truthy (get_or spec.raw "lint" null)
      then (do
        tool ← lift (as_text (get_or spec.raw "lint" null))
        program ← lift (first_of (tools.split tool))
        found ← tools.which program
        lint_with rendered tool found)
      else pure none

  -- the line on a profile that was rendered
  linted : String → Option String → Action W ℕ
  linted label none = do tools.print (fine label); pure 0
  linted label (some e) =
      if e == ""
      then (do tools.print (fine label); pure 0)
      else (do tools.print (failed label e); pure 1)

  render_and_lint : ServerSpec → Profile → String → Action W ℕ
  unfolding linted
  render_and_lint spec profile label = do
    rendered ← tools.render spec.dir profile.template (dummy_context spec profile)
    e ← lint_rendered spec rendered
    linted label e

  -- one profile, and 1 if it fails
  pub check_profile : ServerSpec → Profile → String → Action W ℕ
  unfolding render_and_lint
  check_profile spec profile label = catch (render_and_lint spec profile label) λ e.
      if tools.is_template_error e || is_manifest_error e
      then some (do tools.print (failed label (tools.str_error e)); pure 1)
      else none

  check_profiles : ServerSpec → String → Dict Profile → ℕ → Action W ℕ
  unfolding check_profile
  check_profiles spec name [] failures = pure failures
  check_profiles spec name ((pname, profile) ∷ rest) failures = do
    n ← check_profile spec profile (name <> ":" <> pname)
    check_profiles spec name rest (failures + n)

  check_instances : ServerSpec → String → Dict String → ℕ → Action W ℕ
  check_instances spec name [] failures = pure failures
  check_instances spec name ((iname, pname) ∷ rest) failures =
      if has_key pname spec.profiles
      then check_instances spec name rest failures
      else (do tools.print (failed name pname); check_instances spec name rest (failures + 1))

  check_specs : Dict ServerSpec → ℕ → Action W ℕ
  unfolding check_profiles check_instances sorted_items
  check_specs [] failures = pure failures
  check_specs ((name, spec) ∷ rest) failures = do
    n ← check_profiles spec name (sorted_items spec.profiles) failures
    m ← check_instances spec name spec.instances n
    check_specs rest m

  check_all : Dict ServerSpec → Action W ℕ
  unfolding check_specs
  check_all [] = do tools.print nothing_found; pure 2
  check_all (e ∷ specs) = do
    failures ← check_specs (sorted_items (e ∷ specs)) 0
    tools.print (summary (count (e ∷ specs)) failures)
    pure (if eqb failures 0 then 0 else 1)

  check_loaded : Result (Dict ServerSpec) → Action W ℕ
  unfolding check_all
  check_loaded (ok specs) = check_all specs
  check_loaded (err e) =
      if is_not_loaded e then (do tools.print (not_loaded e); pure 2) else raise e

  -- `main`, which returns the exit code
  unfoldable pub main : Disk → String → List String → Action W ℕ
  unfolding check_loaded load_named
  main disk root [] = lift (discover disk root true) >>= λ specs. check_all specs
  main disk root (name ∷ names) =
      check_loaded (load_named disk root (sorted (unique [] (name ∷ names))) [])
