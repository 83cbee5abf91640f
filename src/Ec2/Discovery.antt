-- ===== src/Ec2/Discovery.antt =====
-- `dnslab/providers/ec2.py`: `discover`, which takes the tags for the truth and reconciles the state
-- file with them, and `target`, `logs`.
use gpt_jupyter_dns.Prelude.{
  ℕ, zero, suc, ◌+◌, ◌-◌, String, ◌<>◌, Bool, ◌||◌, ◌&&◌, not, Option, none, some, List, [], ◌∷◌,
  ◌==◌, contains, starts_with, length, leb, if◌then◌else◌,
}
use gpt_jupyter_dns.Dict.{Dict, lookup, keys}
use gpt_jupyter_dns.Result.{Result, ok, err}
use gpt_jupyter_dns.Action.{Action, pure, lift, catch, ◌>>=◌, ◌>>◌}
use gpt_jupyter_dns.Value.{
  Value, null, str, dict, end, ℤ, pos, negsuc, truthy, to_dict, get_or, has_text,
}
use gpt_jupyter_dns.Text.{join_texts}
use gpt_jupyter_dns.Model.{Profile, ServerSpec, Instance, Target}
use gpt_jupyter_dns.Registry.{Disk, get}
use gpt_jupyter_dns.State.{Env}
use gpt_jupyter_dns.State.Files.{Files, load_state, save_state}
use gpt_jupyter_dns.Ec2.{is_expired, running_time}
use gpt_jupyter_dns.Ec2.Cloud.{Cloud, Group, AwsInstance}
use gpt_jupyter_dns.Ec2.Access.{connect, describe, tags_dict}
use gpt_jupyter_dns.Ec2.Waits.{look}
use gpt_jupyter_dns.Ec2.Memory.{instances_of, remembered, forgotten, opt_text}

-- ACTIVE_STATES
abbrev pub active_states : List String
active_states = "pending" ∷ "running" ∷ "shutting-down" ∷ "stopping" ∷ "stopped" ∷ []

-- `a or b` on texts that may be missing
abbrev pub or_text : Option String → String → String
or_text none s = s
or_text (some t) s = if t == "" then s else t

abbrev pub text_or_default : Option String → String → String
text_or_default none s = s
text_or_default (some t) s = t

-- the id of the first security group whose name begins with `dnslab-`
first_lab_group : List Group → Option String
first_lab_group [] = none
first_lab_group (g ∷ gs) =
    let rest = first_lab_group gs in if starts_with g.name "dnslab-" then some g.id else rest

-- `known.get(name, {}).get("sg_id") or next(…, None)`
group_of : Dict Value → String → List Group → Result Value
unfolding first_lab_group
group_of known name groups = elim (to_dict (get_or known name (dict end))) [
  | err e ↦ err e
  | ok entry ↦ ok (
      if truthy (get_or entry "sg_id" null)
      then get_or entry "sg_id" null
      else opt_text (first_lab_group groups))
]

-- names of `known` that were not seen
unfoldable pub stale_names : List String → List String → List String
stale_names seen [] = []
stale_names seen (k ∷ ks) =
    let rest = stale_names seen ks in if contains k seen then rest else k ∷ rest

-- `splitlines()[-tail:]`, which for 0 is everything
drop : ℕ → List String → List String
drop zero ss = ss
drop (suc n) [] = []
drop (suc n) (s ∷ ss) = drop n ss

last_lines : ℤ → List String → List String
unfolding drop
last_lines (pos n) ss = if leb n 0 then ss else drop (length ss - n) ss
last_lines (negsuc n) ss = drop (n + 1) ss

module _ {W : Type 0} (cloud : Cloud W) (files : Files W) (env : Env) where
  -- `_remember` and `_forget`
  unfoldable pub remember : Instance → Action W (Unit {0})
  remember i = do
    st ← load_state files env "ec2"
    st' ← lift (remembered i st)
    save_state files env "ec2" st'

  unfoldable pub forget : List String → Action W (Unit {0})
  forget names = do
    st ← load_state files env "ec2"
    st' ← lift (forgotten names st)
    save_state files env "ec2" st'

  -- the state, its running time when that is known, and whether it has expired
  unfoldable pub status_text : AwsInstance → Dict String → ℕ → String
  status_text aws tags now =
      (elim (running_time cloud.fromisoformat cloud.strftime aws.launched now) [
        | none ↦ aws.state
        | some t ↦ aws.state <> " " <> cloud.hours_text t <> "h"
      ])
      <> (if not (text_or_default (lookup "dnslab-expires" tags) "" == "")
            && is_expired cloud.fromisoformat cloud.strftime
                (text_or_default (lookup "dnslab-expires" tags) "") now
          then " EXPIRED"
          else "")

  -- the name in the tags, or else the id
  unfoldable pub name_of : AwsInstance → String
  unfolding tags_dict
  name_of aws = or_text (lookup "dnslab-instance" (tags_dict aws.tags)) aws.id

  instance_of : Dict Value → ℕ → AwsInstance → Result Instance
  unfolding name_of status_text group_of
  instance_of known now aws =
      let tags = tags_dict aws.tags in
      let name = name_of aws in
      elim (group_of known name aws.groups) [
        | err e ↦ err e
        | ok sg_id ↦ ok (record {
          name = name;
          server = text_or_default (lookup "dnslab-server" tags) name;
          profile = text_or_default (lookup "dnslab-profile" tags) "?";
          provider = "ec2";
          id = aws.id;
          host = or_text aws.public_dns (or_text aws.public_ip name);
          ip = aws.public_ip;
          status = status_text aws tags now;
          extra =
              ("session", str (text_or_default (lookup "dnslab-session" tags) ""))
              ∷ ("expires", str (text_or_default (lookup "dnslab-expires" tags) ""))
              ∷ ("launched", str aws.launched)
              ∷ ("sg_id", sg_id)
              ∷ [];
        })
      ]

  unfoldable pub instances_from : Dict Value → ℕ → List AwsInstance → Result (List Instance)
  unfolding instance_of
  instances_from known now [] = ok []
  instances_from known now (aws ∷ rest) = elim (instance_of known now aws) [
    | err e ↦ err e
    | ok i ↦ elim (instances_from known now rest) [ err e ↦ err e | ok is ↦ ok (i ∷ is) ]
  ]

  unfoldable pub remember_all : List Instance → Action W (Unit {0})
  unfolding remember
  remember_all [] = pure tt
  remember_all (i ∷ is) = do remember i; remember_all is

  unfoldable pub forget_stale : List String → Action W (Unit {0})
  unfolding forget
  forget_stale [] = pure tt
  forget_stale (n ∷ ns) = forget (n ∷ ns)

  abbrev pub names_of : List Instance → List String
  names_of [] = []
  names_of (i ∷ is) = i.name ∷ names_of is

  unfoldable pub discover : Action W (List Instance)
  unfolding instances_from remember_all forget_stale stale_names
  discover = do
    st ← load_state files env "ec2"
    known ← lift (instances_of st)
    found ← describe cloud active_states
    now ← look cloud cloud.now
    out ← lift (instances_from known now found)
    forget_stale (stale_names (names_of out) (keys known))
    remember_all out
    pure out

  -- `logs`
  console : Instance → ℤ → Option String → String
  unfolding last_lines
  console i tail output =
      let text = or_text output "" in
      let shown =
        if text == ""
        then i.name <> ": console output empty (still booting?)"
        else (elim (cloud.b64decode text) [ ok decoded ↦ decoded | err e ↦ text ]) in
      join_texts "\n" (last_lines tail (cloud.splitlines shown))

  unfoldable pub logs : Instance → ℤ → Action W String
  unfolding console
  logs i tail = do
    output ←
        catch (connect cloud "ec2" >>= λ _. cloud.get_console_output i.id >>= λ o. pure (ok o))
          λ e. some (pure (err e))
    pure (elim output [
      | ok o ↦ console i tail o
      | err e ↦ i.name <> ": console output unavailable (" <> cloud.str_error e <> ")"
    ])

-- `target`: a profile that the manifest no longer has counts as one that listens on Do53
listens : Option Profile → String → Bool
listens none l = l == "do53"
listens (some p) l = has_text l p.listeners

target_from : ServerSpec → Instance → Target
unfolding listens
target_from spec i =
    let caps = spec.capabilities in
    let profile = lookup i.profile spec.profiles in
    record {
      name = i.name;
      host = i.host;
      ip = text_or_default i.ip "";
      port_do53 =
          if listens profile "do53" && caps.do53_listener then lookup "do53" spec.ports else none;
      port_dot =
          if listens profile "dot" && (caps.dot_listener || caps.dot_listener_via_proxy)
          then lookup "dot" spec.ports
          else none;
      tls_hostname = i.host;
      ca_file = "";
      provider = "ec2";
      profile = i.profile;
      capabilities = caps;
    }

module _ {W : Type 0} where
  unfoldable pub target : Disk → String → Instance → Action W Target
  unfolding target_from
  target disk root i = do spec ← lift (get disk root i.server); pure (target_from spec i)
