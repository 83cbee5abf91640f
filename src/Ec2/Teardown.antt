-- ===== src/Ec2/Teardown.antt =====
-- `dnslab/providers/ec2.py`: `stop` and `nuke`.
pub mod Order
use gpt_jupyter_dns.Prelude.{String, ◌<>◌, some, List, [], ◌∷◌, ◌++◌, ◌==◌, if◌then◌else◌}
use gpt_jupyter_dns.Dict.{lookup}
use gpt_jupyter_dns.Result.{Result, ok, err}
use gpt_jupyter_dns.Action.{Action, pure, lift, catch, ◌>>=◌, ◌>>◌}
use gpt_jupyter_dns.Value.{Value, null, dict, field, end, truthy, to_dict, to_text, get_or}
use gpt_jupyter_dns.Text.{repr_list}
use gpt_jupyter_dns.Model.{Instance}
use gpt_jupyter_dns.State.{Env}
use gpt_jupyter_dns.State.Files.{Files, load_state, save_state}
use gpt_jupyter_dns.Ec2.Cloud.{Cloud, Group, AwsInstance}
use gpt_jupyter_dns.Ec2.Access.{connect, describe, tags_dict, or_wrap, unless_text}
use gpt_jupyter_dns.Ec2.Waits.{delete_sg, sg_delete_retry}
use gpt_jupyter_dns.Ec2.Memory.{instances_of}
use gpt_jupyter_dns.Ec2.Discovery.{forget, active_states, text_or_default}

-- The ids of the instances that are not shutting down already.
unfoldable pub terminable : List AwsInstance → List String
terminable [] = []
terminable (i ∷ is) =
    let rest = terminable is in if i.state == "shutting-down" then rest else i.id ∷ rest

abbrev pub ids_of : List AwsInstance → List String
ids_of [] = []
ids_of (i ∷ is) = i.id ∷ ids_of is

-- the names that `nuke` reports: `tags.get(…, id)`
unfoldable pub removed_names : List AwsInstance → List String
unfolding tags_dict
removed_names [] = []
removed_names (i ∷ is) =
    text_or_default (lookup "dnslab-instance" (tags_dict i.tags)) i.id ∷ removed_names is

-- the group of the state file, when the instance does not carry one
state_group : String → Value → Result Value
unfolding instances_of
state_group name st = elim (instances_of st) [
  | err e ↦ err e
  | ok known ↦ elim (to_dict (get_or known name (dict end))) [
    | err e ↦ err e
    | ok entry ↦ ok (get_or entry "sg_id" null)
  ]
]

module _ {W : Type 0} (cloud : Cloud W) (files : Files W) (env : Env) where
  group_to_delete : Instance → Action W Value
  unfolding state_group
  group_to_delete i =
      if truthy (get_or i.extra "sg_id" null)
      then pure (get_or i.extra "sg_id" null)
      else (do st ← load_state files env "ec2"; lift (state_group i.name st))

  -- After the termination: the group is deleted when the instance is gone, or not waited for.
  delete_group : Instance → Value → Action W (Unit {0})
  delete_group i sg_id =
      if truthy sg_id
      then (do
        catch (cloud.wait_until "instance_terminated" (i.id ∷ []) 10 30) λ e. some (pure tt)
        delete_sg cloud (to_text sg_id) sg_delete_retry
        pure tt)
      else pure tt

  unfoldable pub stop : Instance → Action W (Unit {0})
  unfolding group_to_delete delete_group
  stop i = do
    connect cloud "ec2"
    sg_id ← group_to_delete i
    unless_text cloud "InvalidInstanceID.NotFound" ("terminating " <> i.id)
        (cloud.terminate_instances (i.id ∷ []))
    forget cloud files env (i.name ∷ [])
    delete_group i sg_id

  unfoldable pub terminate_all : List String → Action W (Unit {0})
  terminate_all [] = pure tt
  terminate_all (i ∷ is) =
      or_wrap cloud ("terminating " <> repr_list (i ∷ is)) (cloud.terminate_instances (i ∷ is))

  pub await_all : List String → Action W (Unit {0})
  await_all [] = pure tt
  await_all (i ∷ is) =
      or_wrap cloud "waiting for dnslab instances to terminate"
        (cloud.wait_until "instance_terminated" (i ∷ is) 10 60)

  -- the names of the groups, each deleted first
  delete_groups : List Group → Action W (List String)
  delete_groups [] = pure []
  delete_groups (g ∷ gs) = do
    delete_sg cloud g.id sg_delete_retry
    rest ← delete_groups gs
    pure (g.name ∷ rest)

  abbrev pub no_instances : Value
  no_instances = dict (field "instances" (dict end) end)

  unfoldable pub nuke : Action W (List String)
  unfolding terminate_all await_all delete_groups
  nuke = do
    connect cloud "ec2"
    instances ← describe cloud active_states
    terminate_all (terminable instances)
    await_all (ids_of instances)
    groups ←
        or_wrap cloud "describing dnslab-* security groups"
          (cloud.describe_security_groups "dnslab-*")
    names ← delete_groups groups
    save_state files env "ec2" no_instances
    pure (removed_names instances ++ names)
