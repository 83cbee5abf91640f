-- ===== src/Tests/Facade.antt =====
-- The facade's theorems, over a world of two lists of names: the containers and the machines.
use gpt_jupyter_dns.Prelude.{
  String, ◌≡◌, refl, true, false, none, some, List, [], ◌∷◌, ◌==◌, All, if◌then◌else◌,
}
use gpt_jupyter_dns.Dict.{lookup}
use gpt_jupyter_dns.Result.{
  Result, ok, err, other_error, runtime_error, foreign, Reason, not_implemented, lacks_capability,
}
use gpt_jupyter_dns.Action.{Action, pure, raise}
use gpt_jupyter_dns.Model.{Instance, profile_for}
use gpt_jupyter_dns.Registry.{get}
use gpt_jupyter_dns.Provider.{StartOptions, Provider, Makers, Session, get_provider}
use gpt_jupyter_dns.Facade.{matching, find, stop, nuke, start, make_plan, Plan, has_capability}
use gpt_jupyter_dns.Facade.Plan.{
  instance_names, plan_names, IsSupported, Honours, start-IsSupported, start-refused,
}
use gpt_jupyter_dns.Result.{ambiguous}
use gpt_jupyter_dns.Facade.{all_instances, target}
use gpt_jupyter_dns.Facade.Status.{target-ambiguous}
use gpt_jupyter_dns.Facade.Nuke.{nuke-swallows, nuke-isolates}
use gpt_jupyter_dns.Ec2.Cloud.{Cloud, AwsInstance}
use gpt_jupyter_dns.Ec2.Access.{connect, describe}
use gpt_jupyter_dns.Ec2.Discovery.{active_states}
use gpt_jupyter_dns.Ec2.Teardown.{terminable}
use gpt_jupyter_dns.Ec2.Contract.{ec2_provider}
use gpt_jupyter_dns.Tests.Aws.{idle, still}
use gpt_jupyter_dns.Tests.Registry.{bind-loads}
use gpt_jupyter_dns.Tests.{lab_disk, bind_spec, tls_profile}

-- The names of the containers, and of the machines.
abbrev World : Type 0
World = List String × List String

abbrev box : String → String → Instance
box provider n = record {
  name = n;
  server = "bind";
  profile = "plain";
  provider = provider;
  id = n;
  host = n;
  ip = none;
  status = "running";
  extra = [];
}

abbrev boxes : String → List String → List Instance
boxes provider [] = []
boxes provider (n ∷ ns) = box provider n ∷ boxes provider ns

abbrev remove : String → List String → List String
remove n [] = []
remove n (m ∷ ms) = let rest = remove n ms in if m == n then rest else m ∷ rest

-- A provider of which only the way it stops, discovers and tears down is told apart.
abbrev provider_with :
    String
    → (Instance → World → World)
    → (World → List Instance)
    → Action World (List String)
    → Provider World
provider_with name stop discover nuke = record {
  start = λ spec prof n o w.
      (ok (record (box name n) { server = spec.name; profile = prof.name }), (n ∷ w.0, w.1));
  stop = λ i w. (ok tt, stop i w);
  discover = λ w. (ok (discover w), w);
  target = λ i w. (err not_implemented, w);
  logs = λ i tail w. (ok "", w);
  nuke = nuke;
}

abbrev fails : Action World (List String)
fails w = (err (runtime_error (foreign "the teardown failed")), w)

abbrev clears : Action World (List String)
clears w = (ok ("ns1" ∷ []), w)

abbrev docker_with : Action World (List String) → Provider World
docker_with nuke =
    provider_with "docker" (λ i w. (remove i.name w.0, w.1)) (λ w. boxes "docker" w.0) nuke

abbrev ec2_with : Action World (List String) → Provider World
ec2_with nuke = provider_with "ec2" (λ i w. (w.0, remove i.name w.1)) (λ w. boxes "ec2" w.1) nuke

abbrev makers_with : Action World (List String) → Action World (List String) → Makers World
makers_with docker_nuke ec2_nuke = record {
  docker = λ w. (ok (docker_with docker_nuke), w);
  ec2 = λ w. (ok (ec2_with ec2_nuke), w);
  external = λ w. (err not_implemented, w);
}

-- Nothing is cached; two containers and a machine run.
abbrev busy : Session World
busy = record { cache = []; world = ("ns1" ∷ "ns2" ∷ [], "ns1" ∷ []) }

abbrev with_docker : Action World (List String) → Session World
with_docker nuke = record busy { cache = ("docker", docker_with nuke) ∷ [] }

abbrev with_both : Action World (List String) → Action World (List String) → Session World
with_both docker_nuke ec2_nuke = record busy {
  cache = ("docker", docker_with docker_nuke) ∷ ("ec2", ec2_with ec2_nuke) ∷ [];
}

gets-docker :
    (a b : Action World (List String))
    → get_provider (makers_with a b) "docker" busy ≡ (ok (docker_with a), with_docker a)
unfolding get_provider lookup gpt_jupyter_dns.Action.◌>>=◌ gpt_jupyter_dns.Dict.insert
gets-docker a b = refl

gets-ec2 :
    (a b : Action World (List String))
    → get_provider (makers_with a b) "ec2" (with_docker a) ≡ (ok (ec2_with b), with_both a b)
unfolding get_provider lookup gpt_jupyter_dns.Action.◌>>=◌ gpt_jupyter_dns.Dict.insert
gets-ec2 a b = refl

-- An account without the right to terminate its one machine.
abbrev machine : AwsInstance
machine = record {
  id = "i-1";
  state = "running";
  tags = ("dnslab-instance", "ns1") ∷ [];
  launched = "then";
  public_dns = some "h";
  public_ip = some "198.51.100.4";
  groups = [];
}

abbrev refusing : Cloud World
refusing = record (idle (λ w. 0) λ n. pure tt) {
  describe_pages = λ states. pure (((machine ∷ []) ∷ []) ∷ []);
  terminate_instances = λ ids. raise (other_error "UnauthorizedOperation");
}

abbrev amazon : Provider World
amazon = ec2_provider refusing still [] lab_disk "servers"

abbrev real_makers : Makers World
real_makers = record (makers_with clears clears) { ec2 = λ w. (ok amazon, w) }

abbrev with_amazon : Session World
with_amazon = record busy { cache = ("docker", docker_with clears) ∷ ("ec2", amazon) ∷ [] }

gets-docker_too :
    get_provider real_makers "docker" busy ≡ (ok (docker_with clears), with_docker clears)
unfolding get_provider lookup gpt_jupyter_dns.Action.◌>>=◌ gpt_jupyter_dns.Dict.insert
gets-docker_too = refl

gets-amazon : get_provider real_makers "ec2" (with_docker clears) ≡ (ok amazon, with_amazon)
unfolding get_provider lookup gpt_jupyter_dns.Action.◌>>=◌ gpt_jupyter_dns.Dict.insert
gets-amazon = refl

connects : connect refusing "ec2" busy.world ≡ (ok tt, busy.world)
unfolding connect gpt_jupyter_dns.Action.◌>>=◌ gpt_jupyter_dns.Action.catch
connects = refl

lists : describe refusing active_states busy.world ≡ (ok (machine ∷ []), busy.world)
unfolding describe connect gpt_jupyter_dns.Action.◌>>=◌ gpt_jupyter_dns.Action.catch
lists = refl

runs : terminable (machine ∷ []) ≡ "i-1" ∷ []
unfolding terminable
runs = refl

nuke-swallows_example :
    nuke real_makers busy ≡ (ok (("docker", "ns1" ∷ []) ∷ ("ec2", []) ∷ []), with_amazon)
nuke-swallows_example =
    nuke-swallows real_makers refusing still [] lab_disk "servers" (docker_with clears) ("ns1" ∷ [])
      (machine ∷ []) "i-1" [] (other_error "UnauthorizedOperation") busy (with_docker clears)
      with_amazon busy.world busy.world busy.world busy.world gets-docker_too refl gets-amazon
      connects lists runs refl

nuke-isolates_example :
    nuke (makers_with fails clears) busy
    ≡ (ok (("docker", []) ∷ ("ec2", "ns1" ∷ []) ∷ []), with_both fails clears)
nuke-isolates_example =
    nuke-isolates (makers_with fails clears) (docker_with fails) (ec2_with clears) ("ns1" ∷ [])
      (foreign "the teardown failed") busy (with_docker fails) (with_both fails clears) busy.world
      busy.world (gets-docker fails clears) refl (gets-ec2 fails clears) refl

abbrev no_options : StartOptions
no_options = record { wait = true; timeout = none; force = false; overrides = [] }

abbrev launched : Instance
launched = box "docker" "bind"

abbrev after_launch : Session World
after_launch = record (with_docker clears) { world = ("bind" ∷ "ns1" ∷ "ns2" ∷ [], "ns1" ∷ []) }

docker-Honours : Honours (docker_with clears)
docker-Honours spec prof name o w i h = (cc, cc, cc)

gets-bind : get lab_disk "servers" "bind" ≡ ok bind_spec
unfolding get
gets-bind = bind-loads

starts-bind :
    start (makers_with clears clears) lab_disk "servers" "bind" none no_options busy
    ≡ (ok (launched ∷ []), after_launch)
unfolding start gpt_jupyter_dns.Action.◌>>=◌ get gpt_jupyter_dns.Registry.load_manifest
    gpt_jupyter_dns.Result.◌>>=◌ gpt_jupyter_dns.Dict.has_key gpt_jupyter_dns.Value.to_dict
    gpt_jupyter_dns.Model.profile_from_dict gpt_jupyter_dns.Value.subscript
    gpt_jupyter_dns.Value.iterate gpt_jupyter_dns.Value.to_int
    gpt_jupyter_dns.Model.capabilities_from_dict gpt_jupyter_dns.Value.to_set get_provider
    profile_for gpt_jupyter_dns.Facade.check_requires gpt_jupyter_dns.Dict.insert
starts-bind = refl

start-IsSupported_example :
    (plan : Plan) × (make_plan bind_spec.instances "bind" none ≡ ok plan)
    × (instance_names (launched ∷ []) ≡ plan_names plan)
    × All (IsSupported bind_spec) (launched ∷ [])
start-IsSupported_example =
    start-IsSupported (makers_with clears clears) lab_disk "servers" "bind" none no_options busy
      (with_docker clears) bind_spec (docker_with clears) gets-bind (gets-docker clears clears)
      (launched ∷ []) after_launch docker-Honours starts-bind

finds-tls : profile_for bind_spec (some "tls") ≡ ok tls_profile
unfolding profile_for gpt_jupyter_dns.Result.◌>>=◌
finds-tls = refl

lacks-client : has_capability bind_spec.capabilities "dot_client" ≡ false
unfolding has_capability
lacks-client = refl

start-refused_example :
    start (makers_with clears clears) lab_disk "servers" "bind" (some "tls") no_options busy
    ≡ (err (runtime_error (lacks_capability "bind" "tls" "dot_client")), with_docker clears)
start-refused_example =
    start-refused (makers_with clears clears) lab_disk "servers" "bind" (some "tls") no_options busy
      (with_docker clears) bind_spec (docker_with clears) gets-bind (gets-docker clears clears)
      tls_profile "dot_client" [] refl finds-tls refl lacks-client

sees_all :
    all_instances (makers_with clears clears) busy
    ≡ (ok (box "docker" "ns1" ∷ box "docker" "ns2" ∷ box "ec2" "ns1" ∷ []), with_both clears clears)
unfolding all_instances get_provider lookup gpt_jupyter_dns.Action.◌>>=◌ gpt_jupyter_dns.Dict.insert
    gpt_jupyter_dns.Action.catch
sees_all = refl

target-ambiguous_example :
    target (makers_with clears clears) lab_disk "servers" "ns1" busy
    ≡ (err (runtime_error (ambiguous "ns1")), with_both clears clears)
target-ambiguous_example =
    target-ambiguous (makers_with clears clears) lab_disk "servers" "ns1" []
      (box "docker" "ns2" ∷ []) [] (box "docker" "ns1") (box "ec2" "ns1") busy
      (with_both clears clears) sees_all refl refl

-- The session when the container and the machine of this name are gone.
abbrev quiet : Session World
quiet = record (with_both clears clears) { world = ("ns2" ∷ [], []) }

stops_ns1 :
    stop (makers_with clears clears) (some "ns1") false busy ≡ (ok ("ns1" ∷ "ns1" ∷ []), quiet)
unfolding stop gpt_jupyter_dns.Action.◌>>=◌ find all_instances gpt_jupyter_dns.Action.catch
    get_provider lookup gpt_jupyter_dns.Dict.insert matching
stops_ns1 = refl
