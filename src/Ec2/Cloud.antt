-- ===== src/Ec2/Cloud.antt =====
-- The AWS services as `dnslab/providers/ec2.py` uses them, with the clock, the template engine and
-- the other libraries that it calls: `Cloud`, a parameter, over the state `W` of the world.
use gpt_jupyter_dns.Prelude.{ℕ, String, Bool, Option, List}
use gpt_jupyter_dns.Dict.{Dict}
use gpt_jupyter_dns.Result.{Result, Error}
use gpt_jupyter_dns.Action.{Action}
use gpt_jupyter_dns.Value.{Value, ℤ}
use gpt_jupyter_dns.Ec2.{Rule, Stamp}

-- A tag as the API lists it: its key and its value.
abbrev pub Tag : Type 0
Tag = String × String

pub record Group : Type 0 where
  pub id : String
  pub name : String

-- What is read of an instance's description. `launched` is its launch time in ISO format.
pub record AwsInstance : Type 0 where
  pub id : String
  pub state : String
  pub tags : List Tag
  pub launched : String
  pub public_dns : Option String
  pub public_ip : Option String
  pub groups : List Group

-- The arguments of `run_instances` that vary.
pub record Launch : Type 0 where
  pub image : String
  pub instance_type : String
  pub userdata : String
  pub group : String
  pub tags : List Tag
  pub iam_profile : Option Value

pub record Invocation : Type 0 where
  pub status : String
  pub stdout : String
  pub stderr : String

pub record Cloud (W : Type 0) : Type 0 where
  -- `import boto3`; `Session().region_name`; `client(service)`
  pub import_boto3 : Action W (Unit {0})
  pub region_name : Action W (Option String)
  pub client : String → Action W (Unit {0})
  -- the pages of `describe_instances`, under the tag `dnslab=1` and in one of the states, with
  -- the reservations of each page
  pub describe_pages : List String → Action W (List (List (List AwsInstance)))
  -- the reservations of `describe_instances` for one id
  pub describe_instance : String → Action W (List (List AwsInstance))
  pub run_instances : Launch → Action W (List AwsInstance)
  pub start_instances : List String → Action W (Unit {0})
  pub terminate_instances : List String → Action W (Unit {0})
  -- `get_waiter(what).wait` on ids, with a delay in seconds and a number of attempts
  pub wait_until : String → List String → ℕ → ℕ → Action W (Unit {0})
  pub create_security_group : String → String → List Tag → Action W String
  -- the groups whose name fits a pattern
  pub describe_security_groups : String → Action W (List Group)
  pub authorize_ingress : String → List Rule → Action W (Unit {0})
  pub delete_security_group : String → Action W (Unit {0})
  pub get_console_output : String → Action W (Option String)
  -- `ssm`: a parameter, the ping states of an instance's agent, a command and its invocation
  pub get_parameter : String → Action W String
  pub ping_statuses : String → Action W (List String)
  pub send_command : String → String → ℕ → Action W String
  pub get_command_invocation : String → String → Action W Invocation
  pub is_invocation_missing : Error → Bool
  -- `iam`
  pub create_role : String → String → Action W (Unit {0})
  pub attach_role_policy : String → String → Action W (Unit {0})
  pub create_instance_profile : String → Action W (Unit {0})
  pub add_role_to_instance_profile : String → String → Action W (Unit {0})
  -- `urlopen(url).read()` decoded, with a timeout in seconds; `ipaddress.ip_address`
  pub fetch : String → ℕ → Action W String
  pub ip_address : String → Result (Unit {0})
  -- `time.monotonic()`, `datetime.now(utc)` and `time.sleep`, in microseconds
  pub clock : W → ℕ
  pub now : W → ℕ
  pub sleep : ℕ → Action W (Unit {0})
  pub fromisoformat : String → Option Stamp
  pub strftime : ℕ → String
  -- `f"{hours:.1f}"` of a time
  pub hours_text : ℕ → String
  pub uuid4 : Action W String
  -- `sha256(text.encode()).hexdigest()`
  pub sha256 : String → String
  -- a template of a directory, rendered with strict undefined names
  pub render : String → Value → Dict Value → Action W String
  -- `dns.message.make_query` and `dns.query.udp` with three seconds: name, type, address, port
  pub probe : Value → Value → String → ℤ → Action W (Unit {0})
  -- `str` of an exception
  pub str_error : Error → String
  -- `base64.b64decode(text).decode(errors="replace")`, which raises ValueError or TypeError, `splitlines`,
  -- and `split`
  pub b64decode : String → Result String
  pub splitlines : String → List String
  pub split : String → List String
