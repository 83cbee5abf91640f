-- ===== src/Tests/Aws.antt =====
-- A cloud where nothing happens but that time passes: the ground of the sample clouds.
use gpt_jupyter_dns.Prelude.{ℕ, String, true, false, none, some, [], ◌∷◌}
use gpt_jupyter_dns.Result.{ok, Error, other_error}
use gpt_jupyter_dns.Action.{Action, pure}
use gpt_jupyter_dns.Value.{dict, end}
use gpt_jupyter_dns.State.Files.{Files}
use gpt_jupyter_dns.Ec2.{aware}
use gpt_jupyter_dns.Ec2.Cloud.{Cloud}

-- The text of an exception.
abbrev pub text_of : Error → String
text_of (other_error s) = s
text_of e = ""

abbrev pub idle : {W : Type 0} → (W → ℕ) → (ℕ → Action W (Unit {0})) → Cloud W
idle clock sleep = record {
  import_boto3 = pure tt;
  region_name = pure (some "us-east-1");
  client = λ service. pure tt;
  describe_pages = λ states. pure [];
  describe_instance = λ id. pure [];
  run_instances = λ l. pure [];
  start_instances = λ ids. pure tt;
  terminate_instances = λ ids. pure tt;
  wait_until = λ what ids delay attempts. pure tt;
  create_security_group = λ name description tags. pure "sg-1";
  describe_security_groups = λ name. pure [];
  authorize_ingress = λ id rules. pure tt;
  delete_security_group = λ id. pure tt;
  get_console_output = λ id. pure none;
  get_parameter = λ name. pure "ami-1";
  ping_statuses = λ id. pure ("Online" ∷ []);
  send_command = λ id script timeout. pure "cmd-1";
  get_command_invocation = λ cmd id. pure (record { status = "Success"; stdout = ""; stderr = "" });
  is_invocation_missing = λ e. false;
  create_role = λ name trust. pure tt;
  attach_role_policy = λ name policy. pure tt;
  create_instance_profile = λ name. pure tt;
  add_role_to_instance_profile = λ name role. pure tt;
  fetch = λ url timeout. pure "192.0.2.7";
  ip_address = λ s. ok tt;
  clock = clock;
  now = clock;
  sleep = sleep;
  fromisoformat = λ s. some (aware 0);
  strftime = λ n. "soon";
  hours_text = λ n. "0.0";
  uuid4 = pure "session-1";
  sha256 = λ s. s;
  render = λ dir template ctx. pure "echo";
  probe = λ qname qtype ip port. pure tt;
  str_error = text_of;
  b64decode = λ s. ok s;
  splitlines = λ s. s ∷ [];
  split = λ s. s ∷ [];
}

-- Files that are never there and keep nothing.
abbrev pub still : {W : Type 0} → Files W
still = record {
  place = λ text. text ∷ [];
  repo = "repo" ∷ [];
  is_dir = λ p w. false;
  exists = λ p w. false;
  mkdir = λ p. pure tt;
  chmod = λ p. pure tt;
  read = λ p. pure "";
  write = λ p s. pure tt;
  loads = λ s. ok (dict end);
  dumps = λ v. "{}";
  is_unreadable = λ e. true;
}
