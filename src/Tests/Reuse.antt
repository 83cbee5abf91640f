-- ===== src/Tests/Reuse.antt =====
-- Starting a server whose instance is there, unchanged: nothing is launched or terminated.
use gpt_jupyter_dns.Prelude.{ℕ, ◌+◌, String, ◌≡◌, refl, ◌⊎◌, true, false, some, List, [], ◌∷◌}
use gpt_jupyter_dns.Result.{ok}
use gpt_jupyter_dns.Action.{Action, pure}
use gpt_jupyter_dns.Action.Kept.{Kept-pure}
use gpt_jupyter_dns.Provider.{StartOptions}
use gpt_jupyter_dns.Ec2.Cloud.{Cloud, AwsInstance}
use gpt_jupyter_dns.Ec2.Access.{connect}
use gpt_jupyter_dns.Ec2.Start.{start, render_userdata, instance_type, confhash_of}
use gpt_jupyter_dns.Ec2.Start.Spared.{Spares}
use gpt_jupyter_dns.Ec2.Start.Reuse.{Replaces, start-spares}
use gpt_jupyter_dns.Tests.{bind_spec, plain_profile}
use gpt_jupyter_dns.Tests.Aws.{idle, still}

-- The time, and the instances that were launched or terminated.
abbrev Log : Type 0
Log = ℕ × List String

abbrev note : String → Action Log (Unit {0})
note s (t, log) = (ok tt, (t, s ∷ log))

abbrev running : AwsInstance
running = record {
  id = "i-1";
  state = "running";
  tags =
      ("dnslab-instance", "bind") ∷ ("dnslab-profile", "plain") ∷ ("dnslab-confhash", "cafe") ∷ [];
  launched = "then";
  public_dns = some "h";
  public_ip = some "198.51.100.4";
  groups = [];
}

abbrev logged : Cloud Log
logged = record (idle (λ w. w.0) λ n w. (ok tt, (w.0 + n, w.1))) {
  describe_pages = λ states. pure (((running ∷ []) ∷ []) ∷ []);
  terminate_instances = λ ids. note "terminated";
  run_instances = λ l w. (ok (running ∷ []), (w.0, "launched" ∷ w.1));
  sha256 = λ s. "cafe";
}

-- Nothing was launched or terminated.
abbrev Untouched : Log → Type 0
Untouched w = w.1 ≡ []

logged-Spares : Spares logged still Untouched
logged-Spares = record {
  import_boto3 = Kept-pure Untouched _;
  region_name = Kept-pure Untouched _;
  client = λ service. Kept-pure Untouched _;
  describe_pages = λ states. Kept-pure Untouched _;
  start_instances = λ ids. Kept-pure Untouched _;
  wait_until = λ what ids delay attempts. Kept-pure Untouched _;
  authorize_ingress = λ id rules. Kept-pure Untouched _;
  fetch = λ url timeout. Kept-pure Untouched _;
  ping_statuses = λ id. Kept-pure Untouched _;
  sleep = λ n. record { at = λ w h. h };
  probe = λ qname qtype ip port. Kept-pure Untouched _;
  render = λ dir template ctx. Kept-pure Untouched _;
  state_files = record {
    mkdir = λ p. Kept-pure Untouched _;
    chmod = λ p. Kept-pure Untouched _;
    read = λ p. Kept-pure Untouched _;
    write = λ p s. Kept-pure Untouched _;
  };
}

abbrev patient : StartOptions
patient = record { wait = true; timeout = some 60; force = false; overrides = [] }

start-spares_example :
    Untouched (start logged still [] bind_spec plain_profile "bind" patient (0, [])).1
    ⊎ ((w₁ : Log) × (w₂ : Log) × (userdata : String) × (connect logged "ec2" (0, []) ≡ (ok tt, w₁))
        × (render_userdata logged still [] bind_spec plain_profile "bind" [] w₁ ≡ (ok userdata, w₂))
        × Replaces logged still [] plain_profile "bind" patient
            (confhash_of logged still [] userdata (instance_type bind_spec))
            w₂)
start-spares_example =
    start-spares logged still [] Untouched logged-Spares bind_spec plain_profile "bind" patient
      (0, []) refl
