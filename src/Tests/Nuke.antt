-- ===== src/Tests/Nuke.antt =====
-- Tearing down when an instance does not terminate in time: its security group is left.
use gpt_jupyter_dns.Prelude.{ℕ, ◌+◌, String, ◌≡◌, some, List, [], ◌∷◌}
use gpt_jupyter_dns.Result.{ok, other_error}
use gpt_jupyter_dns.Action.{pure, raise}
use gpt_jupyter_dns.Ec2.Cloud.{Cloud, AwsInstance}
use gpt_jupyter_dns.Tests.Aws.{idle}

-- The time, and the groups that were deleted.
abbrev Log : Type 0
Log = ℕ × List String

abbrev running : AwsInstance
running = record {
  id = "i-1";
  state = "running";
  tags = ("dnslab-instance", "bind") ∷ [];
  launched = "then";
  public_dns = some "h";
  public_ip = some "198.51.100.4";
  groups = [];
}

abbrev stuck : Cloud Log
stuck = record (idle (λ w. w.0) λ n w. (ok tt, (w.0 + n, w.1))) {
  describe_pages = λ states. pure (((running ∷ []) ∷ []) ∷ []);
  wait_until = λ what ids delay attempts. raise (other_error "Max attempts exceeded");
  delete_security_group = λ id w. (ok tt, (w.0, id ∷ w.1));
}

-- No group was deleted.
abbrev Untouched : Log → Type 0
Untouched w = w.1 ≡ []
