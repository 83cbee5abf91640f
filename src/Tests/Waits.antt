-- ===== src/Tests/Waits.antt =====
-- The waiting loops at a group that is in use for a while, and at a server that answers late.
use gpt_jupyter_dns.Prelude.{
  ℕ, zero, suc, ◌+◌, ◌*◌, ◌≤◌, String, ◌<>◌, ◌≡◌, refl, ◌⊎◌, true, none, some, List, [], ◌∷◌, arith,
}
use gpt_jupyter_dns.Result.{ok, err, other_error}
use gpt_jupyter_dns.Action.{Action}
use gpt_jupyter_dns.Value.{Value, str}
use gpt_jupyter_dns.Dict.{Dict}
use gpt_jupyter_dns.Model.{Instance}
use gpt_jupyter_dns.Ec2.{second}
use gpt_jupyter_dns.Ec2.Cloud.{Cloud}
use gpt_jupyter_dns.Ec2.Access.{wrap}
use gpt_jupyter_dns.Ec2.Waits.{delete_sg, wait_healthy, healthcheck_of}
use gpt_jupyter_dns.Ec2.Waits.Ends.{Sleeps, delete_sg-ends}
use gpt_jupyter_dns.Ec2.Access.{connect}
use gpt_jupyter_dns.Ec2.Waits.{run_command}
use gpt_jupyter_dns.Ec2.Cloud.{Invocation}
use gpt_jupyter_dns.Ec2.Waits.Command.{Ran, run_command-ends}
use gpt_jupyter_dns.Ec2.Waits.{wait_ssm_online}
use gpt_jupyter_dns.Ec2.Waits.Online.{Awaited, wait_ssm_online-ends}
use gpt_jupyter_dns.Ec2.Waits.Healthy.{query_of, Waited, wait_healthy-ends}
use gpt_jupyter_dns.Tests.{bind_spec}
use gpt_jupyter_dns.Ec2.Cloud.{Launch}
use gpt_jupyter_dns.Ec2.Start.{run}
use gpt_jupyter_dns.Ec2.Start.Launching.{run-refused}
use gpt_jupyter_dns.Tests.Aws.{idle, still}

-- The time, and how many more tries fail.
abbrev Busy : Type 0
Busy = ℕ × ℕ

abbrev pass_time : ℕ → Action Busy (Unit {0})
pass_time n (t, b) = (ok tt, (t + n, b))

abbrev attempt : String → Action Busy (Unit {0})
attempt why (t, zero) = (ok tt, (t, zero))
attempt why (t, suc b) = (err (other_error why), (t + second, b))

abbrev busy : Cloud Busy
busy = record (idle (λ w. w.0) pass_time) {
  delete_security_group = λ id. attempt "DependencyViolation";
  probe = λ qname qtype ip port. attempt "timed out";
}

busy-Sleeps : Sleeps busy
busy-Sleeps = record { at = λ n w. ((w.0 + n, w.1), refl, omega arith) }

attempt-Steady : (why : String) (w : Busy) → w.0 ≤ (attempt why w).1.0
attempt-Steady why (t, zero) = omega arith
attempt-Steady why (t, suc b) = omega arith

delete_sg-ends_example :
    ((delete_sg busy "sg-1" (240 * second) (0, 3)).0 ≡ ok true)
    ⊎ ((delete_sg busy "sg-1" (240 * second) (0, 3)).0
        ≡ err (wrap ("deleting security group " <> "sg-1")))
delete_sg-ends_example =
    delete_sg-ends busy busy-Sleeps "sg-1" (240 * second) (0, 3)
      (attempt-Steady "DependencyViolation")

abbrev client : Instance
client = record {
  name = "bind";
  server = "bind";
  profile = "plain";
  provider = "ec2";
  id = "i-1";
  host = "h";
  ip = some "198.51.100.4";
  status = "starting";
  extra = [];
}

abbrev check : Dict Value
check = ("qname", str ".") ∷ ("qtype", str "SOA") ∷ []

check_loads : healthcheck_of bind_spec ≡ ok check
unfolding gpt_jupyter_dns.Value.truthy gpt_jupyter_dns.Value.to_dict
check_loads = refl

wait_healthy-ends_example :
    Waited busy
      (query_of busy bind_spec check "198.51.100.4")
      "bind"
      (wait_healthy busy bind_spec client (60 * second) (0, 2)).0
wait_healthy-ends_example =
    wait_healthy-ends busy busy-Sleeps bind_spec client (60 * second) (0, 2) "198.51.100.4" check
      refl refl check_loads (attempt-Steady "timed out")

-- After three tries the group is gone.
deleted_late : (delete_sg busy "sg-1" (240 * second) (0, 3)).0 ≡ ok true
unfolding delete_sg gpt_jupyter_dns.Action.◌>>=◌ gpt_jupyter_dns.Action.catch
    gpt_jupyter_dns.Text.has_substring
deleted_late = refl

-- AWS launches nothing.
abbrev refusing : Cloud Busy
refusing = record busy { run_instances = λ l w. (err (other_error "InstanceLimitExceeded"), w) }

abbrev request : Launch
request = record {
  image = "ami-1";
  instance_type = "t3.medium";
  userdata = "";
  group = "sg-1";
  tags = [];
  iam_profile = none;
}

run-refused_example :
    run refusing still [] bind_spec request (0, 1)
    ≡ (err (wrap ("launching " <> "bind" <> " (" <> "ami-1" <> ")")), (second, 0))
run-refused_example =
    run-refused refusing still [] bind_spec request (other_error "InstanceLimitExceeded") (0, 1)
      (0, 1) (attempt-Steady "DependencyViolation") refl

abbrev invocation : String → Invocation
invocation status = record { status = status; stdout = ""; stderr = "" }

-- A command that is in progress for a while.
abbrev progress : Action Busy Invocation
progress (t, zero) = (ok (invocation "Success"), (t, zero))
progress (t, suc b) = (ok (invocation "InProgress"), (t + second, b))

abbrev commanded : Cloud Busy
commanded = record busy { get_command_invocation = λ cmd id. progress }

commanded-Sleeps : Sleeps commanded
commanded-Sleeps = record { at = λ n w. ((w.0 + n, w.1), refl, omega arith) }

progress-Steady : (w : Busy) → w.0 ≤ (progress w).1.0
progress-Steady (t, zero) = omega arith
progress-Steady (t, suc b) = omega arith

connects : connect commanded "ssm" (0, 2) ≡ (ok tt, (0, 2))
unfolding connect gpt_jupyter_dns.Action.◌>>=◌ gpt_jupyter_dns.Action.catch
connects = refl

run_command-ends_example :
    Ran commanded "cmd-1" "i-1" (run_command commanded "i-1" "Get-Date" 300 (0, 2)).0
run_command-ends_example =
    run_command-ends commanded commanded-Sleeps "i-1" "Get-Date" "cmd-1" 300 (0, 2) (0, 2) (0, 2)
      connects refl progress-Steady

-- An agent that is not there for a while.
abbrev ping : Action Busy (List String)
ping (t, zero) = (ok ("Online" ∷ []), (t, zero))
ping (t, suc b) = (ok ("ConnectionLost" ∷ []), (t + second, b))

abbrev pinged : Cloud Busy
pinged = record busy { ping_statuses = λ id. ping }

pinged-Sleeps : Sleeps pinged
pinged-Sleeps = record { at = λ n w. ((w.0 + n, w.1), refl, omega arith) }

ping-Steady : (w : Busy) → w.0 ≤ (ping w).1.0
ping-Steady (t, zero) = omega arith
ping-Steady (t, suc b) = omega arith

reaches : connect pinged "ssm" (0, 2) ≡ (ok tt, (0, 2))
unfolding connect gpt_jupyter_dns.Action.◌>>=◌ gpt_jupyter_dns.Action.catch
reaches = refl

wait_ssm_online-ends_example :
    Awaited pinged "i-1" (wait_ssm_online pinged "i-1" (60 * second) (0, 2)).0
wait_ssm_online-ends_example =
    wait_ssm_online-ends pinged pinged-Sleeps "i-1" (60 * second) (0, 2) (0, 2) reaches ping-Steady
