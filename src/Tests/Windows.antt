-- ===== src/Tests/Windows.antt =====
-- The report on a Windows client one of whose names is not resolved.
use gpt_jupyter_dns.Prelude.{ℕ, ◌+◌, String, ◌≡◌, refl, ap, true, false, none, some, List, [], ◌∷◌}
use gpt_jupyter_dns.Result.{Result, ok}
use gpt_jupyter_dns.Action.{Action, pure}
use gpt_jupyter_dns.Value.{Value, str, int, pos, dict, field, end, list, cons, nil}
use gpt_jupyter_dns.Text.{strip}
use gpt_jupyter_dns.Model.{fail}
use gpt_jupyter_dns.Registry.{Disk}
use gpt_jupyter_dns.Ec2.Cloud.{Cloud, AwsInstance}
use gpt_jupyter_dns.Checks.Windows.{Report, resolved, windows_dot_client_report}
use gpt_jupyter_dns.Checks.Windows.Transcripts.{
  IsSilent, Unresolved, windows_dot_client_report-judged,
}
use gpt_jupyter_dns.Tests.{lab_disk}
use gpt_jupyter_dns.Tests.Aws.{idle, still}

-- A profile with an upstream.
abbrev client_manifest : Value
client_manifest = dict (
    field "name" (str "bind") (
      field "provider" (str "ec2") (
        field "capabilities" (dict end) (
          field "profiles"
            (dict (
              field "plain"
                (dict (
                  field "template" (str "plain.j2") (
                    field "config_path" (str "/c") (
                      field "upstreams"
                        (list (
                          cons
                            (dict (
                              field "ip" (str "192.0.2.53")
                                (field "tls_hostname" (str "dns.example") end)))
                            nil))
                        end))))
                end))
            (field "ports" (dict end) end)))))

abbrev client_disk : Disk
client_disk = record lab_disk { read = λ path. ok client_manifest }

abbrev client : AwsInstance
client = record {
  id = "i-1";
  state = "running";
  tags = ("dnslab-instance", "win") ∷ ("dnslab-server", "bind") ∷ ("dnslab-profile", "plain") ∷ [];
  launched = "then";
  public_dns = some "h";
  public_ip = some "198.51.100.4";
  groups = [];
}

-- The time; the command is done at once.
abbrev done : Cloud ℕ
done = record (idle (λ w. w) λ n w. (ok tt, w + n)) {
  describe_pages = λ states. pure (((client ∷ []) ∷ []) ∷ []);
  splitlines = λ s. "RESOLVE example.com = FAILED" ∷ "DONE" ∷ [];
}

abbrev report : Report
report = record {
  instance_name = "win";
  id = "i-1";
  ssm_status = "Success";
  plaintext_blocked = true;
  resolves = ("example.com", "FAILED") ∷ [];
  connections = "";
  dot_used = false;
  verdict = fail;
  raw = "";
}

reported :
    (windows_dot_client_report done still [] client_disk "servers" "win"
      ("example.com" ∷ [])
      true
      60
      0).0
    ≡ ok report
unfolding windows_dot_client_report gpt_jupyter_dns.Action.◌>>=◌
    gpt_jupyter_dns.Ec2.Discovery.discover gpt_jupyter_dns.State.Files.load_state
    gpt_jupyter_dns.State.Files.state_dir gpt_jupyter_dns.State.Files.workspace_root
    gpt_jupyter_dns.Dict.lookup gpt_jupyter_dns.Ec2.Memory.instances_of gpt_jupyter_dns.Result.◌>>=◌
    gpt_jupyter_dns.Value.to_dict gpt_jupyter_dns.Ec2.Access.describe gpt_jupyter_dns.Action.catch
    gpt_jupyter_dns.Ec2.Memory.remembered gpt_jupyter_dns.State.Files.save_state
    gpt_jupyter_dns.Registry.get gpt_jupyter_dns.Registry.load_manifest gpt_jupyter_dns.Dict.has_key
    gpt_jupyter_dns.Checks.Windows.all_ok gpt_jupyter_dns.Checks.Windows.dot_client_script
    gpt_jupyter_dns.Checks.Windows.partition gpt_jupyter_dns.Checks.Windows.read_lines
    gpt_jupyter_dns.Checks.Windows.resolved gpt_jupyter_dns.Checks.Windows.run_report
    gpt_jupyter_dns.Dict.insert gpt_jupyter_dns.Dict.merge gpt_jupyter_dns.Ec2.Access.connect
    gpt_jupyter_dns.Ec2.Access.tags_dict gpt_jupyter_dns.Ec2.Waits.run_command
    gpt_jupyter_dns.Model.capabilities_from_dict gpt_jupyter_dns.Model.extras
    gpt_jupyter_dns.Model.profile_from_dict gpt_jupyter_dns.Prelude.sorted
    gpt_jupyter_dns.Registry.discover gpt_jupyter_dns.Registry.join
    gpt_jupyter_dns.State.Files.mkdir_traversable gpt_jupyter_dns.State.behind
    gpt_jupyter_dns.Text.join_texts gpt_jupyter_dns.Text.lstrip gpt_jupyter_dns.Text.rstrip
    gpt_jupyter_dns.Value.to_text gpt_jupyter_dns.Value.iterate gpt_jupyter_dns.Value.subscript
    gpt_jupyter_dns.Value.to_int gpt_jupyter_dns.Value.to_set gpt_jupyter_dns.Value.truthy
reported = refl

no_verdict : resolved (strip "DONE") ≡ none
unfolding resolved gpt_jupyter_dns.Text.rstrip gpt_jupyter_dns.Text.lstrip
no_verdict = refl

done-IsSilent : IsSilent "example.com" "DONE"
done-IsSilent verdict h = cc (no_verdict, h)

unresolved : Unresolved (done.splitlines report.raw)
unfolding gpt_jupyter_dns.Checks.Windows.resolved gpt_jupyter_dns.Text.rstrip
    gpt_jupyter_dns.Text.lstrip
unresolved = record {
  before = [];
  line = "RESOLVE example.com = FAILED";
  after = "DONE" ∷ [];
  split = refl;
  qn = "example.com";
  verdict = "FAILED";
  reports = refl;
  silent = (done-IsSilent, tt);
  is_error = refl;
}

abbrev later : ℕ
later =
    (windows_dot_client_report done still [] client_disk "servers" "win" ("example.com" ∷ []) true
      60 0).1

windows_dot_client_report-judged_example : report.verdict ≡ fail
windows_dot_client_report-judged_example =
    windows_dot_client_report-judged done still [] client_disk "servers" "win" ("example.com" ∷ [])
      true 60 0 later report (ap (λ x. (x, later)) reported) unresolved
