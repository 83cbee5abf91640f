-- ===== src/Checks/Windows.antt =====
-- `dnslab/checks.py`: the report on a Windows client that answers no queries, from the transcript of a
-- script that runs on it.
pub mod Transcripts
use gpt_jupyter_dns.Prelude.{
  ℕ, String, ◌<>◌, Bool, true, false, ◌||◌, ◌&&◌, not, Option, none, some, List, [], ◌∷◌, ◌==◌, map,
  all, starts_with, is_some, if◌then◌else◌,
}
use Prim.Native.String
use gpt_jupyter_dns.Dict.{Dict, lookup, insert}
use gpt_jupyter_dns.Result.{Result, ok, err, Error, runtime_error, not_running, not_configured}
use gpt_jupyter_dns.Action.{Action, pure, raise, lift, ◌>>=◌, ◌>>◌}
use gpt_jupyter_dns.Value.{Value, null, list, nil, truthy, to_dict, to_text, iterate, get_or}
use gpt_jupyter_dns.Text.{strip, join_texts}
use gpt_jupyter_dns.Model.{Profile, ServerSpec, Instance, Status, pass, fail}
use gpt_jupyter_dns.Registry.{Disk, get}
use gpt_jupyter_dns.State.{Env, behind}
use gpt_jupyter_dns.State.Files.{Files}
use gpt_jupyter_dns.Ec2.Cloud.{Cloud, Invocation}
use gpt_jupyter_dns.Ec2.Waits.{run_command}
use gpt_jupyter_dns.Ec2.Discovery.{discover}

-- _DOT_CLIENT_PS, filled in
unfoldable pub dot_client_script : String → String → String → String → String
dot_client_script names block ensure server_ips = join_texts "\n" (
    ""
    ∷ "$ErrorActionPreference='Continue'"
    ∷ ("$names = @(" <> names <> ")")
    ∷ ("$block = $" <> block)
    ∷ "Write-Output \"OS: $((Get-CimInstance Win32_OperatingSystem).Caption) $([Environment]::OSVersion.Version)\""
    ∷ "# Ensure client DoT config is present (idempotent) so this report does not"
    ∷ "# depend on user-data timing — netsh add is a no-op if already set."
    ∷ "netsh dns add global dot=yes | Out-Null"
    ∷ ensure
    ∷ ("$servers = @(" <> server_ips <> ")")
    ∷ "Get-DnsClientServerAddress -AddressFamily IPv4 | Where-Object { $_.ServerAddresses } | ForEach-Object {"
    ∷ "    Set-DnsClientServerAddress -InterfaceIndex $_.InterfaceIndex -ServerAddresses $servers -ErrorAction SilentlyContinue"
    ∷ "}"
    ∷ "Write-Output \"--- netsh dns show encryption ---\""
    ∷ "netsh dns show encryption"
    ∷ "if ($block) {"
    ∷ "    New-NetFirewallRule -DisplayName 'dnslab-block-udp53' -Direction Outbound -Protocol UDP -RemotePort 53 -Action Block | Out-Null"
    ∷ "    New-NetFirewallRule -DisplayName 'dnslab-block-tcp53' -Direction Outbound -Protocol TCP -RemotePort 53 -Action Block | Out-Null"
    ∷ "    Write-Output \"PLAINTEXT_53_BLOCKED: yes (resolution success now proves DoT)\""
    ∷ "}"
    ∷ "Clear-DnsClientCache"
    ∷ "Start-Sleep -Seconds 2"
    ∷ "foreach ($n in $names) {"
    ∷ "    $r = Resolve-DnsName $n -Type A -ErrorAction SilentlyContinue"
    ∷ "    $ips = ($r | Where-Object {$_.IPAddress} | Select-Object -First 3 -ExpandProperty IPAddress) -join ','"
    ∷ "    if ($ips) { Write-Output \"RESOLVE $n = NOERROR ($ips)\" } else { Write-Output \"RESOLVE $n = FAILED\" }"
    ∷ "}"
    ∷ "Start-Sleep -Seconds 1"
    ∷ "$c = Get-NetTCPConnection -RemotePort 853 -ErrorAction SilentlyContinue"
    ∷ "if ($c) { Write-Output (\"DOT_853_CONNECTIONS: \" + (($c | ForEach-Object {$_.RemoteAddress}) -join ',')) }"
    ∷ "else { Write-Output \"DOT_853_CONNECTIONS: none\" }"
    ∷ "if ($block) {"
    ∷ "    Remove-NetFirewallRule -DisplayName 'dnslab-block-udp53' -ErrorAction SilentlyContinue"
    ∷ "    Remove-NetFirewallRule -DisplayName 'dnslab-block-tcp53' -ErrorAction SilentlyContinue"
    ∷ "    Write-Output \"PLAINTEXT_53_BLOCK_REMOVED: yes\""
    ∷ "}"
    ∷ "Write-Output \"DONE\""
    ∷ ""
    ∷ [])

-- What is read from a transcript: the verdict on each name, and the connections.
pub record Transcript : Type 0 where
  pub resolves : Dict String
  pub conns : String

-- The dictionary that the report is.
pub record Report : Type 0 where
  pub instance_name : String
  pub id : String
  pub ssm_status : String
  pub plaintext_blocked : Bool
  pub resolves : Dict String
  pub connections : String
  pub dot_used : Bool
  pub verdict : Status
  pub raw : String

-- `s.partition(sep)`, without the separator
unfoldable pub partition : String → String → String × String
unfolding behind
partition sep String.[] = ("", "")
partition sep (String.◌∷◌ c s) =
    let rest = partition sep s in
    elim (behind sep (String.◌∷◌ c s)) [
      | some later ↦ ("", later)
      | none ↦ (String.◌∷◌ c rest.0, rest.1)
    ]

-- a line that reports a name, with its verdict
unfoldable pub resolved : String → Option (String × String)
unfolding partition
resolved line = elim (behind "RESOLVE " line) [
  | none ↦ none
  | some body ↦ some (partition " = " body)
]

abbrev set_conns : Option String → Transcript → Transcript
set_conns none t = t
set_conns (some rest) t = record t { conns = strip rest }

abbrev set_line : Option (String × String) → String → Transcript → Transcript
set_line (some (qn, verdict)) line t = record t { resolves = insert qn verdict t.resolves }
set_line none line t = set_conns (behind "DOT_853_CONNECTIONS:" line) t

unfoldable pub read_lines : List String → Transcript → Transcript
unfolding resolved
read_lines [] t = t
read_lines (l ∷ ls) t = read_lines ls (set_line (resolved (strip l)) (strip l) t)

abbrev nonempty : Dict String → Bool
nonempty [] = false
nonempty (e ∷ d) = true

-- `bool(resolves) and all(v.startswith("NOERROR") for v in resolves.values())`
unfoldable pub all_ok : Dict String → Bool
all_ok d = nonempty d && all (λ (k, v). starts_with v "NOERROR") d

abbrev is_used : String → Bool
is_used conns = not (conns == "" || conns == "none")

make_report : Instance → Bool → Invocation → Transcript → Report
unfolding all_ok
make_report i blocked res t = record {
  instance_name = i.name;
  id = i.id;
  ssm_status = res.status;
  plaintext_blocked = blocked;
  resolves = t.resolves;
  connections = t.conns;
  dot_used = is_used t.conns;
  verdict = if all_ok t.resolves && (blocked || is_used t.conns) then pass else fail;
  raw = res.stdout;
}

-- the first instance of this name, or of this server
running_client : String → List Instance → Result Instance
running_client name [] = err (runtime_error (not_running name))
running_client name (i ∷ is) =
    if i.name == name || i.server == name then ok i else running_client name is

-- the profile's `upstreams`, each a mapping
dicts_of : List Value → Result (List (Dict Value))
dicts_of [] = ok []
dicts_of (v ∷ vs) = elim (to_dict v) [
  | err e ↦ err e
  | ok d ↦ elim (dicts_of vs) [ err e ↦ err e | ok ds ↦ ok (d ∷ ds) ]
]

upstreams_of : Option Profile → Result (List (Dict Value))
unfolding dicts_of
upstreams_of none = ok []
upstreams_of (some p) =
    if truthy (get_or p.extra "upstreams" null)
    then (elim (iterate (get_or p.extra "upstreams" null)) [ err e ↦ err e | ok vs ↦ dicts_of vs ])
    else ok []

abbrev is_set : String → Dict Value → Bool
is_set k d = truthy (get_or d k null)

ensure_lines : List (Dict Value) → List String
ensure_lines [] = []
ensure_lines (u ∷ us) =
    let rest = ensure_lines us in
    if is_set "ip" u && is_set "tls_hostname" u
    then ("netsh dns add encryption server="
        <> to_text (get_or u "ip" null)
        <> " dothost="
        <> to_text (get_or u "tls_hostname" null)
        <> " autoupgrade=yes | Out-Null")
      ∷ rest
    else rest

abbrev quoted : String → String
quoted s = "'" <> s <> "'"

server_addresses : List (Dict Value) → List String
server_addresses [] = []
server_addresses (u ∷ us) =
    let rest = server_addresses us in
    if is_set "ip" u then quoted (to_text (get_or u "ip" null)) ∷ rest else rest

module _ {W : Type 0} (cloud : Cloud W) (files : Files W) (env : Env) where
  -- the script on the instance, and what its transcript says
  unfoldable pub run_report :
      Instance → List String → Bool → ℕ → List (Dict Value) → Action W Report
  unfolding server_addresses ensure_lines make_report
  run_report i names blocked timeout ups =
      if join_texts "," (server_addresses ups) == ""
      then raise (runtime_error (not_configured i.profile))
      else (do
        res ←
            run_command cloud i.id
              (dot_client_script (join_texts "," (map quoted names))
                (if blocked then "true" else "false") (join_texts "\n" (ensure_lines ups))
                (join_texts "," (server_addresses ups)))
              timeout
        pure (
            make_report i blocked res
              (read_lines (cloud.splitlines res.stdout) (record { resolves = []; conns = "" }))))

  unfoldable pub windows_dot_client_report :
      Disk → String → String → List String → Bool → ℕ → Action W Report
  unfolding running_client upstreams_of
  windows_dot_client_report disk root name names blocked timeout = do
    found ← discover cloud files env
    i ← lift (running_client name found)
    spec ← lift (get disk root i.server)
    ups ← lift (upstreams_of (lookup i.profile spec.profiles))
    run_report i names blocked timeout ups
