-- ===== src/Ec2.antt =====
-- `dnslab/providers/ec2.py`: the helpers that call no AWS. A time is a number of microseconds; what
-- `datetime` prints and parses is a parameter.
pub mod Expiry
pub mod Cloud
pub mod Access
pub mod Waits
pub mod Memory
pub mod Discovery
pub mod Teardown
pub mod Start
pub mod Contract
use Prim.Native.Char.{Char, code}
use Prim.Native.String
use gpt_jupyter_dns.Prelude.{
  ℕ, ◌+◌, ◌-◌, ◌*◌, ◌/◌, String, ◌<>◌, Bool, true, false, Option, none, some, List, [], ◌∷◌, ◌++◌,
  leb, eqb, if◌then◌else◌,
}
use gpt_jupyter_dns.Dict.{Dict, insert}
use gpt_jupyter_dns.Result.{Result, ok, err, value_error}
use gpt_jupyter_dns.Value.{Value, null, truthy, to_text, get_or}

-- EXPIRES_HOURS
abbrev pub expires_hours : ℕ
expires_hours = 4

abbrev pub second : ℕ
second = 1000000

-- What `fromisoformat` returns: with a time zone an instant, and without one what the same clock
-- reads in UTC.
pub data Stamp : Type 0 where
  aware naive : ℕ → Stamp

-- `if exp.tzinfo is None: exp = exp.replace(tzinfo=timezone.utc)`
abbrev pub instant : Stamp → ℕ
instant (aware n) = n
instant (naive n) = n

-- `expires.replace("Z", "+00:00")`
unfoldable pub replace_z : String → String
replace_z String.[] = String.[]
replace_z (String.◌∷◌ c s) =
    let rest = replace_z s in if eqb (code c) 90 then "+00:00" <> rest else String.◌∷◌ c rest

module _ (fromisoformat : String → Option Stamp) (strftime : ℕ → String) where
  -- `expires_at`: `strftime` prints a number of whole seconds in UTC
  unfoldable pub expires_at : ℕ → String
  expires_at now = strftime ((now + expires_hours * 3600 * second) / second)

  unfoldable pub is_expired : String → ℕ → Bool
  is_expired expires now = elim (fromisoformat (replace_z expires)) [
    | none ↦ false
    | some exp ↦ leb (instant exp) now
  ]

  -- `running_hours`, in microseconds and for a text; a launch in the future counts as none
  unfoldable pub running_time : String → ℕ → Option ℕ
  running_time launched_iso now = elim (fromisoformat (replace_z launched_iso)) [
    | none ↦ none
    | some t0 ↦ some (now - instant t0)
  ]

unfoldable pub resolve_ami_source : Dict Value → Result (String × String)
resolve_ami_source raw =
    if truthy (get_or raw "ami_ssm_parameter" null)
    then ok ("ssm", to_text (get_or raw "ami_ssm_parameter" null))
    else if truthy (get_or raw "ami" null)
    then ok ("ami", to_text (get_or raw "ami" null))
    else err value_error

-- An entry of `IpPermissions`; the port is both the first and the last one.
pub record Rule : Type 0 where
  pub protocol : String
  pub port : ℕ
  pub cidr : String
  pub description : String

abbrev pub rule : String → String → ℕ → String → Rule
rule caller_cidr proto port what = record {
  protocol = proto;
  port = port;
  cidr = caller_cidr;
  description = "dnslab " <> what;
}

unfoldable pub sg_ingress_rules : String → Bool → List Rule
sg_ingress_rules caller_cidr rdp =
    (rule caller_cidr "udp" 53 "do53/udp"
      ∷ rule caller_cidr "tcp" 53 "do53/tcp"
      ∷ rule caller_cidr "tcp" 853 "dot"
      ∷ [])
    ++ (if rdp then rule caller_cidr "tcp" 3389 "rdp" ∷ [] else [])
