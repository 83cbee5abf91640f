-- ===== src/Ec2/Waits.antt =====
-- `dnslab/providers/ec2.py`: the loops that wait: for the SSM agent, for a command, for an answer on
-- port 53, and for a security group to become deletable. Each has the fuel that its timeout allows
-- for; times are microseconds.
pub mod Ends
pub mod Quiet
pub mod Healthy
pub mod Command
pub mod Online
use gpt_jupyter_dns.Prelude.{
  ℕ, suc, ◌+◌, ◌*◌, ◌/◌, String, ◌<>◌, Bool, true, false, ◌||◌, not, Option, none, some, List, [],
  ◌∷◌, ◌==◌, ltb, leb, contains, if◌then◌else◌,
}
use gpt_jupyter_dns.Dict.{Dict, lookup}
use gpt_jupyter_dns.Result.{
  Result, ok, err, Error, runtime_error, timeout_error, not_answering, is_runtime,
}
use gpt_jupyter_dns.Action.{Action, pure, raise, lift, catch, ◌>>=◌, ◌>>◌}
use gpt_jupyter_dns.Action.Loop.{repeat}
use gpt_jupyter_dns.Value.{Value, str, ℤ, pos, truthy, to_dict, get_or}
use gpt_jupyter_dns.Text.{has_substring}
use gpt_jupyter_dns.Model.{ServerSpec, Instance}
use gpt_jupyter_dns.Ec2.{second}
use gpt_jupyter_dns.Ec2.Cloud.{Cloud, Invocation}
use gpt_jupyter_dns.Ec2.Access.{connect, or_wrap, wrap}

-- SG_DELETE_RETRY_S
abbrev pub sg_delete_retry : ℕ
sg_delete_retry = 240 * second

-- Rounds that start before the timeout when each takes the pause, the last look, and one to spare.
abbrev pub rounds : ℕ → ℕ → ℕ
rounds timeout pause = timeout / (pause * second) + 1

abbrev pub is_online : List String → Bool
is_online [] = false
is_online (s ∷ ss) = s == "Online"

-- `d.get("do53", 53)` on the ports
abbrev pub do53_port : ServerSpec → ℤ
do53_port spec = elim (lookup "do53" spec.ports) [ none ↦ pos 53 | some p ↦ p ]

-- `spec.healthcheck or {}`, which is asked for its name and type
abbrev pub healthcheck_of : ServerSpec → Result (Dict Value)
healthcheck_of spec = if truthy spec.healthcheck then to_dict spec.healthcheck else ok []

module _ {W : Type 0} (cloud : Cloud W) where
  abbrev pub look : {A : Type 0} → (W → A) → Action W A
  look f w = (ok (f w), w)

  -- `while time.monotonic() < deadline: body` and the raise behind the loop
  abbrev pub until : ℕ → Error → {A : Type 0} → Action W (Option A) → Action W (Option A)
  until deadline late body w = if ltb (cloud.clock w) deadline then body w else (err late, w)

  -- `time.sleep(…)` at the end of a round
  abbrev pub pause : ℕ → {A : Type 0} → Action W (Option A)
  pause seconds = do cloud.sleep (seconds * second); pure none

  unfoldable pub ssm_round : String → ℕ → Action W (Option (Unit {0}))
  ssm_round instance_id deadline = until deadline (timeout_error instance_id) do
    statuses ← cloud.ping_statuses instance_id
    (if is_online statuses then pure (some tt) else pause 10)

  -- `_wait_ssm_online`
  unfoldable pub wait_ssm_online : String → ℕ → Action W (Unit {0})
  unfolding ssm_round connect repeat
  wait_ssm_online instance_id timeout = do
    connect cloud "ssm"
    start ← look cloud.clock
    repeat (suc (rounds timeout 10)) (ssm_round instance_id (start + timeout))

  -- The states of a command that is not through yet.
  abbrev unfinished : List String
  unfinished = "Pending" ∷ "InProgress" ∷ "Delayed" ∷ []

  finished : Option Invocation → Option Invocation
  finished none = none
  finished (some inv) = if contains inv.status unfinished then none else some inv

  command_round : String → String → ℕ → Action W (Option Invocation)
  unfolding finished
  command_round cmd instance_id deadline = until deadline (timeout_error cmd) do
    cloud.sleep (5 * second)
    inv ←
        catch (cloud.get_command_invocation cmd instance_id >>= λ i. pure (some i))
          λ e. if cloud.is_invocation_missing e then some (pure none) else none
    pure (finished inv)

  abbrev min_ℕ : ℕ → ℕ → ℕ
  min_ℕ a b = if leb a b then a else b

  -- `run_command`, with its timeout in seconds
  unfoldable pub run_command : String → String → ℕ → Action W Invocation
  unfolding command_round connect repeat
  run_command instance_id powershell timeout = do
    connect cloud "ssm"
    cmd ←
        or_wrap cloud ("sending SSM command to " <> instance_id)
          (cloud.send_command instance_id powershell (min_ℕ timeout 3600))
    start ← look cloud.clock
    repeat (suc (rounds (timeout * second) 5))
        (command_round cmd instance_id (start + timeout * second))

  unfoldable pub health_round :
      ServerSpec → String → Dict Value → String → ℕ → Action W (Option (Unit {0}))
  health_round spec name hc ip deadline = until deadline (timeout_error name) (
      catch
        (cloud.probe (get_or hc "qname" (str ".")) (get_or hc "qtype" (str "SOA")) ip
            (do53_port spec)
          >>= λ _. pure (some tt))
        λ e. some (pause 5))

  -- `_wait_healthy` at an address
  unfoldable pub healthy_at : Option String → ServerSpec → String → ℕ → Action W (Unit {0})
  unfolding health_round repeat
  healthy_at none spec name timeout = raise (runtime_error (not_answering name))
  healthy_at (some ip) spec name timeout =
      if ip == "" then raise (runtime_error (not_answering name)) else (do
        hc ← lift (healthcheck_of spec)
        start ← look cloud.clock
        repeat (suc (rounds timeout 5)) (health_round spec name hc ip (start + timeout)))

  -- `_wait_healthy`
  unfoldable pub wait_healthy : ServerSpec → Instance → ℕ → Action W (Unit {0})
  unfolding healthy_at
  wait_healthy spec inst timeout = healthy_at inst.ip spec inst.name timeout

  -- what `_delete_sg` does with an exception
  delete_failed : String → ℕ → Error → Action W (Option Bool)
  delete_failed sg_id deadline e w =
      if has_substring "InvalidGroup.NotFound" (cloud.str_error e)
      then (ok (some true), w)
      else if not (has_substring "DependencyViolation" (cloud.str_error e))
          || leb deadline (cloud.clock w)
      then (err (wrap ("deleting security group " <> sg_id)), w)
      else pause 10 w

  delete_round : String → ℕ → Action W (Option Bool)
  unfolding delete_failed
  delete_round sg_id deadline =
      catch (cloud.delete_security_group sg_id >>= λ _. pure (some true))
        λ e. some (delete_failed sg_id deadline e)

  -- `_delete_sg`
  unfoldable pub delete_sg : String → ℕ → Action W Bool
  unfolding delete_round repeat
  delete_sg sg_id retry = do
    start ← look cloud.clock
    repeat (suc (rounds retry 10)) (delete_round sg_id (start + retry))

  -- `_delete_sg_quiet`
  unfoldable pub delete_sg_quiet : String → Action W (Unit {0})
  unfolding delete_sg
  delete_sg_quiet sg_id =
      catch (delete_sg sg_id 0 >>= λ _. pure tt) λ e. if is_runtime e then some (pure tt) else none
