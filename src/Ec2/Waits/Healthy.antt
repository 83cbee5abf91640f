-- ===== src/Ec2/Waits/Healthy.antt =====
-- Waiting for a server on EC2 to answer, of `dnslab/providers/ec2.py`, comes to an end, and how.
use mathlib.Core.Path.{subst}
use gpt_jupyter_dns.Prelude.{
  ℕ, suc, ◌+◌, ◌*◌, ◌≤◌, ◌<◌, String, ◌==◌, ◌≡◌, refl, sym, ap, ◌∙◌, ◌⊎◌, inl, inr, false, Option,
  some, Bool-cases, ltb, arith,
}
use gpt_jupyter_dns.Result.{Result, ok, err, Error, timeout_error}
use gpt_jupyter_dns.Action.{
  Action, pure, lift, catch, catch-ok, catch-err, run-cases, ◌>>=◌, >>=-ok, >>=-err,
}
use gpt_jupyter_dns.Action.Loop.{repeat, Round, Round-shift, again, done, fails, repeat-ends}
use gpt_jupyter_dns.Dict.{Dict}
use gpt_jupyter_dns.Value.{Value, str, get_or}
use gpt_jupyter_dns.Model.{ServerSpec, Instance}
use gpt_jupyter_dns.Ec2.{second}
use gpt_jupyter_dns.Ec2.Cloud.{Cloud}
use gpt_jupyter_dns.Ec2.Waits.{
  rounds, look, pause, until, do53_port, healthcheck_of, health_round, healthy_at, wait_healthy,
}
use gpt_jupyter_dns.Ec2.Waits.Ends.{Sleeps, Steady, pause-sleeps}

pub rounds-enough_5 : (timeout : ℕ) → timeout ≤ rounds timeout 5 * (5 * second)
rounds-enough_5 timeout = omega arith

module _ {W : Type 0} (cloud : Cloud W) where
  pub until-Round :
      {A : Type 0} (deadline d : ℕ) (Q : Result A → Type 0) (late : Error) (m : Action W (Option A))
      (w : W)
      → Q (err late)
      → (cloud.clock w < deadline → Round cloud.clock deadline d Q m w)
      → Round cloud.clock deadline d Q (until cloud deadline late m) w
  until-Round deadline d Q late m w q h = elim (Bool-cases (ltb (cloud.clock w) deadline)) [
    | inl early ↦
        Round-shift cloud.clock deadline d Q (until cloud deadline late m) m w w (rw (early))
          (omega arith) (h (ground arith))
    | inr over ↦ fails late w (rw (over)) q
  ]

  -- The query that `_wait_healthy` sends.
  abbrev pub query_of : ServerSpec → Dict Value → String → Action W (Unit {0})
  query_of spec hc ip =
      cloud.probe (get_or hc "qname" (str ".")) (get_or hc "qtype" (str "SOA")) ip (do53_port spec)

  -- Waiting ends with an answered query, or with the TimeoutError.
  abbrev pub Waited : Action W (Unit {0}) → String → Result (Unit {0}) → Type 0
  Waited query name r =
      (r ≡ ok tt × (w : W) × (w' : W) × (query w ≡ (ok tt, w'))) ⊎ (r ≡ err (timeout_error name))

  health_round-Round :
      Sleeps cloud
      → (spec : ServerSpec) (name : String) (hc : Dict Value) (ip : String)
      → Steady cloud (query_of spec hc ip)
      → (deadline : ℕ) (w : W)
      → Round cloud.clock deadline
          (5 * second)
          (Waited (query_of spec hc ip) name)
          (health_round cloud spec name hc ip deadline)
          w
  unfolding health_round
  health_round-Round sleeps spec name hc ip steady deadline w =
      let query = query_of spec hc ip in
      let attempt : Action W (Option (Unit {0})) = query >>= λ _. pure (some tt) in
      let handler : Error → Option (Action W (Option (Unit {0}))) = λ e. some (pause cloud 5) in
      until-Round deadline (5 * second) (Waited query name) (timeout_error name)
        (catch attempt handler) w (inr refl)
        λ early. elim (run-cases query w) [
          | inl (a, w', e) ↦
              done tt w' (catch-ok attempt handler w (>>=-ok query (λ _. pure (some tt)) w e))
                (inl (refl, w, w', e))
          | inr (x, w', e) ↦
              let (w'', slept, later) = pause-sleeps cloud sleeps {A = Unit {0}} 5 w' in
              let steadily = subst (λ r. cloud.clock w ≤ cloud.clock r.1) e (steady w) in
              again w''
                (catch-err attempt handler w (>>=-err query (λ _. pure (some tt)) w e) refl ∙ slept)
                early (omega arith)
        ]

  healthy_at-some :
      (spec : ServerSpec) (name : String) (timeout : ℕ) (w : W) (ip : String) (hc : Dict Value)
      → (ip == "") ≡ false
      → healthcheck_of spec ≡ ok hc
      → healthy_at cloud (some ip) spec name timeout w
        ≡ repeat
            (suc (rounds timeout 5))
            (health_round cloud spec name hc ip (cloud.clock w + timeout))
            w
  unfolding healthy_at
  healthy_at-some spec name timeout w ip hc nonempty well =
      let loop : Dict Value → ℕ → Action W (Unit {0}) = λ d start.
        repeat (suc (rounds timeout 5)) (health_round cloud spec name d ip (start + timeout)) in
      rw (nonempty) (
        >>=-ok (lift (healthcheck_of spec)) (λ d. look cloud cloud.clock >>= loop d) w
          (ap (λ r. (r, w)) well)
        ∙ >>=-ok (look cloud cloud.clock) (loop hc) w refl)

  -- Waiting for an instance with an address and a well-formed healthcheck comes to an end: it returns
  -- when a query was answered, and otherwise raises the TimeoutError. It needs a `sleep` that takes
  -- its time, and a clock that does not go back during a query.
  pub wait_healthy-ends :
      Sleeps cloud
      → (spec : ServerSpec) (inst : Instance) (timeout : ℕ) (w : W) (ip : String) (hc : Dict Value)
      → inst.ip ≡ some ip
      → (ip == "") ≡ false
      → healthcheck_of spec ≡ ok hc
      → Steady cloud (query_of spec hc ip)
      → Waited (query_of spec hc ip) inst.name (wait_healthy cloud spec inst timeout w).0
  unfolding wait_healthy healthy_at
  wait_healthy-ends sleeps spec inst timeout w ip hc has_ip nonempty well steady =
      let deadline = cloud.clock w + timeout in
      let ends =
        repeat-ends cloud.clock deadline (5 * second) (Waited (query_of spec hc ip) inst.name)
          (health_round cloud spec inst.name hc ip deadline)
          (health_round-Round sleeps spec inst.name hc ip steady deadline) (rounds timeout 5) w
          (grind (arith, rounds-enough_5 timeout)) in
      subst (λ r. Waited (query_of spec hc ip) inst.name r.0)
        (sym (
          ap (λ i. healthy_at cloud i spec inst.name timeout w) has_ip
          ∙ healthy_at-some spec inst.name timeout w ip hc nonempty well))
        ends
