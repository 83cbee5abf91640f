-- ===== src/Docker/Start/Ends.antt =====
-- Waiting for a container to answer, of `dnslab/providers/docker.py`, comes to an end, and how.
use mathlib.Core.Path.{subst}
use gpt_jupyter_dns.Prelude.{
  ℕ, zero, suc, ◌+◌, ◌*◌, ◌/◌, ◌≤◌, String, ◌==◌, ◌≡◌, refl, ◌≢◌, sym, ap, ◌∙◌, inl, inr, Bool,
  true, false, Option, some, Bool-cases, ltb, arith, if◌then◌else◌,
}
use gpt_jupyter_dns.Dict.{Dict}
use gpt_jupyter_dns.Result.{
  ok, err, Error, out_of_fuel, runtime_error, not_answering, timeout_error,
}
use gpt_jupyter_dns.Action.{
  Action, pure, raise, lift, catch, catch-ok, catch-err, run-cases, ◌>>=◌, >>=-ok, >>=-err,
}
use gpt_jupyter_dns.Value.{Value, pos}
use gpt_jupyter_dns.Model.{Profile, ServerSpec, Instance}
use gpt_jupyter_dns.State.{Env}
use gpt_jupyter_dns.State.Files.{Files}
use gpt_jupyter_dns.Certs.{Crypto}
use gpt_jupyter_dns.Docker.{Daemon, Container, container_ip}
use gpt_jupyter_dns.Docker.Start.{
  question_of, or_ip, look, probe, check_round, late, health_round, next_check, health_loop,
  wait_healthy,
}

module _ {W K C : Type 0} (daemon : Daemon W) (crypto : Crypto W K C) (files : Files W)
    (env : Env) where
  -- The clock does not go back while an action runs, and what it raises is an exception of Python.
  pub record Steady {A : Type 0} (m : Action W A) : Type 0 where
    pub forward : (w : W) → daemon.clock w ≤ daemon.clock (m w).1
    pub honest : (w : W) → (m w).0 ≢ err out_of_fuel

  -- What the loop calls.
  pub record Timely (spec : ServerSpec) (profile : Profile) (i : Instance) (id : String)
      (hc : Dict Value) : Type 0 where
    pub sleep :
        (n : ℕ) (w : W)
        → (w' : W) × (daemon.sleep n w ≡ (ok tt, w')) × (daemon.clock w + n ≤ daemon.clock w')
    pub reload : (c : String) → Steady (daemon.reload c)
    pub logs : Steady (daemon.container_logs id (pos 30))
    pub probe :
        (ip : Option String) (w : W)
        → daemon.clock w ≤ daemon.clock (probe daemon crypto files env spec profile i hc ip w).1

  -- A round ends the loop, or it leaves more to do, later by its pause.
  data Outcome (m : Action W (Option String × Bool)) (w : W) : Type 0 where
    answered : (ip : Option String) (w' : W) → m w ≡ (ok (ip, true), w') → Outcome m w
    fails : (x : Error) (w' : W) → m w ≡ (err x, w') → x ≢ out_of_fuel → Outcome m w
    goes_on :
        (ip : Option String) (w' : W)
        → m w ≡ (ok (ip, false), w')
        → daemon.clock w + 500000 ≤ daemon.clock w'
        → Outcome m w

  Outcome-shift :
      (m k : Action W (Option String × Bool)) (w w₁ : W)
      → m w ≡ k w₁
      → daemon.clock w ≤ daemon.clock w₁
      → Outcome k w₁
      → Outcome m w
  Outcome-shift m k w w₁ e later (answered ip w' h) = answered ip w' (e ∙ h)
  Outcome-shift m k w w₁ e later (fails x w' h n) = fails x w' (e ∙ h) n
  Outcome-shift m k w w₁ e later (goes_on ip w' h takes) = goes_on ip w' (e ∙ h) (omega arith)

  -- A first step that takes no time back.
  Outcome-bind :
      {A : Type 0} (m : Action W A) (f : A → Action W (Option String × Bool)) (w : W)
      → Steady m
      → ((a : A) (w' : W) → m w ≡ (ok a, w') → daemon.clock w ≤ daemon.clock w' → Outcome (f a) w')
      → Outcome (m >>= f) w
  Outcome-bind m f w steady h = elim (run-cases m w) [
    | inl (a, w', e) ↦
        let later = subst (λ r. daemon.clock w ≤ daemon.clock r.1) e (steady.forward w) in
        Outcome-shift (m >>= f) (f a) w w' (>>=-ok m f w e) later (h a w' e later)
    | inr (x, w', e) ↦
        fails x w' (>>=-err m f w e) λ fuel. steady.honest w (ap (λ r. r.0) e ∙ ap err fuel)
  ]

  Outcome-if :
      (b : Bool) (m k : Action W (Option String × Bool)) (w : W)
      → Outcome m w
      → Outcome k w
      → Outcome (if b then m else k) w
  Outcome-if true m k w h g = h
  Outcome-if false m k w h g = g

  Steady-map :
      {A B : Type 0} (m : Action W A) (f : A → B) → Steady m → Steady (m >>= λ a. pure (f a))
  Steady-map m f steady = record {
    forward = λ w. elim (run-cases m w) [
      | inl (a, w', e) ↦
          subst (λ r. daemon.clock w ≤ daemon.clock r.1) (sym (>>=-ok m (λ a. pure (f a)) w e))
            (subst (λ r. daemon.clock w ≤ daemon.clock r.1) e (steady.forward w))
      | inr (x, w', e) ↦
          subst (λ r. daemon.clock w ≤ daemon.clock r.1) (sym (>>=-err m (λ a. pure (f a)) w e))
            (subst (λ r. daemon.clock w ≤ daemon.clock r.1) e (steady.forward w))
    ];
    honest = λ w h. elim (run-cases m w) [
      | inl (a, w', e) ↦ cc (ap (λ r. r.0) (>>=-ok m (λ a. pure (f a)) w e), h)
      | inr (x, w', e) ↦
          steady.honest w
            (ap (λ r. r.0) e ∙ ap err (cc (ap (λ r. r.0) (>>=-err m (λ a. pure (f a)) w e), h)))
    ];
  }

  module _ (spec : ServerSpec) (profile : Profile) (i : Instance) (id : String) (hc : Dict Value)
      (timely : Timely spec profile i id hc) where
    abbrev ask : Option String → Action W (Option String × Bool)
    ask ip = probe daemon crypto files env spec profile i hc ip >>= λ _. pure (ip, true)

    abbrev retry : Option String → Action W (Option String × Bool)
    retry ip = daemon.sleep 500000 >>= λ _. pure (ip, false)

    ask-Outcome : (ip : Option String) (w : W) → Outcome (catch (ask ip) λ e. some (retry ip)) w
    ask-Outcome ip w = elim (run-cases (probe daemon crypto files env spec profile i hc ip) w) [
      | inl (a, w', e) ↦ answered ip w' (
          catch-ok (ask ip) _ w (
            >>=-ok (probe daemon crypto files env spec profile i hc ip) (λ _. pure (ip, true)) w e))
      | inr (x, w', e) ↦
          let later = subst (λ r. daemon.clock w ≤ daemon.clock r.1) e (timely.probe ip w) in
          let (w'', slept, after) = timely.sleep 500000 w' in
          goes_on ip w''
            (catch-err (ask ip) (λ e. some (retry ip)) w
                (>>=-err (probe daemon crypto files env spec profile i hc ip) (λ _. pure (ip, true))
                  w e)
                refl
              ∙ >>=-ok (daemon.sleep 500000) (λ _. pure (ip, false)) w' slept)
            (omega arith)
    ]

    raise-Outcome : (x : Error) (w : W) → x ≢ out_of_fuel → Outcome (raise x) w
    raise-Outcome x w real = fails x w refl real

    container_ip-Steady : (c : Container) → Steady (container_ip daemon env c)
    unfolding container_ip
    container_ip-Steady c = Steady-map (daemon.reload c.id) _ (timely.reload c.id)

    check_round-Outcome :
        (old : Option String) (w : W)
        → Outcome (check_round daemon crypto files env spec profile i id hc old) w
    unfolding check_round container_ip
    check_round-Outcome old w = Outcome-bind (daemon.reload id) _ w (timely.reload id) λ c w₁ _ _.
        Outcome-if (c.status == "exited")
          (daemon.container_logs id (pos 30) >>= λ _. raise (runtime_error (not_answering i.name)))
          _ w₁
          (Outcome-bind (daemon.container_logs id (pos 30)) _ w₁ timely.logs
            λ _ w₂ _ _. raise-Outcome _ w₂ (λ e. cc (e)))
          (Outcome-bind (container_ip daemon env c) _ w₁ (container_ip-Steady c)
            λ found w₂ _ _. ask-Outcome (or_ip found old) w₂)

    -- Past the deadline a round raises.
    late-fails :
        (w : W)
        → (x : Error) × (w' : W) × (late daemon crypto files env i id w ≡ (err x, w'))
          × (x ≢ out_of_fuel)
    unfolding late
    late-fails w = elim (run-cases (daemon.container_logs id (pos 30)) w) [
      | inl (text, w', e) ↦ (
        timeout_error i.name,
        w',
        >>=-ok (daemon.container_logs id (pos 30)) _ w e,
        λ fuel. cc (fuel),
      )
      | inr (x, w', e) ↦ (
        x,
        w',
        >>=-err (daemon.container_logs id (pos 30)) _ w e,
        λ fuel. timely.logs.honest w (ap (λ r. r.0) e ∙ ap err fuel),
      )
    ]

    abbrev round : ℕ → Option String → Action W (Option String × Bool)
    round deadline ip = health_round daemon crypto files env spec profile i id hc deadline ip

    abbrev loop : ℕ → ℕ → Option String → Action W (Option String)
    loop deadline fuel ip =
        health_loop daemon crypto files env spec profile i id hc deadline fuel ip

    round-late :
        (deadline : ℕ) (ip : Option String) (w : W)
        → ltb (daemon.clock w) deadline ≡ false
        → round deadline ip w ≡ late daemon crypto files env i id w
    unfolding health_round
    round-late deadline ip w over = rw (over) refl

    round-Outcome : (deadline : ℕ) (ip : Option String) (w : W) → Outcome (round deadline ip) w
    unfolding health_round
    round-Outcome deadline ip w = elim (Bool-cases (ltb (daemon.clock w) deadline)) [
      | inl early ↦
          Outcome-shift (round deadline ip)
            (check_round daemon crypto files env spec profile i id hc ip) w w (rw (early) refl)
            (omega arith) (check_round-Outcome ip w)
      | inr over ↦
          let (x, w', e, real) = late-fails w in fails x w' (round-late deadline ip w over ∙ e) real
    ]

    loop-fails :
        (deadline fuel : ℕ) (ip : Option String) (w w' : W) (x : Error)
        → round deadline ip w ≡ (err x, w')
        → x ≢ out_of_fuel
        → (loop deadline (suc fuel) ip w).0 ≢ err out_of_fuel
    unfolding health_loop
    loop-fails deadline fuel ip w w' x e real h = real (
        cc (
          ap (λ r. r.0)
              (>>=-err (round deadline ip) (next_check daemon crypto files env (loop deadline fuel))
                w e),
          h,
        ))

    loop-ok :
        (deadline fuel : ℕ) (ip : Option String) (w w' : W) (r : Option String × Bool)
        → round deadline ip w ≡ (ok r, w')
        → loop deadline (suc fuel) ip w
          ≡ next_check daemon crypto files env (loop deadline fuel) r w'
    unfolding health_loop
    loop-ok deadline fuel ip w w' r e =
        >>=-ok (round deadline ip) (next_check daemon crypto files env (loop deadline fuel)) w e

    loop-ne-fuel :
        (deadline fuel : ℕ) (ip : Option String) (w : W)
        → deadline ≤ daemon.clock w + fuel * 500000
        → (loop deadline (suc fuel) ip w).0 ≢ err out_of_fuel
    loop-ne-fuel deadline zero ip w enough h =
        let (x, w', e, real) = late-fails w in
        loop-fails deadline zero ip w w' x (round-late deadline ip w (ground arith) ∙ e) real h
    loop-ne-fuel deadline (suc fuel) ip w enough h = elim (round-Outcome deadline ip w) [
      | fails x w' e real ↦ loop-fails deadline (suc fuel) ip w w' x e real h
      | answered ip' w' e ↦
          cc (ap (λ r. r.0) (loop-ok deadline (suc fuel) ip w w' (ip', true) e), h)
      | goes_on ip' w' e takes ↦
          loop-ne-fuel deadline fuel ip' w' (grind arith)
            (ap (λ r. r.0) (sym (loop-ok deadline (suc fuel) ip w w' (ip', false) e)) ∙ h)
    ]

    -- Waiting for a container whose healthcheck is well-formed comes to an end within the rounds that are
    -- allowed for it: it returns, or raises an exception of Python. It needs a `sleep` that takes its time,
    -- a clock that does not go back during the calls of the daemon and the query, and a daemon whose
    -- calls end.
    pub wait_healthy-ne-fuel :
        (timeout : ℕ) (w : W)
        → question_of daemon crypto files env spec ≡ ok hc
        → (wait_healthy daemon crypto files env spec profile i id timeout w).0 ≢ err out_of_fuel
    unfolding wait_healthy
    wait_healthy-ne-fuel timeout w well =
        let deadline = daemon.clock w + timeout in
        let ends = loop-ne-fuel deadline (suc (timeout / 500000)) i.ip w (grind arith) in
        λ h. ends (
          ap (λ r. r.0)
            (sym (
              >>=-ok (lift (question_of daemon crypto files env spec)) _ w (ap (λ r. (r, w)) well)
              ∙ >>=-ok (look daemon crypto files env daemon.clock)
                  (λ start. loop (start + timeout) (suc (suc (timeout / 500000))) i.ip) w refl))
          ∙ h)
