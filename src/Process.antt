-- ===== src/Process.antt =====
-- process.go: one item with retries and timeouts (runOne, result, runWithTimeout). The worker pool
-- of Process is in Pool. What Go leaves to the scheduler and the clock is an argument: for each
-- attempt, how the call of fn comes out, how the wait before it ends, and what ends the call.
pub mod Attempts
pub mod Pool
pub mod Execute
use gojob.Prelude.{
  ℕ, zero, suc, ◌-◌, ◌&&◌, Bool, true, false, Option, none, some, ltb, if◌then◌else◌, ℤ, pos,
  pos_part, ◌-ℤ◌, leb_ℤ, ltb_ℤ,
}
use gojob.Options.{BackoffFunc, Duration, Config}
use gojob.Task.{Error, Result}

-- The environment of one item.
pub record Env {ℓ} (Out : Type ℓ) : Type ℓ where
  -- The value and the error of the call of fn at an attempt.
  pub call : ℕ → Out × Option Error
  -- `none`: the backoff timer before the attempt fires; an error: ctx is done first, with it.
  pub wait : ℕ → Option Error
  -- `none`: the call returns before its context is done; an error: that of the context.
  pub race : ℕ → Option Error
  -- The variables of the loop start as the zero value; so does a call that timed out.
  pub zero_value : Out
  pub started : ℤ
  pub ended : ℤ

-- runWithTimeout: with no timeout fn is called directly.
unfoldable pub run_with_timeout {ℓ} :
    {Out : Type ℓ} → Duration → Out → Out × Option Error → Option Error → Out × Option Error
run_with_timeout timeout zero_value call race =
    if leb_ℤ timeout (pos 0)
    then call
    else elim race [ none ↦ call | some e ↦ (zero_value, some e) ]

unfoldable pub result {ℓ} : {Out : Type ℓ} → Out → Option Error → ℕ → ℤ → ℤ → Result Out
result value err attempts started now = record {
  value = value;
  err = err;
  attempts = attempts;
  started_at = started;
  duration = now -ℤ started;
}

-- The variables `val`, `err` and `attempts` of runOne.
pub record Progress {ℓ} (Out : Type ℓ) : Type ℓ where
  pub val : Out
  pub err : Option Error
  pub attempts : ℕ

-- The delay before an attempt: only from the second one on, and only with a backoff.
unfoldable pub delay : Option BackoffFunc → ℕ → Duration
delay none attempt = pos 0
delay (some backoff) attempt = if ltb 1 attempt then backoff (pos (attempt - 1)) else pos 0

module _ {ℓ} {Out : Type ℓ} (cfg : Config) (env : Env Out) where
  -- The error with which ctx ends the wait before an attempt, if it does.
  unfoldable pub interrupted : ℕ → Option Error
  unfolding delay
  interrupted attempt = if ltb_ℤ (pos 0) (delay cfg.backoff attempt) then env.wait attempt else none

  unfoldable pub attempt_once : ℕ → Out × Option Error
  unfolding run_with_timeout
  attempt_once attempt =
      run_with_timeout cfg.timeout env.zero_value (env.call attempt) (env.race attempt)

  -- `for attempt := 1; attempt <= cfg.retries; attempt++`, on the rounds that are left.
  unfoldable pub attempt_loop : ℕ → ℕ → Progress Out → Progress Out
  attempt_loop zero attempt p = p
  attempt_loop (suc left) attempt p = elim (interrupted attempt) [
    | some e ↦ record p { err = some e }
    | none ↦
        let (val, err) = attempt_once attempt in
        let p' : Progress Out = record { val = val; err = err; attempts = attempt } in
        elim err [ none ↦ p' | some e ↦ attempt_loop left (suc attempt) p' ]
  ]

  unfoldable pub run_one : Result Out
  unfolding attempt_loop interrupted attempt_once result
  run_one =
      let start : Progress Out = record { val = env.zero_value; err = none; attempts = 0 } in
      let p = attempt_loop (pos_part cfg.retries) 1 start in
      result p.val p.err p.attempts env.started env.ended
