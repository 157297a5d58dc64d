-- ===== src/Queue/Consume/Carried.antt =====
-- The message handle rides through Process, also where an attempt times out (queue/consume.go).
use gojob.Prelude.{ℕ, ◌≡◌, ap, ◌∙◌, Option, some, pos, arith}
use gojob.Options.Valid.{IsValid, AllOffered, IsOffered, apply_options-IsValid}
use gojob.Process.{Env, run_one, attempt_once}
use gojob.Process.Attempts.{run_one-IsOutcome}
use gojob.Queue.{Message}
use gojob.Queue.Consume.{run_with_timeout, Config, process_config, Outcome, work}
use gojob.Task.{Error}

-- Process gets at least one worker and one attempt from every configuration of Consume.
pub process_config-IsValid : (cfg : Config) → IsValid (process_config cfg)
unfolding process_config
process_config-IsValid cfg = apply_options-IsValid (
    AllOffered.cons (IsOffered.workers cfg.workers)
      (AllOffered.cons (IsOffered.retry cfg.retries cfg.backoff) AllOffered.nil))

process_config-timeout : (cfg : Config) → (process_config cfg).timeout ≡ pos 0
unfolding process_config
process_config-timeout cfg = ground arith

module _ {ℓ κ μ} {Q : Type ℓ} {In : Type κ} {Out : Type μ} (cfg : Config) where
  -- Process adds no timeout of its own.
  attempt_once-call :
      (env : Env (Outcome Q In Out)) (n : ℕ) → attempt_once (process_config cfg) env n ≡ env.call n
  unfolding attempt_once
  attempt_once-call env n = rw process_config-timeout

  -- Where each attempt of the pool is one of `work` on a message, the result that Process returns for
  -- it carries the handle of that very message, and the output of the last attempt as runWithTimeout
  -- returned it. So the loop never finds a nil message, whether the attempts succeed, fail, time out
  -- or are cut off by ctx.
  pub run_one_carries :
      (zero_value : Out) (m : Message Q In) (calls : ℕ → Out × Option Error)
      (races : ℕ → Option Error) (env : Env (Outcome Q In Out))
      → ((n : ℕ) → env.call n ≡ work cfg zero_value m (calls n) (races n))
      → let r = run_one (process_config cfg) env in
        (r.value.msg ≡ some m)
        × (r.value.out
            ≡ (run_with_timeout cfg.timeout zero_value (calls r.attempts) (races r.attempts)).0)
  unfolding work
  run_one_carries zero_value m calls races env same =
      let r = run_one (process_config cfg) env in
      let o = run_one-IsOutcome (process_config cfg) env (process_config-IsValid cfg) in
      let last : r.value ≡ (work cfg zero_value m (calls r.attempts) (races r.attempts)).0 =
        o.last_value ∙ ap (λ p. p.0) (attempt_once-call env r.attempts ∙ same r.attempts) in
      (ap (λ v. v.msg) last, ap (λ v. v.out) last)
