-- ===== src/Queue/Consume.antt =====
-- queue/consume.go: Consume. The per-attempt work carries the message handle through Process; the
-- loop over its results finalizes each message.
pub mod Carried
pub mod Round
pub mod Finalized
pub mod Handled
use gojob.Prelude.{
  ℕ, zero, suc, ◌&&◌, Bool, true, false, Option, none, some, List, [], ◌∷◌, if◌then◌else◌, ℤ, pos,
  leb_ℤ, ltb_ℤ,
}
use gojob.Options
use gojob.Options.{BackoffFunc, Duration}
use gojob.Queue.{Message, Handler, ack, nack, dead_letter}
use gojob.Stream.{Stream, Turn, accept, cancel, ended, blocked, send}
use gojob.Task.{Error, Result}

pub record Config : Type 0 where
  pub workers : ℤ
  pub retries : ℤ
  pub backoff : Option BackoffFunc
  pub timeout : Duration
  pub max_deliveries : ℤ

abbrev pub ConsumeOption : Type 0
ConsumeOption = Config → Config

unfoldable pub defaults : Config
defaults = record {
  workers = pos 1;
  retries = pos 1;
  backoff = none;
  timeout = pos 0;
  max_deliveries = pos 0;
}

unfoldable pub with_workers : ℤ → ConsumeOption
with_workers n c = if ltb_ℤ (pos 0) n then record c { workers = n } else c

unfoldable pub with_retry : ℤ → Option BackoffFunc → ConsumeOption
with_retry max_attempts backoff c =
    let c' = if ltb_ℤ (pos 0) max_attempts then record c { retries = max_attempts } else c in
    record c' { backoff = backoff }

unfoldable pub with_timeout : Duration → ConsumeOption
with_timeout d c = record c { timeout = d }

unfoldable pub with_max_deliveries : ℤ → ConsumeOption
with_max_deliveries n c = if ltb_ℤ (pos 0) n then record c { max_deliveries = n } else c

unfoldable pub apply_options : List ConsumeOption → Config → Config
apply_options [] c = c
apply_options (o ∷ os) c = apply_options os (o c)

-- The configuration that Consume gives to Process: no timeout, since `work` applies it.
unfoldable pub process_config : Config → Options.Config
unfolding Options.apply_options Options.with_workers Options.with_retry Options.defaults
process_config cfg =
    Options.apply_options
      (Options.with_workers cfg.workers ∷ Options.with_retry cfg.retries cfg.backoff ∷ [])
      Options.defaults

-- The struct `outcome`. Its zero value has a nil message.
pub record Outcome {ℓ κ μ} (Q : Type ℓ) (In : Type κ) (Out : Type μ) : Type (ℓ ⊔ κ ⊔ μ) where
  pub msg : Option (Message Q In)
  pub out : Out

-- What Consume does with the message of a result.
pub data Action : Type 0 where
  acked nacked dead_lettered : Action

-- Acknowledged and dead-lettered messages are finalized; a nacked one is delivered again.
unfoldable pub is_final : Action → Bool
is_final acked = true
is_final nacked = false
is_final dead_lettered = true

-- The call; its error is discarded.
unfoldable pub perform {ℓ κ} : {Q : Type ℓ} {In : Type κ} → Action → Message Q In → Q → Q
unfolding ack nack dead_letter
perform acked m q = (ack m q).0
perform nacked m q = (nack m q).0
perform dead_lettered m q = (dead_letter m q).0

-- The output of Consume, the queue, and whether a nil message was dereferenced.
pub record ConsumeRun {ℓ μ} (Q : Type ℓ) (Out : Type μ) : Type (ℓ ⊔ μ) where
  pub output : Stream (Result Out)
  pub queue : Q
  pub panicked : Bool

abbrev pub before {ℓ μ} :
    {Q : Type ℓ} {Out : Type μ} → Result Out → ConsumeRun Q Out → ConsumeRun Q Out
before r run = record run { output = send r run.output }

-- The package's own runWithTimeout, by which `work` bounds one call of fn.
unfoldable pub run_with_timeout {ℓ} :
    {Out : Type ℓ} → Duration → Out → Out × Option Error → Option Error → Out × Option Error
run_with_timeout timeout zero_value call race =
    if leb_ℤ timeout (pos 0)
    then call
    else elim race [ none ↦ call | some e ↦ (zero_value, some e) ]

module _ {ℓ κ μ} {Q : Type ℓ} {In : Type κ} {Out : Type μ} (cfg : Config) where
  -- One attempt: `call` is how fn comes out, `race` ends it early where its context is done first.
  unfoldable pub work :
      Out → Message Q In → Out × Option Error → Option Error → Outcome Q In Out × Option Error
  work zero_value m call race =
      let (out, err) = run_with_timeout cfg.timeout zero_value call race in
      (record { msg = some m; out = out }, err)

  unfoldable pub action : Result (Outcome Q In Out) → Message Q In → Action
  action r m = elim r.err [
    | none ↦ acked
    | some e ↦
        if ltb_ℤ (pos 0) cfg.max_deliveries && leb_ℤ cfg.max_deliveries m.deliveries
        then dead_lettered
        else nacked
  ]

  unfoldable pub emitted : Result (Outcome Q In Out) → Result Out
  emitted r = record {
    value = r.value.out;
    err = r.err;
    attempts = r.attempts;
    started_at = r.started_at;
    duration = r.duration;
  }

  unfoldable pub consume_loop :
      Q → List (Result (Outcome Q In Out)) → Bool → List Turn → ConsumeRun Q Out
  consume_loop q [] closed ts = record {
    output = record { items = []; closed = closed };
    queue = q;
    panicked = false;
  }
  consume_loop q (r ∷ rs) closed ts = elim r.value.msg [
    | none ↦ record { output = blocked; queue = q; panicked = true }
    | some m ↦ elim (is_final (action r m)) [
      | false ↦ consume_loop (perform (action r m) m q) rs closed ts
      | true ↦ elim ts [
        | [] ↦ record { output = blocked; queue = perform (action r m) m q; panicked = false }
        | turn ∷ rest ↦ elim turn [
          | accept ↦ before (emitted r) (consume_loop (perform (action r m) m q) rs closed rest)
          | cancel ↦ record { output = ended; queue = perform (action r m) m q; panicked = false }
        ]
      ]
    ]
  ]
