-- ===== src/Options/Valid.antt =====
-- What every list of options leaves in the configuration (options.go).
use gojob.Prelude.{List, [], ◌∷◌, ℤ, pos, ◌<ℤ◌, arith, Option}
use gojob.Options.{
  Duration, BackoffFunc, Config, ConfigOption, defaults, with_workers, with_timeout, with_retry,
  apply_options,
}

-- The pool has a worker, and an item has an attempt.
pub record IsValid (c : Config) : Type 0 where
  pub some_worker : pos 0 <ℤ c.workers
  pub some_attempt : pos 0 <ℤ c.retries

-- The options that the package offers.
pub data IsOffered : ConfigOption → Type 0 where
  workers : (n : ℤ) → IsOffered (with_workers n)
  timeout : (d : Duration) → IsOffered (with_timeout d)
  retry : (n : ℤ) (b : Option BackoffFunc) → IsOffered (with_retry n b)

pub data AllOffered : List ConfigOption → Type 0 where
  nil : AllOffered []
  cons :
      {o : ConfigOption} {os : List ConfigOption}
      → IsOffered o
      → AllOffered os
      → AllOffered (o ∷ os)

option-IsValid : {o : ConfigOption} (c : Config) → IsOffered o → IsValid c → IsValid (o c)
unfolding with_workers with_timeout with_retry
option-IsValid c (workers n) v = ground arith
option-IsValid c (timeout d) v = ground arith
option-IsValid c (retry n b) v = ground arith

apply_options-IsValid_from :
    {os : List ConfigOption} (c : Config) → AllOffered os → IsValid c → IsValid (apply_options os c)
unfolding apply_options
apply_options-IsValid_from c nil v = v
apply_options-IsValid_from c (cons {o} {os} h hs) v =
    apply_options-IsValid_from (o c) hs (option-IsValid c h v)

-- Whatever the arguments of the options are, zero and negative ones too, the configuration that
-- Process works with has at least one worker and at least one attempt for each item.
pub apply_options-IsValid :
    {os : List ConfigOption} → AllOffered os → IsValid (apply_options os defaults)
unfolding defaults
apply_options-IsValid h =
    apply_options-IsValid_from defaults h
      (record { some_worker = omega arith; some_attempt = omega arith })
