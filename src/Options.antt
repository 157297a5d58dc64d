-- ===== src/Options.antt =====
-- options.go: the configuration of Process, its functional options, and the backoff functions.
-- `int` and `time.Duration` are integers; a Duration counts nanoseconds.
pub mod Valid
pub mod Backoff
use gojob.Prelude.{
  ℕ, ◌-◌, ◌*◌, ◌%◌, ◌^◌, ◌||◌, List, [], ◌∷◌, Option, none, some, ltb, leb, if◌then◌else◌, ℤ, pos,
  negsuc, ◌-ℤ◌, leb_ℤ, ltb_ℤ,
}

abbrev pub Duration : Type 0
Duration = ℤ

-- A nil BackoffFunc is the `none` of the field in Config.
abbrev pub BackoffFunc : Type 0
BackoffFunc = ℤ → Duration

pub record Config : Type 0 where
  pub workers : ℤ
  pub retries : ℤ
  pub backoff : Option BackoffFunc
  pub timeout : Duration

unfoldable pub defaults : Config
defaults = record { workers = pos 1; retries = pos 1; backoff = none; timeout = pos 0 }

-- An Option mutates the config that it is given.
abbrev pub ConfigOption : Type 0
ConfigOption = Config → Config

unfoldable pub with_workers : ℤ → ConfigOption
with_workers n c = if ltb_ℤ (pos 0) n then record c { workers = n } else c

unfoldable pub with_timeout : Duration → ConfigOption
with_timeout d c = record c { timeout = d }

unfoldable pub with_retry : ℤ → Option BackoffFunc → ConfigOption
with_retry max_attempts backoff c =
    let c' = if ltb_ℤ (pos 0) max_attempts then record c { retries = max_attempts } else c in
    record c' { backoff = backoff }

-- The loop `for _, o := range opts { o(&cfg) }`.
unfoldable pub apply_options : List ConfigOption → Config → Config
apply_options [] c = c
apply_options (o ∷ os) c = apply_options os (o c)

-- An int64 as the bit pattern of its two's complement, and back.
abbrev pub two64 : ℕ
two64 = 2 ^ 64

abbrev pub two63 : ℕ
two63 = 2 ^ 63

unfoldable pub to_bits : ℤ → ℕ
to_bits (pos n) = n % two64
to_bits (negsuc n) = two64 - 1 - n % two64

unfoldable pub of_bits : ℕ → ℤ
of_bits b = if ltb b two63 then pos b else negsuc (two64 - 1 - b)

-- `x << k` on int64: the bits that leave the word are lost, and a shift by 64 or more gives 0.
unfoldable pub shift_left : ℤ → ℕ → ℤ
unfolding to_bits of_bits
shift_left x k = let bits = (to_bits x * 2 ^ k) % two64 in if leb 64 k then pos 0 else of_bits bits

-- `uint(attempt-1)` is the bit pattern of the difference.
unfoldable pub exp_backoff : Duration → Duration → BackoffFunc
exp_backoff base max attempt =
    let d = shift_left base (to_bits (attempt -ℤ pos 1)) in
    if leb_ℤ d (pos 0) || ltb_ℤ max d then max else d

unfoldable pub no_backoff : BackoffFunc
no_backoff _ = pos 0
