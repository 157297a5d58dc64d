-- ===== src/Fileq/Options.antt =====
-- queue/fileq/fileq.go: the configuration that Open applies.
use gojob.Prelude.{◌*◌, ◌^◌, List, [], ◌∷◌, pos, ltb_ℤ, if◌then◌else◌}
use gojob.Options.{Duration}

pub record Config : Type 0 where
  pub lease : Duration
  pub poll : Duration

-- 30 seconds and 100 milliseconds.
unfoldable pub defaults : Config
defaults = record { lease = pos (30 * 10 ^ 9); poll = pos (100 * 10 ^ 6) }

unfoldable pub with_lease : Duration → Config → Config
with_lease d c = if ltb_ℤ (pos 0) d then record c { lease = d } else c

unfoldable pub with_poll_interval : Duration → Config → Config
with_poll_interval d c = if ltb_ℤ (pos 0) d then record c { poll = d } else c

unfoldable pub apply_options : List (Config → Config) → Config → Config
apply_options [] c = c
apply_options (o ∷ os) c = apply_options os (o c)
