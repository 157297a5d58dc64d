-- ===== src/Redisq/Options.antt =====
-- queue/redisq/redisq.go: the configuration that New applies, and the keys of a queue.
use gojob.Prelude.{◌*◌, ◌^◌, List, [], ◌∷◌, ◌++◌, pos, ltb_ℤ, if◌then◌else◌}
use gojob.Fileq.Decimal.{Text}
use gojob.Options.{Duration}

pub record Config : Type 0 where
  pub lease : Duration
  pub poll : Duration
  pub prefix : Text

-- 30 seconds, 200 milliseconds, and "gojob".
unfoldable pub defaults : Config
defaults = record {
  lease = pos (30 * 10 ^ 9);
  poll = pos (200 * 10 ^ 6);
  prefix = b'g' ∷ b'o' ∷ b'j' ∷ b'o' ∷ b'b' ∷ [];
}

unfoldable pub with_lease : Duration → Config → Config
with_lease d c = if ltb_ℤ (pos 0) d then record c { lease = d } else c

unfoldable pub with_poll_interval : Duration → Config → Config
with_poll_interval d c = if ltb_ℤ (pos 0) d then record c { poll = d } else c

-- The empty prefix is ignored.
unfoldable pub with_prefix : Text → Config → Config
with_prefix [] c = c
with_prefix (b ∷ bs) c = record c { prefix = b ∷ bs }

unfoldable pub apply_options : List (Config → Config) → Config → Config
apply_options [] c = c
apply_options (o ∷ os) c = apply_options os (o c)

pub record Keys : Type 0 where
  pub seq : Text
  pub pending : Text
  pub processing : Text
  pub leases : Text
  pub payloads : Text
  pub deliveries : Text
  pub dead : Text
  pub is_sealed : Text

-- The fields of Keys by name.
pub data Field : Type 0 where
  seq pending processing leases payloads deliveries dead is_sealed : Field

-- What New appends to the prefix, without the colon.
unfoldable pub suffix : Field → Text
suffix seq = b's' ∷ b'e' ∷ b'q' ∷ []
suffix pending = b'p' ∷ b'e' ∷ b'n' ∷ b'd' ∷ b'i' ∷ b'n' ∷ b'g' ∷ []
suffix processing = b'p' ∷ b'r' ∷ b'o' ∷ b'c' ∷ b'e' ∷ b's' ∷ b's' ∷ b'i' ∷ b'n' ∷ b'g' ∷ []
suffix leases = b'l' ∷ b'e' ∷ b'a' ∷ b's' ∷ b'e' ∷ b's' ∷ []
suffix payloads = b'p' ∷ b'a' ∷ b'y' ∷ b'l' ∷ b'o' ∷ b'a' ∷ b'd' ∷ b's' ∷ []
suffix deliveries = b'd' ∷ b'e' ∷ b'l' ∷ b'i' ∷ b'v' ∷ b'e' ∷ b'r' ∷ b'i' ∷ b'e' ∷ b's' ∷ []
suffix dead = b'd' ∷ b'e' ∷ b'a' ∷ b'd' ∷ []
suffix is_sealed = b's' ∷ b'e' ∷ b'a' ∷ b'l' ∷ b'e' ∷ b'd' ∷ []

unfoldable pub key_name : Text → Field → Text
unfolding suffix
key_name prefix f = prefix ++ b':' ∷ suffix f

unfoldable pub keys_of : Text → Keys
unfolding key_name
keys_of prefix = record {
  seq = key_name prefix seq;
  pending = key_name prefix pending;
  processing = key_name prefix processing;
  leases = key_name prefix leases;
  payloads = key_name prefix payloads;
  deliveries = key_name prefix deliveries;
  dead = key_name prefix dead;
  is_sealed = key_name prefix is_sealed;
}

abbrev pub key_at : Field → Keys → Text
key_at seq k = k.seq
key_at pending k = k.pending
key_at processing k = k.processing
key_at leases k = k.leases
key_at payloads k = k.payloads
key_at deliveries k = k.deliveries
key_at dead k = k.dead
key_at is_sealed k = k.is_sealed
