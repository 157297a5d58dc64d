-- ===== src/Redisq/Delivered.antt =====
-- From Publish to a delivery (queue/redisq/redisq.go): encoded, kept and decoded.
use gojob.Prelude.{◌≡◌, refl, ◌∙◌, Option, some, ℤ}
use gojob.Fileq.Decimal.{Text}
use gojob.Redisq.Redis.{Redis, IsRedis, Data}
use gojob.Redisq.Script.{Claimed, claim_script}
use gojob.Redisq.System.{System, start, Reach}
use gojob.Redisq.Counts.{count}
use gojob.Redisq.Owners.{empty_data}
use gojob.Redisq.Payload.{claim_returns_sent}
use gojob.Redisq.Client.{decode_payload, wrap_or_divert, claim_reply, claim}

-- What the queue relies on of base64: bytes that were encoded are decoded as they were.
pub record IsBase64 (encode64 : Text → Text) (decode64 : Text → Option Text) : Type 0 where
  pub decode64-encode64 : (b : Text) → decode64 (encode64 b) ≡ some b

module _ {ℓ} {T : Type ℓ} (r : Redis) (view : r.State → Data) (law : IsRedis r view)
    (unmarshal : Text → Option T) (encode64 : Text → Text) (decode64 : Text → Option Text)
    (base64 : IsBase64 encode64 decode64) where
  decode_payload-encode64 :
      (x : T) (b : Text)
      → unmarshal b ≡ some x
      → decode_payload r unmarshal decode64 (some (encode64 b)) ≡ some x
  unfolding decode_payload
  decode_payload-encode64 x b e = rw (decode_payload, base64.decode64-encode64 b) e

  -- On keys that start empty, where base64 gives encoded bytes back: where claimScript takes a message
  -- that is not acknowledged, claim decodes the very bytes that Publish sent for its id, at every
  -- redelivery; if the codec reads a value from them, claim delivers that value under the id and with
  -- the count that the script returned, and does not divert the message.
  pub claim_delivers :
      (empty : r.State) {s : System r.State} (deadline : ℤ) {q : r.State} {c : Claimed} (x : T)
      (b : Text)
      → view empty ≡ empty_data
      → Reach r (start r empty) s
      → claim_script r deadline s.redis ≡ (q, some c)
      → count c.id s.acked ≡ 0
      → unmarshal b ≡ some x
      → s.sent c.id ≡ some (encode64 b)
      → claim r unmarshal decode64 deadline s.redis
        ≡ (q, some (record { id = c.id; deliveries = c.deliveries; payload = x }))
  unfolding claim claim_reply wrap_or_divert
  claim_delivers empty {s} deadline {q} {c} x b e p got none_acked encoded sent =
      let kept = claim_returns_sent r view law empty deadline e p got none_acked ∙ sent in
      rw (got, kept, decode_payload-encode64 x b encoded) refl
