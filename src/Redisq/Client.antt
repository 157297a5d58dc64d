-- ===== src/Redisq/Client.antt =====
-- The methods of a Redis queue around its scripts (queue/redisq/redisq.go): Publish, claim, and one
-- round of Receive. A command that fails is one that is not run.
use gojob.Prelude.{ℕ, Option, none, some, [], ℤ, if◌then◌else◌}
use gojob.Fileq.Decimal.{Text}
use gojob.Redisq.Redis.{Redis}
use gojob.Redisq.Script.{Claimed, publish_tx, claim_script, drain_script, reclaim_script, divert_tx}

-- A message that is handed to wrap.
pub record Delivery {ℓ} (T : Type ℓ) : Type ℓ where
  pub id : ℕ
  pub deliveries : ℕ
  pub payload : T

-- What one round of Receive comes to.
pub data Round {ℓ} (T : Type ℓ) : Type ℓ where
  delivers : Delivery T → Round T
  finished polls : Round T

-- The codec and base64 are arguments.
unfoldable pub publish {ℓ} :
    {T : Type ℓ} (r : Redis) → (T → Option Text) → (Text → Text) → T → r.State → Option r.State
unfolding publish_tx
publish r marshal encode64 payload s = elim (marshal payload) [
  | none ↦ none
  | some b ↦ some (publish_tx r (r.incr s).1 (encode64 b) (r.incr s).0)
]

module _ {ℓ} {T : Type ℓ} (r : Redis) (unmarshal : Text → Option T)
    (decode64 : Text → Option Text) where
  open r use {State}

  -- A payload that is missing reads as the empty string.
  unfoldable pub decode_payload : Option Text → Option T
  decode_payload none = elim (decode64 []) [ none ↦ none | some raw ↦ unmarshal raw ]
  decode_payload (some text) = elim (decode64 text) [ none ↦ none | some raw ↦ unmarshal raw ]

  -- What claim does with the payload: the message, or the diversion of its id.
  unfoldable pub wrap_or_divert : State → Claimed → Option T → State × Option (Delivery T)
  unfolding divert_tx
  wrap_or_divert q c none = (divert_tx r c.id q, none)
  wrap_or_divert q c (some payload) =
      (q, some (record { id = c.id; deliveries = c.deliveries; payload = payload }))

  -- claim behind its script.
  unfoldable pub claim_reply : State → Option Claimed → State × Option (Delivery T)
  unfolding decode_payload wrap_or_divert
  claim_reply q none = (q, none)
  claim_reply q (some c) = wrap_or_divert q c (decode_payload c.payload)

  unfoldable pub claim : ℤ → State → State × Option (Delivery T)
  unfolding claim_script claim_reply
  claim deadline s = let reply = claim_script r deadline s in claim_reply reply.0 reply.1

  -- The round behind the claim.
  unfoldable pub round_of : State → Option (Delivery T) → Round T
  unfolding drain_script
  round_of q (some delivery) = delivers delivery
  round_of q none = if drain_script r q then finished else polls

  unfoldable pub receive_round : ℤ → ℤ → State → State × Round T
  unfolding claim reclaim_script round_of
  receive_round now deadline s =
      let got = claim deadline (reclaim_script r now s) in (got.0, round_of got.0 got.1)
