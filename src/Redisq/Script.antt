-- ===== src/Redisq/Script.antt =====
-- The transactions and the Lua scripts of queue/redisq/redisq.go. Redis runs each of them as one
-- step.
use gojob.Prelude.{
  ℕ, ◌==◌, Bool, true, false, not, Option, none, some, List, [], ◌∷◌, if◌then◌else◌, ℤ,
}
use gojob.Fileq.Decimal.{Text}
use gojob.Redisq.Redis.{Redis, pending, processing, dead}

-- What claimScript returns: the id, its deliveries, and the payload if there is one.
pub record Claimed : Type 0 where
  pub id : ℕ
  pub deliveries : ℕ
  pub payload : Option Text

module _ (r : Redis) where
  open r use {
    State, lpush, lrem, llen, rpoplpush, exists_sealed, hset_payload, hget_payload, hdel_payload,
    hincr_deliveries, hdel_deliveries, zadd, zrem, zrange_by_score,
  }

  -- The pipeline of Publish, after INCR has given the id.
  unfoldable pub publish_tx : ℕ → Text → State → State
  publish_tx id b s = lpush pending id (hset_payload id b s)

  -- claimScript behind its first command: `if not id then return false end`, and the rest.
  unfoldable pub claim_rest : ℤ → State → Option ℕ → State × Option Claimed
  claim_rest deadline s none = (s, none)
  claim_rest deadline s (some id) =
      let counted = hincr_deliveries id s in
      let leased = zadd deadline id counted.0 in
      (leased, some (record { id = id; deliveries = counted.1; payload = hget_payload id leased }))

  unfoldable pub claim_script : ℤ → State → State × Option Claimed
  unfolding claim_rest
  claim_script deadline s =
      let popped = rpoplpush pending processing s in claim_rest deadline popped.0 popped.1

  unfoldable pub drain_script : State → Bool
  drain_script s =
      if not (exists_sealed s)
      then false
      else if not (llen pending s == 0)
      then false
      else if not (llen processing s == 0)
      then false
      else true

  -- The body of the loop of reclaimScript.
  unfoldable pub reclaim_one : ℕ → State → State
  reclaim_one id s = lpush pending id (zrem id (lrem processing id s))

  unfoldable pub reclaim_loop : List ℕ → State → State
  unfolding reclaim_one
  reclaim_loop [] s = s
  reclaim_loop (id ∷ ids) s = reclaim_loop ids (reclaim_one id s)

  unfoldable pub reclaim_script : ℤ → State → State
  unfolding reclaim_loop
  reclaim_script now s = reclaim_loop (zrange_by_score now s) s

  unfoldable pub ack_tx : ℕ → State → State
  ack_tx id s = hdel_deliveries id (hdel_payload id (zrem id (lrem processing id s)))

  unfoldable pub nack_tx : ℕ → State → State
  nack_tx id s = lpush pending id (zrem id (lrem processing id s))

  unfoldable pub dead_letter_tx : ℕ → State → State
  dead_letter_tx id s = hdel_deliveries id (lpush dead id (zrem id (lrem processing id s)))

  unfoldable pub divert_tx : ℕ → State → State
  divert_tx id s = lpush dead id (zrem id (lrem processing id s))
