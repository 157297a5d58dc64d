-- ===== src/Tests/Redis.antt =====
-- Tests of queue/redisq/redisq.go, on a Redis whose state is the values of its keys.
use gojob.Prelude.{
  arith, suc, ◌+◌, ◌≤◌, ◌≡◌, refl, true, false, none, some, [], ◌∷◌, ℤ, pos, length,
}
use gojob.Fileq.Decimal.{Text}
use gojob.Redisq.Redis.{
  Redis, IsRedis, Data, set_list, list_at, remove_first, pop_right, move_right, at_id,
  insert_scored, zrem_from, up_to,
}
use gojob.Redisq.Script.{
  Claimed, claim_script, claim_rest, publish_tx, reclaim_script, reclaim_loop, reclaim_one,
  drain_script, ack_tx, nack_tx,
}
use gojob.Redisq.System.{
  System, Reach, PromptReach, start, finalize_handle, finalize_tx, final_ack, final_nack, reserved,
  published, sealed, claimed, reclaimed, finalized, here, next,
}
use gojob.Redisq.Counts.{count}
use gojob.Redisq.Kept.{listed, never_lost, drained_all_done}
use gojob.Redisq.Owners.{empty_data, exactly_once}
use gojob.Queue.Lifecycle.{Stage, absent, waiting, in_flight, Lives}
use gojob.Redisq.Expired.{expired_goes_back}
use gojob.Redisq.Lives.{Stands, PromptReach-Lives}
use gojob.Redisq.Delivered.{IsBase64, claim_delivers}
use gojob.Redisq.Client.{claim, receive_round}
use gojob.Redisq.Round.{IsRound, receive_round-Reach}

abbrev memory : Redis
memory = record {
  State = Data;
  incr = λ d. (record d { seq = suc d.seq }, suc d.seq);
  set_sealed = λ d. record d { is_sealed = true };
  exists_sealed = λ d. d.is_sealed;
  lpush = λ k x d. set_list k (x ∷ list_at k d) d;
  lrem = λ k x d. set_list k (remove_first x (list_at k d)) d;
  llen = λ k d. length (list_at k d);
  rpoplpush = λ from to d. move_right from to d (pop_right (list_at from d));
  hset_payload = λ x b d. record d { payloads = at_id x (some b) d.payloads };
  hget_payload = λ x d. d.payloads x;
  hdel_payload = λ x d. record d { payloads = at_id x none d.payloads };
  hincr_deliveries = λ x d.
      (record d { deliveries = at_id x (suc (d.deliveries x)) d.deliveries }, suc (d.deliveries x));
  hdel_deliveries = λ x d. record d { deliveries = at_id x 0 d.deliveries };
  zadd = λ score x d. record d { leases = insert_scored x score (zrem_from x d.leases) };
  zrem = λ x d. record d { leases = zrem_from x d.leases };
  zrange_by_score = λ max d. up_to max d.leases;
}

abbrev same : Data → Data
same d = d

memory-IsRedis : IsRedis memory same
memory-IsRedis = record {
  view-incr = λ s. (refl, refl);
  view-set_sealed = λ s. refl;
  exists_sealed_lem = λ s. refl;
  view-lpush = λ k x s. refl;
  view-lrem = λ k x s. refl;
  llen_lem = λ k s. refl;
  view-rpoplpush = λ from to s. refl;
  view-hset_payload = λ x b s. refl;
  hget_payload_lem = λ x s. refl;
  view-hdel_payload = λ x s. refl;
  view-hincr_deliveries = λ x s. (refl, refl);
  view-hdel_deliveries = λ x s. refl;
  view-zadd = λ score x s. refl;
  view-zrem = λ x s. refl;
  zrange_by_score_lem = λ max s. refl;
}

abbrev same_text : Text → Text
same_text w = w

abbrev bytes : Text
bytes = 7 ∷ []

abbrev Sys : Type 0
Sys = System Data

-- One message is published, claimed, reclaimed after its lease, claimed again and acknowledged.
abbrev one_published : Sys
one_published = record {
  redis = record empty_data {
    seq = 1;
    pending = 1 ∷ [];
    payloads = at_id 1 (some bytes) (λ id. none);
  };
  handles = [];
  reserved = [];
  published = 1 ∷ [];
  sent = at_id 1 (some bytes) (λ id. none);
  acked = [];
}

published-Reach : Reach memory (start memory empty_data) one_published
unfolding start publish_tx
published-Reach = next (next here (reserved refl)) (published [] [] 1 bytes refl refl)

abbrev claimed_at : ℤ → Data → Data
claimed_at deadline d = record d {
  pending = [];
  processing = 1 ∷ [];
  leases = (1, deadline) ∷ [];
  deliveries = at_id 1 (suc (d.deliveries 1)) d.deliveries;
}

abbrev one_claimed : Sys
one_claimed = record one_published {
  redis = claimed_at (pos 50) one_published.redis;
  handles = record { id = 1; fired = false; settled = false } ∷ [];
}

abbrev first_claim : Claimed
first_claim = record { id = 1; deliveries = 1; payload = some bytes }

claims : claim_script memory (pos 50) (one_published.redis) ≡ (one_claimed.redis, some first_claim)
unfolding claim_script claim_rest
claims = refl

claimed-PromptReach : PromptReach memory (start memory empty_data) one_claimed
unfolding start publish_tx
claimed-PromptReach =
    next (next (next here (reserved refl) tt) (published [] [] 1 bytes refl refl) tt)
      (claimed (pos 50) (one_claimed.redis) first_claim claims refl) tt

abbrev one_reclaimed : Sys
one_reclaimed = record one_claimed {
  redis = record (one_claimed.redis) { pending = 1 ∷ []; processing = []; leases = [] };
  handles = record { id = 1; fired = false; settled = true } ∷ [];
}

reclaimed-PromptReach : PromptReach memory (start memory empty_data) one_reclaimed
unfolding reclaim_script reclaim_loop reclaim_one
reclaimed-PromptReach = next claimed-PromptReach (reclaimed (pos 50) refl) tt

PromptReach-Lives_example :
    (a b : Stage) × Lives absent a
    × Stands 1 a (one_claimed.redis) (one_claimed.acked)
    × Lives a b
    × Stands 1 b (one_reclaimed.redis) (one_reclaimed.acked)
unfolding reclaim_script reclaim_loop reclaim_one
PromptReach-Lives_example =
    PromptReach-Lives memory same memory-IsRedis empty_data refl claimed-PromptReach
      (next here (reclaimed (pos 50) refl) tt) 1

claimed-Reach : Reach memory (start memory empty_data) one_claimed
claimed-Reach = next published-Reach (claimed (pos 50) (one_claimed.redis) first_claim claims refl)

-- The message is acknowledged, and the queue is sealed.
abbrev one_acked : Sys
one_acked = record one_claimed {
  redis = record empty_data {
    seq = 1;
    payloads = at_id 1 none (at_id 1 (some bytes) (λ id. none));
    deliveries = at_id 1 0 (at_id 1 1 (λ id. 0));
    is_sealed = true;
  };
  handles = record { id = 1; fired = true; settled = true } ∷ [];
  acked = 1 ∷ [];
}

acked-Reach : Reach memory (start memory empty_data) one_acked
unfolding finalize_handle finalize_tx ack_tx
acked-Reach =
    next {t = record one_acked { redis = record (one_acked.redis) { is_sealed = false } }}
      (next claimed-Reach (finalized final_ack 0 refl)) (sealed refl)

never_lost_example :
    count 1 (one_claimed.published) ≤ listed 1 (one_claimed.redis) + count 1 (one_claimed.acked)
never_lost_example = never_lost memory same memory-IsRedis empty_data claimed-Reach 1

drained_all_done_example :
    count 1 (one_acked.published) ≤ count 1 (one_acked.redis.dead) + count 1 (one_acked.acked)
unfolding drain_script
drained_all_done_example = drained_all_done memory same memory-IsRedis empty_data acked-Reach refl 1

exactly_once_example :
    (count 1 (one_reclaimed.published)
      ≡ listed 1 (one_reclaimed.redis) + count 1 (one_reclaimed.acked))
    × (count 1 (one_reclaimed.published) ≤ 1)
exactly_once_example =
    exactly_once memory same memory-IsRedis empty_data refl reclaimed-PromptReach 1

expired_goes_back_example :
    Stands 1 in_flight (one_claimed.redis) (one_claimed.acked)
    × Stands 1 waiting (reclaim_script memory (pos 50) (one_claimed.redis)) (one_claimed.acked)
expired_goes_back_example =
    expired_goes_back memory same memory-IsRedis empty_data 1 (pos 50) refl claimed-PromptReach
      (omega arith)

some-IsBase64 : IsBase64 same_text some
some-IsBase64 = record { decode64-encode64 = λ b. refl }

claim_delivers_example : claim memory some some (pos 50) (one_published.redis) ≡ (
  claimed_at (pos 50) (one_published.redis),
  some (record { id = 1; deliveries = 1; payload = bytes }),
)
claim_delivers_example =
    claim_delivers memory same memory-IsRedis some same_text some some-IsBase64 empty_data (pos 50)
      bytes bytes refl published-Reach claims refl refl refl

receive_round-Reach_example :
    let round = receive_round memory some some (pos 0) (pos 50) (one_published.redis) in
    (t : Sys) × Reach memory one_published t
    × (t.redis ≡ round.0)
    × IsRound memory some some (pos 0) (pos 50) one_published t (round.1)
receive_round-Reach_example = receive_round-Reach memory some some (pos 0) (pos 50) one_published

-- A nack after the reclaim puts the id into pending for a second time. When both copies have been
-- claimed, the ack of one takes the lease of both: the other stays in processing without a lease.
late_nack :
    let twice = finalize_tx memory final_nack 1 (one_reclaimed.redis) in
    let first = (claim_script memory (pos 60) twice).0 in
    let second = (claim_script memory (pos 70) first).0 in
    let stuck = finalize_tx memory final_ack 1 second in
    (twice.pending ≡ 1 ∷ 1 ∷ [])
    × (second.processing ≡ 1 ∷ 1 ∷ [])
    × (stuck.processing ≡ 1 ∷ [])
    × (stuck.leases ≡ [])
unfolding finalize_tx nack_tx ack_tx claim_script claim_rest
late_nack = (refl, refl, refl, refl)
