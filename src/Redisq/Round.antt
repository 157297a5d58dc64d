-- ===== src/Redisq/Round.antt =====
-- One round of Receive, by the steps of the queue that it makes (queue/redisq/redisq.go).
use gojob.Prelude.{
  ◌≡◌, ◌⊎◌, refl, true, false, Option, some, none, ◌∷◌, ℤ, Bool-cases, Option-cases, inl, inr,
}
use gojob.Fileq.Decimal.{Text}
use gojob.Redisq.Redis.{Redis}
use gojob.Redisq.Script.{Claimed, claim_script, reclaim_script, drain_script, divert_tx}
use gojob.Redisq.System.{
  System, final_divert, settle_ids, finalize_tx, finalize_handle, claimed, missed, reclaimed,
  finalized, Reach, here, next,
}
use gojob.Redisq.Client.{
  Round, delivers, finished, polls, decode_payload, wrap_or_divert, claim_reply, round_of, claim,
  receive_round,
}

module _ {ℓ} {T : Type ℓ} (r : Redis) (unmarshal : Text → Option T)
    (decode64 : Text → Option Text) where
  -- The queue behind the reclaim at this time.
  abbrev pub swept : ℤ → System r.State → System r.State
  swept now s = record s {
    redis = reclaim_script r now s.redis;
    handles = settle_ids (r.zrange_by_score now s.redis) s.handles;
  }

  -- A round without a message finishes where drainScript says so on these keys, and else polls.
  abbrev pub Empty : r.State → Round T → Type ℓ
  Empty q round =
      ((drain_script r q ≡ true) × (round ≡ finished))
      ⊎ ((drain_script r q ≡ false) × (round ≡ polls))

  -- What a round comes to, on the queue behind its reclaim: nothing to claim; a message that is open
  -- and delivered with the id, the count and the decoded payload of the claim; or one whose payload
  -- does not decode, which is diverted and not delivered.
  pub data IsRound (now deadline : ℤ) (s t : System r.State) (round : Round T) : Type ℓ where
    idle :
        (q : r.State)
        → claim_script r deadline (swept now s).redis ≡ (q, none)
        → t ≡ record (swept now s) { redis = q }
        → Empty q round
        → IsRound now deadline s t round
    delivered :
        (q : r.State) (c : Claimed) (x : T)
        → claim_script r deadline (swept now s).redis ≡ (q, some c)
        → decode_payload r unmarshal decode64 c.payload ≡ some x
        → t ≡ record (swept now s) {
          redis = q;
          handles = record { id = c.id; fired = false; settled = false } ∷ (swept now s).handles;
        }
        → round ≡ delivers (record { id = c.id; deliveries = c.deliveries; payload = x })
        → IsRound now deadline s t round
    diverted :
        (q : r.State) (c : Claimed)
        → claim_script r deadline (swept now s).redis ≡ (q, some c)
        → decode_payload r unmarshal decode64 c.payload ≡ none
        → t ≡ record (swept now s) {
          redis = divert_tx r c.id q;
          handles = record { id = c.id; fired = true; settled = true } ∷ (swept now s).handles;
        }
        → Empty (divert_tx r c.id q) round
        → IsRound now deadline s t round

  round_of-Empty : (q : r.State) → Empty q (round_of r unmarshal decode64 q none)
  unfolding round_of
  round_of-Empty q = elim (Bool-cases (drain_script r q)) [
    | inl done ↦ inl (done, rw done refl)
    | inr more ↦ inr (more, rw more refl)
  ]

  -- A round that has come to this behind its reclaim.
  abbrev Rounds : ℤ → ℤ → System r.State → r.State → Round T → Type ℓ
  Rounds now deadline s q round =
      (t : System r.State) × Reach r (swept now s) t
      × (t.redis ≡ q)
      × IsRound now deadline s t round

  wrap_or_divert-Rounds :
      (now deadline : ℤ) (s : System r.State) (q : r.State) (c : Claimed)
      → claim_script r deadline (swept now s).redis ≡ (q, some c)
      → let got =
          wrap_or_divert r unmarshal decode64 q c (decode_payload r unmarshal decode64 c.payload) in
        Rounds now deadline s got.0 (round_of r unmarshal decode64 got.0 got.1)
  unfolding wrap_or_divert finalize_handle finalize_tx
  wrap_or_divert-Rounds now deadline s q c e =
      elim (Option-cases (decode_payload r unmarshal decode64 c.payload)) [
        | inl bad ↦ rw bad (
          _,
          next (next here (claimed deadline q c e refl)) (finalized final_divert 0 refl),
          refl,
          diverted q c e bad refl (round_of-Empty _),
        )
        | inr (x, good) ↦ rw good (
          _,
          next here (claimed deadline q c e refl),
          refl,
          delivered q c x e good refl (unfold round_of in refl),
        )
      ]

  claim_reply-Rounds :
      (now deadline : ℤ) (s : System r.State) (q : r.State) (o : Option Claimed)
      → claim_script r deadline (swept now s).redis ≡ (q, o)
      → let got = claim_reply r unmarshal decode64 q o in
        Rounds now deadline s got.0 (round_of r unmarshal decode64 got.0 got.1)
  unfolding claim_reply
  claim_reply-Rounds now deadline s q none e =
      (_, next here (missed deadline q e refl), refl, idle q e refl (round_of-Empty q))
  claim_reply-Rounds now deadline s q (some c) e = wrap_or_divert-Rounds now deadline s q c e

  Reach-trans : {s t u : System r.State} → Reach r s t → Reach r t u → Reach r s u
  Reach-trans p here = p
  Reach-trans p (next q st) = next (Reach-trans p q) st

  -- A round of Receive that no one else comes between is a run of the steps of the queue: it runs
  -- reclaimScript and then claimScript. A message whose payload decodes is delivered, with the id and
  -- the count that the script returned, and its callbacks are open; one whose payload does not is
  -- diverted. Without a message to deliver, the round finishes exactly where drainScript then says so.
  pub receive_round-Reach :
      (now deadline : ℤ) (s : System r.State)
      → let round = receive_round r unmarshal decode64 now deadline s.redis in
        (t : System r.State) × Reach r s t × (t.redis ≡ round.0) × IsRound now deadline s t round.1
  unfolding receive_round claim
  receive_round-Reach now deadline s =
      let (t, run, e, is_round) = claim_reply-Rounds now deadline s _ _ refl in
      (t, Reach-trans (next here (reclaimed now refl)) run, e, is_round)
