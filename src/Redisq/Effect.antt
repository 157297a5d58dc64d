-- ===== src/Redisq/Effect.antt =====
-- What the transactions and scripts of queue/redisq/redisq.go do to the keys, one equation for each.
use gojob.Prelude.{
  ℕ, suc, ◌==◌, ◌≡◌, refl, sym, ap, ◌∙◌, true, none, some, List, [], ◌∷◌, ℤ, arith, length,
  Option-cases, inl, inr, ◌⊎◌,
}
use gojob.Fileq.Decimal.{Text}
use gojob.Redisq.Redis.{
  Redis, IsRedis, Data, pending, processing, remove_first, pop_right, zrem_from, insert_scored,
  at_id, move_right,
}
use gojob.Redisq.Script.{
  Claimed, claim_rest, publish_tx, claim_script, drain_script, reclaim_one, ack_tx, nack_tx,
  dead_letter_tx, divert_tx,
}

-- Out of processing and out of the leases.
abbrev pub released : ℕ → Data → Data
released id d = record d {
  processing = remove_first id d.processing;
  leases = zrem_from id d.leases;
}

module _ (r : Redis) (view : r.State → Data) (law : IsRedis r view) where
  view-release :
      (id : ℕ) (s : r.State) → view (r.zrem id (r.lrem processing id s)) ≡ released id (view s)
  view-release id s = rw (law.view-zrem, law.view-lrem) refl

  pub view-publish_tx :
      (id : ℕ) (b : Text) (s : r.State)
      → view (publish_tx r id b s) ≡ record (view s) {
        pending = id ∷ (view s).pending;
        payloads = at_id id (some b) (view s).payloads;
      }
  unfolding publish_tx
  view-publish_tx id b s = rw (law.view-lpush, law.view-hset_payload) refl

  pub view-reclaim_one :
      (id : ℕ) (s : r.State)
      → view (reclaim_one r id s)
        ≡ record (released id (view s)) { pending = id ∷ (view s).pending }
  unfolding reclaim_one
  view-reclaim_one id s = rw (law.view-lpush, view-release) refl

  pub view-nack_tx :
      (id : ℕ) (s : r.State)
      → view (nack_tx r id s) ≡ record (released id (view s)) { pending = id ∷ (view s).pending }
  unfolding nack_tx
  view-nack_tx id s = rw (law.view-lpush, view-release) refl

  pub view-divert_tx :
      (id : ℕ) (s : r.State)
      → view (divert_tx r id s) ≡ record (released id (view s)) { dead = id ∷ (view s).dead }
  unfolding divert_tx
  view-divert_tx id s = rw (law.view-lpush, view-release) refl

  pub view-dead_letter_tx :
      (id : ℕ) (s : r.State)
      → view (dead_letter_tx r id s) ≡ record (released id (view s)) {
        dead = id ∷ (view s).dead;
        deliveries = at_id id 0 (view s).deliveries;
      }
  unfolding dead_letter_tx
  view-dead_letter_tx id s = rw (law.view-hdel_deliveries, law.view-lpush, view-release) refl

  pub view-ack_tx :
      (id : ℕ) (s : r.State)
      → view (ack_tx r id s) ≡ record (released id (view s)) {
        payloads = at_id id none (view s).payloads;
        deliveries = at_id id 0 (view s).deliveries;
      }
  unfolding ack_tx
  view-ack_tx id s = rw (law.view-hdel_deliveries, law.view-hdel_payload, view-release) refl

  -- The keys after a claim of the right end of pending.
  abbrev pub claimed_data : ℤ → ℕ → List ℕ → Data → Data
  claimed_data deadline id rest d = record d {
    pending = rest;
    processing = id ∷ d.processing;
    deliveries = at_id id (suc (d.deliveries id)) d.deliveries;
    leases = insert_scored id deadline (zrem_from id d.leases);
  }

  popped-cases :
      (s : r.State)
      → ((pop_right (view s).pending ≡ none)
          × (view (r.rpoplpush pending processing s).0 ≡ view s)
          × ((r.rpoplpush pending processing s).1 ≡ none))
        ⊎ ((rest : List ℕ) × (id : ℕ) × (pop_right (view s).pending ≡ some (rest, id))
            × (view (r.rpoplpush pending processing s).0
                ≡ record (view s) { pending = rest; processing = id ∷ (view s).processing })
            × ((r.rpoplpush pending processing s).1 ≡ some id))
  popped-cases s = elim (Option-cases (pop_right (view s).pending)) [
    | inl e ↦
        let both =
          law.view-rpoplpush pending processing s ∙ ap (move_right pending processing (view s)) e in
        inl (e, ap (λ p. p.0) both, ap (λ p. p.1) both)
    | inr ((rest, id), e) ↦
        let both =
          law.view-rpoplpush pending processing s ∙ ap (move_right pending processing (view s)) e in
        inr (rest, id, e, ap (λ p. p.0) both, ap (λ p. p.1) both)
  ]

  claim_rest-some :
      (deadline : ℤ) (s : r.State) (id : ℕ) {q : r.State} {c : Claimed}
      → claim_rest r deadline s (some id) ≡ (q, some c)
      → (c.id ≡ id)
        × (view q ≡ record (view s) {
          deliveries = at_id id (suc ((view s).deliveries id)) (view s).deliveries;
          leases = insert_scored id deadline (zrem_from id (view s).leases);
        })
        × (c.deliveries ≡ suc ((view s).deliveries id))
        × (c.payload ≡ (view s).payloads id)
  unfolding claim_rest
  claim_rest-some deadline s id {q} {c} h =
      let counted = r.hincr_deliveries id s in
      let leased = r.zadd deadline id counted.0 in
      let state : leased ≡ q = ap (λ p. p.0) h in
      let made : record { id = id; deliveries = counted.1; payload = r.hget_payload id leased }
          ≡ c =
        cc (ap (λ p. p.1) h) in
      let (seen, count) = law.view-hincr_deliveries id s in
      let viewed = law.view-zadd deadline id counted.0 in
      rw (sym state, sym made)
        (
          refl,
          viewed ∙ rw seen refl,
          count,
          law.hget_payload_lem id leased ∙ rw (viewed, seen) refl,
        )

  -- A claim that returns a message.
  pub claim_script-some :
      (deadline : ℤ) (s : r.State) {q : r.State} {c : Claimed}
      → claim_script r deadline s ≡ (q, some c)
      → (rest : List ℕ) × (pop_right (view s).pending ≡ some (rest, c.id))
        × (view q ≡ claimed_data deadline c.id rest (view s))
        × (c.deliveries ≡ suc ((view s).deliveries c.id))
        × (c.payload ≡ (view s).payloads c.id)
  unfolding claim_script
  claim_script-some deadline s {q} {c} h = elim (popped-cases s) [
    | inl (_, _, none_left) ↦
        let h' : claim_rest r deadline (r.rpoplpush pending processing s).0 none ≡ (q, some c) =
          rw none_left at h in
        unfold claim_rest in cc h'
    | inr (rest, id, e, moved, got) ↦
        let h' : claim_rest r deadline (r.rpoplpush pending processing s).0 (some id)
            ≡ (q, some c) =
          rw got at h in
        let (same, viewed, count, payload) = claim_rest-some deadline _ id h' in
        rw same (rest, e, viewed ∙ rw moved refl, count ∙ rw moved refl, payload ∙ rw moved refl)
  ]

  -- A claim that finds nothing changes nothing.
  pub claim_script-none :
      (deadline : ℤ) (s : r.State) {q : r.State}
      → claim_script r deadline s ≡ (q, none)
      → view q ≡ view s
  unfolding claim_script
  claim_script-none deadline s {q} h = elim (popped-cases s) [
    | inl (_, kept, none_left) ↦
        let h' : claim_rest r deadline (r.rpoplpush pending processing s).0 none ≡ (q, none) =
          rw none_left at h in
        let same : (r.rpoplpush pending processing s).0 ≡ q =
          ap (λ p. p.0) (unfold claim_rest in h') in
        rw (sym same) kept
    | inr (rest, id, e, moved, got) ↦
        let h' : claim_rest r deadline (r.rpoplpush pending processing s).0 (some id) ≡ (q, none) =
          rw got at h in
        unfold claim_rest in cc h'
  ]

  eq_nil : (l : List ℕ) → (length l == 0) ≡ true → l ≡ []
  eq_nil [] h = refl
  eq_nil (x ∷ l) h = ground arith

  pub drain_script-true :
      (s : r.State)
      → drain_script r s ≡ true
      → ((view s).is_sealed ≡ true) × ((view s).pending ≡ []) × ((view s).processing ≡ [])
  unfolding drain_script
  drain_script-true s h =
      let e = law.exists_sealed_lem s in
      let p = law.llen_lem pending s in
      let q = law.llen_lem processing s in
      (ground arith, eq_nil _ (ground (arith, p)), eq_nil _ (ground (arith, q)))
