-- ===== src/Redisq/Exact.antt =====
-- Where no callback is late, each message is in one place and has one owner
-- (queue/redisq/redisq.go).
use gojob.Prelude.{
  ℕ, ◌==◌, ◌+◌, ◌≤◌, ◌<◌, ◌≡◌, ==_iff, refl, sym, ap, false, some, List, [], ◌∷◌, ◌++◌, arith,
  Bool-cases, Option-cases, inl, inr,
}
use gojob.Redisq.Redis.{Redis, IsRedis, Data, remove_first, zrem_from}
use gojob.Redisq.Script.{reclaim_loop, reclaim_one, reclaim_script}
use gojob.Redisq.System.{
  System, Handle, Final, final_ack, final_nack, final_dead, final_divert, get_handle, settle_id,
  settle_ids, finalize_handle, finalize_tx, finalize_failed, record_ack, Step, reserved, published,
  sealed, claimed, missed, reclaimed, finalized, failed, IsPrompt, PromptReach, here, next,
}
use gojob.Redisq.Counts.{
  one_if, count, count-append, lease_count, open_count, count-remove_first, count-pop_right,
  lease_count-zrem_from, lease_count-insert_scored, count-up_to, open_count-settle_id,
  open_count-settle, open_count-fire,
}
use gojob.Redisq.Effect.{
  view-publish_tx, view-reclaim_one, view-nack_tx, view-ack_tx, view-dead_letter_tx, view-divert_tx,
  claim_script-some, claim_script-none,
}
use gojob.Redisq.Kept.{listed}

-- One id: how often it was published is how often it is somewhere; it is reserved or published at
-- most once, and not before INCR has reached it; in processing it has a lease and one open message.
pub record IsExactAt (i : ℕ) (d : Data) (hs : List Handle) (res done ack : List ℕ) : Type 0 where
  pub placed : count i done ≡ listed i d + count i ack
  pub once : count i res + count i done ≤ 1
  pub numbered : d.seq < i → count i res + count i done ≡ 0
  pub held : count i d.processing ≡ open_count i hs
  pub leased : count i d.processing ≡ lease_count i d.leases

-- An id that leaves processing with its lease and its open messages, for one of the other places.
leave_processing :
    (i id : ℕ) (d d' : Data) (hs hs' : List Handle) (res done ack ack' : List ℕ)
    → d'.seq ≡ d.seq
    → d'.processing ≡ remove_first id d.processing
    → d'.leases ≡ zrem_from id d.leases
    → count i d'.pending + count i d'.dead + count i ack'
      ≡ count i d.pending + count i d.dead + count i ack + one_if id i
    → open_count i hs' + one_if id i ≡ open_count i hs
    → IsExactAt i d hs res done ack
    → IsExactAt i d' hs' res done ack'
leave_processing i id d d' hs hs' res done ack ack' same_seq out unleased moved owners v =
    let c = count-remove_first i id d.processing in
    let l = lease_count-zrem_from i id d.leases in
    record {
      placed = rw out (omega (arith, c, moved, owners, v.placed, v.held));
      once = v.once;
      numbered = λ n. v.numbered (omega (arith, same_seq));
      held = rw out (omega (arith, c, owners, v.held));
      leased =
          rw (out, unleased) (ground (arith, c, l, owners, v.held, v.leased, v.placed, v.once));
    }

module _ (r : Redis) (view : r.State → Data) (law : IsRedis r view) where
  abbrev pub IsExact : System r.State → Type 0
  IsExact s = (i : ℕ) → IsExactAt i (view s.redis) s.handles s.reserved s.published s.acked

  -- The open messages of a leased id.
  open_leased :
      (i id : ℕ) (d : Data) (hs : List Handle) (res done ack : List ℕ)
      → 1 ≤ lease_count id d.leases
      → IsExactAt id d hs res done ack
      → open_count i (settle_id id hs) + one_if id i ≡ open_count i hs
  open_leased i id d hs res done ack there v = elim (Bool-cases (id == i)) [
    | inl same ↦
        let e : id ≡ i = (==_iff id i).0 same in
        rw (sym e)
          (ground (arith, there, open_count-settle_id id id hs, v.held, v.leased, v.placed, v.once))
    | inr other ↦ ground (arith, other, open_count-settle_id i id hs)
  ]

  reclaim_loop-IsExactAt :
      (ids : List ℕ) (q : r.State) (hs : List Handle) (res done ack : List ℕ)
      → ((i : ℕ) → count i ids ≤ lease_count i (view q).leases)
      → ((i : ℕ) → IsExactAt i (view q) hs res done ack)
      → (i : ℕ) → IsExactAt i (view (reclaim_loop r ids q)) (settle_ids ids hs) res done ack
  unfolding reclaim_loop
  reclaim_loop-IsExactAt [] q hs res done ack fits v = v
  reclaim_loop-IsExactAt (id ∷ ids) q hs res done ack fits v =
      let one = view-reclaim_one r view law id q in
      reclaim_loop-IsExactAt ids (reclaim_one r id q) (settle_id id hs) res done ack
        (λ i. rw one (
          ground (
            arith,
            fits i,
            lease_count-zrem_from i id (view q).leases,
            (v i).held,
            (v i).leased,
            (v i).placed,
            (v i).once,
          )))
        (λ i. rw one (
          leave_processing i id (view q) _ hs (settle_id id hs) res done ack ack refl refl refl
            (omega arith)
            (open_leased i id (view q) hs res done ack (ground (arith, fits id)) (v id)) (v i)))

  finalize_tx-IsExactAt :
      (a : Final) (i id : ℕ) (q : r.State) (hs hs' : List Handle) (res done ack : List ℕ)
      → open_count i hs' + one_if id i ≡ open_count i hs
      → IsExactAt i (view q) hs res done ack
      → IsExactAt i (view (finalize_tx r a id q)) hs' res done (record_ack a id ack)
  unfolding finalize_tx
  finalize_tx-IsExactAt final_ack i id q hs hs' res done ack owners v =
      rw (view-ack_tx r view law id q) (
        leave_processing i id (view q) _ hs hs' res done ack _ refl refl refl (omega arith) owners
          v)
  finalize_tx-IsExactAt final_nack i id q hs hs' res done ack owners v =
      rw (view-nack_tx r view law id q) (
        leave_processing i id (view q) _ hs hs' res done ack _ refl refl refl (omega arith) owners
          v)
  finalize_tx-IsExactAt final_dead i id q hs hs' res done ack owners v =
      rw (view-dead_letter_tx r view law id q) (
        leave_processing i id (view q) _ hs hs' res done ack _ refl refl refl (omega arith) owners
          v)
  finalize_tx-IsExactAt final_divert i id q hs hs' res done ack owners v =
      rw (view-divert_tx r view law id q) (
        leave_processing i id (view q) _ hs hs' res done ack _ refl refl refl (omega arith) owners
          v)

  finalize_handle-IsExact :
      (a : Final) (k : ℕ) (s : System r.State)
      → ((h : Handle) → get_handle s.handles k ≡ some h → h.fired ≡ false → h.settled ≡ false)
      → IsExact s
      → IsExact (finalize_handle r a k s)
  unfolding finalize_handle
  finalize_handle-IsExact a k s prompt v i = elim (Option-cases (get_handle s.handles k)) [
    | inl missing ↦ rw (finalize_handle, missing) (v i)
    | inr (h, e) ↦ elim (Bool-cases h.fired) [
      | inl used ↦ rw (finalize_handle, e, used) (v i)
      | inr fresh ↦
          rw (finalize_handle, e, fresh)
            (finalize_tx-IsExactAt a i h.id s.redis s.handles _ s.reserved s.published s.acked
              (sym (open_count-settle i k s.handles e (prompt h e fresh))) (v i))
    ]
  ]

  finalize_failed-IsExact :
      (k : ℕ) (s : System r.State) → IsExact s → IsExact (finalize_failed r k s)
  unfolding finalize_failed
  finalize_failed-IsExact k s v i = elim (Option-cases (get_handle s.handles k)) [
    | inl missing ↦ rw (finalize_failed, missing) (v i)
    | inr (h, e) ↦
        rw (finalize_failed, e)
          (record {
            placed = (v i).placed;
            once = (v i).once;
            numbered = (v i).numbered;
            held = omega (arith, (v i).held, open_count-fire i k s.handles e);
            leased = (v i).leased;
          })
  ]

  pub Step-IsExact :
      {s t : System r.State} (st : Step r s t) → IsPrompt r st → IsExact s → IsExact t
  unfolding reclaim_script
  Step-IsExact {s} (reserved e) prompt v i =
      let (seen, id) = law.view-incr s.redis in
      rw (e, seen, id)
        (record {
          placed = (v i).placed;
          once = ground (arith, (v i).once, (v i).numbered);
          numbered = λ n. ground (arith, (v i).numbered);
          held = (v i).held;
          leased = (v i).leased;
        })
  Step-IsExact {s} (published pre post id b w e) prompt v i =
      let c = count-append i pre (id ∷ post) in
      let d = count-append i pre post in
      let total : count i s.reserved ≡ count i (pre ++ id ∷ post) = ap (count i) w in
      rw (e, view-publish_tx r view law id b s.redis)
        (record {
          placed = omega (arith, (v i).placed);
          once = omega (arith, (v i).once, c, d, total);
          numbered = λ n. omega (arith, (v i).numbered n, c, d, total);
          held = (v i).held;
          leased = (v i).leased;
        })
  Step-IsExact {s} (sealed e) prompt v i =
      rw (e, law.view-set_sealed s.redis)
        (record {
          placed = (v i).placed;
          once = (v i).once;
          numbered = (v i).numbered;
          held = (v i).held;
          leased = (v i).leased;
        })
  Step-IsExact {s} (claimed deadline q c w e) prompt v i =
      let (rest, popped, viewed, _, _) = claim_script-some r view law deadline s.redis w in
      let p = count-pop_right i (view s.redis).pending popped in
      let l = lease_count-insert_scored i c.id deadline (zrem_from c.id (view s.redis).leases) in
      let z = lease_count-zrem_from i c.id (view s.redis).leases in
      rw (e, viewed)
        (record {
          placed = omega (arith, (v i).placed, p);
          once = (v i).once;
          numbered = (v i).numbered;
          held = omega (arith, (v i).held);
          leased = ground (arith, (v i).leased, (v i).placed, (v i).once, p, l, z);
        })
  Step-IsExact {s} (missed deadline q w e) prompt v i =
      rw (e, claim_script-none r view law deadline s.redis w) (v i)
  Step-IsExact {s} (reclaimed now e) prompt v i = rw e (
      reclaim_loop-IsExactAt (r.zrange_by_score now s.redis) s.redis s.handles s.reserved
        s.published s.acked
        (λ j. rw (law.zrange_by_score_lem now s.redis) (count-up_to j now (view s.redis).leases)) v
        i)
  Step-IsExact {s} (finalized a k e) prompt v i = rw e (finalize_handle-IsExact a k s prompt v i)
  Step-IsExact {s} (failed k e) prompt v i = rw e (finalize_failed-IsExact k s v i)

  pub Reach-IsExact : {s t : System r.State} → PromptReach r s t → IsExact s → IsExact t
  Reach-IsExact here v = v
  Reach-IsExact (next p st prompt) v = Step-IsExact st prompt (Reach-IsExact p v)
