-- ===== src/Memq/Limit.antt =====
-- WithMaxDeliveries on the in-memory queue (queue/consume.go, queue/memq/memq.go): how often a message
-- is delivered when Consume decides what becomes of it.
use gojob.Prelude.{
  ℕ, zero, suc, ◌+◌, ◌<◌, ◌≤◌, ◌≡◌, refl, sym, ◌∙◌, some, List, [], ◌∷◌, ◌++◌, All, All-append,
  All-split, All-replicate, pos, arith, inl, inr, Bool-cases, Option-cases,
}
use gojob.Memq.{Item, Final, final_ack, final_nack, final_dead, new, signal, seal, close, finalize}
use gojob.Memq.Handles.{handled_by, finalize_missing, finalize_fired, finalize_fresh, first_call}
use gojob.Memq.Places.{receive-got, publish-ok}
use gojob.Memq.System.{
  Receiver, checking, waiting, holding, returned, Handle, System, start, get_handle, fire,
  finalize_handle, wrap, Step, published, sealed, closed, signalled, took, ended, parked, woken,
  delivered, wait_cancelled, send_cancelled, finalized,
}
use gojob.Queue.Consume.{Config, Outcome, Action, action, acked, nacked, dead_lettered}
use gojob.Queue.Consume.Finalized.{action_cases}
use gojob.Task.{Result}

nacked_final : (x : Action) → handled_by x ≡ final_nack → x ≡ nacked
unfolding handled_by
nacked_final acked e = cc
nacked_final nacked e = refl
nacked_final dead_lettered e = cc

module _ {ℓ} {T : Type ℓ} where
  module _ {μ} (Out : Type μ) (cfg : Config) where
    -- A callback is the one that Consume picks for some result of this message.
    unfoldable pub ByConsume : {s t : System T} → Step s t → Type (ℓ ⊔ μ)
    ByConsume {s} (finalized a i e) =
        (h : Handle T)
        → get_handle s.handles i ≡ some h
        → (r : Result (Outcome (System T) T Out)) × (a ≡ handled_by (action cfg r (wrap i h.item)))
    ByConsume _ = Unit

    -- A run in which Consume is the consumer.
    pub data ConsumedReach (s : System T) : System T → Type (ℓ ⊔ μ) where
      here : ConsumedReach s s
      next :
          {t u : System T} → ConsumedReach s t → (st : Step t u) → ByConsume st → ConsumedReach s u

  module _ (n : ℕ) where
    abbrev HeldWithin : Receiver T → Type 0
    HeldWithin (holding it) = it.deliveries ≤ n
    HeldWithin _ = Unit

    abbrev pub HandedWithin : Handle T → Type 0
    HandedWithin h = h.item.deliveries ≤ n

    -- Pending messages may be delivered once more.
    record IsLimited (s : System T) : Type 0 where
      pending : All (λ it. it.deliveries < n) s.queue.pending
      held : All HeldWithin s.receivers
      handed : All HandedWithin s.handles

    handed_at :
        (hs : List (Handle T)) (i : ℕ) {h : Handle T}
        → get_handle hs i ≡ some h
        → All HandedWithin hs
        → HandedWithin h
    handed_at [] i e a = cc
    handed_at (k ∷ hs) zero {h} e (x, a) = let same : k ≡ h = cc in rw (sym same) x
    handed_at (k ∷ hs) (suc i) e (x, a) = handed_at hs i e a

    fire-All : (hs : List (Handle T)) (i : ℕ) → All HandedWithin hs → All HandedWithin (fire hs i)
    fire-All [] i a = a
    fire-All (k ∷ hs) zero (x, a) = (x, a)
    fire-All (k ∷ hs) (suc i) (x, a) = (x, fire-All hs i a)

    -- The receiver in the middle is replaced.
    swap :
        (pre post : List (Receiver T)) (w w' : Receiver T)
        → All HeldWithin (pre ++ w ∷ post)
        → HeldWithin w'
        → All HeldWithin (pre ++ w' ∷ post)
    swap pre post w w' a h =
        let (before, after) = All-split HeldWithin pre (w ∷ post) a in
        All-append HeldWithin pre (w' ∷ post) before (h, after.1)

    at_middle :
        (pre post : List (Receiver T)) (w : Receiver T)
        → All HeldWithin (pre ++ w ∷ post)
        → HeldWithin w
    at_middle pre post w a = (All-split HeldWithin pre (w ∷ post) a).1.0

    first_call-IsLimited :
        (a : Final) (i : ℕ) (h : Handle T) (s : System T)
        → (a ≡ final_nack → h.item.deliveries < n)
        → IsLimited s
        → IsLimited (first_call a i h s)
    unfolding first_call finalize
    first_call-IsLimited final_ack i h s c v = record {
      pending = v.pending;
      held = v.held;
      handed = fire-All s.handles i v.handed;
    }
    first_call-IsLimited final_nack i h s c v = record {
      pending =
          All-append (λ it. it.deliveries < n) s.queue.pending (h.item ∷ []) v.pending (c refl, tt);
      held = v.held;
      handed = fire-All s.handles i v.handed;
    }
    first_call-IsLimited final_dead i h s c v = record {
      pending = v.pending;
      held = v.held;
      handed = fire-All s.handles i v.handed;
    }

    finalize_handle-IsLimited :
        (a : Final) (i : ℕ) (s : System T)
        → ((h : Handle T)
            → get_handle s.handles i ≡ some h
            → a ≡ final_nack
            → h.item.deliveries < n)
        → IsLimited s
        → IsLimited (finalize_handle a i s)
    finalize_handle-IsLimited a i s c v = elim (Option-cases (get_handle s.handles i)) [
      | inl missing ↦ rw (finalize_missing a i s missing) v
      | inr (h, e) ↦ elim (Bool-cases h.fired) [
        | inl used ↦ rw (finalize_fired a i s e used) v
        | inr fresh ↦ rw (finalize_fresh a i s e fresh) (first_call-IsLimited a i h s (c h e) v)
      ]
    ]

  -- Consume nacks only below the limit.
  nacked_below {μ} :
      {Out : Type μ} (cfg : Config) (n i : ℕ) (it : Item T) (r : Result (Outcome (System T) T Out))
      → cfg.max_deliveries ≡ pos n
      → 0 < n
      → handled_by (action cfg r (wrap i it)) ≡ final_nack
      → it.deliveries < n
  unfolding wrap
  nacked_below cfg n i it r limit some_limit e =
      let nack = nacked_final (action cfg r (wrap i it)) e in
      elim (action_cases cfg r (wrap i it)) [
        | inl (ack, _) ↦ cc
        | inr (inl (dead, _, _, _)) ↦ cc
        | inr (inr (_, _, inl none_set)) ↦ absurd (omega (arith, rw limit at none_set))
        | inr (inr (_, _, inr below)) ↦ omega (arith, rw limit at below)
      ]

  module _ {μ} (Out : Type μ) (cfg : Config) (n : ℕ) (limit : cfg.max_deliveries ≡ pos n)
      (some_limit : 0 < n) where
    Step-IsLimited :
        {s t : System T} (st : Step s t) → ByConsume Out cfg st → IsLimited n s → IsLimited n t
    unfolding seal close signal ByConsume
    Step-IsLimited {s} (published x q ok e) by v =
        rw (e, publish-ok x s.queue ok)
          (record {
            pending =
                All-append (λ it. it.deliveries < n) s.queue.pending _ v.pending (some_limit, tt);
            held = v.held;
            handed = v.handed;
          })
    Step-IsLimited (sealed e) by v =
        rw e (record { pending = v.pending; held = v.held; handed = v.handed })
    Step-IsLimited (closed e) by v =
        rw e (record { pending = v.pending; held = v.held; handed = v.handed })
    Step-IsLimited (signalled m z e) by v =
        rw e (record { pending = v.pending; held = v.held; handed = v.handed })
    Step-IsLimited {s} (took pre post it q w g e) by v =
        let (first, rest, p, bumped, left) = receive-got s.queue g in
        let (below, others) = rw p at v.pending in
        let once_more : first.deliveries + 1 ≤ n = omega (arith, below) in
        rw (e, left, bumped)
          (record {
            pending = others;
            held = swap n pre post checking _ (rw w at v.held) once_more;
            handed = v.handed;
          })
    Step-IsLimited (ended pre post w g e) by v = rw e (record {
      pending = v.pending;
      held = swap n pre post _ returned (rw w at v.held) tt;
      handed = v.handed;
    })
    Step-IsLimited (parked pre post w g e) by v = rw e (record {
      pending = v.pending;
      held = swap n pre post _ waiting (rw w at v.held) tt;
      handed = v.handed;
    })
    Step-IsLimited (woken pre post w k e) by v = rw e (record {
      pending = v.pending;
      held = swap n pre post _ checking (rw w at v.held) tt;
      handed = v.handed;
    })
    Step-IsLimited {s} (delivered pre post it w e) by v =
        let held : All (HeldWithin n) (pre ++ holding it ∷ post) = rw w at v.held in
        rw e (record {
          pending = v.pending;
          held = swap n pre post _ checking held tt;
          handed =
              All-append (HandedWithin n) s.handles _ v.handed (at_middle n pre post _ held, tt);
        })
    Step-IsLimited (wait_cancelled pre post w e) by v = rw e (record {
      pending = v.pending;
      held = swap n pre post _ returned (rw w at v.held) tt;
      handed = v.handed;
    })
    Step-IsLimited (send_cancelled pre post it w e) by v = rw e (record {
      pending = v.pending;
      held = swap n pre post _ returned (rw w at v.held) tt;
      handed = v.handed;
    })
    Step-IsLimited {s} (finalized a i e) by v = rw e (
        finalize_handle-IsLimited n a i s
          (λ h g nack.
            let (r, picked) = by h g in
            nacked_below cfg n i h.item r limit some_limit (sym picked ∙ nack))
          v)

    Reach-IsLimited : {s t : System T} → ConsumedReach Out cfg s t → IsLimited n s → IsLimited n t
    Reach-IsLimited here v = v
    Reach-IsLimited (next r st by) v = Step-IsLimited st by (Reach-IsLimited r v)

    start-IsLimited : (k : ℕ) → IsLimited n (start k)
    unfolding start new
    start-IsLimited k = record {
      pending = tt;
      held = All-replicate (HeldWithin n) k checking tt;
      handed = tt;
    }

    pub pending_below :
        (k : ℕ) {s : System T}
        → ConsumedReach Out cfg (start k) s
        → All (λ it. it.deliveries < n) s.queue.pending
    pending_below k r = (Reach-IsLimited r (start-IsLimited k)).pending

    -- With a limit of n deliveries, for n above 0, where Consume decides what becomes of each message,
    -- no message is ever handed out with a delivery count above n, however often it fails and whatever
    -- the goroutines do.
    pub delivered_at_most :
        (k : ℕ) {s : System T} → ConsumedReach Out cfg (start k) s → All (HandedWithin n) s.handles
    delivered_at_most k r = (Reach-IsLimited r (start-IsLimited k)).handed
