-- ===== src/Queue/Consume/Finalized.antt =====
-- The loop of Consume as a fold over the results that it handles (queue/consume.go).
use gojob.Prelude.{
  ◌≡◌, ◌≢◌, ◌⊎◌, inl, inr, refl, ap, ◌≤◌, ◌≤ℤ◌, ◌<ℤ◌, Bool, true, false, none, some, List, [], ◌∷◌,
  ◌++◌, length, All, pos, Bool-cases, arith,
}
use gojob.Queue.{Message}
use gojob.Queue.Consume.{
  Config, Outcome, acked, nacked, dead_lettered, is_final, action, emitted, ConsumeRun,
  consume_loop, before,
}
use gojob.Queue.Consume.Round.{
  performed, emissions, HasMessage, next_queue, performed-cons, emissions_final, emissions_again,
  loop_again, loop_stuck, loop_cancel, loop_accept,
}
use gojob.Stream.{Turn, accept, cancel}
use gojob.Stream.Relay.{IsAccept}
use gojob.Task.{Result}

module _ {ℓ κ μ} {Q : Type ℓ} {In : Type κ} {Out : Type μ} (cfg : Config) where
  -- A message is acknowledged exactly if its result has no error. Otherwise it is dead-lettered
  -- exactly if a limit is set and this delivery has reached it, and else nacked.
  pub action_cases :
      (r : Result (Outcome Q In Out)) (m : Message Q In)
      → (action cfg r m ≡ acked) × (r.err ≡ none)
        ⊎ ((action cfg r m ≡ dead_lettered)
            × (r.err ≢ none)
            × (pos 0 <ℤ cfg.max_deliveries)
            × (cfg.max_deliveries ≤ℤ m.deliveries))
        ⊎ ((action cfg r m ≡ nacked)
            × (r.err ≢ none)
            × ((cfg.max_deliveries ≤ℤ pos 0) ⊎ (m.deliveries <ℤ cfg.max_deliveries)))
  unfolding action
  action_cases r m = ground arith

  -- The loop has handled a part of the results; it is at the end of them, or stands or has returned
  -- behind a finalized message whose result is not emitted.
  pub record IsFold (q : Q) (rs : List (Result (Outcome Q In Out))) (closed : Bool)
      (run : ConsumeRun Q Out) : Type (ℓ ⊔ κ ⊔ μ) where
    pub handled : List (Result (Outcome Q In Out))
    pub rest : List (Result (Outcome Q In Out))
    pub in_order : handled ++ rest ≡ rs
    pub no_panic : run.panicked ≡ false
    pub queue_is : run.queue ≡ performed cfg q handled
    pub output_is :
        (run.output.items ≡ emissions cfg handled) × (rest ≡ []) × (run.output.closed ≡ closed)
        ⊎ ((last : Result Out) × (run.output.items ++ last ∷ [] ≡ emissions cfg handled))

  module _ (r : Result (Outcome Q In Out)) (m : Message Q In) (has : r.value.msg ≡ some m) where
    -- A finalized message whose result is not emitted.
    withheld :
        (q : Q) (rs : List (Result (Outcome Q In Out))) (closed out_closed : Bool)
        → is_final (action cfg r m) ≡ true
        → IsFold q (r ∷ rs) closed (record {
          output = record { items = []; closed = out_closed };
          queue = next_queue cfg r m has q;
          panicked = false;
        })
    withheld q rs closed out_closed f = record {
      handled = r ∷ [];
      rest = rs;
      in_order = refl;
      no_panic = refl;
      queue_is = rw (performed-cons cfg r m has) (unfold performed in refl);
      output_is =
          inr (emitted cfg r, rw (emissions_final cfg r m has [] f) (unfold emissions in refl));
    }

    again :
        (q : Q) (rs : List (Result (Outcome Q In Out))) (closed : Bool) (run : ConsumeRun Q Out)
        → is_final (action cfg r m) ≡ false
        → IsFold (next_queue cfg r m has q) rs closed run
        → IsFold q (r ∷ rs) closed run
    again q rs closed run f t = record {
      handled = r ∷ t.handled;
      rest = t.rest;
      in_order = ap (λ l. r ∷ l) t.in_order;
      no_panic = t.no_panic;
      queue_is = rw (performed-cons cfg r m has) t.queue_is;
      output_is = rw (emissions_again cfg r m has t.handled f) t.output_is;
    }

    passed :
        (q : Q) (rs : List (Result (Outcome Q In Out))) (closed : Bool) (run : ConsumeRun Q Out)
        → is_final (action cfg r m) ≡ true
        → IsFold (next_queue cfg r m has q) rs closed run
        → IsFold q (r ∷ rs) closed (before (emitted cfg r) run)
    passed q rs closed run f t = record {
      handled = r ∷ t.handled;
      rest = t.rest;
      in_order = ap (λ l. r ∷ l) t.in_order;
      no_panic = t.no_panic;
      queue_is = rw (performed-cons cfg r m has) t.queue_is;
      output_is = rw (emissions_final cfg r m has t.handled f) (elim t.output_is [
        | inl (items, all, end) ↦ inl (ap (λ l. emitted cfg r ∷ l) items, all, end)
        | inr (last, items) ↦ inr (last, ap (λ l. emitted cfg r ∷ l) items)
      ]);
    }

  -- The loop, as the fold of its own calls and Results over what it has handled.
  pub consume_loop-IsFold :
      (q : Q) (rs : List (Result (Outcome Q In Out))) (closed : Bool) (ts : List Turn)
      → All HasMessage rs
      → IsFold q rs closed (consume_loop cfg q rs closed ts)
  consume_loop-IsFold q [] closed ts h =
      unfold consume_loop performed emissions in
      record {
        handled = [];
        rest = [];
        in_order = refl;
        no_panic = refl;
        queue_is = refl;
        output_is = inl (refl, refl, refl);
      }
  consume_loop-IsFold q (r ∷ rs) closed [] ((m, has), h) =
      elim (Bool-cases (is_final (action cfg r m))) [
        | inl f ↦ rw (loop_stuck cfg r m has q rs closed f) (withheld r m has q rs closed false f)
        | inr f ↦ rw (loop_again cfg r m has q rs closed [] f) (
            again r m has q rs closed _ f
              (consume_loop-IsFold (next_queue cfg r m has q) rs closed [] h))
      ]
  consume_loop-IsFold q (r ∷ rs) closed (accept ∷ ts) ((m, has), h) =
      elim (Bool-cases (is_final (action cfg r m))) [
        | inl f ↦ rw (loop_accept cfg r m has q rs closed ts f) (
            passed r m has q rs closed _ f
              (consume_loop-IsFold (next_queue cfg r m has q) rs closed ts h))
        | inr f ↦ rw (loop_again cfg r m has q rs closed (accept ∷ ts) f) (
            again r m has q rs closed _ f
              (consume_loop-IsFold (next_queue cfg r m has q) rs closed (accept ∷ ts) h))
      ]
  consume_loop-IsFold q (r ∷ rs) closed (cancel ∷ ts) ((m, has), h) =
      elim (Bool-cases (is_final (action cfg r m))) [
        | inl f ↦
            rw (loop_cancel cfg r m has q rs closed ts f) (withheld r m has q rs closed true f)
        | inr f ↦ rw (loop_again cfg r m has q rs closed (cancel ∷ ts) f) (
            again r m has q rs closed _ f
              (consume_loop-IsFold (next_queue cfg r m has q) rs closed (cancel ∷ ts) h))
      ]

  -- Without a cancellation, and with a consumer that takes everything, the loop handles every result:
  -- it emits exactly the Results of the finalized messages, in order, and leaves the queue as the
  -- calls for all messages make it.
  pub consume_loop_uncancelled :
      (q : Q) (rs : List (Result (Outcome Q In Out))) (closed : Bool) (ts : List Turn)
      → All HasMessage rs
      → All IsAccept ts
      → length rs ≤ length ts
      → consume_loop cfg q rs closed ts ≡ record {
        output = record { items = emissions cfg rs; closed = closed };
        queue = performed cfg q rs;
        panicked = false;
      }
  consume_loop_uncancelled q [] closed ts h a l = unfold consume_loop performed emissions in refl
  consume_loop_uncancelled q (r ∷ rs) closed [] h a l = absurd (omega arith)
  consume_loop_uncancelled q (r ∷ rs) closed (cancel ∷ ts) h a l = cc a.0
  consume_loop_uncancelled q (r ∷ rs) closed (accept ∷ ts) ((m, has), h) a l =
      elim (Bool-cases (is_final (action cfg r m))) [
        | inl f ↦
            rw
              (
                loop_accept cfg r m has q rs closed ts f,
                emissions_final cfg r m has rs f,
                performed-cons cfg r m has,
              )
              (ap (before (emitted cfg r)) (
                consume_loop_uncancelled (next_queue cfg r m has q) rs closed ts h a.1
                  (omega arith)))
        | inr f ↦
            rw
              (
                loop_again cfg r m has q rs closed (accept ∷ ts) f,
                emissions_again cfg r m has rs f,
                performed-cons cfg r m has,
              )
              (consume_loop_uncancelled (next_queue cfg r m has q) rs closed (accept ∷ ts) h a
                (omega arith))
      ]
