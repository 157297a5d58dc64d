-- ===== src/Queue/Consume/Handled.antt =====
-- What Consume does with the messages, and what it emits, by the three ways that a message can go
-- (queue/consume.go).
use gojob.Prelude.{
  ◌≡◌, ◌≢◌, ◌⊎◌, inl, inr, refl, ◌≤ℤ◌, ◌<ℤ◌, Bool, false, none, some, List, [], ◌∷◌, ◌++◌, All, pos,
}
use gojob.Queue.{Message, ack, nack, dead_letter}
use gojob.Queue.Consume.{Config, Outcome, is_final, perform, emitted, ConsumeRun, consume_loop}
use gojob.Queue.Consume.Finalized.{action_cases, consume_loop-IsFold}
use gojob.Queue.Consume.Round.{
  performed, emissions, HasMessage, performed-cons, emissions_final, emissions_again, next_queue,
}
use gojob.Stream.{Turn}
use gojob.Task.{Result}

module _ {ℓ κ μ} {Q : Type ℓ} {In : Type κ} {Out : Type μ} (cfg : Config) where
  -- The Result of a message: that of Process, with the output in the place of the outcome.
  abbrev pub without_handle : Result (Outcome Q In Out) → Result Out
  without_handle r = record {
    value = r.value.out;
    err = r.err;
    attempts = r.attempts;
    started_at = r.started_at;
    duration = r.duration;
  }

  -- The queue and the Results behind these results, in order. A message whose result has no error is
  -- acknowledged and has a Result; one that has failed on a delivery that reaches a limit that is set
  -- is dead-lettered and has a Result; any other that has failed is nacked and has none.
  pub data Handles
      : Q → List (Result (Outcome Q In Out)) → Q → List (Result Out) → Type (ℓ ⊔ κ ⊔ μ) where
    nothing : {q : Q} → Handles q [] q []
    succeeded :
        {q q' : Q} {rs : List (Result (Outcome Q In Out))} {out : List (Result Out)}
        (r : Result (Outcome Q In Out)) (m : Message Q In)
        → r.value.msg ≡ some m
        → r.err ≡ none
        → Handles (ack m q).0 rs q' out
        → Handles q (r ∷ rs) q' (without_handle r ∷ out)
    gave_up :
        {q q' : Q} {rs : List (Result (Outcome Q In Out))} {out : List (Result Out)}
        (r : Result (Outcome Q In Out)) (m : Message Q In)
        → r.value.msg ≡ some m
        → r.err ≢ none
        → pos 0 <ℤ cfg.max_deliveries
        → cfg.max_deliveries ≤ℤ m.deliveries
        → Handles (dead_letter m q).0 rs q' out
        → Handles q (r ∷ rs) q' (without_handle r ∷ out)
    try_again :
        {q q' : Q} {rs : List (Result (Outcome Q In Out))} {out : List (Result Out)}
        (r : Result (Outcome Q In Out)) (m : Message Q In)
        → r.value.msg ≡ some m
        → r.err ≢ none
        → (cfg.max_deliveries ≤ℤ pos 0) ⊎ (m.deliveries <ℤ cfg.max_deliveries)
        → Handles (nack m q).0 rs q' out
        → Handles q (r ∷ rs) q' out

  module _ (r : Result (Outcome Q In Out)) (m : Message Q In) (has : r.value.msg ≡ some m) where
    -- One more result at the front.
    one_more :
        (q q' : Q) (rs : List (Result (Outcome Q In Out)))
        → Handles (next_queue cfg r m has q) rs q' (emissions cfg rs)
        → Handles q (r ∷ rs) q' (emissions cfg (r ∷ rs))
    unfolding next_queue perform is_final emitted
    one_more q q' rs h = elim (action_cases cfg r m) [
      | inl (acks, fine) ↦
          rw (emissions_final cfg r m has rs (rw acks refl)) (succeeded r m has fine (rw acks at h))
      | inr (inl (gives_up, bad, set, reached)) ↦
          rw (emissions_final cfg r m has rs (rw gives_up refl))
            (gave_up r m has bad set reached (rw gives_up at h))
      | inr (inr (nacks, bad, below)) ↦
          rw (emissions_again cfg r m has rs (rw nacks refl))
            (try_again r m has bad below (rw nacks at h))
    ]

  performed-Handles :
      (q : Q) (rs : List (Result (Outcome Q In Out)))
      → All HasMessage rs
      → Handles q rs (performed cfg q rs) (emissions cfg rs)
  performed-Handles q [] h = unfold performed emissions in nothing
  performed-Handles q (r ∷ rs) ((m, has), h) =
      rw (performed-cons cfg r m has)
        (one_more r m has q _ rs (performed-Handles (next_queue cfg r m has q) rs h))

  All-front :
      (xs ys zs : List (Result (Outcome Q In Out)))
      → xs ++ ys ≡ zs
      → All HasMessage zs
      → All HasMessage xs
  All-front [] ys zs e h = tt
  All-front (x ∷ xs) ys [] e h = cc e
  All-front (x ∷ xs) ys (z ∷ zs) e (m, h) =
      let same : z ≡ x = cc e in (rw same at m, All-front xs ys zs (cc e) h)

  -- The loop has handled a part of the results; it is at the end of them, or stands or has returned
  -- behind a finalized message whose Result is not emitted.
  pub record IsRun (q : Q) (rs : List (Result (Outcome Q In Out))) (closed : Bool)
      (run : ConsumeRun Q Out) : Type (ℓ ⊔ κ ⊔ μ) where
    pub handled : List (Result (Outcome Q In Out))
    pub rest : List (Result (Outcome Q In Out))
    pub in_order : handled ++ rest ≡ rs
    pub no_panic : run.panicked ≡ false
    pub results : List (Result Out)
    pub handles : Handles q handled run.queue results
    pub output_is :
        (run.output.items ≡ results) × (rest ≡ []) × (run.output.closed ≡ closed)
        ⊎ ((last : Result Out) × (run.output.items ++ last ∷ [] ≡ results))

  -- Where every result carries a message, and whatever the turns of the consumer and of ctx are, the
  -- loop does not panic and handles the results in order, as many as it gets to: it acknowledges the
  -- message of one without an error, dead-letters one that has failed on a delivery that reaches a
  -- limit that is set, and nacks any other, one call for each. It emits a Result for each message that
  -- it acknowledges or dead-letters, with what Process returned, and none for a nacked one. At most
  -- one such message is left without its Result, at the point where the loop stops.
  pub consume_loop-IsRun :
      (q : Q) (rs : List (Result (Outcome Q In Out))) (closed : Bool) (ts : List Turn)
      → All HasMessage rs
      → IsRun q rs closed (consume_loop cfg q rs closed ts)
  consume_loop-IsRun q rs closed ts h =
      let run = consume_loop cfg q rs closed ts in
      let f = consume_loop-IsFold cfg q rs closed ts h in
      let each = performed-Handles q f.handled (All-front f.handled f.rest rs f.in_order h) in
      record {
        handled = f.handled;
        rest = f.rest;
        in_order = f.in_order;
        no_panic = f.no_panic;
        results = emissions cfg f.handled;
        handles = rw f.queue_is each;
        output_is = f.output_is;
      }
