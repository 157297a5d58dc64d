-- ===== src/Queue/Fill.antt =====
-- queue/fill.go: Fill.
use gojob.Prelude.{
  ℕ, ◌+◌, ◌≡◌, ◌⊎◌, inl, inr, refl, ap, Bool, true, false, Option, none, some, List, [], ◌∷◌, ◌++◌,
  length, arith, Option-cases,
}
use gojob.Stream.{Stream, Turn, accept, cancel}
use gojob.Queue.{Handler}
use gojob.Task.{Error}

-- The count and the error so far, the queue, and whether Fill has returned.
pub record FillRun {ℓ} (Q : Type ℓ) : Type ℓ where
  pub count : ℕ
  pub err : Option Error
  pub queue : Q
  pub finished : Bool

-- `publish` is the queue's; a turn is one select, and `ctx_err` is ctx.Err() once ctx is done.
module _ {ℓ κ} {Q : Type ℓ} {T : Type κ} (publish : T → Handler Q) (ctx_err : Error) where
  unfoldable pub fill_loop : ℕ → Q → List T → Bool → List Turn → FillRun Q
  fill_loop n q vs closed [] = record { count = n; err = none; queue = q; finished = false }
  fill_loop n q vs closed (cancel ∷ ts) = record {
    count = n;
    err = some ctx_err;
    queue = q;
    finished = true;
  }
  fill_loop n q [] closed (accept ∷ ts) = record {
    count = n;
    err = none;
    queue = q;
    finished = closed;
  }
  fill_loop n q (v ∷ vs) closed (accept ∷ ts) = elim (publish v q).1 [
    | some e ↦ record { count = n; err = some e; queue = (publish v q).0; finished = true }
    | none ↦ fill_loop (n + 1) (publish v q).0 vs closed ts
  ]

  unfoldable pub fill : Q → Stream T → List Turn → FillRun Q
  unfolding fill_loop
  fill q input ts = fill_loop 0 q input.items input.closed ts

  -- The queue after publishing these payloads, each without an error.
  pub data Published : Q → List T → Q → Type (ℓ ⊔ κ) where
    nothing : {q : Q} → Published q [] q
    one_more :
        {q r : Q} {v : T} {vs : List T}
        → (publish v q).1 ≡ none
        → Published (publish v q).0 vs r
        → Published q (v ∷ vs) r

  -- What Fill has done: `before` went into the queue and is counted; then it stands, has returned with
  -- ctx's error, has reached the end of a closed input, or met an error of the next payload.
  pub record IsFill (q : Q) (vs : List T) (closed : Bool) (n : ℕ) (run : FillRun Q)
      : Type (ℓ ⊔ κ) where
    pub before : List T
    pub after : List T
    pub in_order : before ++ after ≡ vs
    pub counted : run.count ≡ n + length before
    pub queue : Q
    pub published : Published q before queue
    pub stop :
        (run.queue ≡ queue) × (run.err ≡ none) × (run.finished ≡ false)
        ⊎ ((run.queue ≡ queue) × (run.err ≡ some ctx_err) × (run.finished ≡ true))
        ⊎ ((run.queue ≡ queue) × (run.err ≡ none) × (run.finished ≡ closed) × (after ≡ []))
        ⊎ ((v : T) × (rest : List T) × (after ≡ v ∷ rest)
            × (run.queue ≡ (publish v queue).0)
            × ((e : Error) × ((publish v queue).1 ≡ some e) × (run.err ≡ some e))
            × (run.finished ≡ true))

  fill_loop-IsFill :
      (n : ℕ) (q : Q) (vs : List T) (closed : Bool) (ts : List Turn)
      → IsFill q vs closed n (fill_loop n q vs closed ts)
  unfolding fill_loop
  fill_loop-IsFill n q vs closed [] = record {
    before = [];
    after = vs;
    in_order = refl;
    counted = omega arith;
    queue = q;
    published = nothing;
    stop = inl (refl, refl, refl);
  }
  fill_loop-IsFill n q vs closed (cancel ∷ ts) = record {
    before = [];
    after = vs;
    in_order = refl;
    counted = omega arith;
    queue = q;
    published = nothing;
    stop = inr (inl (refl, refl, refl));
  }
  fill_loop-IsFill n q [] closed (accept ∷ ts) = record {
    before = [];
    after = [];
    in_order = refl;
    counted = omega arith;
    queue = q;
    published = nothing;
    stop = inr (inr (inl (refl, refl, refl, refl)));
  }
  fill_loop-IsFill n q (v ∷ vs) closed (accept ∷ ts) = elim (Option-cases (publish v q).1) [
    | inl good ↦
        let f = fill_loop-IsFill (n + 1) (publish v q).0 vs closed ts in
        rw (good, fill_loop)
          (record {
            before = v ∷ f.before;
            after = f.after;
            in_order = ap (λ l. v ∷ l) f.in_order;
            counted = omega (arith, f.counted);
            queue = f.queue;
            published = one_more good f.published;
            stop = f.stop;
          })
    | inr (e, bad) ↦
        rw (bad, fill_loop)
          (record {
            before = [];
            after = v ∷ vs;
            in_order = refl;
            counted = omega arith;
            queue = q;
            published = nothing;
            stop = inr (inr (inr (v, vs, refl, refl, (e, bad, refl), refl)));
          })
  ]

  -- The count that Fill returns is the number of payloads that the queue has taken, in order and
  -- without a gap, on every way out: at the end of the input, where ctx is done, or at the first
  -- payload that the queue refuses, which is not counted.
  pub fill-IsFill :
      (q : Q) (input : Stream T) (ts : List Turn)
      → IsFill q input.items input.closed 0 (fill q input ts)
  unfolding fill
  fill-IsFill q input ts = fill_loop-IsFill 0 q input.items input.closed ts
