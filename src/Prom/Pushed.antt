-- ===== src/Prom/Pushed.antt =====
-- What Push sends and returns (prom/prom.go), on the stream of snapshots of stats.go.
use gojob.Prelude.{
  ℕ, zero, suc, ◌≡◌, ◌≤◌, ◌<◌, ◌⊎◌, inl, inr, take, arith, refl, ap, Bool, true, false, none, some,
  List, [], ◌∷◌, ◌++◌, map, length, replicate, Prefix, ℤ,
}
use gojob.Prom.{Run, set_gauges, push_loop, push}
use gojob.Stats.{Snapshot, StreamEvent, tick, finished, stats_stream}
use gojob.Stream.{Turn, accept, cancel, Stream}
use gojob.Task.{Error}

module _ {ℓ} {Float : Type ℓ} (float64 : ℤ → Float) where
  -- The gauges of these snapshots, in order and with none left out, as far as they were pushed; nil
  -- only behind all of them, and an error only from ctx.
  pub record IsPush (err : Error) (snaps : List Snapshot) (closed : Bool) (ts : List Turn)
      (run : Run Float) : Type ℓ where
    in_order : Prefix (run.pushes) (map (set_gauges float64) snaps)
    on_nil :
        run.returned ≡ some none → (run.pushes ≡ map (set_gauges float64) snaps) × (closed ≡ true)
    on_error :
        (e : Error)
        → run.returned ≡ some (some e)
        → (e ≡ err) × Prefix (replicate (length run.pushes) accept ++ cancel ∷ []) ts

  push_loop-IsPush :
      (err : Error) (snaps : List Snapshot) (closed : Bool) (ts : List Turn)
      → IsPush err snaps closed ts (push_loop float64 err snaps closed ts)
  unfolding push_loop
  push_loop-IsPush err snaps closed [] = record {
    in_order = (_, refl);
    on_nil = λ e. cc;
    on_error = λ x e. cc;
  }
  push_loop-IsPush err snaps closed (cancel ∷ ts) = record {
    in_order = (_, refl);
    on_nil = λ e. cc;
    on_error = λ x e. (cc, (ts, refl));
  }
  push_loop-IsPush err [] true (accept ∷ ts) = record {
    in_order = ([], refl);
    on_nil = λ e. (refl, refl);
    on_error = λ x e. cc;
  }
  push_loop-IsPush err [] false (accept ∷ ts) = record {
    in_order = ([], refl);
    on_nil = λ e. cc;
    on_error = λ x e. cc;
  }
  push_loop-IsPush err (snap ∷ snaps) closed (accept ∷ ts) =
      let v = push_loop-IsPush err snaps closed ts in
      record {
        in_order = (v.in_order.0, ap (λ l. set_gauges float64 snap ∷ l) v.in_order.1);
        on_nil = λ e. (ap (λ l. set_gauges float64 snap ∷ l) (v.on_nil e).0, (v.on_nil e).1);
        on_error = λ x e.
            let (same, (rest, at)) = v.on_error x e in (same, (rest, ap (λ l. accept ∷ l) at));
      }

  -- Push sends the gauges of the snapshots that it receives, in order and with none left out. It
  -- returns nil only when the stream has ended and all have been pushed, and ctx.Err() only when ctx
  -- was done at the select behind the last push.
  pub push-IsPush :
      (err : Error) (es : List StreamEvent) (ts : List Turn)
      → IsPush err (stats_stream es).items (stats_stream es).closed ts (push float64 err es ts)
  unfolding push
  push-IsPush err es ts = push_loop-IsPush err _ _ ts

  -- So many selects have gone ahead, and no more.
  push_loop_early :
      (err : Error) (snaps : List Snapshot) (k : ℕ)
      → let run = push_loop float64 err snaps true (replicate k accept) in
        (run.pushes ≡ take k (map (set_gauges float64) snaps))
        × ((k ≤ length snaps) × (run.returned ≡ none)
            ⊎ (length snaps < k) × (run.returned ≡ some none))
  unfolding push_loop
  push_loop_early err snaps zero = (refl, inl (omega arith, refl))
  push_loop_early err [] (suc k) = (refl, inr (omega arith, refl))
  push_loop_early err (snap ∷ snaps) (suc k) =
      let (pushed, end) = push_loop_early err snaps k in
      (
        ap (λ l. set_gauges float64 snap ∷ l) pushed,
        elim end [
          | inl (early, still) ↦ inl (omega arith, still)
          | inr (late, done) ↦ inr (omega arith, done)
        ],
      )

  stats_stream_complete :
      (snaps : List Snapshot) (last : Snapshot)
      → stats_stream (map tick snaps ++ finished last ∷ [])
        ≡ record { items = snaps ++ last ∷ []; closed = true }
  unfolding stats_stream
  stats_stream_complete [] last = refl
  stats_stream_complete (snap ∷ snaps) last =
      ap {A = Stream Snapshot} (λ s. record s { items = snap ∷ s.items })
        (stats_stream_complete snaps last)

  -- When the job ends and ctx stays alive, Push has sent the gauges of as many snapshots as it got
  -- selects, in order, and returns nil at the select behind the final one.
  pub push_early :
      (err : Error) (snaps : List Snapshot) (last : Snapshot) (k : ℕ)
      → let run = push float64 err (map tick snaps ++ finished last ∷ []) (replicate k accept) in
        (run.pushes ≡ take k (map (set_gauges float64) (snaps ++ last ∷ [])))
        × ((k ≤ length (snaps ++ last ∷ [])) × (run.returned ≡ none)
            ⊎ (length (snaps ++ last ∷ []) < k) × (run.returned ≡ some none))
  unfolding push
  push_early err snaps last k =
      rw (stats_stream_complete snaps last) (push_loop_early err (snaps ++ last ∷ []) k)
