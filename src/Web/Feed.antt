-- ===== src/Web/Feed.antt =====
-- What a client of the dashboard reads (web/web.go), beside a running WithStats (stats.go).
use gojob.Prelude.{
  ℕ, ◌≤◌, ◌≡◌, refl, ap, Bool, true, false, Option, none, some, List, [], ◌∷◌, ℤ, pos,
  if◌then◌else◌, arith, Bool-cases, Option-cases, inl, inr,
}
use gojob.Fileq.Decimal.{Text}
use gojob.Stats.{Stats, Snapshot, Count, count, count_all, snapshot}
use gojob.Stats.Torn.{count_all_adds}
use gojob.Stream.{Stream, send, ended}
use gojob.Web.{
  Update, update_of, frame, Moment, counted, closed, disconnected, canceled, ticked, job_done,
  write_event, serve, events,
}

module _ (marshal : Update → Option Text) where
  -- Updates that are written, with `done` at least `n` and never less than in the one before; one
  -- that says finished is the last.
  abbrev pub IsFeed : ℕ → List Text → Type 0
  IsFeed n [] = Unit
  IsFeed n (w ∷ ws) =
      (u : Update) × (b : Text) × (k : ℕ) × (marshal u ≡ some b)
      × (w ≡ frame b)
      × (u.done ≡ pos k)
      × (n ≤ k)
      × (u.finished ≡ true → ws ≡ [])
      × IsFeed k ws

  IsFeed-le : (n m : ℕ) (ws : List Text) → n ≤ m → IsFeed m ws → IsFeed n ws
  IsFeed-le n m [] le f = tt
  IsFeed-le n m (w ∷ ws) le (u, b, k, e, framed, done, least, last, f) =
      (u, b, k, e, framed, done, omega arith, last, f)

  pub write_event-none :
      (snap : Snapshot) (last : Bool) (rest : Stream Text)
      → marshal (update_of snap last) ≡ none
      → write_event marshal snap last rest ≡ rest
  unfolding write_event
  write_event-none snap last rest e = rw (write_event, e) refl

  pub write_event-some :
      (snap : Snapshot) (last : Bool) (rest : Stream Text) {b : Text}
      → marshal (update_of snap last) ≡ some b
      → write_event marshal snap last rest ≡ send (frame b) rest
  unfolding write_event
  write_event-some snap last rest e = rw (write_event, e) refl

  write_event-IsFeed :
      (s s' : Stats) (now : ℤ) (last : Bool) (rest : Stream Text)
      → (last ≡ true → rest.items ≡ [])
      → IsFeed s.done rest.items
      → IsFeed s.done (write_event marshal (snapshot s s' now) last rest).items
  write_event-IsFeed s s' now last rest stop f =
      let snap = snapshot s s' now in
      let u = update_of snap last in
      elim (Option-cases (marshal u)) [
        | inl refused ↦ rw (write_event-none snap last rest refused) f
        | inr (b, e) ↦ rw (write_event-some snap last rest e) (
          u,
          b,
          s.done,
          e,
          refl,
          unfold update_of snapshot in refl,
          omega arith,
          unfold update_of in stop,
          f,
        )
      ]

  count_all_more : (cs : List Count) (s : Stats) → s.done ≤ (count_all cs s).done
  count_all_more cs s = omega (arith, count_all_adds cs s)

  -- The select on `stats.Done()`, by whether `fin` is closed.
  pub serve-closed :
      (s : Stats) (now : ℤ) (es : List Moment)
      → s.fin ≡ true
      → serve marshal s (job_done now ∷ es) ≡ write_event marshal (snapshot s s now) true ended
  unfolding serve
  serve-closed s now es e =
      ap (λ b. if b then write_event marshal (snapshot s s now) true ended else serve marshal s es)
        e

  serve-open :
      (s : Stats) (now : ℤ) (es : List Moment)
      → s.fin ≡ false
      → serve marshal s (job_done now ∷ es) ≡ serve marshal s es
  unfolding serve
  serve-open s now es e =
      ap (λ b. if b then write_event marshal (snapshot s s now) true ended else serve marshal s es)
        e

  serve-IsFeed : (s : Stats) (es : List Moment) → IsFeed s.done (serve marshal s es).items
  unfolding serve
  serve-IsFeed s [] = tt
  serve-IsFeed s (counted c ∷ es) =
      IsFeed-le s.done (count c s).done _ (count_all_more (c ∷ []) s) (serve-IsFeed (count c s) es)
  serve-IsFeed s (closed ∷ es) = serve-IsFeed (record s { fin = true }) es
  serve-IsFeed s (disconnected ∷ es) = tt
  serve-IsFeed s (canceled ∷ es) = tt
  serve-IsFeed s (ticked cs now ∷ es) =
      let s' = count_all cs s in
      write_event-IsFeed s s' now false _ (λ e. cc)
        (IsFeed-le s.done s'.done _ (count_all_more cs s) (serve-IsFeed s' es))
  serve-IsFeed s (job_done now ∷ es) = elim (Bool-cases s.fin) [
    | inl closed_now ↦
        rw (serve-closed s now es closed_now) (write_event-IsFeed s s now true ended (λ e. refl) tt)
    | inr open_still ↦ rw (serve-open s now es open_still) (serve-IsFeed s es)
  ]

  -- Whatever happens while a client listens, it reads updates in which the number of finished items
  -- never falls, from that of its request on, and an update that says finished is the last one.
  pub events-IsFeed :
      (s : Stats) (cs : List Count) (now : ℤ) (es : List Moment) {out : Stream Text}
      → events marshal true s cs now es ≡ some out
      → IsFeed s.done out.items
  unfolding events
  events-IsFeed s cs now es {out} e =
      let s' = count_all cs s in
      let got : write_event marshal (snapshot s s' now) false (serve marshal s' es) ≡ out = cc e in
      let f =
        write_event-IsFeed s s' now false (serve marshal s' es) (λ e. cc)
          (IsFeed-le s.done s'.done _ (count_all_more cs s) (serve-IsFeed s' es)) in
      rw got at f
