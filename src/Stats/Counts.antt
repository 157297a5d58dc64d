-- ===== src/Stats/Counts.antt =====
-- WithStats passes its input on and counts what it has read (stats.go).
use gojob.Prelude.{
  ℕ, suc, ◌+◌, ◌&&◌, ◌⊎◌, inl, inr, Option-cases, ◌≡◌, refl, ap, Bool, true, false, none, some,
  List, [], ◌∷◌, ◌++◌, length, ℤ, arith,
}
use gojob.Stream.{Stream, Turn, accept, cancel, send}
use gojob.Stream.Relay.{relay}
use gojob.Task.{Result}
use gojob.Stats.{
  Stats, StatsOption, observe, stats_loop, with_stats, new_stats, with_total, apply_options,
}

-- The one option that the package offers.
pub data AllOffered : List StatsOption → Type 0 where
  nil : AllOffered []
  cons : {os : List StatsOption} (n : ℤ) → AllOffered os → AllOffered (with_total n ∷ os)

IsFresh : Stats → Type 0
IsFresh s = (s.done ≡ 0) × (s.failed ≡ 0) × (s.fin ≡ false)

options_keep_counts :
    {opts : List StatsOption} (s : Stats)
    → AllOffered opts
    → IsFresh s
    → IsFresh (apply_options opts s)
unfolding apply_options with_total IsFresh
options_keep_counts s nil f = f
options_keep_counts s (cons n h) f = options_keep_counts (record s { total = n }) h f

new_stats_fresh :
    (opts : List StatsOption) (now : ℤ)
    → AllOffered opts
    → ((new_stats opts now).done ≡ 0)
      × ((new_stats opts now).failed ≡ 0)
      × ((new_stats opts now).fin ≡ false)
unfolding new_stats IsFresh
new_stats_fresh opts now h = options_keep_counts _ h (refl, refl, refl)

module _ {ℓ} {A : Type ℓ} where
  -- The results that carry an error.
  abbrev pub error_count : List (Result A) → ℕ
  error_count [] = 0
  error_count (r ∷ rs) = let rest = error_count rs in elim r.err [ none ↦ rest | some e ↦ suc rest ]

  stats_loop-relay :
      (s : Stats) (rs : List (Result A)) (closed : Bool) (ts : List Turn)
      → (stats_loop true s rs closed ts).0 ≡ relay rs closed ts
  unfolding stats_loop relay
  stats_loop-relay s [] true ts = refl
  stats_loop-relay s [] false ts = refl
  stats_loop-relay s (r ∷ rs) closed [] = refl
  stats_loop-relay s (r ∷ rs) closed (accept ∷ ts) =
      ap (send r) (stats_loop-relay (observe r s) rs closed ts)
  stats_loop-relay s (r ∷ rs) closed (cancel ∷ ts) = refl

  -- WithStats does not alter the stream: once both deferred calls have run, its output is that of a
  -- stage that sends what it reads.
  pub with_stats-relay :
      (opts : List StatsOption) (now : ℤ) (input : Stream (Result A)) (ts : List Turn)
      → (with_stats true opts now input ts).0 ≡ relay input.items input.closed ts
  unfolding with_stats
  with_stats-relay opts now input ts =
      stats_loop-relay (new_stats opts now) input.items input.closed ts

  -- What the counters hold: `seen` was read, and it is on the output, whole or but for its last; the
  -- output is closed where `fin` is and the last deferred call has run.
  pub record IsCount (late : Bool) (s : Stats) (rs : List (Result A)) (out : Stream (Result A))
      (s' : Stats) : Type ℓ where
    pub seen : List (Result A)
    pub unread : List (Result A)
    pub in_order : seen ++ unread ≡ rs
    pub sent_is : (out.items ≡ seen) ⊎ ((last : Result A) × (out.items ++ last ∷ [] ≡ seen))
    pub done_is : s'.done ≡ s.done + length seen
    pub failed_is : s'.failed ≡ s.failed + error_count seen
    pub total_kept : s'.total ≡ s.total
    pub closed_is : out.closed ≡ (s'.fin && late)

  pub observe_counts :
      (r : Result A) (s : Stats)
      → ((observe r s).done ≡ s.done + 1)
        × ((observe r s).failed ≡ s.failed + error_count (r ∷ []))
        × ((observe r s).total ≡ s.total)
        × ((observe r s).fin ≡ s.fin)
  unfolding observe
  observe_counts r s = elim (Option-cases r.err) [
    | inl fine ↦ rw fine (refl, omega arith, refl, refl)
    | inr (e, bad) ↦ rw bad (refl, refl, refl, refl)
  ]

  pub error_count-cons :
      (r : Result A) (rs : List (Result A))
      → error_count (r ∷ rs) ≡ error_count (r ∷ []) + error_count rs
  error_count-cons r rs = ground arith

  -- A result that is read and not on the output.
  last_read :
      (late out_closed fin : Bool) (s : Stats) (r : Result A) (rs : List (Result A))
      → out_closed ≡ (fin && late)
      → IsCount late s
          (r ∷ rs)
          (record { items = []; closed = out_closed })
          (record (observe r s) { fin = fin })
  last_read late out_closed fin s r rs h =
      let (d, f, t, n) = observe_counts r s in
      record {
        seen = r ∷ [];
        unread = rs;
        in_order = refl;
        sent_is = inr (r, refl);
        done_is = d;
        failed_is = f;
        total_kept = t;
        closed_is = h;
      }

  none_read :
      (late out_closed fin : Bool) (s : Stats)
      → out_closed ≡ (fin && late)
      → IsCount late s [] (record { items = []; closed = out_closed }) (record s { fin = fin })
  none_read late out_closed fin s h = record {
    seen = [];
    unread = [];
    in_order = refl;
    sent_is = inl refl;
    done_is = omega arith;
    failed_is = omega arith;
    total_kept = refl;
    closed_is = h;
  }

  stats_loop-IsCount :
      (late : Bool) (s : Stats) (rs : List (Result A)) (closed : Bool) (ts : List Turn)
      → s.fin ≡ false
      → IsCount late s rs (stats_loop late s rs closed ts).0 (stats_loop late s rs closed ts).1
  unfolding stats_loop
  stats_loop-IsCount late s [] true ts h = none_read late late true s refl
  stats_loop-IsCount late s [] false ts h = none_read late false s.fin s (rw h refl)
  stats_loop-IsCount late s (r ∷ rs) closed [] h =
      last_read late false (observe r s).fin s r rs (rw (observe_counts r s).3 (rw h refl))
  stats_loop-IsCount late s (r ∷ rs) closed (cancel ∷ ts) h = last_read late late true s r rs refl
  stats_loop-IsCount late s (r ∷ rs) closed (accept ∷ ts) h =
      let (d, f, t, n) = observe_counts r s in
      let c = stats_loop-IsCount late (observe r s) rs closed ts (cc) in
      record {
        seen = r ∷ c.seen;
        unread = c.unread;
        in_order = ap (λ l. r ∷ l) c.in_order;
        sent_is = elim c.sent_is [
          | inl whole ↦ inl (ap (λ l. r ∷ l) whole)
          | inr (last, but_one) ↦ inr (last, ap (λ l. r ∷ l) but_one)
        ];
        done_is = omega (arith, c.done_is, d);
        failed_is = omega (arith, c.failed_is, f, error_count-cons r c.seen);
        total_kept = cc (c.total_kept, t);
        closed_is = c.closed_is;
      }

  -- With the options of the package, and whatever the turns of the sink and of ctx are: where the
  -- goroutine of WithStats has returned or waits for a result or at its select, the counters are exact
  -- for what it has read: `done` is the number of results read and `failed` that of those with an
  -- error. The output has the results read, as they were and in their order, all of them or all but
  -- the last; and it is closed exactly where Done() is closed and the last deferred call has run.
  pub with_stats-IsCount :
      (late : Bool) (opts : List StatsOption) (now : ℤ) (input : Stream (Result A)) (ts : List Turn)
      → AllOffered opts
      → IsCount late
          (new_stats opts now)
          input.items
          (with_stats late opts now input ts).0
          (with_stats late opts now input ts).1
        × ((new_stats opts now).done ≡ 0)
        × ((new_stats opts now).failed ≡ 0)
  unfolding with_stats
  with_stats-IsCount late opts now input ts h =
      let (d, f, n) = new_stats_fresh opts now h in
      (stats_loop-IsCount late (new_stats opts now) input.items input.closed ts n, d, f)
