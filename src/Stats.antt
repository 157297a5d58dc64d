-- ===== src/Stats.antt =====
-- stats.go: WithStats, Snapshot, Stream. The counters count results, and are left unbounded.
pub mod Counts
pub mod Torn
pub mod Report
use gojob.Prelude.{
  ℕ, zero, suc, ◌+◌, Bool, true, false, Option, none, some, List, [], ◌∷◌, ◌++◌, ℤ, pos, negsuc,
  ◌-ℤ◌,
}
use gojob.Stream.{Stream, Turn, accept, cancel, ended, blocked, send}
use gojob.Task.{Error, Result}

pub record Stats : Type 0 where
  pub total : ℤ
  pub done : ℕ
  pub failed : ℕ
  pub started : ℤ
  -- Whether `fin` is closed.
  pub fin : Bool

pub record Snapshot : Type 0 where
  pub total : ℤ
  pub done : ℤ
  pub succeeded : ℤ
  pub failed : ℤ
  pub elapsed : ℤ

abbrev pub StatsOption : Type 0
StatsOption = Stats → Stats

unfoldable pub with_total : ℤ → StatsOption
with_total n s = record s { total = n }

unfoldable pub apply_options : List StatsOption → Stats → Stats
apply_options [] s = s
apply_options (o ∷ os) s = apply_options os (o s)

-- The handle before the goroutine starts; the total is -1 unless an option sets it.
unfoldable pub new_stats : List StatsOption → ℤ → Stats
unfolding apply_options
new_stats opts now =
    let s : Stats = record { total = negsuc 0; done = 0; failed = 0; started = now; fin = false } in
    apply_options opts s

-- The additions to the two counters are atomic each on its own: others see the counters in between.
pub data Count : Type 0 where
  done_added failed_added : Count

unfoldable pub count : Count → Stats → Stats
count done_added s = record s { done = s.done + 1 }
count failed_added s = record s { failed = s.failed + 1 }

unfoldable pub count_all : List Count → Stats → Stats
unfolding count
count_all [] s = s
count_all (c ∷ cs) s = count_all cs (count c s)

-- `s.done.Add(1); if r.Err != nil { s.failed.Add(1) }`.
unfoldable pub counts_of {ℓ} : {A : Type ℓ} → Result A → List Count
counts_of r = elim r.err [ none ↦ done_added ∷ [] | some e ↦ done_added ∷ failed_added ∷ [] ]

-- Both additions, as the goroutine finds the counters when it goes on to its select.
unfoldable pub observe {ℓ} : {A : Type ℓ} → Result A → Stats → Stats
unfolding count_all counts_of
observe r s = count_all (counts_of r) s

-- The goroutine of WithStats. Its deferred calls close `fin` and then the output: `late` says whether
-- the second of them has run too.
unfoldable pub stats_loop {ℓ} :
    {A : Type ℓ} → Bool → Stats → List (Result A) → Bool → List Turn → Stream (Result A) × Stats
unfolding observe
stats_loop late s [] true ts = (record { items = []; closed = late }, record s { fin = true })
stats_loop late s [] false ts = (blocked, s)
stats_loop late s (r ∷ rs) closed [] = (blocked, observe r s)
stats_loop late s (r ∷ rs) closed (accept ∷ ts) =
    let (out, s') = stats_loop late (observe r s) rs closed ts in (send r out, s')
stats_loop late s (r ∷ rs) closed (cancel ∷ ts) =
    (record { items = []; closed = late }, record (observe r s) { fin = true })

unfoldable pub with_stats {ℓ} :
    {A : Type ℓ}
    → Bool
    → List StatsOption
    → ℤ
    → Stream (Result A)
    → List Turn
    → Stream (Result A) × Stats
unfolding stats_loop new_stats
with_stats late opts now input ts = stats_loop late (new_stats opts now) input.items input.closed ts

-- Snapshot loads `done` and then `failed`: the two loads may see the counters at two moments.
unfoldable pub snapshot : Stats → Stats → ℤ → Snapshot
snapshot at_done at_failed now = record {
  total = at_done.total;
  done = pos at_done.done;
  succeeded = pos at_done.done -ℤ pos at_failed.failed;
  failed = pos at_failed.failed;
  elapsed = now -ℤ at_done.started;
}

-- One select of the goroutine of Stats.Stream, with the snapshot that it takes: the ticker fired, or
-- `fin` is closed.
pub data StreamEvent : Type 0 where
  tick finished : Snapshot → StreamEvent

unfoldable pub stats_stream : List StreamEvent → Stream Snapshot
stats_stream [] = blocked
stats_stream (tick snap ∷ es) = send snap (stats_stream es)
stats_stream (finished snap ∷ es) = send snap ended
