-- ===== src/Prom.antt =====
-- prom/prom.go: the options of Push, the gauges that it sets, and its loop. The registry, the pusher
-- and the conversion to float64 are Prometheus's and Go's; a push that fails is only logged.
pub mod Pushed
use gojob.Prelude.{
  ◌*◌, ◌^◌, Bool, true, false, Option, none, some, List, [], ◌∷◌, ℤ, pos, ltb_ℤ, if◌then◌else◌,
}
use gojob.Fileq.{eqb_text}
use gojob.Fileq.Decimal.{Text}
use gojob.Options.{Duration}
use gojob.Stats.{Snapshot, StreamEvent, stats_stream}
use gojob.Stream.{Turn, accept, cancel, Stream}
use gojob.Task.{Error}

-- The map of labels as the list of its keys and values.
pub record Config : Type 0 where
  pub interval : Duration
  pub labels : List (Text × Text)

unfoldable pub defaults : Config
defaults = record { interval = pos (5 * 10 ^ 9); labels = [] }

unfoldable pub with_interval : Duration → Config → Config
with_interval d c = if ltb_ℤ (pos 0) d then record c { interval = d } else c

-- `labels[key] = value`.
unfoldable pub set_label : Text → Text → List (Text × Text) → List (Text × Text)
unfolding eqb_text
set_label key value [] = (key, value) ∷ []
set_label key value ((k, v) ∷ labels) =
    let rest = set_label key value labels in
    if eqb_text k key then (key, value) ∷ labels else (k, v) ∷ rest

unfoldable pub with_label : Text → Text → Config → Config
unfolding set_label
with_label key value c = record c { labels = set_label key value c.labels }

unfoldable pub apply_options : List (Config → Config) → Config → Config
apply_options [] c = c
apply_options (o ∷ os) c = apply_options os (o c)

pub record Gauges {ℓ} (Float : Type ℓ) : Type ℓ where
  pub total : Float
  pub done : Float
  pub succeeded : Float
  pub failed : Float

-- What a Pushgateway has been sent, and what Push has returned, if it has: nil, or ctx.Err().
pub record Run {ℓ} (Float : Type ℓ) : Type ℓ where
  pub pushes : List (Gauges Float)
  pub returned : Option (Option Error)

module _ {ℓ} {Float : Type ℓ} (float64 : ℤ → Float) where
  unfoldable pub set_gauges : Snapshot → Gauges Float
  set_gauges snap = record {
    total = float64 snap.total;
    done = float64 snap.done;
    succeeded = float64 snap.succeeded;
    failed = float64 snap.failed;
  }

  -- The loop, with one turn for each select; the error is ctx.Err().
  unfoldable pub push_loop : Error → List Snapshot → Bool → List Turn → Run Float
  unfolding set_gauges
  push_loop err snaps closed [] = record { pushes = []; returned = none }
  push_loop err snaps closed (cancel ∷ ts) = record { pushes = []; returned = some (some err) }
  push_loop err [] true (accept ∷ ts) = record { pushes = []; returned = some none }
  push_loop err [] false (accept ∷ ts) = record { pushes = []; returned = none }
  push_loop err (snap ∷ snaps) closed (accept ∷ ts) =
      let run = push_loop err snaps closed ts in
      record run { pushes = set_gauges snap ∷ run.pushes }

  -- Push on a stream of snapshots, with what that stream's goroutine meets.
  unfoldable pub push : Error → List StreamEvent → List Turn → Run Float
  unfolding push_loop stats_stream
  push err es ts = let s = stats_stream es in push_loop err s.items s.closed ts
