-- ===== src/Tests/Progress.antt =====
-- Tests of web/web.go and prom/prom.go, and of the lines of stats.go and source.go.
use gojob.Prelude.{
  ℕ, ◌≡◌, refl, true, false, Option, none, some, List, [], ◌∷◌, ◌++◌, ℤ, pos, negsuc, length, ◌-ℤ◌,
}
use gojob.Fileq.{eqb_text}
use gojob.Fileq.Decimal.{Text}
use gojob.Prom.{push, with_label, defaults}
use gojob.Source.Lines.{read_lines}
use gojob.Stats.{Stats, Snapshot, tick, done_added, failed_added}
use gojob.Stats.Report.{report_every}
use gojob.Stream.{Stream, accept, cancel}
use gojob.Task.{Result, canceled, milliseconds}
use gojob.Web.{
  Update, Moment, counted, closed, ticked, disconnected, job_done, events, frame, root_handler,
  not_found,
}

abbrev good : Result ℕ
good = record { value = 1; err = none; attempts = 1; started_at = pos 0; duration = pos 5 }

abbrev bad : Result ℕ
bad = record good { err = some canceled }

abbrev fresh_stats : Stats
fresh_stats = record { total = pos 3; done = 0; failed = 0; started = pos 0; fin = false }

-- The fields that are not negative here, one byte each.
abbrev byte_of : ℤ → ℕ
byte_of (pos n) = n
byte_of (negsuc n) = 255

abbrev encoded : Update → Text
encoded u = byte_of u.done ∷ byte_of u.failed ∷ byte_of u.elapsed_ms ∷ []

abbrev marshal : Update → Option Text
marshal u = some (encoded u)

abbrev job : List Moment
job =
    counted done_added
    ∷ ticked (done_added ∷ []) (pos 2000000)
    ∷ counted failed_added
    ∷ counted done_added
    ∷ []

abbrev job_feed : Stream Text
job_feed = record {
  items = frame (0 ∷ 0 ∷ 1 ∷ []) ∷ frame (1 ∷ 0 ∷ 2 ∷ []) ∷ frame (3 ∷ 1 ∷ 3 ∷ []) ∷ [];
  closed = true;
}

job_runs :
    events marshal true fresh_stats [] (pos 1000000) (job ++ closed ∷ job_done (pos 3000000) ∷ [])
    ≡ some job_feed
unfolding events frame milliseconds ◌-ℤ◌
job_runs = refl

-- A client that leaves reads no more; a select on an open `fin` does not go ahead.
client_leaves :
    events marshal true fresh_stats [] (pos 0) (job_done (pos 1) ∷ disconnected ∷ job)
    ≡ some (record { items = frame (0 ∷ 0 ∷ 0 ∷ []) ∷ []; closed = true })
unfolding events frame milliseconds ◌-ℤ◌
client_leaves = refl

other_path : root_handler (1 ∷ []) (b'/' ∷ b'x' ∷ []) ≡ not_found
unfolding root_handler eqb_text
other_path = refl

abbrev half_way : Snapshot
half_way = record {
  total = negsuc 0;
  done = pos 12;
  succeeded = pos 11;
  failed = pos 1;
  elapsed = pos 5;
}

abbrev all_done : Snapshot
all_done = record {
  total = pos 24;
  done = pos 24;
  succeeded = pos 20;
  failed = pos 4;
  elapsed = pos 9;
}

abbrev whole : ℤ → ℤ
whole n = n

push_cancelled :
    push whole canceled (tick half_way ∷ tick all_done ∷ []) (accept ∷ cancel ∷ []) ≡ record {
      pushes = record { total = negsuc 0; done = pos 12; succeeded = pos 11; failed = pos 1 } ∷ [];
      returned = some (some canceled);
    }
unfolding push
push_cancelled = refl

label_twice :
    with_label (1 ∷ []) (3 ∷ []) (with_label (1 ∷ []) (2 ∷ []) defaults)
    ≡ record defaults { labels = (1 ∷ [], 3 ∷ []) ∷ [] }
unfolding with_label defaults eqb_text
label_twice = refl

-- A trimming that marks the line that it was given.
trimmed_lines :
    read_lines (λ w. 0 ∷ w) (some ((1 ∷ []) ∷ (2 ∷ []) ∷ [])) (accept ∷ cancel ∷ [])
    ≡ record { items = (0 ∷ 1 ∷ []) ∷ []; closed = true }
unfolding read_lines
trimmed_lines = refl

two_report_lines : length (report_every (λ d. 0 ∷ []) (tick half_way ∷ tick all_done ∷ [])) ≡ 2
unfolding report_every
two_report_lines = refl
