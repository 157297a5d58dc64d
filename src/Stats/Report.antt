-- ===== src/Stats/Report.antt =====
-- ReportEvery (stats.go). Printing a rounded Duration is an argument.
use gojob.Prelude.{List, [], ◌∷◌, ◌++◌, map, ℤ, pos, leb_ℤ, if◌then◌else◌}
use gojob.Fileq.Decimal.{Text, format_int}
use gojob.Stats.{Snapshot, StreamEvent, stats_stream}

-- " done, ", " ok, " and " failed, elapsed ".
abbrev pub done_text : Text
done_text = b' ' ∷ b'd' ∷ b'o' ∷ b'n' ∷ b'e' ∷ b',' ∷ b' ' ∷ []

abbrev pub ok_text : Text
ok_text = b' ' ∷ b'o' ∷ b'k' ∷ b',' ∷ b' ' ∷ []

abbrev pub failed_text : Text
failed_text =
    b' ' ∷ b'f' ∷ b'a' ∷ b'i' ∷ b'l' ∷ b'e' ∷ b'd' ∷ b',' ∷ b' ' ∷ b'e' ∷ b'l' ∷ b'a' ∷ b'p' ∷ b's'
    ∷ b'e' ∷ b'd' ∷ b' ' ∷ []

abbrev pub progress_text : Text
progress_text = b'p' ∷ b'r' ∷ b'o' ∷ b'g' ∷ b'r' ∷ b'e' ∷ b's' ∷ b's' ∷ b':' ∷ b' ' ∷ []

-- The two formats of a line: with the total if it is known.
unfoldable pub report_line : (ℤ → Text) → Snapshot → Text
unfolding format_int
report_line duration_text snap =
    let tail =
      done_text
      ++ format_int snap.succeeded
      ++ ok_text
      ++ format_int snap.failed
      ++ failed_text
      ++ duration_text snap.elapsed
      ++ 10 ∷ [] in
    if leb_ℤ (pos 0) snap.total
    then progress_text ++ format_int snap.done ++ b'/' ∷ format_int snap.total ++ tail
    else progress_text ++ format_int snap.done ++ tail

-- One line for each snapshot of the stream.
unfoldable pub report_every : (ℤ → Text) → List StreamEvent → List Text
unfolding report_line stats_stream
report_every duration_text es = map (report_line duration_text) (stats_stream es).items
