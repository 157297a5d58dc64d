-- ===== src/Source/Lines.antt =====
-- Lines (source.go). The source that uio opens and the scanner are the lines that Scan finds, and
-- strings.TrimSpace is an argument; errors are only logged.
use gojob.Prelude.{Option, none, some, List, [], ◌∷◌, map, ◌≡◌, refl, ap}
use gojob.Fileq.Decimal.{Text}
use gojob.Stream.{Stream, Turn, accept, cancel, ended, blocked, send}
use gojob.Source.{from}

unfoldable pub scan_loop : (Text → Text) → List Text → List Turn → Stream Text
scan_loop trim_space [] ts = ended
scan_loop trim_space (line ∷ rest) [] = blocked
scan_loop trim_space (line ∷ rest) (accept ∷ ts) =
    send (trim_space line) (scan_loop trim_space rest ts)
scan_loop trim_space (line ∷ rest) (cancel ∷ ts) = ended

-- A source that cannot be opened is an empty one.
unfoldable pub read_lines : (Text → Text) → Option (List Text) → List Turn → Stream Text
unfolding scan_loop
read_lines trim_space none ts = ended
read_lines trim_space (some found) ts = scan_loop trim_space found ts

scan_loop-from :
    (trim_space : Text → Text) (found : List Text) (ts : List Turn)
    → scan_loop trim_space found ts ≡ from (map trim_space found) ts
unfolding scan_loop from
scan_loop-from trim_space [] ts = refl
scan_loop-from trim_space (line ∷ found) [] = refl
scan_loop-from trim_space (line ∷ found) (accept ∷ ts) =
    ap (send (trim_space line)) (scan_loop-from trim_space found ts)
scan_loop-from trim_space (line ∷ found) (cancel ∷ ts) = refl

-- Lines is From on the trimmed lines of a source that opens.
pub read_lines-from :
    (trim_space : Text → Text) (found : List Text) (ts : List Turn)
    → read_lines trim_space (some found) ts ≡ from (map trim_space found) ts
unfolding read_lines
read_lines-from trim_space found ts = scan_loop-from trim_space found ts
