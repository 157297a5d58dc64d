-- ===== src/Web.antt =====
-- web/web.go: the options, the page, and the event stream of the dashboard. net/http routes the
-- requests and is not modelled; html.EscapeString, strings.ReplaceAll, json.Marshal and the text of the
-- page are arguments.
pub mod Feed
pub mod Last
use gojob.Prelude.{
  ◌*◌, ◌^◌, Bool, true, false, Option, none, some, List, [], ◌∷◌, ◌++◌, ℤ, pos, ltb_ℤ,
  if◌then◌else◌,
}
use gojob.Fileq.{eqb_text}
use gojob.Fileq.Decimal.{Text}
use gojob.Options.{Duration}
use gojob.Stats.{Stats, Snapshot, Count, count, count_all, snapshot}
use gojob.Stream.{Stream, send, ended, blocked}
use gojob.Task.{milliseconds}

pub record Config : Type 0 where
  pub interval : Duration
  pub title : Text

unfoldable pub defaults : Config
defaults = record { interval = pos (10 ^ 9); title = b'g' ∷ b'o' ∷ b'j' ∷ b'o' ∷ b'b' ∷ [] }

unfoldable pub with_interval : Duration → Config → Config
with_interval d c = if ltb_ℤ (pos 0) d then record c { interval = d } else c

unfoldable pub with_title : Text → Config → Config
with_title title c = record c { title = title }

unfoldable pub apply_options : List (Config → Config) → Config → Config
apply_options [] c = c
apply_options (o ∷ os) c = apply_options os (o c)

-- `{{TITLE}}`.
abbrev pub title_mark : Text
title_mark = b'{' ∷ b'{' ∷ b'T' ∷ b'I' ∷ b'T' ∷ b'L' ∷ b'E' ∷ b'}' ∷ b'}' ∷ []

unfoldable pub page : (Text → Text) → (Text → Text → Text → Text) → Text → Config → Text
page escape_string replace_all index_html cfg =
    replace_all index_html title_mark (escape_string cfg.title)

pub data Response : Type 0 where
  not_found : Response
  written : Text → Response

-- The handler of "/", which the mux also gives every other path.
unfoldable pub root_handler : Text → Text → Response
root_handler page path = if eqb_text path (b'/' ∷ []) then written page else not_found

pub record Update : Type 0 where
  pub total : ℤ
  pub done : ℤ
  pub succeeded : ℤ
  pub failed : ℤ
  pub elapsed_ms : ℤ
  pub finished : Bool

unfoldable pub update_of : Snapshot → Bool → Update
update_of snap finished = record {
  total = snap.total;
  done = snap.done;
  succeeded = snap.succeeded;
  failed = snap.failed;
  elapsed_ms = milliseconds snap.elapsed;
  finished = finished;
}

-- "data: %s" and two line ends.
unfoldable pub frame : Text → Text
frame b = b'd' ∷ b'a' ∷ b't' ∷ b'a' ∷ b':' ∷ b' ' ∷ b ++ 10 ∷ 10 ∷ []

-- What happens while a client listens: WithStats adds to a counter or closes `fin`, and a select of
-- the handler goes ahead. A snapshot has its time, and the additions between its two loads.
pub data Moment : Type 0 where
  counted : Count → Moment
  closed : Moment
  disconnected canceled : Moment
  ticked : List Count → ℤ → Moment
  job_done : ℤ → Moment

module _ (marshal : Update → Option Text) where
  -- An update that cannot be encoded is not written.
  unfoldable pub write_event : Snapshot → Bool → Stream Text → Stream Text
  unfolding update_of frame
  write_event snap last rest = elim (marshal (update_of snap last)) [
    | none ↦ rest
    | some b ↦ send (frame b) rest
  ]

  -- The loop. `stats.Done()` is ready only when `fin` is closed.
  unfoldable pub serve : Stats → List Moment → Stream Text
  unfolding write_event snapshot count count_all
  serve s [] = blocked
  serve s (counted c ∷ es) = serve (count c s) es
  serve s (closed ∷ es) = serve (record s { fin = true }) es
  serve s (disconnected ∷ es) = ended
  serve s (canceled ∷ es) = ended
  serve s (ticked cs now ∷ es) =
      let s' = count_all cs s in write_event (snapshot s s' now) false (serve s' es)
  serve s (job_done now ∷ es) =
      let rest = serve s es in if s.fin then write_event (snapshot s s now) true ended else rest

  -- The handler of "/events" on a writer that can flush, or not.
  unfoldable pub events : Bool → Stats → List Count → ℤ → List Moment → Option (Stream Text)
  unfolding serve
  events false s cs now es = none
  events true s cs now es =
      let s' = count_all cs s in some (write_event (snapshot s s' now) false (serve s' es))
