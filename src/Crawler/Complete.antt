-- ===== src/Crawler/Complete.antt =====
-- What the crawler has written in the end (examples/crawler/main.go).
use mathlib.Core.List.{Perm}
use gojob.Prelude.{
  Perm-length, ℕ, suc, ◌+◌, ◌≤◌, ◌<◌, ◌≡◌, refl, sym, ap, ◌∙◌, true, false, Option, some, none,
  List, [], ◌∷◌, All, map, length, length-map, length-append, ℤ, arith, Bool, ◌&&◌, ◌⊎◌, inl, inr,
  ◌++◌,
}
use gojob.Crawler.{
  exit_code, CrawlResult, CrawlRuns, Flags, options_of, config_of, urls_of, written_of,
}
use gojob.Crawler.Urls.{shard_lines, urls_of_uncancelled}
use gojob.Fileq.Decimal.{Text}
use gojob.Options.Valid
use gojob.Options.Valid.{IsValid, IsOffered, apply_options-IsValid}
use gojob.Process.Pool.{Pool, start, Reach}
use gojob.Process.Pool.Accounting.{delivered}
use gojob.Process.Pool.Completion.{closed_delivers_all}
use gojob.Sink.{Encoded, text, returned, encode}
use gojob.Sink.Jsonl.{Lines, none_left, line_of, write_jsonl_complete}
use gojob.Stats.{StatsOption, new_stats, with_stats}
use gojob.Stats.Counts
use gojob.Stats.Counts.{with_stats-relay, with_stats-IsCount}
use gojob.Stream.{Stream, Turn}
use gojob.Stream.Relay.{relay_uncancelled, IsAccept}
use gojob.Task.{Error, Result, ResultJson}

pub config_of-IsValid : (f : Flags) → IsValid (config_of f)
unfolding config_of options_of
config_of-IsValid f = apply_options-IsValid (
    Valid.AllOffered.cons (IsOffered.workers f.workers) (
      Valid.AllOffered.cons (IsOffered.retry f.retries _)
        (Valid.AllOffered.cons (IsOffered.timeout _) Valid.AllOffered.nil)))

-- A pool that has closed its output, where ctx is not done.
pub record IsFinished (f : Flags) (urls : List Text) (pool : Pool Text CrawlResult) : Type 0 where
  pub run : Reach (CrawlRuns (config_of f)) (start (config_of f) urls) pool
  pub closed : pool.out_closed ≡ true
  pub alive : pool.cancelled ≡ false

open_or_fin : (fin : Bool) → fin && true ≡ true → fin ≡ true
open_or_fin true e = refl
open_or_fin false e = e

module _ {ℓ} {A : Type ℓ} where
  sent_least :
      {items seen : List (Result A)}
      → (items ≡ seen) ⊎ ((last : Result A) × (items ++ last ∷ [] ≡ seen))
      → length items ≤ length seen
  sent_least (inl whole) = omega (arith, ap length whole)
  sent_least {items} (inr (last, but_one)) =
      omega (arith, ap length but_one, length-append items (last ∷ []))

  -- WithStats on a closed stream that is read to its end.
  pub with_stats_uncancelled :
      (opts : List StatsOption) (now : ℤ) (rs : List (Result A)) (ts : List Turn)
      → Counts.AllOffered opts
      → All IsAccept ts
      → length rs ≤ length ts
      → let out = with_stats true opts now (record { items = rs; closed = true }) ts in
        (out.0 ≡ record { items = rs; closed = true })
        × (out.1.done ≡ length rs)
        × (out.1.fin ≡ true)
        × (out.1.total ≡ (new_stats opts now).total)
  with_stats_uncancelled opts now rs ts offered a l =
      let input : Stream (Result A) = record { items = rs; closed = true } in
      let passed : (with_stats true opts now input ts).0 ≡ input =
        with_stats-relay opts now input ts ∙ relay_uncancelled rs true ts a l in
      let (c, d, _) = with_stats-IsCount true opts now input ts offered in
      let sent : length (with_stats true opts now input ts).0.items ≡ length rs =
        ap (λ o. length o.items) passed in
      let fin = open_or_fin _ (sym c.closed_is ∙ ap (λ o. o.closed) passed) in
      let split : length c.seen + length c.unread ≡ length rs =
        sym (length-append c.seen c.unread) ∙ ap length c.in_order in
      (passed, omega (arith, c.done_is, d, sent_least c.sent_is), fin, c.total_kept)

module _ {Line : Type 0} (marshal : ResultJson CrawlResult → Encoded Line)
    (write : ℕ → Option Error) (ctx_err : Error) where
  -- Where nothing fails, each result has its line.
  all_lines :
      ((i : ℕ) (r : Result CrawlResult)
        → (line : Line) × (encode marshal write ctx_err i r ≡ text line))
      → (i : ℕ) (rs : List (Result CrawlResult))
      → (lines : List Line) × Lines marshal write ctx_err i rs lines
  all_lines encodes i [] = ([], none_left)
  all_lines encodes i (r ∷ rs) =
      let (line, e) = encodes i r in
      let (lines, rest) = all_lines encodes (suc i) rs in (line ∷ lines, line_of e rest)

  -- The crawler without a cancellation, where the output can be written and is opened: WriteJSONL
  -- returns nil and the program exits with 0, there is one line for each line of the input in this
  -- shard, as often as it stands there, in the order in which the pool sent the results, and the
  -- statistics count as many results as the shard has lines and are finished.
  pub written_of_complete :
      ((i : ℕ) (r : Result CrawlResult)
        → (line : Line) × (encode marshal write ctx_err i r ≡ text line))
      → (trim_space : Text → Text) (f : Flags) (found : List Text)
        (lines_turns shard_turns stats_turns sink_turns : List Turn) (now : ℤ)
        {pool : Pool Text CrawlResult}
      → All IsAccept lines_turns
      → All IsAccept shard_turns
      → All IsAccept stats_turns
      → All IsAccept sink_turns
      → length found ≤ length lines_turns
      → length found ≤ length shard_turns
      → length pool.sent ≤ length stats_turns
      → length pool.sent < length sink_turns
      → IsFinished f (urls_of trim_space f (some found) lines_turns shard_turns).items pool
      → let ((lines, exit), stats) =
          written_of marshal write ctx_err pool now stats_turns sink_turns in
        (exit ≡ returned none)
        × (exit_code none exit ≡ some 0)
        × Lines marshal write ctx_err 0 (map (λ p. p.1) pool.sent) lines
        × Perm (shard_lines f (map trim_space found)) (delivered pool)
        × (stats.done ≡ length (shard_lines f (map trim_space found)))
        × (stats.fin ≡ true)
  unfolding written_of exit_code
  written_of_complete encodes trim_space f found ts us vs ws now {pool} a b c d l m n o p =
      let (lines, each) = all_lines encodes 0 (map (λ x. x.1) pool.sent) in
      let long = length-map pool.sent (λ x. x.1) in
      let (passed, counted, fin, _) =
        with_stats_uncancelled [] now (map (λ x. x.1) pool.sent) vs Counts.AllOffered.nil c
          (omega arith) in
      let wrote = write_jsonl_complete marshal write ctx_err _ lines ws each d (omega arith) in
      let all =
        closed_delivers_all _ (config_of f) _ (config_of-IsValid f) p.run p.closed p.alive in
      let whole : Perm (shard_lines f (map trim_space found)) (delivered pool) =
        rw (urls_of_uncancelled trim_space f found ts us a b l m) at all in
      let every = Perm-length _ _ whole in
      let of_sent = length-map pool.sent (λ x. x.0) in
      rw (p.closed, passed, wrote)
        (refl, refl, each, whole, counted ∙ long ∙ sym (every ∙ of_sent), fin)
