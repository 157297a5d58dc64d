-- ===== src/Crawler.antt =====
-- examples/crawler/main.go: the pipeline Lines, Shard, Process, WithStats and WriteJSONL around one
-- call of the HTTP client. What the client, uio and strings.TrimSpace do are arguments. Each stage has
-- its own turns, so that a run need not agree on when ctx was done: there are more runs than real ones.
pub mod Urls
pub mod Sound
pub mod Complete
pub mod Shards
pub mod Named
use gojob.Prelude.{
  ℕ, ◌*◌, ◌%◌, true, Option, none, some, List, [], ◌∷◌, map, ◌≡◌, ℤ, pos, leb_ℤ, if◌then◌else◌,
}
use gojob.Fileq.Decimal.{Text}
use gojob.Options.{
  Config, ConfigOption, Duration, defaults, apply_options, with_workers, with_retry, with_timeout,
  exp_backoff, to_bits, of_bits, two64,
}
use gojob.Process.{Env, run_one}
use gojob.Process.Pool.{Pool}
use gojob.Shard.{shard_stream}
use gojob.Sink.{Encoded, Exit, returned, waiting, write_jsonl}
use gojob.Source.Lines.{read_lines}
use gojob.Stats.{Stats, with_stats}
use gojob.Stream.{Stream, Turn}
use gojob.Task.{Error, Result, ResultJson}

pub record CrawlResult : Type 0 where
  pub url : Text
  pub status_code : ℤ

-- NewRequestWithContext fails, Do fails, or there is a response with a status code.
pub data Reply : Type 0 where
  bad_request no_response : Error → Reply
  response : ℤ → Reply

unfoldable pub crawl : Text → Reply → CrawlResult × Option Error
crawl url (bad_request err) = (record { url = url; status_code = pos 0 }, some err)
crawl url (no_response err) = (record { url = url; status_code = pos 0 }, some err)
crawl url (response status) = (record { url = url; status_code = status }, none)

-- The flags of the command line.
pub record Flags : Type 0 where
  pub workers : ℤ
  pub retries : ℤ
  pub timeout : ℤ
  pub num_shards : ℤ
  pub shard : ℤ

-- `time.Duration(*timeout)*time.Second` on int64.
unfoldable pub seconds : ℤ → Duration
unfolding to_bits of_bits
seconds t = of_bits ((to_bits t * 1000000000) % two64)

unfoldable pub options_of : Flags → List ConfigOption
unfolding seconds
options_of f =
    with_workers f.workers
    ∷ with_retry f.retries (some (exp_backoff (pos 100000000) (pos 10000000000)))
    ∷ with_timeout (seconds f.timeout)
    ∷ []

unfoldable pub config_of : Flags → Config
unfolding options_of
config_of f = apply_options (options_of f) defaults

-- The results that Process may send for a URL: each attempt is a crawl of it, and the zero value of
-- CrawlResult stands for an attempt that was cut off.
abbrev pub CrawlRuns : Config → Text → Result CrawlResult → Type 0
CrawlRuns cfg url r =
    (env : Env CrawlResult) × ((n : ℕ) → (reply : Reply) × (env.call n ≡ crawl url reply))
    × (env.zero_value ≡ record { url = []; status_code = pos 0 })
    × (r ≡ run_one cfg env)

-- `urls`: what the pool is sent, where `found` are the lines of the input, if it opens.
unfoldable pub urls_of :
    (Text → Text) → Flags → Option (List Text) → List Turn → List Turn → Stream Text
urls_of trim_space f found lines_turns shard_turns =
    shard_stream f.num_shards f.shard (read_lines trim_space found lines_turns) shard_turns

-- The results behind the pool.
abbrev pub results_of : Pool Text CrawlResult → Stream (Result CrawlResult)
results_of pool = record { items = map (λ p. p.1) pool.sent; closed = pool.out_closed }

module _ {Line : Type 0} (marshal : ResultJson CrawlResult → Encoded Line)
    (write : ℕ → Option Error) (ctx_err : Error) where
  -- WithStats and WriteJSONL behind the pool: the lines of the output, how WriteJSONL stands, and the
  -- statistics. A WithStats that returns has run both its deferred calls.
  unfoldable pub written_of :
      Pool Text CrawlResult → ℤ → List Turn → List Turn → (List Line × Exit) × Stats
  written_of pool now stats_turns sink_turns =
      let (observed, stats) = with_stats true [] now (results_of pool) stats_turns in
      (write_jsonl marshal write ctx_err observed sink_turns, stats)

-- The exit code of the program, once it has one.
unfoldable pub exit_code : Option Error → Exit → Option ℕ
exit_code (some cannot_open) _ = some 1
exit_code none (returned none) = some 0
exit_code none (returned (some write_failed)) = some 1
exit_code none waiting = none
