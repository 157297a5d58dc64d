-- ===== src/Crawler/Sound.antt =====
-- What the crawler has written at any moment of any run (examples/crawler/main.go).
use mathlib.Core.List.{Perm, map-append}
use mathlib.Core.List.Perm
use gojob.Prelude.{
  true, ℕ, ◌≡◌, refl, sym, ap, Option, some, List, [], ◌∷◌, ◌++◌, All, All-split, map, append_assoc,
  Prefix, ℤ,
}
use gojob.Crawler.{CrawlResult, CrawlRuns, Flags, config_of, urls_of, results_of, written_of}
use gojob.Crawler.Urls.{shard_lines, urls_of-Prefix, Prefix-trans}
use gojob.Fileq.Decimal.{Text}
use gojob.Process.Pool.{Pool, start, Reach}
use gojob.Process.Pool.Accounting.{flight, Reach-content}
use gojob.Process.Pool.Results.{sent_are_runs}
use gojob.Sink.{Encoded}
use gojob.Sink.Jsonl.{Lines, write_jsonl-IsRun}
use gojob.Stats.{with_stats}
use gojob.Stats.Counts.{with_stats-relay}
use gojob.Stream.{Turn}
use gojob.Stream.Relay.{relay-Prefix}
use gojob.Task.{Error, Result, ResultJson}

-- A prefix of an image is the image of a prefix.
Prefix-map {ℓ κ} :
    {A : Type ℓ} {B : Type κ} (g : A → B) (xs : List B) (ys : List A)
    → Prefix xs (map g ys)
    → (zs : List A) × Prefix zs ys × (map g zs ≡ xs)
Prefix-map g [] ys p = ([], (ys, refl), refl)
Prefix-map g (x ∷ xs) [] (rest, e) = cc
Prefix-map g (x ∷ xs) (y ∷ ys) (rest, e) =
    let (zs, (more, f), h) = Prefix-map g xs ys (rest, cc) in
    (y ∷ zs, (more, ap (λ l. y ∷ l) f), cc)

-- `done` are the URLs whose lines are written, each with its result: every one is a line of the input
-- in this shard, none is written more often than it stands there, and its result is one of a crawl of
-- it.
pub record IsSound {Line : Type 0} (marshal : ResultJson CrawlResult → Encoded Line)
    (write : ℕ → Option Error) (ctx_err : Error) (f : Flags) (input : List Text) (lines : List Line)
    : Type 0 where
  pub done : List (Text × Result CrawlResult)
  pub encoded : Lines marshal write ctx_err 0 (map (λ p. p.1) done) lines
  pub crawled : All (λ p. CrawlRuns (config_of f) p.0 p.1) done
  pub rest : List Text
  pub once : Perm (shard_lines f input) (map (λ p. p.0) done ++ rest)

module _ {Line : Type 0} (marshal : ResultJson CrawlResult → Encoded Line)
    (write : ℕ → Option Error) (ctx_err : Error) (trim_space : Text → Text) (f : Flags)
    (found : List Text) (lines_turns shard_turns : List Turn) where
  -- The content of the pool, and so the URLs of some of its results, is part of the shard.
  sent_once :
      {pool : Pool Text CrawlResult} (done : List (Text × Result CrawlResult))
      → Reach
          (CrawlRuns (config_of f))
          (start (config_of f) (urls_of trim_space f (some found) lines_turns shard_turns).items)
          pool
      → Prefix done pool.sent
      → (rest : List Text) × Perm
          (shard_lines f (map trim_space found))
          (map (λ p. p.0) done ++ rest)
  sent_once {pool} done r (later, e) =
      let (unread, whole) = urls_of-Prefix trim_space f found lines_turns shard_turns in
      let kept = Reach-content (CrawlRuns (config_of f)) (config_of f) _ r in
      let others = pool.dropped ++ (flight pool.workers ++ pool.input) in
      (
        (map (λ p. p.0) later ++ others) ++ unread,
        rw whole at (
            rw
              (
                sym e,
                map-append,
                append_assoc (map (λ p. p.0) done) (map (λ p. p.0) later) others,
                append_assoc (map (λ p. p.0) done) (map (λ p. p.0) later ++ others) unread,
              )
              at (Perm.append_right unread kept)),
      )

  -- For an input that opens, whatever the turns of the stages are and wherever the pool stands, the
  -- output of the crawler is the lines of some URLs with their results, in order: each URL is a line
  -- of the input in this shard, written at most as often as it stands there, and its result is one
  -- that runOne returns for a crawl of it.
  pub written_of-IsSound :
      {pool : Pool Text CrawlResult} (now : ℤ) (stats_turns sink_turns : List Turn)
      → Reach
          (CrawlRuns (config_of f))
          (start (config_of f) (urls_of trim_space f (some found) lines_turns shard_turns).items)
          pool
      → IsSound marshal write ctx_err f
          (map trim_space found)
          (written_of marshal write ctx_err pool now stats_turns sink_turns).0.0
  unfolding written_of
  written_of-IsSound {pool} now ts us r =
      let observed = (with_stats true [] now (results_of pool) ts).0 in
      let run = write_jsonl-IsRun marshal write ctx_err observed us in
      let part : Prefix observed.items (results_of pool).items =
        rw (with_stats-relay [] now (results_of pool) ts)
          (relay-Prefix (results_of pool).items (results_of pool).closed ts) in
      let (done, p, same) =
        Prefix-map (λ x. x.1) run.written pool.sent
          (Prefix-trans _ _ _ (run.rest, run.in_order) part) in
      let (rest, once) = sent_once done r p in
      record {
        done = done;
        encoded = rw same run.encoded;
        crawled = (All-split _ done p.0 (rw p.1 (sent_are_runs _ (config_of f) _ r))).0;
        rest = rest;
        once = once;
      }
