-- ===== src/Prometheus.antt =====
-- examples/prometheus/main.go: From, Process, WithStats with a total, and Push. Its function crawl is
-- that of the crawler; the HTTP client and the Pushgateway are arguments.
use mathlib.Core.List.{Perm}
use gojob.Prelude.{
  ℕ, zero, suc, ◌≤◌, ◌<◌, ◌⊎◌, take, ◌≡◌, refl, sym, ap, ◌∙◌, true, false, none, some, List, [],
  ◌∷◌, ◌++◌, map, All, length, length-map, replicate, ℤ, pos, arith, Perm-length,
}
use gojob.Crawler.{CrawlResult, CrawlRuns, results_of, seconds}
use gojob.Crawler.Complete.{with_stats_uncancelled}
use gojob.Fileq.Decimal.{Text, format_int}
use gojob.Options.{
  Config, apply_options, defaults, with_workers, with_retry, with_timeout, exp_backoff,
}
use gojob.Options.Valid
use gojob.Options.Valid.{IsValid, IsOffered, apply_options-IsValid}
use gojob.Process.Pool.{Pool, start, Reach}
use gojob.Process.Pool.Accounting.{delivered}
use gojob.Process.Pool.Completion.{closed_delivers_all}
use gojob.Prom.{Run, set_gauges, push}
use gojob.Prom.Pushed.{push_early}
use gojob.Source.{from}
use gojob.Source.Delivery.{from-relay}
use gojob.Stats.{
  Stats, Snapshot, StreamEvent, tick, finished, new_stats, with_stats, with_total, snapshot,
  apply_options as apply_stats_options,
}
use gojob.Stats.Counts
use gojob.Stream.{Stream, Turn, accept}
use gojob.Stream.Relay.{relay_uncancelled, IsAccept}
use gojob.Task.{Error, Result}

-- "https://httpbin.org/status/200?i="
abbrev base_url : Text
base_url =
    b'h' ∷ b't' ∷ b't' ∷ b'p' ∷ b's' ∷ b':' ∷ b'/' ∷ b'/' ∷ b'h' ∷ b't' ∷ b't' ∷ b'p' ∷ b'b' ∷ b'i'
    ∷ b'n' ∷ b'.' ∷ b'o' ∷ b'r' ∷ b'g' ∷ b'/' ∷ b's' ∷ b't' ∷ b'a' ∷ b't' ∷ b'u' ∷ b's' ∷ b'/'
    ∷ b'2' ∷ b'0' ∷ b'0' ∷ b'?' ∷ b'i' ∷ b'=' ∷ []

-- The loop over i, on the rounds that are left.
unfoldable pub urls_from : ℕ → ℕ → List Text
urls_from zero i = []
urls_from (suc left) i = (base_url ++ format_int (pos i)) ∷ urls_from left (suc i)

unfoldable pub urls : List Text
unfolding urls_from
urls = urls_from 256 0

unfoldable pub push_config : Config
unfolding seconds
push_config =
    apply_options
      (with_workers (pos 8)
        ∷ with_retry (pos 4) (some (exp_backoff (pos 100000000) (pos 10000000000)))
        ∷ with_timeout (seconds (pos 16))
        ∷ [])
      defaults

unfoldable pub observed_of :
    Pool Text CrawlResult → ℤ → List Turn → Stream (Result CrawlResult) × Stats
observed_of pool now turns =
    with_stats true (with_total (pos (length urls)) ∷ []) now (results_of pool) turns

-- What the Pushgateway has been sent when main returns. Nothing waits for the goroutine of Push: it has
-- got so many selects by then, and the process ends.
unfoldable pub pushed_at_exit {ℓ} :
    {Float : Type ℓ} → (ℤ → Float) → Error → List StreamEvent → ℕ → Run Float
unfolding push
pushed_at_exit float64 err es selects = push float64 err es (replicate selects accept)

length-urls_from : (n i : ℕ) → length (urls_from n i) ≡ n
unfolding urls_from
length-urls_from zero i = refl
length-urls_from (suc n) i = ap suc (length-urls_from n (suc i))

pub length-urls : length urls ≡ 256
unfolding urls
length-urls = length-urls_from 256 0

push_config-IsValid : IsValid push_config
unfolding push_config
push_config-IsValid = apply_options-IsValid (
    Valid.AllOffered.cons (IsOffered.workers _) (
      Valid.AllOffered.cons (IsOffered.retry _ _)
        (Valid.AllOffered.cons (IsOffered.timeout _) Valid.AllOffered.nil)))

new_stats-total : (n now : ℤ) → (new_stats (with_total n ∷ []) now).total ≡ n
unfolding new_stats apply_stats_options with_total
new_stats-total n now = refl

-- The job without a cancellation. When main returns, Push has sent the gauges of as many snapshots as
-- it got selects, in order: those that the ticker took, whatever they are, and then the final one,
-- whose total and number of results done are both 256. It has returned nil if it got a select behind
-- the final snapshot, and else the process ends while it runs, perhaps before the last push.
pub pushed_whole {ℓ} :
    {Float : Type ℓ} (float64 : ℤ → Float) (err : Error) (snaps : List Snapshot) (now end : ℤ)
    (selects : ℕ) (source_turns stats_turns : List Turn) {pool : Pool Text CrawlResult}
    → All IsAccept source_turns
    → All IsAccept stats_turns
    → length urls ≤ length source_turns
    → length pool.sent ≤ length stats_turns
    → Reach (CrawlRuns push_config) (start push_config (from urls source_turns).items) pool
    → pool.out_closed ≡ true
    → pool.cancelled ≡ false
    → let stats = (observed_of pool now stats_turns).1 in
      let last = snapshot stats stats end in
      let all = snaps ++ last ∷ [] in
      let run = pushed_at_exit float64 err (map tick snaps ++ finished last ∷ []) selects in
      ((set_gauges float64 last).total ≡ float64 (pos 256))
      × ((set_gauges float64 last).done ≡ float64 (pos 256))
      × (run.pushes ≡ take selects (map (set_gauges float64) all))
      × ((selects ≤ length all) × (run.returned ≡ none)
          ⊎ (length all < selects) × (run.returned ≡ some none))
unfolding observed_of set_gauges snapshot pushed_at_exit
pushed_whole float64 err snaps now end k ts vs {pool} a b l m p closed alive =
    let sent : from urls ts ≡ record { items = urls; closed = true } =
      from-relay urls ts ∙ relay_uncancelled urls true ts a l in
    let all : Perm (from urls ts).items (delivered pool) =
      closed_delivers_all _ push_config _ push_config-IsValid p closed alive in
    let every = Perm-length _ _ all in
    let given = ap (λ s. length s.items) sent in
    let of_items = length-map pool.sent (λ x. x.0) in
    let of_results = length-map pool.sent (λ x. x.1) in
    let (_, counted, _, total) =
      with_stats_uncancelled (with_total (pos (length urls)) ∷ []) now (map (λ x. x.1) pool.sent) vs
        (Counts.AllOffered.cons _ Counts.AllOffered.nil) b (omega arith) in
    let done : length (map (λ x. x.1) pool.sent) ≡ 256 =
      of_results ∙ sym of_items ∙ sym every ∙ given ∙ length-urls in
    rw closed (
      ap float64 (total ∙ new_stats-total (pos (length urls)) now ∙ ap pos length-urls),
      ap (λ n. float64 (pos n)) (counted ∙ done),
      (push_early float64 err snaps _ k).0,
      (push_early float64 err snaps _ k).1,
    )
