-- ===== src/Tests/Prometheus.antt =====
-- Runs of examples/prometheus/main.go: all URLs answer.
use gojob.Prelude.{
  ◌-ℤ◌, ◌≤◌, ◌<◌, ◌⊎◌, take as first_of, ◌≡◌, refl, true, false, none, some, List, [], ◌∷◌, ◌++◌,
  map, All, All-replicate, append-nil, append_assoc, length, length-map, length-replicate,
  replicate, ℤ, pos, arith,
}
use gojob.Crawler.{CrawlResult, CrawlRuns, response, crawl, seconds}
use gojob.Fileq.Decimal.{Text}
use gojob.Options.{
  apply_options, defaults, with_workers, with_retry, with_timeout, to_bits, of_bits,
}
use gojob.Process.{Env, run_one, run_with_timeout}
use gojob.Process.Pool.{
  Worker, idle, gone, Pool, start, take, finish, deliver, drained, close, Reach, here, next,
}
use gojob.Prom.{set_gauges}
use gojob.Prometheus.{urls, length-urls, push_config, observed_of, pushed_at_exit, pushed_whole}
use gojob.Source.{from}
use gojob.Source.Delivery.{from-relay}
use gojob.Stats.{tick, finished, snapshot}
use gojob.Stream.{Turn, accept}
use gojob.Stream.Relay.{relay_uncancelled, IsAccept}
use gojob.Task.{Result, canceled}

abbrev answered : Text → Env CrawlResult
answered url = record {
  call = λ n. crawl url (response (pos 200));
  wait = λ n. none;
  race = λ n. none;
  zero_value = record { url = []; status_code = pos 0 };
  started = pos 3;
  ended = pos 5;
}

abbrev result_of : Text → Result CrawlResult
result_of url = record {
  value = record { url = url; status_code = pos 200 };
  err = none;
  attempts = 1;
  started_at = pos 3;
  duration = pos 2;
}

answered-CrawlRuns : (url : Text) → CrawlRuns push_config url (result_of url)
unfolding run_one run_with_timeout crawl push_config apply_options defaults with_workers with_retry
    with_timeout seconds to_bits of_bits ◌-ℤ◌
answered-CrawlRuns url = (answered url, (λ n. (response (pos 200), refl)), refl, refl)

abbrev others : List (Worker Text CrawlResult)
others = idle ∷ idle ∷ idle ∷ idle ∷ idle ∷ idle ∷ idle ∷ []

abbrev pool_at : List Text → List (Text × Result CrawlResult) → Pool Text CrawlResult
pool_at input sent = record {
  input = input;
  cancelled = false;
  workers = idle ∷ others;
  sent = sent;
  dropped = [];
  out_closed = false;
}

-- One worker does all.
serve :
    (s : Pool Text CrawlResult) (xs : List Text) (sent : List (Text × Result CrawlResult))
    → Reach (CrawlRuns push_config) s (pool_at xs sent)
    → Reach (CrawlRuns push_config) s (pool_at [] (sent ++ map (λ u. (u, result_of u)) xs))
serve s [] sent p = rw append-nil p
serve s (x ∷ xs) sent p = rw append_assoc at (
    serve s xs (sent ++ (x, result_of x) ∷ []) (
      next
        (next (next p (take [] others x xs refl refl refl))
          (finish [] others x (result_of x) refl (answered-CrawlRuns x) refl))
        (deliver [] others x (result_of x) refl refl)))

abbrev end_pool : List (Text × Result CrawlResult) → Pool Text CrawlResult
end_pool sent = record {
  input = [];
  cancelled = false;
  workers = gone ∷ gone ∷ gone ∷ gone ∷ gone ∷ gone ∷ gone ∷ gone ∷ [];
  sent = sent;
  dropped = [];
  out_closed = true;
}

finish_all :
    (s : Pool Text CrawlResult) (sent : List (Text × Result CrawlResult))
    → Reach (CrawlRuns push_config) s (pool_at [] sent)
    → Reach (CrawlRuns push_config) s (end_pool sent)
finish_all s sent p =
    next
      (next
        (next
          (next
            (next
              (next
                (next
                  (next
                    (next p (
                      drained [] (idle ∷ idle ∷ idle ∷ idle ∷ idle ∷ idle ∷ idle ∷ []) refl refl
                        refl))
                    (drained (gone ∷ []) (idle ∷ idle ∷ idle ∷ idle ∷ idle ∷ idle ∷ []) refl refl
                      refl))
                  (drained (gone ∷ gone ∷ []) (idle ∷ idle ∷ idle ∷ idle ∷ idle ∷ []) refl refl
                    refl))
                (drained (gone ∷ gone ∷ gone ∷ []) (idle ∷ idle ∷ idle ∷ idle ∷ []) refl refl refl))
              (drained (gone ∷ gone ∷ gone ∷ gone ∷ []) (idle ∷ idle ∷ idle ∷ []) refl refl refl))
            (drained (gone ∷ gone ∷ gone ∷ gone ∷ gone ∷ []) (idle ∷ idle ∷ []) refl refl refl))
          (drained (gone ∷ gone ∷ gone ∷ gone ∷ gone ∷ gone ∷ []) (idle ∷ []) refl refl refl))
        (drained (gone ∷ gone ∷ gone ∷ gone ∷ gone ∷ gone ∷ gone ∷ []) ([]) refl refl refl))
      (close (refl, (refl, (refl, (refl, (refl, (refl, (refl, (refl, tt)))))))) refl refl)

abbrev turns : List Turn
turns = replicate 256 accept

turns-All : All IsAccept turns
turns-All = All-replicate IsAccept 256 accept refl

abbrev all_sent : List (Text × Result CrawlResult)
all_sent = map (λ u. (u, result_of u)) urls

enough : length urls ≤ length turns
enough =
    let long = length-urls in
    let given : length turns ≡ 256 = length-replicate 256 accept in omega arith

enough_results : length all_sent ≤ length turns
enough_results =
    let same : length all_sent ≡ length urls = length-map urls (λ u. (u, result_of u)) in
    omega (arith, same, enough)

start-Reach : Reach (CrawlRuns push_config) (start push_config urls) (end_pool all_sent)
unfolding start push_config apply_options defaults with_workers with_retry with_timeout
start-Reach =
    finish_all (start push_config urls) all_sent (serve (start push_config urls) urls [] here)

whole-Reach :
    Reach (CrawlRuns push_config) (start push_config (from urls turns).items) (end_pool all_sent)
whole-Reach = rw (from-relay, relay_uncancelled urls true turns turns-All enough) start-Reach

abbrev as_is : ℤ → ℤ
as_is x = x

-- A process that ends before the last push.
pushed_whole_example :
    let stats = (observed_of (end_pool all_sent) (pos 0) turns).1 in
    let last = snapshot stats stats (pos 9) in
    let all = last ∷ last ∷ [] in
    let run = pushed_at_exit as_is canceled (map tick (last ∷ []) ++ finished last ∷ []) 1 in
    ((set_gauges as_is last).total ≡ pos 256)
    × ((set_gauges as_is last).done ≡ pos 256)
    × (run.pushes ≡ first_of 1 (map (set_gauges as_is) all))
    × ((1 ≤ length all) × (run.returned ≡ none) ⊎ (length all < 1) × (run.returned ≡ some none))
pushed_whole_example =
    let stats = (observed_of (end_pool all_sent) (pos 0) turns).1 in
    pushed_whole as_is canceled (snapshot stats stats (pos 9) ∷ []) (pos 0) (pos 9) 1 turns turns
      turns-All turns-All enough enough_results whole-Reach refl refl
