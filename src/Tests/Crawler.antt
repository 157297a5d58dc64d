-- ===== src/Tests/Crawler.antt =====
-- Runs of examples/crawler/main.go: the two shards of two lines.
use mathlib.Core.List.{Perm}
use gojob.Prelude.{
  ℕ, zero, suc, ◌-ℤ◌, ◌<◌, ◌≡◌, refl, true, false, some, none, Option, List, [], ◌∷◌, map, length,
  pos, arith,
}
use gojob.Crawler.{
  CrawlResult, CrawlRuns, Flags, response, config_of, options_of, seconds, crawl, urls_of,
  written_of, exit_code,
}
use gojob.Crawler.Complete.{IsFinished, config_of-IsValid, written_of_complete}
use gojob.Crawler.Named.{Answers, crawled-Answers}
use gojob.Crawler.Shards.{flags_of, crawled, shards_crawl_all}
use gojob.Crawler.Sound.{IsSound, written_of-IsSound}
use gojob.Crawler.Urls.{shard_lines}
use gojob.Fileq.Decimal.{Text}
use gojob.Options.{
  apply_options, defaults, with_workers, with_retry, with_timeout, to_bits, of_bits,
}
use gojob.Process.{Env, run_one, run_with_timeout}
use gojob.Process.Pool.{Pool, gone, start, Reach, here, next, take, finish, deliver, drained, close}
use gojob.Process.Pool.Accounting.{delivered}
use gojob.Shard.{is_mine, shard_loop, shard_stream}
use gojob.Sink.{Encoded, text, returned, encode}
use gojob.Sink.Jsonl.{Lines}
use gojob.Source.Lines.{read_lines, scan_loop}
use gojob.Stream.{Turn, accept, cancel}
use gojob.Task.{Error, Result, ResultJson, canceled, deadline_exceeded, to_json}

abbrev flags : Flags
flags = record {
  workers = pos 1;
  retries = pos 1;
  timeout = pos 0;
  num_shards = pos 2;
  shard = pos 0;
}

abbrev same : Text → Text
same x = x

-- The lines "a" and "b".
abbrev found : List Text
found = (97 ∷ []) ∷ (98 ∷ []) ∷ []

abbrev turns : List Turn
turns = accept ∷ accept ∷ []

abbrev answered : Text → Env CrawlResult
answered url = record {
  call = λ n. crawl url (response (pos 200));
  wait = λ n. none;
  race = λ n. none;
  zero_value = record { url = []; status_code = pos 0 };
  started = pos 3;
  ended = pos 5;
}

abbrev result_of : Text → Result CrawlResult
result_of url = record {
  value = record { url = url; status_code = pos 200 };
  err = none;
  attempts = 1;
  started_at = pos 3;
  duration = pos 2;
}

abbrev end_pool : Text → Pool Text CrawlResult
end_pool url = record {
  input = [];
  cancelled = false;
  workers = gone ∷ [];
  sent = (url, result_of url) ∷ [];
  dropped = [];
  out_closed = true;
}

answered-CrawlRuns :
    (url : Text) (k : ℕ) → CrawlRuns (config_of (flags_of flags 2 k)) url (result_of url)
unfolding run_one run_with_timeout crawl config_of options_of apply_options defaults with_workers
    with_retry with_timeout seconds to_bits of_bits ◌-ℤ◌
answered-CrawlRuns url k = (answered url, (λ n. (response (pos 200), refl)), refl, refl)

end-Reach :
    (url : Text) (k : ℕ)
    → Reach
        (CrawlRuns (config_of (flags_of flags 2 k)))
        (start (config_of (flags_of flags 2 k)) (url ∷ []))
        (end_pool url)
unfolding start config_of options_of apply_options defaults with_workers with_retry with_timeout
end-Reach url k =
    next
      (next
        (next
          (next (next here (take [] [] url [] refl refl refl))
            (finish [] [] url (result_of url) refl (answered-CrawlRuns url k) refl))
          (deliver [] [] url (result_of url) refl refl))
        (drained [] [] refl refl refl))
      (close (refl, tt) refl refl)

-- What the pool of each shard is sent.
first_shard :
    urls_of same (flags_of flags 2 0) (some found) turns turns
    ≡ record { items = (97 ∷ []) ∷ []; closed = true }
unfolding urls_of shard_stream shard_loop is_mine read_lines scan_loop
first_shard = refl

second_shard :
    urls_of same (flags_of flags 2 1) (some found) turns turns
    ≡ record { items = (98 ∷ []) ∷ []; closed = true }
unfolding urls_of shard_stream shard_loop is_mine read_lines scan_loop
second_shard = refl

first-IsFinished :
    IsFinished
      (flags_of flags 2 0)
      (urls_of same (flags_of flags 2 0) (some found) turns turns).items
      (end_pool (97 ∷ []))
first-IsFinished =
    rw first_shard (record { run = end-Reach (97 ∷ []) 0; closed = refl; alive = refl })

second-IsFinished :
    IsFinished
      (flags_of flags 2 1)
      (urls_of same (flags_of flags 2 1) (some found) turns turns).items
      (end_pool (98 ∷ []))
second-IsFinished =
    rw second_shard (record { run = end-Reach (98 ∷ []) 1; closed = refl; alive = refl })

abbrev pools : ℕ → Pool Text CrawlResult
pools zero = end_pool (97 ∷ [])
pools (suc k) = end_pool (98 ∷ [])

IsFinished-each :
    (k : ℕ)
    → k < 2
    → IsFinished
        (flags_of flags 2 k)
        (urls_of same (flags_of flags 2 k) (some found) turns turns).items
        (pools k)
IsFinished-each zero h = first-IsFinished
IsFinished-each (suc zero) h = second-IsFinished
IsFinished-each (suc (suc k)) h = absurd (omega arith)

shards_crawl_all_example : Perm (map same found) (crawled 2 pools)
shards_crawl_all_example =
    shards_crawl_all same flags found 2 turns turns pools (omega arith) (refl, (refl, tt))
      (refl, (refl, tt)) (omega arith) (omega arith) IsFinished-each

-- A line is the URL; writes do not fail.
abbrev marshal : ResultJson CrawlResult → Encoded Text
marshal r = text r.value.url

abbrev no_failure : ℕ → Option Error
no_failure i = none

encodes :
    (i : ℕ) (r : Result CrawlResult)
    → (line : Text) × (encode marshal no_failure canceled i r ≡ text line)
unfolding encode to_json
encodes i r = (r.value.url, refl)

written_of_complete_example :
    let ((lines, exit), stats) =
      written_of marshal no_failure canceled (pools 0) (pos 1) turns turns in
    (exit ≡ returned none)
    × (exit_code none exit ≡ some 0)
    × Lines marshal no_failure canceled 0 (map (λ p. p.1) (pools 0).sent) lines
    × Perm (shard_lines (flags_of flags 2 0) (map same found)) (delivered (pools 0))
    × (stats.done ≡ length (shard_lines (flags_of flags 2 0) (map same found)))
    × (stats.fin ≡ true)
written_of_complete_example =
    written_of_complete marshal no_failure canceled encodes same (flags_of flags 2 0) found turns
      turns turns turns (pos 1) (refl, (refl, tt)) (refl, (refl, tt)) (refl, (refl, tt))
      (refl, (refl, tt)) (omega arith) (omega arith) (omega arith) (omega arith) first-IsFinished

-- A run that ctx stops after the pool.
written_of-IsSound_example :
    IsSound marshal no_failure canceled
      (flags_of flags 2 0)
      (map same found)
      (written_of marshal no_failure canceled (pools 0) (pos 1) turns (cancel ∷ [])).0.0
written_of-IsSound_example =
    written_of-IsSound marshal no_failure canceled same (flags_of flags 2 0) found turns turns
      (pos 1) turns (cancel ∷ []) (first-IsFinished.run)

-- With a timeout of one second, the call of the only attempt is cut off.
abbrev impatient : Flags
impatient = record flags { timeout = pos 1 }

abbrev cut_off : Env CrawlResult
cut_off = record (answered (97 ∷ [])) { race = λ n. some deadline_exceeded }

abbrev cut_off_result : Result CrawlResult
cut_off_result = record {
  value = record { url = []; status_code = pos 0 };
  err = some deadline_exceeded;
  attempts = 1;
  started_at = pos 3;
  duration = pos 2;
}

cut_off-CrawlRuns : CrawlRuns (config_of impatient) (97 ∷ []) cut_off_result
unfolding run_one run_with_timeout crawl config_of options_of apply_options defaults with_workers
    with_retry with_timeout seconds to_bits of_bits ◌-ℤ◌
cut_off-CrawlRuns = (cut_off, (λ n. (response (pos 200), refl)), refl, refl)

-- The only attempt gets a response.
crawled-Answers_example :
    let r = run_one (config_of flags) (answered (97 ∷ [])) in
    Answers (config_of flags) (97 ∷ []) (response (pos 200)) (r.value) (r.err)
crawled-Answers_example =
    crawled-Answers (config_of flags) (97 ∷ []) (answered (97 ∷ [])) (λ n. response (pos 200))
      (config_of-IsValid flags) (λ n. refl) refl
