-- ===== src/Crawler/Shards.antt =====
-- The crawlers of all shards together (examples/crawler/main.go, shard.go).
use mathlib.Core.List.{Perm}
use mathlib.Core.List.Perm
use gojob.Prelude.{
  ℕ, zero, suc, ◌≤◌, ◌<◌, ◌≡◌, List, [], ◌++◌, All, map, length, some, pos, arith, leb_ℤ, false,
}
use gojob.Crawler.{CrawlResult, Flags, config_of, urls_of}
use gojob.Crawler.Complete.{IsFinished, config_of-IsValid}
use gojob.Crawler.Urls.{urls_of_uncancelled}
use gojob.Fileq.Decimal.{Text}
use gojob.Process.Pool.{Pool}
use gojob.Process.Pool.Accounting.{delivered}
use gojob.Process.Pool.Completion.{closed_delivers_all}
use gojob.Shard.Partition.{assigned_below, assigned_below-Perm}
use gojob.Stream.{Turn}
use gojob.Stream.Relay.{IsAccept}

-- The flags of one of the shards.
abbrev pub flags_of : Flags → ℕ → ℕ → Flags
flags_of f n k = record f { num_shards = pos n; shard = pos k }

-- The URLs of the results of the first shards.
abbrev pub crawled : ℕ → (ℕ → Pool Text CrawlResult) → List Text
crawled zero pools = []
crawled (suc k) pools = delivered (pools k) ++ crawled k pools

module _ (trim_space : Text → Text) (f : Flags) (found : List Text) (n : ℕ)
    (lines_turns shard_turns : List Turn) (pools : ℕ → Pool Text CrawlResult) where
  abbrev pub urls : ℕ → List Text
  urls k = (urls_of trim_space (flags_of f n k) (some found) lines_turns shard_turns).items

  crawled_below :
      (m : ℕ)
      → 1 < n
      → m ≤ n
      → All IsAccept lines_turns
      → All IsAccept shard_turns
      → length found ≤ length lines_turns
      → length found ≤ length shard_turns
      → ((k : ℕ) → k < n → IsFinished (flags_of f n k) (urls k) (pools k))
      → Perm (assigned_below n m 0 (map trim_space found)) (crawled m pools)
  unfolding assigned_below
  crawled_below zero h i a b l o each = Perm.refl []
  crawled_below (suc k) h i a b l o each =
      let fk = flags_of f n k in
      let done = each k (omega arith) in
      let several : leb_ℤ (pos n) (pos 1) ≡ false = ground arith in
      let sent = urls_of_uncancelled trim_space fk found lines_turns shard_turns a b l o in
      let all : Perm (urls_of trim_space fk (some found) lines_turns shard_turns).items
          (delivered (pools k)) =
        closed_delivers_all _ (config_of fk) (urls k) (config_of-IsValid fk) done.run done.closed
          done.alive in
      Perm.append (rw (sent, several) at all) (crawled_below k h (omega arith) a b l o each)

  -- With more than one shard and without a cancellation, the crawlers of the shards 0 to n - 1, once
  -- their pools are closed, have crawled every line of the input between them, as often as it stands
  -- there, and nothing else.
  pub shards_crawl_all :
      1 < n
      → All IsAccept lines_turns
      → All IsAccept shard_turns
      → length found ≤ length lines_turns
      → length found ≤ length shard_turns
      → ((k : ℕ) → k < n → IsFinished (flags_of f n k) (urls k) (pools k))
      → Perm (map trim_space found) (crawled n pools)
  shards_crawl_all h a b l o each =
      Perm.trans (Perm.symm (assigned_below-Perm n 0 (map trim_space found) (omega arith)))
        (crawled_below n h (omega arith) a b l o each)
