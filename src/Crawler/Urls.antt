-- ===== src/Crawler/Urls.antt =====
-- The URLs that the pool of the crawler is sent (examples/crawler/main.go, source.go, shard.go).
use gojob.Prelude.{
  ℕ, suc, ◌+◌, ◌≤◌, ◌≡◌, refl, sym, ap, ◌∙◌, true, some, List, [], ◌∷◌, ◌++◌, All, map,
  append_assoc, append-nil, length, length-map, Prefix, ℤ, pos, leb_ℤ, if◌then◌else◌, arith,
  Bool-cases, inl, inr,
}
use gojob.Crawler.{Flags, urls_of}
use gojob.Fileq.Decimal.{Text}
use gojob.Shard.{is_mine, shard_stream}
use gojob.Shard.Partition.{assigned, shard_stream-relay, length-assigned}
use gojob.Source.Delivery.{from-relay}
use gojob.Source.Lines.{read_lines, read_lines-from}
use gojob.Stream.{Stream, Turn}
use gojob.Stream.Relay.{relay-Prefix, relay_uncancelled, IsAccept}

-- The lines of this shard, counted from 0; all of them with one shard or less.
abbrev pub shard_lines : Flags → List Text → List Text
shard_lines f lines =
    if leb_ℤ f.num_shards (pos 1) then lines else assigned f.num_shards f.shard 0 lines

module _ {ℓ} {A : Type ℓ} where
  assigned-append :
      (n k : ℤ) (i j : ℕ) (xs ys : List A)
      → j ≡ length xs + i
      → assigned n k i (xs ++ ys) ≡ assigned n k i xs ++ assigned n k j ys
  unfolding assigned
  assigned-append n k i j [] ys e =
      let same : i ≡ j = omega arith in ap (λ m. assigned n k m ys) same
  assigned-append n k i j (x ∷ xs) ys e =
      let later = assigned-append n k (suc i) j xs ys (omega arith) in
      elim (Bool-cases (is_mine n k i)) [
        | inl mine ↦ rw mine (ap (λ l. x ∷ l) later)
        | inr other ↦ rw other later
      ]

  assigned-Prefix :
      (n k : ℤ) (xs ys : List A) → Prefix xs ys → Prefix (assigned n k 0 xs) (assigned n k 0 ys)
  assigned-Prefix n k xs ys (rest, e) = (
    assigned n k (length xs) rest,
    sym (assigned-append n k 0 (length xs) xs rest (omega arith)) ∙ ap (assigned n k 0) e,
  )

  shard_stream_one :
      (n k : ℤ) (input : Stream A) (ts : List Turn)
      → leb_ℤ n (pos 1) ≡ true
      → shard_stream n k input ts ≡ input
  unfolding shard_stream
  shard_stream_one n k input ts one = rw one refl

  pub Prefix-trans : (xs ys zs : List A) → Prefix xs ys → Prefix ys zs → Prefix xs zs
  Prefix-trans xs ys zs (a, e) (b, f) = (a ++ b, sym (append_assoc xs a b) ∙ ap (λ l. l ++ b) e ∙ f)

  Prefix-refl : (xs : List A) → Prefix xs xs
  Prefix-refl xs = ([], append-nil xs)

  -- A shard of a prefix is a prefix of the shard, whatever the turns.
  shard_stream-Prefix :
      (f : Flags) (input : Stream A) (all : List A) (ts : List Turn)
      → Prefix input.items all
      → Prefix
          (shard_stream f.num_shards f.shard input ts).items
          (if leb_ℤ f.num_shards (pos 1) then all else assigned f.num_shards f.shard 0 all)
  shard_stream-Prefix f input all ts p = elim (Bool-cases (leb_ℤ f.num_shards (pos 1))) [
    | inl one ↦ rw (one, shard_stream_one _ f.shard input ts one) p
    | inr more ↦
        rw (more, shard_stream-relay f.num_shards f.shard input ts (ground arith))
          (Prefix-trans _ _ _
            (relay-Prefix (assigned f.num_shards f.shard 0 input.items) input.closed ts)
            (assigned-Prefix f.num_shards f.shard input.items all p))
  ]

-- Whatever the turns are, the pool is sent a prefix of the trimmed lines of its shard.
pub urls_of-Prefix :
    (trim_space : Text → Text) (f : Flags) (lines : List Text) (lines_turns shard_turns : List Turn)
    → Prefix
        (urls_of trim_space f (some lines) lines_turns shard_turns).items
        (shard_lines f (map trim_space lines))
unfolding urls_of
urls_of-Prefix trim_space f lines ts us =
    shard_stream-Prefix f (read_lines trim_space (some lines) ts) (map trim_space lines) us
      (rw (read_lines-from, from-relay) (relay-Prefix (map trim_space lines) true ts))

-- Without a cancellation the pool is sent all lines of its shard.
pub urls_of_uncancelled :
    (trim_space : Text → Text) (f : Flags) (lines : List Text) (lines_turns shard_turns : List Turn)
    → All IsAccept lines_turns
    → All IsAccept shard_turns
    → length lines ≤ length lines_turns
    → length lines ≤ length shard_turns
    → urls_of trim_space f (some lines) lines_turns shard_turns
      ≡ record { items = shard_lines f (map trim_space lines); closed = true }
unfolding urls_of
urls_of_uncancelled trim_space f lines ts us a b l m =
    let xs = map trim_space lines in
    let long = length-map lines trim_space in
    let read : read_lines trim_space (some lines) ts ≡ record { items = xs; closed = true } =
      read_lines-from trim_space lines ts
      ∙ from-relay xs ts
      ∙ relay_uncancelled xs true ts a (omega arith) in
    let short = length-assigned f.num_shards f.shard 0 xs in
    elim (Bool-cases (leb_ℤ f.num_shards (pos 1))) [
      | inl one ↦ rw (read, one, shard_stream_one _ f.shard _ us one) refl
      | inr more ↦
          rw (read, more, shard_stream-relay f.num_shards f.shard _ us (ground arith))
            (relay_uncancelled (assigned f.num_shards f.shard 0 xs) true us b (omega arith))
    ]
