-- ===== src/Shard.antt =====
-- shard.go: Shard. The counter `i` counts items, and is left unbounded.
pub mod Partition
use gojob.Prelude.{
  ℕ, suc, ◌%◌, Bool, true, false, List, [], ◌∷◌, if◌then◌else◌, ℤ, pos, pos_part, eqb_ℤ, leb_ℤ,
}
use gojob.Stream.{Stream, Turn, accept, cancel, ended, blocked, send}

-- `i%numShards == shard`, for numShards above 1.
unfoldable pub is_mine : ℤ → ℤ → ℕ → Bool
is_mine num_shards shard i = eqb_ℤ (pos (i % pos_part num_shards)) shard

module _ {ℓ} {A : Type ℓ} (num_shards shard : ℤ) where
  unfoldable pub shard_loop : ℕ → List A → Bool → List Turn → Stream A
  shard_loop i [] closed ts = record { items = []; closed = closed }
  shard_loop i (v ∷ vs) closed ts = elim (is_mine num_shards shard i) [
    | true ↦ elim ts [
      | [] ↦ blocked
      | turn ∷ rest ↦ elim turn [
        | accept ↦ send v (shard_loop (suc i) vs closed rest)
        | cancel ↦ ended
      ]
    ]
    | false ↦ shard_loop (suc i) vs closed ts
  ]

  -- With one shard or less, the input channel itself is returned.
  unfoldable pub shard_stream : Stream A → List Turn → Stream A
  unfolding is_mine shard_loop
  shard_stream input ts =
      let picked = shard_loop 0 input.items input.closed ts in
      if leb_ℤ num_shards (pos 1) then input else picked
