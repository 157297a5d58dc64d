-- ===== src/Shard/Partition.antt =====
-- The shards of a stream split it (shard.go).
use mathlib.Core.List.{Perm, perm_middle}
use mathlib.Core.List.Perm
use native.Mathlib.Decide.{dec_lt}
use gojob.Prelude.{
  ℕ, zero, suc, ◌%◌, ◌≤◌, ◌<◌, ◌≡◌, refl, ap, Bool, true, false, List, [], ◌∷◌, ◌++◌, All, length,
  ℤ, pos, ◌<ℤ◌, if◌then◌else◌, arith,
}
use gojob.Stream.{Stream, Turn, accept, cancel}
use gojob.Stream.Relay.{relay, relay_uncancelled, IsAccept}
use gojob.Shard.{is_mine, shard_loop, shard_stream}

-- The items at the positions of one shard.
unfoldable pub assigned {ℓ} : {A : Type ℓ} → ℤ → ℤ → ℕ → List A → List A
assigned n k i [] = []
assigned n k i (v ∷ vs) =
    if is_mine n k i then v ∷ assigned n k (suc i) vs else assigned n k (suc i) vs

module _ {ℓ} {A : Type ℓ} where
  shard_loop-relay :
      (n k : ℤ) (i : ℕ) (vs : List A) (closed : Bool) (ts : List Turn)
      → shard_loop n k i vs closed ts ≡ relay (assigned n k i vs) closed ts
  unfolding shard_loop assigned relay
  shard_loop-relay n k i [] closed ts = refl
  shard_loop-relay n k i (v ∷ vs) closed [] =
      ground (arith, shard_loop-relay n k (suc i) vs closed [])
  shard_loop-relay n k i (v ∷ vs) closed (accept ∷ ts) = ground (
    arith,
    shard_loop-relay n k (suc i) vs closed ts,
    shard_loop-relay n k (suc i) vs closed (accept ∷ ts),
  )
  shard_loop-relay n k i (v ∷ vs) closed (cancel ∷ ts) =
      ground (arith, shard_loop-relay n k (suc i) vs closed (cancel ∷ ts))

  -- With more than one shard, a shard sends the items at its positions, in order, and nothing else.
  pub shard_stream-relay :
      (n k : ℤ) (input : Stream A) (ts : List Turn)
      → pos 1 <ℤ n
      → shard_stream n k input ts ≡ relay (assigned n k 0 input.items) input.closed ts
  unfolding shard_stream
  shard_stream-relay n k input ts h =
      ground (arith, shard_loop-relay n k 0 input.items input.closed ts)

  pub length-assigned : (n k : ℤ) (i : ℕ) (vs : List A) → length (assigned n k i vs) ≤ length vs
  unfolding assigned
  length-assigned n k i [] = omega arith
  length-assigned n k i (v ∷ vs) = ground (arith, length-assigned n k (suc i) vs)

  -- What the shards below `k` send, one after the other.
  pub gathered : ℕ → ℕ → Stream A → List Turn → List A
  gathered n zero input ts = []
  gathered n (suc k) input ts =
      (shard_stream (pos n) (pos k) input ts).items ++ gathered n k input ts

  unfoldable pub assigned_below : ℕ → ℕ → ℕ → List A → List A
  assigned_below n zero i vs = []
  assigned_below n (suc k) i vs = assigned (pos n) (pos k) i vs ++ assigned_below n k i vs

  gathered-assigned :
      (n k : ℕ) (input : Stream A) (ts : List Turn)
      → 1 < n
      → All IsAccept ts
      → length input.items ≤ length ts
      → gathered n k input ts ≡ assigned_below n k 0 input.items
  unfolding gathered assigned_below
  gathered-assigned n zero input ts h a l = refl
  gathered-assigned n (suc k) input ts h a l =
      rw (shard_stream-relay (pos n) (pos k) input ts (omega arith)) (
        rw
          (relay_uncancelled (assigned (pos n) (pos k) 0 input.items) input.closed ts a
            (omega (arith, length-assigned (pos n) (pos k) 0 input.items)))
          (ap (λ l. assigned (pos n) (pos k) 0 input.items ++ l)
            (gathered-assigned n k input ts h a l)))

  assigned-cons :
      (n k i : ℕ) (v : A) (vs : List A)
      → assigned (pos n) (pos k) i (v ∷ vs) ≡ (
          if is_mine (pos n) (pos k) i
          then v ∷ assigned (pos n) (pos k) (suc i) vs
          else assigned (pos n) (pos k) (suc i) vs)
  unfolding assigned
  assigned-cons n k i v vs = refl

  -- A shard number that is not the item's own does not get it.
  below_other :
      (n k i : ℕ) (v : A) (vs : List A)
      → k ≤ i % n
      → assigned_below n k i (v ∷ vs) ≡ assigned_below n k (suc i) vs
  unfolding assigned_below
  below_other n zero i v vs h = refl
  below_other n (suc k) i v vs h =
      let other : is_mine (pos n) (pos k) i ≡ false = unfold is_mine in ground arith in
      rw (assigned-cons, other)
        (ap (λ l. assigned (pos n) (pos k) (suc i) vs ++ l) (below_other n k i v vs (omega arith)))

  -- Exactly one of the shards gets the next item.
  below_own :
      (n k i : ℕ) (v : A) (vs : List A)
      → i % n < k
      → Perm (assigned_below n k i (v ∷ vs)) (v ∷ assigned_below n k (suc i) vs)
  unfolding assigned_below
  below_own n zero i v vs h = absurd (omega arith)
  below_own n (suc k) i v vs h = elim (dec_lt (i % n) k) [
    | yes lower ↦
        let other : is_mine (pos n) (pos k) i ≡ false = unfold is_mine in ground arith in
        rw (assigned-cons, other)
          (Perm.trans (Perm.append_left _ (below_own n k i v vs lower)) (perm_middle _ _))
    | no same ↦
        let own : is_mine (pos n) (pos k) i ≡ true = unfold is_mine in ground arith in
        rw (assigned-cons, own, below_other n k i v vs (omega arith)) (Perm.refl _)
  ]

  below-nil : (n k i : ℕ) → assigned_below n k i [] ≡ []
  unfolding assigned_below assigned
  below-nil n zero i = refl
  below-nil n (suc k) i = below-nil n k i

  pub assigned_below-Perm : (n i : ℕ) (vs : List A) → 0 < n → Perm (assigned_below n n i vs) vs
  assigned_below-Perm n i [] h = rw (below-nil n n i) (Perm.refl [])
  assigned_below-Perm n i (v ∷ vs) h =
      Perm.trans (below_own n n i v vs (omega arith))
        (Perm.cons v (assigned_below-Perm n (suc i) vs h))

  -- Run with the same input and more than one shard, and drained without a cancellation, the shards
  -- 0 to n - 1 together send every item of the input, as often as it occurs, and nothing else.
  pub shards-Perm :
      (n : ℕ) (input : Stream A) (ts : List Turn)
      → 1 < n
      → All IsAccept ts
      → length input.items ≤ length ts
      → Perm (gathered n n input ts) input.items
  shards-Perm n input ts h a l =
      rw (gathered-assigned n n input ts h a l) (assigned_below-Perm n 0 input.items (omega arith))
