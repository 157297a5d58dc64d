-- ===== src/Stream/Relay.antt =====
-- What a stage that sends a fixed list does: the specification of From, Shard and WithStats.
use gojob.Prelude.{
  ℕ, zero, suc, ◌<◌, ◌≤◌, All, ◌≡◌, refl, ap, Bool, true, List, [], ◌∷◌, ◌++◌, length, take,
  replicate, Prefix, arith,
}
use gojob.Stream.{Stream, Turn, accept, cancel, ended, blocked, send}

-- Send the items in order; at the end the output is closed if the input is.
unfoldable pub relay {ℓ} : {A : Type ℓ} → List A → Bool → List Turn → Stream A
relay [] closed ts = record { items = []; closed = closed }
relay (x ∷ xs) closed [] = blocked
relay (x ∷ xs) closed (accept ∷ ts) = send x (relay xs closed ts)
relay (x ∷ xs) closed (cancel ∷ ts) = ended

abbrev pub IsAccept : Turn → Type 0
IsAccept t = t ≡ accept

module _ {ℓ} {A : Type ℓ} where
  -- Whatever the turns, the output is a prefix of the items.
  pub relay-Prefix :
      (xs : List A) (closed : Bool) (ts : List Turn) → Prefix (relay xs closed ts).items xs
  unfolding relay
  relay-Prefix [] closed ts = ([], refl)
  relay-Prefix (x ∷ xs) closed [] = (x ∷ xs, refl)
  relay-Prefix (x ∷ xs) closed (accept ∷ ts) =
      let (rest, e) = relay-Prefix xs closed ts in (rest, ap (λ l. x ∷ l) e)
  relay-Prefix (x ∷ xs) closed (cancel ∷ ts) = (x ∷ xs, refl)

  -- No cancellation, and a consumer that takes enough: every item arrives.
  pub relay_uncancelled :
      (xs : List A) (closed : Bool) (ts : List Turn)
      → All IsAccept ts
      → length xs ≤ length ts
      → relay xs closed ts ≡ record { items = xs; closed = closed }
  unfolding relay
  relay_uncancelled [] closed ts h k = refl
  relay_uncancelled (x ∷ xs) closed [] h k = absurd (omega arith)
  relay_uncancelled (x ∷ xs) closed (accept ∷ ts) h k =
      ap (send x) (relay_uncancelled xs closed ts h.1 (omega arith))
  relay_uncancelled (x ∷ xs) closed (cancel ∷ ts) h k = cc h.0

  -- A cancellation after `k` items: these have arrived, and the output is closed.
  pub relay_cancelled :
      (k : ℕ) (xs : List A) (closed : Bool) (ts : List Turn)
      → k < length xs
      → relay xs closed (replicate k accept ++ cancel ∷ ts)
        ≡ record { items = take k xs; closed = true }
  unfolding relay
  relay_cancelled k [] closed ts h = absurd (omega arith)
  relay_cancelled zero (x ∷ xs) closed ts h = refl
  relay_cancelled (suc k) (x ∷ xs) closed ts h =
      ap (send x) (relay_cancelled k xs closed ts (omega arith))
