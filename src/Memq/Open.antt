-- ===== src/Memq/Open.antt =====
-- Which deliveries of a memq queue are not finalized (queue/memq/memq.go).
use gojob.Prelude.{
  ℕ, zero, suc, ◌+◌, ◌≤◌, ◌≡◌, refl, true, false, some, List, [], ◌∷◌, ◌++◌, length, one_if,
  Bool-cases, inl, inr, if◌then◌else◌, arith,
}
use gojob.Memq.{Item}
use gojob.Memq.Places.{open_items}
use gojob.Memq.System.{Handle, get_handle, fire}

module _ {ℓ} {T : Type ℓ} where
  -- One where the delivery of this number is not finalized.
  abbrev pub open_at : List (Handle T) → ℕ → ℕ
  open_at [] i = 0
  open_at (h ∷ hs) zero = if h.fired then 0 else 1
  open_at (h ∷ hs) (suc i) = open_at hs i

  pub open_at-append :
      (hs : List (Handle T)) (h : Handle T) (i : ℕ)
      → h.fired ≡ false
      → open_at (hs ++ h ∷ []) i ≡ open_at hs i + one_if (length hs) i
  open_at-append [] h zero f = ground arith
  open_at-append [] h (suc i) f = ground arith
  open_at-append (k ∷ hs) h zero f = ground arith
  open_at-append (k ∷ hs) h (suc i) f = ground (arith, open_at-append hs h i f)

  pub open_at-fire :
      (hs : List (Handle T)) (i j : ℕ)
      → 1 ≤ open_at hs i
      → open_at (fire hs i) j + one_if i j ≡ open_at hs j
  open_at-fire [] i j h = absurd (omega arith)
  open_at-fire (k ∷ hs) zero zero h = ground arith
  open_at-fire (k ∷ hs) zero (suc j) h = ground arith
  open_at-fire (k ∷ hs) (suc i) zero h = ground arith
  open_at-fire (k ∷ hs) (suc i) (suc j) h = ground (arith, open_at-fire hs i j h)

  get_handle-append :
      (hs ks : List (Handle T)) (i : ℕ) {h : Handle T}
      → get_handle hs i ≡ some h
      → get_handle (hs ++ ks) i ≡ some h
  get_handle-append [] ks i e = cc
  get_handle-append (k ∷ hs) ks zero e = e
  get_handle-append (k ∷ hs) ks (suc i) e = get_handle-append hs ks i e

  get_handle-last :
      (hs : List (Handle T)) (h : Handle T) → get_handle (hs ++ h ∷ []) (length hs) ≡ some h
  get_handle-last [] h = refl
  get_handle-last (k ∷ hs) h = get_handle-last hs h

  -- The delivery of this number is of this item.
  abbrev pub Names : List (Handle T) → ℕ → Item T → Type ℓ
  Names hs i it = (h : Handle T) × (get_handle hs i ≡ some h) × (h.item ≡ it)

  pub Names-append :
      (hs ks : List (Handle T)) (i : ℕ) (it : Item T) → Names hs i it → Names (hs ++ ks) i it
  Names-append hs ks i it (h, e, same) = (h, get_handle-append hs ks i e, same)

  pub Names-last : (hs : List (Handle T)) (h : Handle T) → Names (hs ++ h ∷ []) (length hs) h.item
  Names-last hs h = (h, get_handle-last hs h, refl)

  pub Names-fire :
      (hs : List (Handle T)) (i j : ℕ) (it : Item T) → Names hs j it → Names (fire hs i) j it
  Names-fire [] i j it (h, e, same) = cc
  Names-fire (k ∷ hs) zero zero it (h, e, same) =
      let first : k ≡ h = cc in (record k { fired = true }, refl, rw first same)
  Names-fire (k ∷ hs) zero (suc j) it n = n
  Names-fire (k ∷ hs) (suc i) zero it n = n
  Names-fire (k ∷ hs) (suc i) (suc j) it n = Names-fire hs i j it n

  -- An open delivery.
  pub open_at-some :
      (hs : List (Handle T)) (i : ℕ) {h : Handle T}
      → get_handle hs i ≡ some h
      → 1 ≤ open_at hs i
      → h.fired ≡ false
  open_at-some [] i e o = cc
  open_at-some (k ∷ hs) zero {h} e o = let same : k ≡ h = cc in ground arith
  open_at-some (k ∷ hs) (suc i) e o = open_at-some hs i e o

  -- Where no delivery is open.
  pub open_items-none :
      (hs : List (Handle T)) → ((i : ℕ) → open_at hs i ≡ 0) → length (open_items hs) ≡ 0
  unfolding open_items
  open_items-none [] none_open = refl
  open_items-none (h ∷ hs) none_open =
      let rest = open_items-none hs (λ i. none_open (suc i)) in
      elim (Bool-cases h.fired) [
        | inl used ↦ rw used rest
        | inr fresh ↦ let first = none_open 0 in ground arith
      ]
