-- ===== src/Prelude/Lists.antt =====
-- Lists measured by native numbers, under the library's names.
use Prim.Native.Nat.{ℕ, zero, suc, ◌+◌}
use mathlib.Core.Path.{◌≡◌, refl, ap}
use mathlib.Core.List.{List, [], ◌∷◌, ◌++◌, map}
use native.Mathlib.Omega.{arith}

module _ {ℓ} {A : Type ℓ} where
  abbrev pub length : List A → ℕ
  length [] = 0
  length (x ∷ xs) = suc (length xs)

  abbrev pub take : ℕ → List A → List A
  take zero xs = []
  take (suc n) [] = []
  take (suc n) (x ∷ xs) = x ∷ take n xs

  abbrev pub replicate : ℕ → A → List A
  replicate zero a = []
  replicate (suc n) a = a ∷ replicate n a

  pub length-append : (xs ys : List A) → length (xs ++ ys) ≡ length xs + length ys
  length-append [] ys = omega arith
  length-append (x ∷ xs) ys = omega (arith, length-append xs ys)

module _ {ℓ} {A : Type ℓ} where
  pub length-map {κ} : {B : Type κ} (xs : List A) (f : A → B) → length (map f xs) ≡ length xs
  length-map [] f = refl
  length-map (x ∷ xs) f = ap suc (length-map xs f)

  pub length-replicate : (n : ℕ) (a : A) → length (replicate n a) ≡ n
  length-replicate zero a = refl
  length-replicate (suc n) a = ap suc (length-replicate n a)

  -- A list is a prefix of another, with the rest kept.
  abbrev pub Prefix : List A → List A → Type ℓ
  Prefix xs ys = (rest : List A) × (xs ++ rest ≡ ys)

  abbrev pub All {κ} : (A → Type κ) → List A → Type κ
  All P [] = Unit
  All P (x ∷ xs) = P x × All P xs

  pub All-append {κ} : (P : A → Type κ) (xs ys : List A) → All P xs → All P ys → All P (xs ++ ys)
  All-append P [] ys hx hy = hy
  All-append P (x ∷ xs) ys hx hy = (hx.0, All-append P xs ys hx.1 hy)

  pub All-split {κ} : (P : A → Type κ) (xs ys : List A) → All P (xs ++ ys) → All P xs × All P ys
  All-split P [] ys h = (tt, h)
  All-split P (x ∷ xs) ys h = let (hx, hy) = All-split P xs ys h.1 in ((h.0, hx), hy)

  pub All-replicate {κ} : (P : A → Type κ) (n : ℕ) (a : A) → P a → All P (replicate n a)
  All-replicate P zero a h = tt
  All-replicate P (suc n) a h = (h, All-replicate P n a h)

  -- The element in the middle of a list, and another in its place.
  pub All-middle {κ} : (P : A → Type κ) (pre post : List A) {x : A} → All P (pre ++ x ∷ post) → P x
  All-middle P pre post h = (All-split P pre _ h).1.0

  pub All-swap {κ} :
      (P : A → Type κ) (pre post : List A) (x y : A)
      → All P (pre ++ x ∷ post)
      → P y
      → All P (pre ++ y ∷ post)
  All-swap P pre post x y h hy =
      let (before, after) = All-split P pre _ h in All-append P pre (y ∷ post) before (hy, after.1)

  pub All-map_to {κ ν} :
      (P : A → Type κ) (R : A → Type ν) (xs : List A) → ((x : A) → P x → R x) → All P xs → All R xs
  All-map_to P R [] f h = tt
  All-map_to P R (x ∷ xs) f h = (f x h.0, All-map_to P R xs f h.1)

  pub length-swap :
      (before behind : List A) (x y : A)
      → length (before ++ y ∷ behind) ≡ length (before ++ x ∷ behind)
  length-swap before behind x y =
      omega (arith, length-append before (y ∷ behind), length-append before (x ∷ behind))

module _ {ℓ} {A : Type ℓ} where
  abbrev pub sum_of : (A → ℕ) → List A → ℕ
  sum_of f [] = 0
  sum_of f (x ∷ xs) = f x + sum_of f xs

  pub sum_of-middle :
      (f : A → ℕ) (pre post : List A) (x : A)
      → sum_of f (pre ++ x ∷ post) ≡ f x + sum_of f (pre ++ post)
  sum_of-middle f [] post x = refl
  sum_of-middle f (y ∷ pre) post x = omega (arith, sum_of-middle f pre post x)

  -- The sum of a list with one element replaced.
  pub sum_of-swap :
      (f : A → ℕ) (xs pre post : List A) (x y : A)
      → xs ≡ pre ++ x ∷ post
      → sum_of f (pre ++ y ∷ post) + f x ≡ sum_of f xs + f y
  sum_of-swap f xs pre post x y e =
      let own = ap (sum_of f) e in
      omega (arith, own, sum_of-middle f pre post x, sum_of-middle f pre post y)
