-- ===== src/Redisq/Counts.antt =====
-- How often an id occurs in a list, in the leases and among the open handles
-- (queue/redisq/redisq.go).
use gojob.Prelude.{
  ℕ, zero, suc, ◌+◌, ◌-◌, ◌==◌, ◌≤◌, ◌≡◌, refl, ap, ◌∙◌, true, false, some, none, List, [], ◌∷◌,
  ◌++◌, if◌then◌else◌, ℤ, arith, Option-cases, inl, inr,
}
pub use gojob.Prelude.{one_if}
use gojob.Redisq.Redis.{remove_first, pop_right, zrem_from, insert_scored, up_to}
use gojob.Redisq.System.{Handle, get_handle, set_handle, settle_id}

abbrev pub count : ℕ → List ℕ → ℕ
count i [] = 0
count i (x ∷ xs) = one_if x i + count i xs

abbrev pub lease_count : ℕ → List (ℕ × ℤ) → ℕ
lease_count i [] = 0
lease_count i ((x, score) ∷ xs) = one_if x i + lease_count i xs

abbrev pub open_count : ℕ → List Handle → ℕ
open_count i [] = 0
open_count i (h ∷ hs) = (elim h.settled [ true ↦ 0 | false ↦ one_if h.id i ]) + open_count i hs

pub count-append : (i : ℕ) (xs ys : List ℕ) → count i (xs ++ ys) ≡ count i xs + count i ys
count-append i [] ys = omega arith
count-append i (x ∷ xs) ys = omega (arith, count-append i xs ys)

-- The first occurrence is taken out, if there is one.
pub count-remove_first :
    (i x : ℕ) (xs : List ℕ) → count i (remove_first x xs) ≡ count i xs - one_if x i
count-remove_first i x [] = ground arith
count-remove_first i x (y ∷ ys) = ground (arith, count-remove_first i x ys)

pop_right-none : (xs : List ℕ) → pop_right xs ≡ none → xs ≡ []
pop_right-none [] e = refl
pop_right-none (x ∷ xs) e = ground arith

pub count-pop_right :
    (i : ℕ) (xs : List ℕ) {ys : List ℕ} {y : ℕ}
    → pop_right xs ≡ some (ys, y)
    → count i xs ≡ count i ys + one_if y i
count-pop_right i [] e = cc
count-pop_right i (x ∷ xs) e = elim (Option-cases (pop_right xs)) [
  | inl none_left ↦ ground (arith, none_left, pop_right-none xs none_left)
  | inr ((zs, z), found) ↦ ground (arith, found, count-pop_right i xs found)
]

pub lease_count-zrem_from :
    (i x : ℕ) (xs : List (ℕ × ℤ))
    → lease_count i (zrem_from x xs) ≡ (if x == i then 0 else lease_count i xs)
lease_count-zrem_from i x [] = ground arith
lease_count-zrem_from i x ((y, score) ∷ ys) = ground (arith, lease_count-zrem_from i x ys)

pub lease_count-insert_scored :
    (i x : ℕ) (score : ℤ) (xs : List (ℕ × ℤ))
    → lease_count i (insert_scored x score xs) ≡ one_if x i + lease_count i xs
lease_count-insert_scored i x score [] = refl
lease_count-insert_scored i x score ((y, t) ∷ ys) =
    ground (arith, lease_count-insert_scored i x score ys)

pub count-up_to : (i : ℕ) (max : ℤ) (xs : List (ℕ × ℤ)) → count i (up_to max xs) ≤ lease_count i xs
count-up_to i max [] = omega arith
count-up_to i max ((x, score) ∷ xs) = ground (arith, count-up_to i max xs)

pub open_count-settle_id :
    (i x : ℕ) (hs : List Handle)
    → open_count i (settle_id x hs) ≡ (if x == i then 0 else open_count i hs)
open_count-settle_id i x [] = ground arith
open_count-settle_id i x (h ∷ hs) = ground (arith, open_count-settle_id i x hs)

pub open_count-settle :
    (i k : ℕ) (hs : List Handle) {h : Handle}
    → get_handle hs k ≡ some h
    → h.settled ≡ false
    → open_count i hs
      ≡ open_count i (set_handle hs k (record h { fired = true; settled = true })) + one_if h.id i
open_count-settle i k [] e u = cc
open_count-settle i zero (k ∷ hs) {h} e u =
    let same : k ≡ h = cc in
    let ids : k.id ≡ h.id = ap (λ x. x.id) same in
    let states : k.settled ≡ false = ap (λ x. x.settled) same ∙ u in rw (states, ids) (omega arith)
open_count-settle i (suc k) (h ∷ hs) e u = omega (arith, open_count-settle i k hs e u)

pub open_count-fire :
    (i k : ℕ) (hs : List Handle) {h : Handle}
    → get_handle hs k ≡ some h
    → open_count i (set_handle hs k (record h { fired = true })) ≡ open_count i hs
open_count-fire i k [] e = cc
open_count-fire i zero (k ∷ hs) {h} e =
    let same : h ≡ k = cc in ap (λ x. open_count i (x ∷ hs)) same
open_count-fire i (suc k) (h ∷ hs) e = omega (arith, open_count-fire i k hs e)
