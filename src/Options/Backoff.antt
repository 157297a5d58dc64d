-- ===== src/Options/Backoff.antt =====
-- The delays of ExpBackoff on 64-bit durations (options.go).
use Prim.Native.Nat.{min}
use Prim.Native.Nat.add
use native.Mathlib.Nat.{
  mod-eq_of_lt, add-mul-mod_self_right, mul-lt-mul_of_pos_right, pow-suc, one-le-pow,
  pow-le-pow_right, lt_of_mul-lt-mul_left,
}
use native.Mathlib.Decide.{dec_lt}
use gojob.Prelude.{
  ℕ, zero, suc, ◌+◌, ◌-◌, ◌*◌, ◌%◌, ◌/◌, ◌^◌, ◌≤◌, ◌<◌, ◌≡◌, ap, ◌∙◌, ℤ, pos, ◌-ℤ◌, ◌≤ℤ◌, ◌<ℤ◌,
  arith, inl, inr, ◌⊎◌,
}
use gojob.Options.{Duration, shift_left, exp_backoff, to_bits, two64, two63}

-- No delay passes the cap, whatever the shift does to the bits, and a positive cap gives a positive delay.
pub exp_backoff_bounds :
    (base max : Duration) (attempt : ℤ)
    → pos 0 <ℤ max
    → (pos 0 <ℤ exp_backoff base max attempt) × (exp_backoff base max attempt ≤ℤ max)
unfolding exp_backoff
exp_backoff_bounds base max attempt h = ground arith

pow-add : (a b : ℕ) → 2 ^ (a + b) ≡ 2 ^ a * 2 ^ b
pow-add zero b = rw (add.zero b) (omega arith)
pow-add (suc a) b = rw (add.suc a b, pow-suc, pow-suc, pow-add a b) (grind arith)

mod_scaled : (t q p r : ℕ) → 0 < p → t < r → ((t + q * r) * p) % (r * p) ≡ t * p
mod_scaled t q p r hp ht =
    let regroup : (t + q * r) * p ≡ t * p + q * (r * p) = omega arith in
    rw (regroup, add-mul-mod_self_right) (mod-eq_of_lt (mul-lt-mul_of_pos_right ht hp))

mul-mod-mul : (b p r : ℕ) → 0 < p → 0 < r → (b * p) % (r * p) ≡ (b % r) * p
mul-mod-mul b p r hp hr =
    let split : b ≡ b % r + b / r * r = grind arith in
    ap (λ (n : ℕ). n * p % (r * p)) split ∙ mod_scaled (b % r) (b / r) p r hp (omega arith)

-- What is left of the bits is a multiple of the power of two.
shifted : (b k : ℕ) → k < 64 → (b * 2 ^ k) % two64 ≡ (b % 2 ^ (64 - k)) * 2 ^ k
shifted b k h =
    let whole : 64 - k + k ≡ 64 = omega arith in
    let word : two64 ≡ 2 ^ (64 - k) * 2 ^ k = rw (← pow-add (64 - k) k, whole) in
    rw word (
      mul-mod-mul b (2 ^ k) (2 ^ (64 - k)) (one-le-pow k 2 (omega arith))
        (one-le-pow (64 - k) 2 (omega arith)))

-- A cap that times the base stays in the word is below any power of two that leaves it.
cap_below : (base limit p : ℕ) → base * limit < two63 → two63 ≤ base * p → limit < p
cap_below base limit p h k = lt_of_mul-lt-mul_left base (omega arith)

scaled_cases : (c p : ℕ) → (c * p ≡ 0) ⊎ (p ≤ c * p)
scaled_cases zero p = inl (omega arith)
scaled_cases (suc c) p = inr (omega arith)

scaled-ge : (base k : ℕ) → base ≤ base * 2 ^ k
scaled-ge base k = grind (arith, one-le-pow k 2)

le-scaled : (p base : ℕ) → 0 < base → p ≤ base * p
le-scaled p base h = grind arith

cap_small : (base limit : ℕ) → 0 < base → base * limit < two63 → limit < two63
cap_small base limit h hc = omega (arith, le-scaled limit base h)

shift_fits :
    (base k : ℕ) → k < 64 → base * 2 ^ k < two63 → shift_left (pos base) k ≡ pos (base * 2 ^ k)
unfolding shift_left
shift_fits base k h fits =
    let grows = scaled-ge base k in
    let bits : base % two64 ≡ base = omega arith in rw bits (ground arith)

shift_leaves :
    (base limit k : ℕ)
    → base < two63
    → base * limit < two63
    → k < 64
    → two63 ≤ base * 2 ^ k
    → (shift_left (pos base) k ≤ℤ pos 0) ⊎ (pos limit <ℤ shift_left (pos base) k)
unfolding shift_left
shift_leaves base limit k hb hc h out =
    let bits : base % two64 ≡ base = omega arith in
    let below = cap_below base limit (2 ^ k) hc out in
    rw bits (rw (shifted base k h) (ground (arith, scaled_cases (base % 2 ^ (64 - k)) (2 ^ k))))

shift_far : (x : ℤ) (k : ℕ) → 64 ≤ k → shift_left x k ≡ pos 0
unfolding shift_left
shift_far x k h = ground arith

far_power : (k : ℕ) → 64 ≤ k → two64 ≤ 2 ^ k
far_power k h = pow-le-pow_right (omega arith) h

capped :
    (base limit k : ℕ)
    → 0 < base
    → base * limit < two63
    → base < two63
    → (base * 2 ^ k < two63) × (k < 64) × (shift_left (pos base) k ≡ pos (base * 2 ^ k))
      ⊎ (limit ≤ base * 2 ^ k)
        × ((shift_left (pos base) k ≤ℤ pos 0) ⊎ (pos limit <ℤ shift_left (pos base) k))
capped base limit k hb hc hw = elim (dec_lt k 64) [
  | yes near ↦ elim (dec_lt (base * 2 ^ k) two63) [
    | yes fits ↦ inl (fits, near, shift_fits base k near fits)
    | no out ↦ inr (
      omega (arith, cap_below base limit (2 ^ k) hc (omega arith), le-scaled (2 ^ k) base hb),
      shift_leaves base limit k hw hc near (omega arith),
    )
  ]
  | no far ↦ inr (
    omega (arith, far_power k (omega arith), le-scaled (2 ^ k) base hb, cap_small base limit hb hc),
    inl (rw (shift_far (pos base) k (omega arith)) (omega arith)),
  )
]

-- With a positive base, and a cap that times the base stays within int64, the delay before retry
-- k + 1 is exactly base * 2^k cut off at the cap: at no attempt does a bit that leaves the word show.
pub exp_backoff_exact :
    (base limit k : ℕ)
    → 0 < base
    → base * limit < two63
    → base < two63
    → suc k < two63
    → exp_backoff (pos base) (pos limit) (pos (suc k)) ≡ pos (min (base * 2 ^ k) limit)
unfolding exp_backoff
exp_backoff_exact base limit k hb hc hw hk =
    let count : to_bits (pos (suc k) -ℤ pos 1) ≡ k = unfold to_bits ◌-ℤ◌ in ground arith in
    rw count (ground (arith, capped base limit k hb hc hw, scaled-ge base k))
