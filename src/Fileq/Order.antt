-- ===== src/Fileq/Order.antt =====
-- The order in which a file queue reads its names (queue/fileq/fileq.go): newSeq and sort.Strings.
use native.Mathlib.Nat.{pow-suc, mul-le-mul_right}
use gojob.Prelude.{
  ℕ, zero, suc, ◌+◌, ◌-◌, ◌*◌, ◌/◌, ◌%◌, ◌^◌, ◌<◌, ◌≤◌, ltb, ◌≡◌, refl, sym, ap, ◌∙◌, true, [], ◌∷◌,
  ◌++◌, append_assoc, ℤ, pos, length, length-append, length-replicate, replicate, All, All-append,
  arith, Bool-cases, inl, inr, ◌⊎◌,
}
use gojob.Fileq.{entry_name, suffix, ltb_text, zero_pad, format_padded, new_seq}
use gojob.Fileq.Decimal.{Text, IsDigit, digits, digits-All, format_nat, format_int}

-- The number that a text of digits spells.
abbrev weight : Text → ℕ
weight [] = 0
weight (c ∷ s) = (c - b'0') * 10 ^ length s + weight s

scaled : (a b p : ℕ) → a ≤ b → a * p ≤ b * p
scaled a b p h = mul-le-mul_right p h

regroup : (q r p : ℕ) → q * (p * 10) + r * p ≡ (q * 10 + r) * p
regroup q r p = omega arith

-- The number before its last digit, and that digit.
joined : (n p : ℕ) → n / 10 * (p * 10) + (b'0' + n % 10 - b'0') * p ≡ n * p
joined n p =
    let last : b'0' + n % 10 - b'0' ≡ n % 10 = omega arith in
    let whole : n / 10 * 10 + n % 10 ≡ n = omega arith in
    rw last (regroup (n / 10) (n % 10) p ∙ ap (λ k. k * p) whole)

weight_bound : (s : Text) → All IsDigit s → weight s < 10 ^ length s
weight_bound [] h = omega arith
weight_bound (c ∷ s) (d, h) =
    rw pow-suc (grind (arith, weight_bound s h, scaled (c - b'0') 9 (10 ^ length s) (omega arith)))

leading_digit : (c d p u v : ℕ) → c * p + u < d * p + v → v < p → c ≤ d
leading_digit c d p u v h b = elim (Bool-cases (ltb d c)) [
  | inl above ↦
      let more : suc d ≤ c = ground arith in absurd (omega (arith, scaled (suc d) c p more))
  | inr not_above ↦ ground arith
]

ltb_text-weight :
    (s t : Text)
    → All IsDigit s
    → All IsDigit t
    → length s ≡ length t
    → weight s < weight t
    → ltb_text s t ≡ true
unfolding ltb_text
ltb_text-weight [] [] hs ht l w = absurd (omega arith)
ltb_text-weight [] (d ∷ t) hs ht l w = refl
ltb_text-weight (c ∷ s) [] hs ht l w = absurd (omega arith)
ltb_text-weight (c ∷ s) (d ∷ t) (hc, hs) (hd, ht) l w =
    let same_length : length s ≡ length t = omega (arith, l) in
    let w' : (c - b'0') * 10 ^ length t + weight s < (d - b'0') * 10 ^ length t + weight t =
      rw same_length at w in
    let bound = weight_bound t ht in
    let ih = ltb_text-weight s t hs ht same_length in
    elim (Bool-cases (ltb c d)) [
      | inl below ↦ ground arith
      | inr not_below ↦
          let le =
            leading_digit (c - b'0') (d - b'0') (10 ^ length t) (weight s) (weight t) w' bound in
          let same : c ≡ d = ground arith in
          let aligned : (d - b'0') * 10 ^ length t + weight s
              < (d - b'0') * 10 ^ length t + weight t =
            rw same at w' in
          let rest : weight s < weight t = omega arith in ground (arith, ih rest)
    ]

weight-digits :
    (fuel n : ℕ) (out : Text)
    → n < fuel
    → weight (digits fuel n out) ≡ n * 10 ^ length out + weight out
unfolding digits
weight-digits zero n out h = absurd (omega arith)
weight-digits (suc fuel) n out h = elim (Bool-cases (ltb n 10)) [
  | inl small ↦ let same : b'0' + n % 10 - b'0' ≡ n = ground arith in rw (small, digits, same) refl
  | inr big ↦
      let enough : n / 10 < fuel = ground arith in
      rw (big, digits, weight-digits fuel (n / 10) ((b'0' + n % 10) ∷ out) enough, pow-suc)
        (omega (arith, joined n (10 ^ length out)))
]

length-digits :
    (fuel n k : ℕ) (out : Text)
    → n < fuel
    → n < 10 ^ suc k
    → length (digits fuel n out) ≤ suc k + length out
unfolding digits
length-digits zero n k out h b = absurd (omega arith)
length-digits (suc fuel) n zero out h b = ground arith
length-digits (suc fuel) n (suc k) out h b = elim (Bool-cases (ltb n 10)) [
  | inl small ↦ rw (small, digits) (omega arith)
  | inr big ↦
      let enough : n / 10 < fuel = ground arith in
      let power : 10 ^ suc (suc k) ≡ 10 ^ suc k * 10 = pow-suc _ _ in
      let b' : n / 10 < 10 ^ suc k = omega (arith, power) in
      rw (big, digits)
        (omega (arith, length-digits fuel (n / 10) k ((b'0' + n % 10) ∷ out) enough b'))
]

weight-zeros : (k : ℕ) (s : Text) → weight (replicate k b'0' ++ s) ≡ weight s
weight-zeros zero s = refl
weight-zeros (suc k) s = omega (arith, weight-zeros k s)

zeros-All : (k : ℕ) → All IsDigit (replicate k b'0')
zeros-All zero = tt
zeros-All (suc k) = ((omega arith, omega arith), zeros-All k)

ltb_text-prefix : (p s t : Text) → ltb_text (p ++ s) (p ++ t) ≡ ltb_text s t
unfolding ltb_text
ltb_text-prefix [] s t = refl
ltb_text-prefix (c ∷ p) s t = ground (arith, ltb_text-prefix p s t)

ltb_text-append :
    (s t x y : Text) → length s ≡ length t → ltb_text s t ≡ true → ltb_text (s ++ x) (t ++ y) ≡ true
unfolding ltb_text
ltb_text-append [] [] x y l h = cc
ltb_text-append [] (d ∷ t) x y l h = absurd (omega arith)
ltb_text-append (c ∷ s) [] x y l h = absurd (omega arith)
ltb_text-append (c ∷ s) (d ∷ t) x y l h = ground (arith, ltb_text-append s t x y (omega arith))

-- A number padded to a width that it fits into.
record IsPadded (width n : ℕ) (s : Text) : Type 0 where
  full : length s ≡ width
  only_digits : All IsDigit s
  spells : weight s ≡ n

zero_pad-IsPadded :
    (k n : ℕ) → n < 10 ^ suc k → IsPadded (suc k) n (zero_pad (suc k) (format_nat n))
unfolding zero_pad format_nat
zero_pad-IsPadded k n h =
    let s = digits (suc n) n [] in
    let zeros = replicate (suc k - length s) b'0' in
    let fits : length s ≤ suc k = omega (arith, length-digits (suc n) n k [] (omega arith) h) in
    record {
      full =
          omega
            (arith, fits, length-append zeros s, length-replicate {A = ℕ} (suc k - length s) b'0');
      only_digits =
          All-append IsDigit zeros s (zeros-All (suc k - length s)) (digits-All (suc n) n [] tt);
      spells =
          weight-zeros (suc k - length s) s
          ∙ rw (weight-digits (suc n) n [] (omega arith)) (omega arith);
    }

ltb_text-zero_pad :
    (k m n : ℕ) (x y : Text)
    → m < n
    → n < 10 ^ suc k
    → ltb_text (zero_pad (suc k) (format_nat m) ++ x) (zero_pad (suc k) (format_nat n) ++ y) ≡ true
ltb_text-zero_pad k m n x y h b =
    let p = zero_pad-IsPadded k m (omega arith) in
    let q = zero_pad-IsPadded k n b in
    let s = zero_pad (suc k) (format_nat m) in
    let t = zero_pad (suc k) (format_nat n) in
    let same : length s ≡ length t = p.full ∙ sym q.full in
    let less : weight s < weight t = omega (arith, p.spells, q.spells) in
    ltb_text-append s t x y same (ltb_text-weight s t p.only_digits q.only_digits same less)

-- The name of a message by its number and the start of its process.
abbrev pub numbered : ℕ → ℕ → ℤ → ℤ → Text
numbered start n deliveries lease =
    entry_name
      (record { seq = new_seq (pos start) (pos n); deliveries = deliveries; lease = lease })

tail : ℤ → ℤ → Text
unfolding format_int suffix
tail d l = b'.' ∷ (format_int d ++ b'.' ∷ (format_int l ++ suffix))

numbered_shape :
    (start n : ℕ) (d l : ℤ)
    → numbered start n d l
      ≡ zero_pad 19 (format_nat start) ++ b'_' ∷ (zero_pad 8 (format_nat n) ++ tail d l)
unfolding entry_name new_seq format_padded tail
numbered_shape start n d l =
    append_assoc (zero_pad 19 (format_nat start)) (b'_' ∷ zero_pad 8 (format_nat n)) (tail d l)

-- Names sort in the order of publication, whatever deliveries and leases they carry: of two messages
-- the one of the process that started earlier comes first, and within one process the one with the
-- smaller number, as long as the numbers have at most eight digits.
pub later_sorts_after :
    (start start' m n : ℕ) (d d' l l' : ℤ)
    → start' < 2 ^ 63
    → (start < start') ⊎ ((start ≡ start') × (m < n) × (n < 10 ^ 8))
    → ltb_text (numbered start m d l) (numbered start' n d' l') ≡ true
later_sorts_after start start' m n d d' l l' b (inl earlier) =
    rw (numbered_shape start, numbered_shape start')
      (ltb_text-zero_pad 18 start start' _ _ earlier (omega arith))
later_sorts_after start start' m n d d' l l' b (inr (same, before, fits)) =
    let p = zero_pad 19 (format_nat start') in
    rw (same, numbered_shape start' m, numbered_shape start' n)
      (ltb_text-prefix p _ _
        ∙ ltb_text-prefix (b'_' ∷ []) _ _
        ∙ ltb_text-zero_pad 7 m n _ _ before fits)
