-- ===== src/Fileq/Decimal.antt =====
-- The decimal numbers in the names of message files (queue/fileq/fileq.go): `%d`, and strconv.Atoi and
-- strconv.ParseInt for base 10 and 64 bits.
use gojob.Prelude.{
  ℕ, zero, suc, ◌==◌, ◌+◌, ◌-◌, ◌*◌, ◌/◌, ◌%◌, ◌≤◌, ◌<◌, ◌^◌, ◌≡◌, ◌≢◌, refl, ◌&&◌, ltb, leb, Bool,
  true, false, Option, none, some, List, [], ◌∷◌, if◌then◌else◌, ℤ, pos, negsuc, sub_ℕ, All, arith,
  inl, inr, Bool-cases,
}

abbrev pub Text : Type 0
Text = List ℕ

-- The digits of a number before `out`; one round for each, so that n + 1 rounds are enough.
unfoldable pub digits : ℕ → ℕ → Text → Text
digits zero n out = out
digits (suc fuel) n out = elim (ltb n 10) [
  | true ↦ (b'0' + n % 10) ∷ out
  | false ↦ digits fuel (n / 10) ((b'0' + n % 10) ∷ out)
]

unfoldable pub format_nat : ℕ → Text
unfolding digits
format_nat n = digits (suc n) n []

unfoldable pub format_int : ℤ → Text
unfolding format_nat
format_int (pos n) = format_nat n
format_int (negsuc n) = b'-' ∷ format_nat (suc n)

unfoldable pub scan : Text → ℕ → Option ℕ
scan [] n = some n
scan (c ∷ cs) n =
    let rest = scan cs (n * 10 + (c - b'0')) in if leb b'0' c && leb c b'9' then rest else none

-- One digit or more.
unfoldable pub parse_nat : Text → Option ℕ
unfolding scan
parse_nat [] = none
parse_nat (c ∷ cs) = scan (c ∷ cs) 0

-- The number behind a sign, refused where it does not fit into an int64.
unfoldable pub in_range : Bool → Option ℕ → Option ℤ
in_range negative none = none
in_range true (some n) = if leb n (2 ^ 63) then some (sub_ℕ 0 n) else none
in_range false (some n) = if ltb n (2 ^ 63) then some (pos n) else none

unfoldable pub parse_int : Text → Option ℤ
unfolding parse_nat in_range
parse_int [] = none
parse_int (c ∷ cs) =
    if c == b'-'
    then in_range true (parse_nat cs)
    else if c == b'+'
    then in_range false (parse_nat cs)
    else in_range false (parse_nat (c ∷ cs))

-- An int64.
abbrev pub IsInt64 : ℤ → Type 0
IsInt64 (pos n) = n < 2 ^ 63
IsInt64 (negsuc n) = n < 2 ^ 63

abbrev pub IsDigit : ℕ → Type 0
IsDigit c = (b'0' ≤ c) × (c ≤ b'9')

scan_digit :
    (c : ℕ) (cs : Text) (n : ℕ) → IsDigit c → scan (c ∷ cs) n ≡ scan cs (n * 10 + (c - b'0'))
unfolding scan
scan_digit c cs n d = ground arith

scan-digits : (fuel n : ℕ) (out : Text) → n < fuel → scan (digits fuel n out) 0 ≡ scan out n
unfolding digits
scan-digits zero n out h = absurd (omega arith)
scan-digits (suc fuel) n out h = elim (Bool-cases (ltb n 10)) [
  | inl small ↦ ground (arith, scan_digit (b'0' + n % 10) out 0)
  | inr big ↦ ground (
    arith,
    scan-digits fuel (n / 10) ((b'0' + n % 10) ∷ out),
    scan_digit (b'0' + n % 10) out (n / 10),
  )
]

pub digits-All : (fuel n : ℕ) (out : Text) → All IsDigit out → All IsDigit (digits fuel n out)
unfolding digits
digits-All zero n out h = h
digits-All (suc fuel) n out h = ground (arith, digits-All fuel (n / 10) ((b'0' + n % 10) ∷ out))

-- A number is printed with a first digit.
digits_cons :
    (fuel n : ℕ) (out : Text)
    → n < fuel
    → (c : ℕ) × (cs : Text) × (digits fuel n out ≡ c ∷ cs) × IsDigit c
unfolding digits
digits_cons zero n out h = absurd (omega arith)
digits_cons (suc fuel) n out h = elim (Bool-cases (ltb n 10)) [
  | inl small ↦ rw (small, digits) (b'0' + n % 10, out, refl, (omega arith, omega arith))
  | inr big ↦
      let enough : n / 10 < fuel = ground arith in
      rw (big, digits) (digits_cons fuel (n / 10) ((b'0' + n % 10) ∷ out) enough)
]

parse_nat-format_nat : (n : ℕ) → parse_nat (format_nat n) ≡ some n
unfolding parse_nat format_nat
parse_nat-format_nat n =
    let (c, cs, e, d) = digits_cons (suc n) n [] (omega arith) in
    let scanned : scan (digits (suc n) n []) 0 ≡ some n = scan-digits (suc n) n [] (omega arith) in
    rw e (rw e at scanned)

parse_int_digit :
    (c : ℕ) (cs : Text) → IsDigit c → parse_int (c ∷ cs) ≡ in_range false (parse_nat (c ∷ cs))
unfolding parse_int
parse_int_digit c cs d = ground arith

parse_int-format_nat : (n : ℕ) → n < 2 ^ 63 → parse_int (format_nat n) ≡ some (pos n)
unfolding in_range format_nat
parse_int-format_nat n h =
    let (c, cs, e, d) = digits_cons (suc n) n [] (omega arith) in
    let read : parse_nat (digits (suc n) n []) ≡ some n = parse_nat-format_nat n in
    let read' : parse_nat (c ∷ cs) ≡ some n = rw e at read in
    rw (e, parse_int_digit c cs d, read') (ground arith)

-- Every int64 is read back from its decimal print.
pub parse_int-format_int : (x : ℤ) → IsInt64 x → parse_int (format_int x) ≡ some x
unfolding format_int parse_int in_range
parse_int-format_int (pos n) h = parse_int-format_nat n h
parse_int-format_int (negsuc n) h = rw (parse_nat-format_nat (suc n)) (ground arith)

digit_not_dot : (s : Text) → All IsDigit s → All (λ c. c ≢ b'.') s
digit_not_dot [] h = tt
digit_not_dot (c ∷ s) (d, h) = (λ e. absurd (omega arith), digit_not_dot s h)

-- No byte of a printed number is a dot.
pub format_int-All : (x : ℤ) → All (λ c. c ≢ b'.') (format_int x)
unfolding format_int format_nat
format_int-All (pos n) = digit_not_dot _ (digits-All (suc n) n [] tt)
format_int-All (negsuc n) =
    (λ e. absurd (omega arith), digit_not_dot _ (digits-All (suc (suc n)) (suc n) [] tt))
