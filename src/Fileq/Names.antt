-- ===== src/Fileq/Names.antt =====
-- The file names of a message round trip (queue/fileq/fileq.go: entryName and parseName).
use gojob.Prelude.{
  ℕ, zero, suc, ◌<◌, ◌≡◌, ◌≢◌, refl, true, false, some, [], ◌∷◌, ◌++◌, append_assoc, ℤ, length,
  length-append, All, All-append, replicate, negsuc, ◌-◌, arith, pos,
}
use gojob.Fileq.{
  eqb_text, suffix, zero_pad, format_padded, new_seq, cut_suffix, split, Entry, entry_name,
  parse_parts, parse_name,
}
use gojob.Fileq.Decimal.{
  Text, format_int, format_nat, IsInt64, parse_int-format_int, format_int-All,
}

abbrev pub NoDot : Text → Type 0
NoDot = All (λ c. c ≢ b'.')

pub eqb_text_refl : (s : Text) → eqb_text s s ≡ true
unfolding eqb_text
eqb_text_refl [] = refl
eqb_text_refl (c ∷ s) = ground (arith, eqb_text_refl s)

-- Texts of different lengths differ.
eqb_text_longer : (s t : Text) → length t < length s → eqb_text s t ≡ false
unfolding eqb_text
eqb_text_longer [] t h = absurd (omega arith)
eqb_text_longer (c ∷ s) [] h = refl
eqb_text_longer (c ∷ s) (d ∷ t) h = ground (arith, eqb_text_longer s t (omega arith))

cut_suffix_hit : (end s : Text) → eqb_text s end ≡ true → (s ≡ end) → cut_suffix end end ≡ some []
unfolding cut_suffix
cut_suffix_hit [] s h e = refl
cut_suffix_hit (c ∷ end) s h e = ground (arith, eqb_text_refl (c ∷ end))

pub cut_suffix-append : (end s : Text) → cut_suffix end (s ++ end) ≡ some s
unfolding cut_suffix
cut_suffix-append end [] = cut_suffix_hit end end (eqb_text_refl end) refl
cut_suffix-append end (c ∷ s) =
    rw
      (
        eqb_text_longer (c ∷ (s ++ end)) end (omega (arith, length-append s end)),
        cut_suffix-append end s,
      )
      refl

split_plain : (s : Text) → NoDot s → split s ≡ s ∷ []
unfolding split
split_plain [] h = refl
split_plain (c ∷ s) (d, h) = ground (arith, split_plain s h)

split_dot : (s rest : Text) → NoDot s → split (s ++ b'.' ∷ rest) ≡ s ∷ split rest
unfolding split
split_dot [] rest h = refl
split_dot (c ∷ s) rest (d, h) = ground (arith, split_dot s rest h)

-- A name of three parts without dots is taken apart into them.
split_parts :
    (s d l : Text)
    → NoDot s
    → NoDot d
    → NoDot l
    → split (s ++ b'.' ∷ (d ++ b'.' ∷ l)) ≡ s ∷ d ∷ l ∷ []
split_parts s d l hs hd hl = rw (split_dot s _ hs, split_dot d l hd, split_plain l hl) refl

pub entry_name_shape :
    (e : Entry)
    → entry_name e
      ≡ (e.seq ++ b'.' ∷ (format_int e.deliveries ++ b'.' ∷ format_int e.lease)) ++ suffix
unfolding entry_name
entry_name_shape e =
    rw
      (
        append_assoc e.seq (b'.' ∷ (format_int e.deliveries ++ b'.' ∷ format_int e.lease)) suffix,
        append_assoc (format_int e.deliveries) (b'.' ∷ format_int e.lease) suffix,
      )
      refl

-- parseName reads back what entryName wrote, where the sequence has no dot in it and the two numbers
-- are int64.
pub parse_name-entry_name :
    (e : Entry)
    → NoDot e.seq
    → IsInt64 e.deliveries
    → IsInt64 e.lease
    → parse_name (entry_name e) ≡ some e
unfolding parse_name parse_parts
parse_name-entry_name e s d l =
    let parts =
      split_parts e.seq (format_int e.deliveries) (format_int e.lease) s
        (format_int-All e.deliveries) (format_int-All e.lease) in
    let cut =
      cut_suffix-append suffix
        (e.seq ++ b'.' ∷ (format_int e.deliveries ++ b'.' ∷ format_int e.lease)) in
    rw
      (
        entry_name_shape,
        parse_name,
        cut,
        parts,
        parse_parts,
        parse_int-format_int e.deliveries d,
        parse_int-format_int e.lease l,
      )
      refl

zeros-NoDot : (k : ℕ) → NoDot (replicate k b'0')
zeros-NoDot zero = tt
zeros-NoDot (suc k) = (λ e. absurd (omega arith), zeros-NoDot k)

zero_pad-NoDot : (w : ℕ) (s : Text) → NoDot s → NoDot (zero_pad w s)
unfolding zero_pad
zero_pad-NoDot w s h = All-append (λ c. c ≢ b'.') _ s (zeros-NoDot (w - length s)) h

format_padded-NoDot : (w : ℕ) (x : ℤ) → NoDot (format_padded w x)
unfolding format_padded format_int
format_padded-NoDot w (pos n) = zero_pad-NoDot w _ (format_int-All (pos n))
format_padded-NoDot w (negsuc n) =
    let printed : NoDot (b'-' ∷ format_nat (suc n)) = format_int-All (negsuc n) in
    (λ e. absurd (omega arith), zero_pad-NoDot (w - 1) _ printed.1)

-- Every name under which a message is published or renamed later, whatever the clock and the numbers
-- of the process are, is read back as what it was made from.
pub parse_name-new_seq :
    (start n d l : ℤ)
    → IsInt64 d
    → IsInt64 l
    → parse_name (entry_name (record { seq = new_seq start n; deliveries = d; lease = l }))
      ≡ some (record { seq = new_seq start n; deliveries = d; lease = l })
parse_name-new_seq start n d l hd hl =
    parse_name-entry_name (record { seq = new_seq start n; deliveries = d; lease = l })
      (unfold new_seq in
        All-append (λ c. c ≢ b'.') (format_padded 19 start) _ (format_padded-NoDot 19 start)
          (λ e. absurd (omega arith), format_padded-NoDot 8 n))
      hd hl
