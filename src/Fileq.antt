-- ===== src/Fileq.antt =====
-- queue/fileq/fileq.go: the names of message files, which hold the sequence, the number of deliveries
-- and the deadline of the lease. A name is the list of its bytes.
pub mod Decimal
pub mod Names
pub mod Order
pub mod Disk
pub mod Options
use gojob.Prelude.{
  ℕ, ◌==◌, ◌&&◌, Bool, true, false, Option, none, some, List, [], ◌∷◌, ◌++◌, if◌then◌else◌, ℤ, pos,
  negsuc, suc, ltb, length, replicate, ◌-◌,
}
use gojob.Fileq.Decimal.{Text, format_int, format_nat, parse_int}

-- `==` on strings.
unfoldable pub eqb_text : Text → Text → Bool
eqb_text [] [] = true
eqb_text [] (d ∷ ds) = false
eqb_text (c ∷ cs) [] = false
eqb_text (c ∷ cs) (d ∷ ds) = let rest = eqb_text cs ds in c == d && rest

unfoldable pub suffix : Text
suffix = b'.' ∷ b'j' ∷ b's' ∷ b'o' ∷ b'n' ∷ []

abbrev pub put {ℓ} : {A : Type ℓ} → A → Option (List A) → Option (List A)
put c none = none
put c (some s) = some (c ∷ s)

-- strings.CutSuffix: the text before the suffix, where the name ends in it.
unfoldable pub cut_suffix : Text → Text → Option Text
unfolding eqb_text
cut_suffix end [] = if eqb_text [] end then some [] else none
cut_suffix end (c ∷ cs) =
    let rest = cut_suffix end cs in if eqb_text (c ∷ cs) end then some [] else put c rest

abbrev pub extend : ℕ → List Text → List Text
extend c [] = (c ∷ []) ∷ []
extend c (part ∷ parts) = (c ∷ part) ∷ parts

-- strings.Split at every dot: there is one more part than there are dots.
unfoldable pub split : Text → List Text
split [] = [] ∷ []
split (c ∷ cs) = let parts = split cs in if c == b'.' then [] ∷ parts else extend c parts

-- What a name says of its message; a pending entry has lease 0.
pub record Entry : Type 0 where
  pub seq : Text
  pub deliveries : ℤ
  pub lease : ℤ

-- `%s.%d.%d.json`.
unfoldable pub entry_name : Entry → Text
unfolding format_int suffix
entry_name e = e.seq ++ b'.' ∷ (format_int e.deliveries ++ b'.' ∷ (format_int e.lease ++ suffix))

-- The middle of parseName: the two numbers of the three parts.
unfoldable pub parse_parts : List Text → Option Entry
unfolding parse_int
parse_parts (seq ∷ d ∷ l ∷ []) = elim (parse_int d) [
  | none ↦ none
  | some deliveries ↦ elim (parse_int l) [
    | none ↦ none
    | some lease ↦ some (record { seq = seq; deliveries = deliveries; lease = lease })
  ]
]
parse_parts _ = none

unfoldable pub parse_name : Text → Option Entry
unfolding cut_suffix suffix split parse_parts
parse_name name = elim (cut_suffix suffix name) [
  | none ↦ none
  | some base ↦ parse_parts (split base)
]

-- `<` on strings, by which sort.Strings orders the names.
unfoldable pub ltb_text : Text → Text → Bool
ltb_text [] [] = false
ltb_text [] (d ∷ ds) = true
ltb_text (c ∷ cs) [] = false
ltb_text (c ∷ cs) (d ∷ ds) = let rest = ltb_text cs ds in if c == d then rest else ltb c d

-- `%0wd`: zeros up to the width, behind the sign.
unfoldable pub zero_pad : ℕ → Text → Text
zero_pad width s = replicate (width - length s) b'0' ++ s

unfoldable pub format_padded : ℕ → ℤ → Text
unfolding zero_pad format_nat
format_padded width (pos n) = zero_pad width (format_nat n)
format_padded width (negsuc n) = b'-' ∷ zero_pad (width - 1) (format_nat (suc n))

-- newSeq: the start of the queue's process in nanoseconds, and the number of the message in it.
unfoldable pub new_seq : ℤ → ℤ → Text
unfolding format_padded
new_seq start_ns n = format_padded 19 start_ns ++ b'_' ∷ format_padded 8 n
