-- ===== src/Fileq/Disk/Seq.antt =====
-- The sequence in a file name (queue/fileq/fileq.go): every rename of a message keeps it.
use gojob.Prelude.{
  ◌==◌, ◌≡◌, refl, sym, ap, ◌∙◌, true, none, some, List, [], ◌∷◌, ◌++◌, if◌then◌else◌, arith,
  Bool-cases, Option-cases, inl, inr,
}
use gojob.Fileq.{eqb_text, suffix, cut_suffix, split, Entry, entry_name, parse_parts, parse_name}
use gojob.Fileq.Decimal.{Text, parse_int}

-- The text before the first dot.
unfoldable pub seq_of : Text → Text
seq_of [] = []
seq_of (c ∷ cs) = let rest = seq_of cs in if c == b'.' then [] else c ∷ rest

-- A text with a dot has the same one before it, whatever follows.
seq_of-append : (s t : Text) → seq_of (s ++ b'.' ∷ t) ≡ seq_of s
unfolding seq_of
seq_of-append [] t = refl
seq_of-append (c ∷ s) t = ground (arith, seq_of-append s t)

pub seq_of-entry_name : (e : Entry) → seq_of (entry_name e) ≡ seq_of e.seq
unfolding entry_name
seq_of-entry_name e = seq_of-append e.seq _

pub eqb_text_sound : (s t : Text) → eqb_text s t ≡ true → s ≡ t
unfolding eqb_text
eqb_text_sound [] [] h = refl
eqb_text_sound [] (d ∷ t) h = cc
eqb_text_sound (c ∷ s) [] h = cc
eqb_text_sound (c ∷ s) (d ∷ t) h = ground (arith, eqb_text_sound s t)

cut_suffix-some : (end s : Text) {base : Text} → cut_suffix end s ≡ some base → s ≡ base ++ end
unfolding cut_suffix
cut_suffix-some end [] h = ground (arith, eqb_text_sound [] end)
cut_suffix-some end (c ∷ s) h = elim (Bool-cases (eqb_text (c ∷ s) end)) [
  | inl hit ↦ ground (arith, hit, eqb_text_sound (c ∷ s) end hit)
  | inr miss ↦ elim (Option-cases (cut_suffix end s)) [
    | inl none_left ↦ ground (arith, miss, none_left)
    | inr (rest, found) ↦ ground (arith, miss, found, cut_suffix-some end s found)
  ]
]

split_cons : (s : Text) → (p : Text) × (ps : List Text) × (split s ≡ p ∷ ps) × (p ≡ seq_of s)
unfolding split seq_of
split_cons [] = ([], [], refl, refl)
split_cons (c ∷ s) =
    let (p, ps, e, first) = split_cons s in
    elim (Bool-cases (c == b'.')) [
      | inl dot ↦ rw dot ([], split s, refl, refl)
      | inr plain ↦ rw (plain, e) (c ∷ p, ps, refl, ap (λ q. c ∷ q) first)
    ]

seq_of_idem : (s : Text) → seq_of (seq_of s) ≡ seq_of s
unfolding seq_of
seq_of_idem [] = refl
seq_of_idem (c ∷ s) = ground (arith, seq_of_idem s)

parse_parts-seq :
    (p : Text) (ps : List Text) {e : Entry} → parse_parts (p ∷ ps) ≡ some e → e.seq ≡ p
unfolding parse_parts
parse_parts-seq p [] h = cc
parse_parts-seq p (d ∷ []) h = cc
parse_parts-seq p (d ∷ l ∷ []) h = elim (Option-cases (parse_int d)) [
  | inl bad ↦ ground (arith, bad)
  | inr (deliveries, good) ↦ elim (Option-cases (parse_int l)) [
    | inl bad ↦ ground (arith, good, bad)
    | inr (lease, fine) ↦ ground (arith, good, fine)
  ]
]
parse_parts-seq p (d ∷ l ∷ x ∷ ps) h = cc

parse_name-some :
    (name : Text) {base : Text}
    → cut_suffix suffix name ≡ some base
    → parse_name name ≡ parse_parts (split base)
unfolding parse_name
parse_name-some name cut = rw (parse_name, cut) refl

parse_name-none : (name : Text) → cut_suffix suffix name ≡ none → parse_name name ≡ none
unfolding parse_name
parse_name-none name cut = rw (parse_name, cut) refl

-- An entry has the sequence of the name that it is read from.
pub seq_of-parse_name :
    (name : Text) {e : Entry} → parse_name name ≡ some e → seq_of e.seq ≡ seq_of name
seq_of-parse_name name {e} h = elim (Option-cases (cut_suffix suffix name)) [
  | inl none_left ↦ let refused = sym (parse_name-none name none_left) ∙ h in cc refused
  | inr (base, cut) ↦
      let (p, ps, e', first) = split_cons base in
      let parsed : parse_parts (p ∷ ps) ≡ some e =
        ap parse_parts (sym e') ∙ sym (parse_name-some name cut) ∙ h in
      let whole = cut_suffix-some suffix name cut in
      ap seq_of (parse_parts-seq p ps parsed ∙ first)
      ∙ seq_of_idem base
      ∙ sym (ap seq_of whole ∙ (unfold suffix in seq_of-append base _))
]
