-- ===== src/Fileq/Disk/Renames.antt =====
-- What the file operations do to the number of files of a sequence (queue/fileq/fileq.go).
use gojob.Prelude.{
  ℕ, ◌+◌, ◌≤◌, ◌≡◌, refl, sym, ap, ◌∙◌, true, some, List, [], ◌∷◌, if◌then◌else◌, arith, Bool-cases,
  Option-cases, inl, inr,
}
use gojob.Fileq.{eqb_text, Entry, entry_name}
use gojob.Fileq.Decimal.{Text}
use gojob.Fileq.Disk.{
  Dir, Disk, find_file, remove_file, write_file, take_pending, put_back, bury, ack_file,
}
use gojob.Fileq.Disk.Seq.{seq_of, seq_of-entry_name, eqb_text_sound}
use gojob.Fileq.Names.{eqb_text_refl}

abbrev pub one_if : Text → Text → ℕ
one_if s q = if eqb_text s q then 1 else 0

-- How many files have a sequence, and how often it is in a list.
abbrev pub file_count : Text → Dir → ℕ
file_count q [] = 0
file_count q ((n, b) ∷ files) = one_if (seq_of n) q + file_count q files

abbrev pub seq_count : Text → List Text → ℕ
seq_count q [] = 0
seq_count q (s ∷ ss) = one_if (seq_of s) q + seq_count q ss

abbrev pub files_on : Text → Disk → ℕ
files_on q d = file_count q d.pending + file_count q d.processing + file_count q d.dead

one_if_same : (m n : Text) → eqb_text m n ≡ true → one_if (seq_of m) (seq_of n) ≡ 1
one_if_same m n hit =
    let same : m ≡ n = eqb_text_sound m n hit in rw (same, eqb_text_refl (seq_of n)) refl

remove_file_absent :
    (n : Text) (files : Dir) → file_count (seq_of n) files ≡ 0 → remove_file n files ≡ files
unfolding remove_file
remove_file_absent n [] h = refl
remove_file_absent n ((m, b) ∷ files) h = elim (Bool-cases (eqb_text m n)) [
  | inl hit ↦ absurd (omega (arith, one_if_same m n hit))
  | inr miss ↦
      rw (remove_file, miss) (ap (λ l. (m, b) ∷ l) (remove_file_absent n files (omega arith)))
]

file_count-remove_file :
    (q n : Text) (files : Dir) {b : Text}
    → find_file n files ≡ some b
    → file_count (seq_of n) files ≤ 1
    → file_count q files ≡ file_count q (remove_file n files) + one_if (seq_of n) q
unfolding find_file remove_file
file_count-remove_file q n [] e u = cc
file_count-remove_file q n ((m, b') ∷ files) {b} e u = elim (Bool-cases (eqb_text m n)) [
  | inl hit ↦
      let same : m ≡ n = eqb_text_sound m n hit in
      let alone : file_count (seq_of n) files ≡ 0 = omega (arith, one_if_same m n hit) in
      let ones : one_if (seq_of m) q ≡ one_if (seq_of n) q = ap (λ x. one_if (seq_of x) q) same in
      rw (remove_file, hit, remove_file_absent n files alone) (omega (arith, ones))
  | inr miss ↦
      let found : find_file n files ≡ some b = ground (arith, miss) in
      rw (remove_file, miss) (omega (arith, file_count-remove_file q n files found (omega arith)))
]

pub file_count-write_file :
    (q n b : Text) (files : Dir)
    → file_count (seq_of n) files ≡ 0
    → file_count q (write_file n b files) ≡ file_count q files + one_if (seq_of n) q
unfolding write_file
file_count-write_file q n b files h = rw (remove_file_absent n files h) (omega arith)

-- A rename from one directory into another, where the sequence has no other file.
moved :
    (q n n' b : Text) (from to : Dir)
    → find_file n from ≡ some b
    → seq_of n' ≡ seq_of n
    → file_count (seq_of n) from + file_count (seq_of n) to ≤ 1
    → (file_count q from ≡ file_count q (remove_file n from) + one_if (seq_of n) q)
      × (file_count q (write_file n' b to) ≡ file_count q to + one_if (seq_of n) q)
moved q n n' b from to there same alone =
    let out = file_count-remove_file q n from there (omega arith) in
    let own = file_count-remove_file (seq_of n) n from there (omega arith) in
    let self : one_if (seq_of n) (seq_of n) ≡ 1 = rw (eqb_text_refl (seq_of n)) refl in
    let absent : file_count (seq_of n') to ≡ 0 = rw same (omega (arith, own, self)) in
    let into = file_count-write_file q n' b to absent in
    let ones : one_if (seq_of n') q ≡ one_if (seq_of n) q = ap (λ x. one_if x q) same in
    (out, omega (arith, into, ones))

-- One file of sequence `n`, or none, has gone from the first directory to the second.
abbrev pub Shift : Text → Text → Dir → Dir → Dir → Dir → Type 0
Shift q n from to from' to' =
    (file_count q from ≡ file_count q from' + one_if (seq_of n) q)
    × (file_count q to' ≡ file_count q to + one_if (seq_of n) q)

-- The three renames.
pub take_pending-Shift :
    (q n n' : Text) (s : Disk) {t : Disk}
    → take_pending n n' s ≡ some t
    → seq_of n' ≡ seq_of n
    → files_on (seq_of n) s ≤ 1
    → Shift q n s.pending s.processing t.pending t.processing × (t.dead ≡ s.dead)
unfolding take_pending
take_pending-Shift q n n' s {t} e same u = elim (Option-cases (find_file n s.pending)) [
  | inl missing ↦ ground (arith, missing)
  | inr (b, there) ↦
      let m = moved q n n' b s.pending s.processing there same (omega arith) in
      let after : Disk = record s {
        pending = remove_file n s.pending;
        processing = write_file n' b s.processing;
      } in
      let done : take_pending n n' s ≡ some after = rw (take_pending, there) refl in
      let same_disk : after ≡ t = cc (sym done ∙ e) in rw (sym same_disk) (m, refl)
]

pub take_pending-files :
    (q n n' : Text) (s : Disk) {t : Disk}
    → take_pending n n' s ≡ some t
    → seq_of n' ≡ seq_of n
    → files_on (seq_of n) s ≤ 1
    → files_on q t ≡ files_on q s
take_pending-files q n n' s e same u =
    let (m, rest) = take_pending-Shift q n n' s e same u in omega (arith, m, ap (file_count q) rest)

pub put_back-Shift :
    (q n n' : Text) (s : Disk) {t : Disk}
    → put_back n n' s ≡ some t
    → seq_of n' ≡ seq_of n
    → files_on (seq_of n) s ≤ 1
    → Shift q n s.processing s.pending t.processing t.pending × (t.dead ≡ s.dead)
unfolding put_back
put_back-Shift q n n' s {t} e same u = elim (Option-cases (find_file n s.processing)) [
  | inl missing ↦ ground (arith, missing)
  | inr (b, there) ↦
      let m = moved q n n' b s.processing s.pending there same (omega arith) in
      let after : Disk = record s {
        processing = remove_file n s.processing;
        pending = write_file n' b s.pending;
      } in
      let done : put_back n n' s ≡ some after = rw (put_back, there) refl in
      let same_disk : after ≡ t = cc (sym done ∙ e) in rw (sym same_disk) (m, refl)
]

pub put_back-files :
    (q n n' : Text) (s : Disk) {t : Disk}
    → put_back n n' s ≡ some t
    → seq_of n' ≡ seq_of n
    → files_on (seq_of n) s ≤ 1
    → files_on q t ≡ files_on q s
put_back-files q n n' s e same u =
    let (m, rest) = put_back-Shift q n n' s e same u in omega (arith, m, ap (file_count q) rest)

pub bury-Shift :
    (q n n' : Text) (s : Disk) {t : Disk}
    → bury n n' s ≡ some t
    → seq_of n' ≡ seq_of n
    → files_on (seq_of n) s ≤ 1
    → Shift q n s.processing s.dead t.processing t.dead × (t.pending ≡ s.pending)
unfolding bury
bury-Shift q n n' s {t} e same u = elim (Option-cases (find_file n s.processing)) [
  | inl missing ↦ ground (arith, missing)
  | inr (b, there) ↦
      let m = moved q n n' b s.processing s.dead there same (omega arith) in
      let after : Disk = record s {
        processing = remove_file n s.processing;
        dead = write_file n' b s.dead;
      } in
      let done : bury n n' s ≡ some after = rw (bury, there) refl in
      let same_disk : after ≡ t = cc (sym done ∙ e) in rw (sym same_disk) (m, refl)
]

pub bury-files :
    (q n n' : Text) (s : Disk) {t : Disk}
    → bury n n' s ≡ some t
    → seq_of n' ≡ seq_of n
    → files_on (seq_of n) s ≤ 1
    → files_on q t ≡ files_on q s
bury-files q n n' s e same u =
    let (m, rest) = bury-Shift q n n' s e same u in omega (arith, m, ap (file_count q) rest)

pub ack_file-leaves :
    (q : Text) (e : Entry) (s : Disk) {t : Disk}
    → ack_file e s ≡ some t
    → files_on (seq_of e.seq) s ≤ 1
    → (file_count q s.processing ≡ file_count q t.processing + one_if (seq_of e.seq) q)
      × (t.pending ≡ s.pending)
      × (t.dead ≡ s.dead)
unfolding ack_file
ack_file-leaves q e s {t} h u = elim (Option-cases (find_file (entry_name e) s.processing)) [
  | inl missing ↦ ground (arith, missing)
  | inr (b, there) ↦
      let name = entry_name e in
      let after : Disk = record s { processing = remove_file name s.processing } in
      let done : ack_file e s ≡ some after = rw (ack_file, there) refl in
      let same_disk : after ≡ t = cc (sym done ∙ h) in
      let own = seq_of-entry_name e in
      let few : file_count (seq_of name) s.processing ≤ 1 = rw own (omega arith) in
      let out = file_count-remove_file q name s.processing there few in
      let ones : one_if (seq_of name) q ≡ one_if (seq_of e.seq) q = ap (λ x. one_if x q) own in
      rw (sym same_disk) (omega (arith, out, ones), refl, refl)
]

pub ack_file-files :
    (q : Text) (e : Entry) (s : Disk) {t : Disk}
    → ack_file e s ≡ some t
    → files_on (seq_of e.seq) s ≤ 1
    → files_on q s ≡ files_on q t + one_if (seq_of e.seq) q
ack_file-files q e s h u =
    let (out, p, d) = ack_file-leaves q e s h u in
    omega (arith, out, ap (file_count q) p, ap (file_count q) d)
