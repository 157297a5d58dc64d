-- ===== src/Fileq/Disk/Conserved.antt =====
-- Each message of a file queue is in one file, or acknowledged (queue/fileq/fileq.go).
use gojob.Prelude.{
  ◌+◌, ◌≤◌, ◌≡◌, refl, sym, ap, ◌∙◌, Option, some, ◌∷◌, pos, arith, Bool-cases, Option-cases, inl,
  inr,
}
use gojob.Fileq.{Entry, entry_name, eqb_text}
use gojob.Fileq.Decimal.{Text}
use gojob.Fileq.Disk.{
  Disk, write_file, once_more, publish_file, seal_disk, put_back, bury, waiting_name, nack_file,
  dead_letter_file, divert,
}
use gojob.Fileq.Disk.Renames.{
  one_if, file_count, seq_count, files_on, file_count-write_file, take_pending-files,
  put_back-files, bury-files, ack_file-files,
}
use gojob.Fileq.Disk.Seq.{seq_of, seq_of-entry_name, seq_of-parse_name, eqb_text_sound}
use gojob.Fileq.Disk.System.{
  System, start, Step, published, sealed, taken, reclaimed, acked, nacked, dead_lettered, diverted,
}

-- The sequences that are published so far have one message each, in one file or acknowledged.
pub record IsOnce (s : System) : Type 0 where
  pub placed : (q : Text) → seq_count q s.published ≡ files_on q s.disk + seq_count q s.acked
  pub once : (q : Text) → seq_count q s.published ≤ 1

-- A rename of a processing entry to the name of its waiting entry.
bury-waiting :
    (q : Text) (e : Entry) (s : Disk) {t : Disk}
    → bury (entry_name e) (waiting_name e) s ≡ some t
    → files_on (seq_of e.seq) s ≤ 1
    → files_on q t ≡ files_on q s
bury-waiting q e s h u =
    let own = seq_of-entry_name e in
    bury-files q (entry_name e) (waiting_name e) s h
      (seq_of-entry_name (record e { lease = pos 0 }) ∙ sym own) (rw own u)

put_back-waiting :
    (q : Text) (e : Entry) (s : Disk) {t : Disk}
    → put_back (entry_name e) (waiting_name e) s ≡ some t
    → files_on (seq_of e.seq) s ≤ 1
    → files_on q t ≡ files_on q s
put_back-waiting q e s h u =
    let own = seq_of-entry_name e in
    put_back-files q (entry_name e) (waiting_name e) s h
      (seq_of-entry_name (record e { lease = pos 0 }) ∙ sym own) (rw own u)

pub few : (s : System) → IsOnce s → (q : Text) → files_on q s.disk ≤ 1
few s v q = omega (arith, v.placed q, v.once q)

-- A step that keeps the number of files of each sequence.
kept :
    (s : System) (d : Disk)
    → ((q : Text) → files_on q d ≡ files_on q s.disk)
    → IsOnce s
    → IsOnce (record s { disk = d })
kept s d same v = record { placed = λ q. omega (arith, v.placed q, same q); once = v.once }

divert-files :
    (q : Text) (e : Entry) (s : Disk)
    → files_on (seq_of e.seq) s ≤ 1
    → files_on q (divert e s) ≡ files_on q s
unfolding divert
divert-files q e s u = elim (Option-cases (bury (entry_name e) (waiting_name e) s)) [
  | inl missing ↦ rw (divert, missing) refl
  | inr (t, moved) ↦ rw (divert, moved) (bury-waiting q e s moved u)
]

drawn_once :
    (q seq : Text) (s : System)
    → seq_count (seq_of seq) s.published ≡ 0
    → IsOnce s
    → seq_count q (seq ∷ s.published) ≤ 1
drawn_once q seq s fresh v = elim (Bool-cases (eqb_text (seq_of seq) q)) [
  | inl hit ↦
      let same : seq_of seq ≡ q = eqb_text_sound (seq_of seq) q hit in
      let none_yet : seq_count q s.published ≡ 0 = rw same at fresh in rw hit (omega arith)
  | inr miss ↦ rw miss (omega (arith, v.once q))
]

module _ {ℓ} {T : Type ℓ} (marshal : T → Option Text) where
  -- newSeq has not returned this sequence before.
  abbrev pub IsFresh : {s t : System} → Step marshal s t → Type 0
  IsFresh {s} (published seq payload d w e) = seq_count (seq_of seq) s.published ≡ 0
  IsFresh _ = Unit

  pub data FreshReach (s : System) : System → Type ℓ where
    here : FreshReach s s
    next : {t u : System} → FreshReach s t → (st : Step marshal t u) → IsFresh st → FreshReach s u

  pub FreshReach-trans : {s t u : System} → FreshReach s t → FreshReach t u → FreshReach s u
  FreshReach-trans p here = p
  FreshReach-trans p (next q st fresh) = next (FreshReach-trans p q) st fresh

  publish_file-IsOnce :
      (s : System) (seq : Text) (payload : T) {d : Disk}
      → publish_file marshal seq payload s.disk ≡ some d
      → seq_count (seq_of seq) s.published ≡ 0
      → IsOnce s
      → IsOnce (record s { disk = d; published = seq ∷ s.published })
  unfolding publish_file
  publish_file-IsOnce s seq payload {d} w fresh v = elim (Option-cases (marshal payload)) [
    | inl bad ↦ ground (arith, bad)
    | inr (b, good) ↦
        let name = entry_name (record { seq = seq; deliveries = pos 0; lease = pos 0 }) in
        let after : Disk = record (s.disk) { pending = write_file name b s.disk.pending } in
        let done : publish_file marshal seq payload s.disk ≡ some after =
          rw (publish_file, good) refl in
        let same_disk : after ≡ d = cc (sym done ∙ w) in
        let own : seq_of name ≡ seq_of seq =
          seq_of-entry_name (record { seq = seq; deliveries = pos 0; lease = pos 0 }) in
        let absent : file_count (seq_of name) s.disk.pending ≡ 0 =
          rw own (omega (arith, v.placed (seq_of seq), fresh)) in
        rw (sym same_disk) (record {
          placed = λ q.
              let into = file_count-write_file q name b s.disk.pending absent in
              let ones : one_if (seq_of name) q ≡ one_if (seq_of seq) q =
                ap (λ x. one_if x q) own in
              omega (arith, v.placed q, into, ones);
          once = λ q. drawn_once q seq s fresh v;
        })
  ]

  pub Step-IsOnce : {s t : System} (st : Step marshal s t) → IsFresh st → IsOnce s → IsOnce t
  unfolding nack_file dead_letter_file seal_disk once_more
  Step-IsOnce {s} (published seq payload d w e) fresh v =
      rw e (publish_file-IsOnce s seq payload w fresh v)
  Step-IsOnce {s} (sealed e) fresh v = rw e (record { placed = v.placed; once = v.once })
  Step-IsOnce {s} (taken name e lease d parsed w f) fresh v =
      let same : seq_of (entry_name (once_more lease e)) ≡ seq_of name =
        seq_of-entry_name (once_more lease e) ∙ seq_of-parse_name name parsed in
      rw f (kept s d (λ q. take_pending-files q name _ s.disk w same (few s v (seq_of name))) v)
  Step-IsOnce {s} (reclaimed name e now d parsed late w f) fresh v =
      let same : seq_of (waiting_name e) ≡ seq_of name =
        seq_of-entry_name (record e { lease = pos 0 }) ∙ seq_of-parse_name name parsed in
      rw f (kept s d (λ q. put_back-files q name _ s.disk w same (few s v (seq_of name))) v)
  Step-IsOnce {s} (acked e d w f) fresh v = rw f (record {
    placed = λ q. omega (arith, v.placed q, ack_file-files q e s.disk w (few s v (seq_of e.seq)));
    once = v.once;
  })
  Step-IsOnce {s} (nacked e d w f) fresh v =
      rw f (kept s d (λ q. put_back-waiting q e s.disk w (few s v (seq_of e.seq))) v)
  Step-IsOnce {s} (dead_lettered e d w f) fresh v =
      rw f (kept s d (λ q. bury-waiting q e s.disk w (few s v (seq_of e.seq))) v)
  Step-IsOnce {s} (diverted e f) fresh v =
      rw f (kept s _ (λ q. divert-files q e s.disk (few s v (seq_of e.seq))) v)

  pub Reach-IsOnce : {s t : System} → FreshReach s t → IsOnce s → IsOnce t
  Reach-IsOnce here v = v
  Reach-IsOnce (next p st fresh) v = Step-IsOnce st fresh (Reach-IsOnce p v)

  pub start-IsOnce : (empty : Disk) → ((q : Text) → files_on q empty ≡ 0) → IsOnce (start empty)
  unfolding start
  start-IsOnce empty nothing = record {
    placed = λ q. omega (arith, nothing q);
    once = λ q. omega arith;
  }

  -- On a directory that starts without messages, every message of a file queue is in exactly one file,
  -- in pending, processing or dead, or was acknowledged, and never in two places, whatever the
  -- processes that share the directory do in whatever order, late callbacks included, as long as no
  -- sequence is drawn twice.
  pub one_file :
      (empty : Disk) {s : System}
      → ((q : Text) → files_on q empty ≡ 0)
      → FreshReach (start empty) s
      → (q : Text)
      → (seq_count q s.published ≡ files_on q s.disk + seq_count q s.acked)
        × (seq_count q s.published ≤ 1)
  one_file empty nothing p q =
      let v = Reach-IsOnce p (start-IsOnce empty nothing) in (v.placed q, v.once q)
