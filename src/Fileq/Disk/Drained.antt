-- ===== src/Fileq/Disk/Drained.antt =====
-- When a file queue is drained (queue/fileq/fileq.go).
use gojob.Prelude.{
  ◌+◌, ◌≡◌, refl, ◌∙◌, true, Option, none, some, [], ◌∷◌, arith, Option-cases, inl, inr,
}
use gojob.Fileq.{Entry, entry_name}
use gojob.Fileq.Decimal.{Text}
use gojob.Fileq.Disk.{
  Disk, list_names, remove_file, write_file, find_file, drained, is_empty, take_pending, put_back,
  bury, waiting_name, publish_file, seal_disk, ack_file, nack_file, dead_letter_file, divert,
}
use gojob.Fileq.Disk.Conserved.{FreshReach, here, next, IsFresh, FreshReach-trans, one_file}
use gojob.Fileq.Disk.Renames.{file_count, seq_count, files_on}
use gojob.Fileq.Disk.System.{
  System, start, Step, published, sealed, taken, reclaimed, acked, nacked, dead_lettered, diverted,
}
use gojob.Fileq.Disk.Named.{AllMessages, IsNamed, list_names-empty, Reach-IsNamed}
use gojob.Fileq.Names.{eqb_text_refl}

put_back-nothing : (n m : Text) (s : Disk) → s.processing ≡ [] → put_back n m s ≡ none
unfolding put_back find_file
put_back-nothing n m s e = rw e refl

bury-nothing : (n m : Text) (s : Disk) → s.processing ≡ [] → bury n m s ≡ none
unfolding bury find_file
bury-nothing n m s e = rw e refl

ack_file-nothing : (e : Entry) (s : Disk) → s.processing ≡ [] → ack_file e s ≡ none
unfolding ack_file find_file
ack_file-nothing e s none_held = rw none_held refl

module _ {ℓ} {T : Type ℓ} (marshal : T → Option Text) where
  -- Any step but the rename of a claim.
  abbrev pub IsNoClaim : {s t : System} → Step marshal s t → Type 0
  IsNoClaim (taken name e lease d parsed w f) = ⊥
  IsNoClaim _ = Unit

  publish_file-processing :
      (seq : Text) (payload : T) (s : Disk) {t : Disk}
      → publish_file marshal seq payload s ≡ some t
      → t.processing ≡ s.processing
  unfolding publish_file
  publish_file-processing seq payload s {t} h = elim (Option-cases (marshal payload)) [
    | inl bad ↦ ground (arith, bad)
    | inr (b, good) ↦ ground (arith, good)
  ]

  drained-parts :
      (a b c : Disk)
      → drained a b c ≡ true
      → (is_empty (list_names b.processing) ≡ true) × (is_empty (list_names c.pending) ≡ true)
  unfolding drained
  drained-parts a b c h = (ground arith, ground arith)

  -- A run in which nothing is claimed.
  pub data QuietReach (s : System) : System → Type ℓ where
    stays : QuietReach s s
    goes_on :
        {t u : System}
        → QuietReach s t
        → (st : Step marshal t u) → IsFresh marshal st
        → IsNoClaim st
        → QuietReach s u

  QuietReach-FreshReach : {s t : System} → QuietReach s t → FreshReach marshal s t
  QuietReach-FreshReach stays = here
  QuietReach-FreshReach (goes_on p st fresh quiet) = next (QuietReach-FreshReach p) st fresh

  Step-no_processing :
      {s t : System} (st : Step marshal s t)
      → IsNoClaim st
      → s.disk.processing ≡ []
      → t.disk.processing ≡ []
  unfolding seal_disk nack_file dead_letter_file divert
  Step-no_processing {s} (published seq payload d w f) quiet none_held =
      rw f (publish_file-processing seq payload s.disk w ∙ none_held)
  Step-no_processing {s} (sealed f) quiet none_held = rw f none_held
  Step-no_processing {s} (taken name e lease d parsed w f) quiet none_held = absurd quiet
  Step-no_processing {s} (reclaimed name e now d parsed late w f) quiet none_held =
      cc (w, put_back-nothing name _ s.disk none_held)
  Step-no_processing {s} (acked e d w f) quiet none_held =
      cc (w, ack_file-nothing e s.disk none_held)
  Step-no_processing {s} (nacked e d w f) quiet none_held =
      cc (w, put_back-nothing _ _ s.disk none_held)
  Step-no_processing {s} (dead_lettered e d w f) quiet none_held =
      cc (w, bury-nothing _ _ s.disk none_held)
  Step-no_processing {s} (diverted e f) quiet none_held =
      rw (f, bury-nothing (entry_name e) (waiting_name e) s.disk none_held) none_held

  QuietReach-no_processing :
      {s t : System} → QuietReach s t → s.disk.processing ≡ [] → t.disk.processing ≡ []
  QuietReach-no_processing stays none_held = none_held
  QuietReach-no_processing (goes_on p st fresh quiet) none_held =
      Step-no_processing st quiet (QuietReach-no_processing p none_held)

  -- On a directory that starts without messages and holds nothing but message files, and as long as no
  -- sequence is drawn twice: drained reads the marker, counts processing some steps later and pending
  -- some more steps later. If no one claims between the two counts, then, where drained says true,
  -- every message published by the time of the last count is dead-lettered or acknowledged, and is so
  -- exactly once.
  pub drained_one_file :
      (empty : Disk) {s t u : System}
      → ((q : Text) → files_on q empty ≡ 0)
      → AllMessages empty.pending
      → AllMessages empty.processing
      → FreshReach marshal (start empty) s
      → FreshReach marshal s t
      → QuietReach t u
      → drained s.disk t.disk u.disk ≡ true
      → (q : Text) → seq_count q u.published ≡ file_count q u.disk.dead + seq_count q u.acked
  unfolding start
  drained_one_file empty {s} {t} {u} nothing named held p p' quiet done q =
      let first = FreshReach-trans marshal p p' in
      let whole = FreshReach-trans marshal first (QuietReach-FreshReach quiet) in
      let starts : IsNamed empty = record { pending = named; processing = held } in
      let v = Reach-IsNamed marshal first starts in
      let w = Reach-IsNamed marshal whole starts in
      let (no_processing, no_pending) = drained-parts s.disk t.disk u.disk done in
      let a =
        QuietReach-no_processing quiet
          (list_names-empty t.disk.processing v.processing no_processing) in
      let b = list_names-empty u.disk.pending w.pending no_pending in
      let (placed, _) = one_file marshal empty nothing whole q in
      let rest : seq_count q u.published
          ≡ file_count q [] + file_count q [] + file_count q u.disk.dead + seq_count q u.acked =
        rw (a, b) at placed in
      omega (arith, rest)

-- Where the only file of a sealed queue is in pending and someone claims it between the two counts,
-- drained says true although the message is in flight: its file is in processing, under the name that
-- the claim gave it.
pub drained_misses_claim :
    (s : Disk) (name to b : Text)
    → s.is_sealed ≡ true
    → s.processing ≡ []
    → s.pending ≡ (name, b) ∷ []
    → (t : Disk) × (take_pending name to s ≡ some t)
      × (drained s s t ≡ true)
      × (find_file to t.processing ≡ some b)
unfolding take_pending drained find_file remove_file write_file list_names
drained_misses_claim s name to b marked none_held waits = (
  record s { pending = []; processing = (to, b) ∷ [] },
  ground (arith, waits, none_held, eqb_text_refl name),
  rw (marked, none_held) refl,
  rw (eqb_text_refl to) refl,
)
