-- ===== src/Fileq/Disk/Lives.antt =====
-- Every run of a file queue is a run of the life cycle, for each sequence (queue/fileq/fileq.go).
use gojob.Prelude.{
  ◌≤◌, ◌≡◌, refl, sym, ap, ◌∙◌, Option, some, List, ◌∷◌, pos, arith, Option-cases, inl, inr,
}
use gojob.Fileq.{Entry, entry_name}
use gojob.Fileq.Decimal.{Text}
use gojob.Fileq.Disk.{
  Disk, write_file, once_more, publish_file, seal_disk, put_back, bury, waiting_name, nack_file,
  dead_letter_file, divert,
}
use gojob.Fileq.Disk.Conserved.{
  IsOnce, few, IsFresh, FreshReach, here, next, Step-IsOnce, Reach-IsOnce, start-IsOnce,
}
use gojob.Fileq.Disk.Renames.{
  one_if, file_count, seq_count, files_on, take_pending-Shift, put_back-Shift, bury-Shift,
  ack_file-leaves,
}
use gojob.Fileq.Disk.Seq.{seq_of, seq_of-entry_name, seq_of-parse_name}
use gojob.Fileq.Disk.System.{
  System, start, Step, published, sealed, taken, reclaimed, acked, nacked, dead_lettered, diverted,
}
use gojob.Queue.Lifecycle.{
  Stage, absent, Lives, here, Lives-trans, IsAt, Becomes, published_now, delivered_now, given_back,
  buried, acked_now,
}

-- The stage of a sequence, by the directories of its files.
abbrev pub Stands : Text → Stage → Disk → List Text → Type 0
Stands q st d ack =
    IsAt st (file_count q d.pending) (file_count q d.processing) (file_count q d.dead)
      (seq_count q ack)

-- The stage that a sequence goes on to.
abbrev pub GoesOn : Text → Stage → Disk → List Text → Type 0
GoesOn q st d ack =
    Becomes st (file_count q d.pending) (file_count q d.processing) (file_count q d.dead)
      (seq_count q ack)

one_if_most : (s q : Text) → one_if s q ≤ 1
one_if_most s q = ground arith

put_back-GoesOn :
    (q n n' : Text) (s : Disk) (ack : List Text) (st : Stage) {t : Disk}
    → put_back n n' s ≡ some t
    → seq_of n' ≡ seq_of n
    → files_on (seq_of n) s ≤ 1
    → Stands q st s ack
    → GoesOn q st t ack
put_back-GoesOn q n n' s ack st e same u v =
    let ((out, into), rest) = put_back-Shift q n n' s e same u in
    given_back st (one_if (seq_of n) q) _ _ _ _ _ _ _ _ (one_if_most (seq_of n) q) v into out
      (ap (file_count q) rest) refl

bury-GoesOn :
    (q n n' : Text) (s : Disk) (ack : List Text) (st : Stage) {t : Disk}
    → bury n n' s ≡ some t
    → seq_of n' ≡ seq_of n
    → files_on (seq_of n) s ≤ 1
    → Stands q st s ack
    → GoesOn q st t ack
bury-GoesOn q n n' s ack st e same u v =
    let ((out, into), rest) = bury-Shift q n n' s e same u in
    buried st (one_if (seq_of n) q) _ _ _ _ _ _ _ _ (one_if_most (seq_of n) q) v
      (ap (file_count q) rest) out into refl

-- The name of an entry, with or without its lease, has its sequence.
seq_of-waiting_name : (e : Entry) → seq_of (waiting_name e) ≡ seq_of (entry_name e)
seq_of-waiting_name e = seq_of-entry_name (record e { lease = pos 0 }) ∙ sym (seq_of-entry_name e)

few_named : (s : System) → IsOnce s → (n : Text) → files_on (seq_of n) s.disk ≤ 1
few_named s x n = few s x (seq_of n)

divert-GoesOn :
    (q : Text) (e : Entry) (s : Disk) (ack : List Text) (st : Stage)
    → files_on (seq_of (entry_name e)) s ≤ 1
    → Stands q st s ack
    → GoesOn q st (divert e s) ack
unfolding divert
divert-GoesOn q e s ack st u v = elim (Option-cases (bury (entry_name e) (waiting_name e) s)) [
  | inl missing ↦ rw (divert, missing) (st, here, v)
  | inr (t, gone) ↦ rw (divert, gone) (bury-GoesOn q _ _ s ack st gone (seq_of-waiting_name e) u v)
]

module _ {ℓ} {T : Type ℓ} (marshal : T → Option Text) where
  publish_file-rest :
      (seq : Text) (payload : T) (s : Disk) {d : Disk}
      → publish_file marshal seq payload s ≡ some d
      → (d.processing ≡ s.processing) × (d.dead ≡ s.dead)
  unfolding publish_file
  publish_file-rest seq payload s {d} w = elim (Option-cases (marshal payload)) [
    | inl bad ↦ ground (arith, bad)
    | inr (b, good) ↦
        let name = entry_name (record { seq = seq; deliveries = pos 0; lease = pos 0 }) in
        let after : Disk = record s { pending = write_file name b s.pending } in
        let done : publish_file marshal seq payload s ≡ some after = rw (publish_file, good) refl in
        let same_disk : after ≡ d = cc (sym done ∙ w) in rw (sym same_disk) (refl, refl)
  ]

  publish_file-GoesOn :
      (q seq : Text) (payload : T) (s : System) (d : Disk) (st : Stage)
      → publish_file marshal seq payload s.disk ≡ some d
      → IsOnce s
      → IsOnce (record s { disk = d; published = seq ∷ s.published })
      → Stands q st s.disk s.acked
      → GoesOn q st d s.acked
  publish_file-GoesOn q seq payload s d st w x y v =
      let (f, r) = publish_file-rest seq payload s.disk w in
      let same_f : file_count q d.processing ≡ file_count q s.disk.processing =
        ap (file_count q) f in
      let same_d : file_count q d.dead ≡ file_count q s.disk.dead = ap (file_count q) r in
      published_now st (one_if (seq_of seq) q) _ _ _ _ _ _ _ _ (omega (arith, y.placed q, y.once q))
        v (omega (arith, x.placed q, y.placed q, same_f, same_d)) same_f same_d refl

  Step-GoesOn :
      {s t : System} (q : Text) (st : Stage) (step : Step marshal s t)
      → IsFresh marshal step
      → IsOnce s
      → Stands q st s.disk s.acked
      → GoesOn q st t.disk t.acked
  unfolding nack_file dead_letter_file seal_disk
  Step-GoesOn {s} q st (published seq payload d w e) fresh x v =
      let y = Step-IsOnce marshal (published seq payload d w refl) fresh x in
      rw e (publish_file-GoesOn q seq payload s d st w x y v)
  Step-GoesOn {s} q st (sealed e) fresh x v = rw e (st, here, v)
  Step-GoesOn {s} q st (taken name e lease d parsed w f) fresh x v =
      let same : seq_of (entry_name (once_more lease e)) ≡ seq_of name =
        unfold once_more in seq_of-entry_name (once_more lease e) ∙ seq_of-parse_name name parsed in
      let ((out, into), rest) = take_pending-Shift q name _ s.disk w same (few_named s x name) in
      rw f (
        delivered_now st (one_if (seq_of name) q) _ _ _ _ _ _ _ _ (one_if_most (seq_of name) q) v
          out into (ap (file_count q) rest) refl)
  Step-GoesOn {s} q st (reclaimed name e now d parsed late w f) fresh x v =
      let same : seq_of (waiting_name e) ≡ seq_of name =
        seq_of-entry_name (record e { lease = pos 0 }) ∙ seq_of-parse_name name parsed in
      rw f (put_back-GoesOn q name _ s.disk s.acked st w same (few_named s x name) v)
  Step-GoesOn {s} q st (acked e d w f) fresh x v =
      let (out, p, r) = ack_file-leaves q e s.disk w (few s x (seq_of e.seq)) in
      rw f (
        acked_now st (one_if (seq_of e.seq) q) _ _ _ _ _ _ _ _ (one_if_most (seq_of e.seq) q) v
          (ap (file_count q) p) out (ap (file_count q) r) (omega arith))
  Step-GoesOn {s} q st (nacked e d w f) fresh x v = rw f (
      put_back-GoesOn q _ _ s.disk s.acked st w (seq_of-waiting_name e)
        (few_named s x (entry_name e)) v)
  Step-GoesOn {s} q st (dead_lettered e d w f) fresh x v = rw f (
      bury-GoesOn q _ _ s.disk s.acked st w (seq_of-waiting_name e) (few_named s x (entry_name e))
        v)
  Step-GoesOn {s} q st (diverted e f) fresh x v =
      rw f (divert-GoesOn q e s.disk s.acked st (few_named s x (entry_name e)) v)

  Reach-GoesOn :
      {s t : System} (q : Text) (st : Stage)
      → FreshReach marshal s t
      → IsOnce s
      → Stands q st s.disk s.acked
      → GoesOn q st t.disk t.acked
  Reach-GoesOn q st here x v = (st, here, v)
  Reach-GoesOn q st (next p step fresh) x v =
      let (st', path, v') = Reach-GoesOn q st p x v in
      let (st'', path', v'') = Step-GoesOn q st' step fresh (Reach-IsOnce marshal p x) v' in
      (st'', Lives-trans path path', v'')

  -- On a directory that starts without messages, and as long as no sequence is drawn twice, each
  -- message lives by the life cycle, late callbacks included: it is published once, delivered and
  -- given back any number of times, and then acknowledged or dead-lettered for good. Where it stands
  -- at any moment of a run is a stage of that machine, and from moment to moment it only goes on.
  pub FreshReach-Lives :
      (empty : Disk) {s t : System}
      → ((q : Text) → files_on q empty ≡ 0)
      → FreshReach marshal (start empty) s
      → FreshReach marshal s t
      → (q : Text)
      → (a b : Stage) × Lives absent a
        × Stands q a s.disk s.acked
        × Lives a b
        × Stands q b t.disk t.acked
  FreshReach-Lives empty {s} {t} nothing p r q =
      let x = start-IsOnce marshal empty nothing in
      let begin : Stands q absent (start empty).disk ((start empty).acked) =
        unfold start in omega (arith, nothing q) in
      let (a, before, at) = Reach-GoesOn q absent p x begin in
      let (b, after, at') = Reach-GoesOn q a r (Reach-IsOnce marshal p x) at in
      (a, b, before, at, after, at')
