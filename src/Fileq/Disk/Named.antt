-- ===== src/Fileq/Disk/Named.antt =====
-- The directories of a file queue hold message files only (queue/fileq/fileq.go).
use gojob.Prelude.{
  ◌≡◌, refl, sym, ◌∙◌, true, false, Option, some, List, [], ◌∷◌, pos, arith, Option-cases, inl, inr,
  All,
}
use gojob.Fileq.{Entry, entry_name, suffix}
use gojob.Fileq.Decimal.{Text}
use gojob.Fileq.Disk.{
  Dir, Disk, is_message, insert, list_names, remove_file, write_file, find_file, is_empty,
  once_more, take_pending, put_back, bury, waiting_name, publish_file, seal_disk, ack_file,
  nack_file, dead_letter_file, divert,
}
use gojob.Fileq.Disk.Conserved.{FreshReach, here, next}
use gojob.Fileq.Disk.System.{
  System, Step, published, sealed, taken, reclaimed, acked, nacked, dead_lettered, diverted,
}
use gojob.Fileq.Names.{cut_suffix-append, entry_name_shape}

abbrev pub AllMessages : Dir → Type 0
AllMessages = All (λ f. is_message f.0 ≡ true)

entry_name-is_message : (e : Entry) → is_message (entry_name e) ≡ true
unfolding is_message
entry_name-is_message e = rw (is_message, entry_name_shape e, cut_suffix-append suffix _) refl

remove_file-AllMessages :
    (n : Text) (files : Dir) → AllMessages files → AllMessages (remove_file n files)
unfolding remove_file
remove_file-AllMessages n [] h = tt
remove_file-AllMessages n ((m, b) ∷ files) (g, h) =
    ground (arith, remove_file-AllMessages n files h)

insert-cons : (x : Text) (xs : List Text) → is_empty (insert x xs) ≡ false
unfolding insert
insert-cons x [] = refl
insert-cons x (y ∷ ys) = ground arith

pub list_names-empty :
    (files : Dir) → AllMessages files → is_empty (list_names files) ≡ true → files ≡ []
unfolding list_names
list_names-empty [] h e = refl
list_names-empty ((n, b) ∷ files) (g, h) e = ground (arith, g, insert-cons n (list_names files))

-- Both directories that a claim or a reclaim reads hold messages only.
pub record IsNamed (d : Disk) : Type 0 where
  pub pending : AllMessages d.pending
  pub processing : AllMessages d.processing

write_entry :
    (e : Entry) (b : Text) (files : Dir)
    → AllMessages files
    → AllMessages (write_file (entry_name e) b files)
unfolding write_file
write_entry e b files h = (entry_name-is_message e, remove_file-AllMessages (entry_name e) files h)

take_pending-IsNamed :
    (n : Text) (e : Entry) (s : Disk) {t : Disk}
    → take_pending n (entry_name e) s ≡ some t
    → IsNamed s
    → IsNamed t
unfolding take_pending
take_pending-IsNamed n e s {t} h v = elim (Option-cases (find_file n s.pending)) [
  | inl missing ↦ ground (arith, missing)
  | inr (b, there) ↦
      let after : Disk = record s {
        pending = remove_file n s.pending;
        processing = write_file (entry_name e) b s.processing;
      } in
      let done : take_pending n (entry_name e) s ≡ some after = rw (take_pending, there) refl in
      let same : after ≡ t = cc (sym done ∙ h) in
      rw (sym same) (record {
        pending = remove_file-AllMessages n s.pending v.pending;
        processing = write_entry e b s.processing v.processing;
      })
]

put_back-IsNamed :
    (n : Text) (e : Entry) (s : Disk) {t : Disk}
    → put_back n (entry_name e) s ≡ some t
    → IsNamed s
    → IsNamed t
unfolding put_back
put_back-IsNamed n e s {t} h v = elim (Option-cases (find_file n s.processing)) [
  | inl missing ↦ ground (arith, missing)
  | inr (b, there) ↦
      let after : Disk = record s {
        processing = remove_file n s.processing;
        pending = write_file (entry_name e) b s.pending;
      } in
      let done : put_back n (entry_name e) s ≡ some after = rw (put_back, there) refl in
      let same : after ≡ t = cc (sym done ∙ h) in
      rw (sym same) (record {
        pending = write_entry e b s.pending v.pending;
        processing = remove_file-AllMessages n s.processing v.processing;
      })
]

bury-IsNamed :
    (n : Text) (e : Entry) (s : Disk) {t : Disk}
    → bury n (entry_name e) s ≡ some t
    → IsNamed s
    → IsNamed t
unfolding bury
bury-IsNamed n e s {t} h v = elim (Option-cases (find_file n s.processing)) [
  | inl missing ↦ ground (arith, missing)
  | inr (b, there) ↦
      let after : Disk = record s {
        processing = remove_file n s.processing;
        dead = write_file (entry_name e) b s.dead;
      } in
      let done : bury n (entry_name e) s ≡ some after = rw (bury, there) refl in
      let same : after ≡ t = cc (sym done ∙ h) in
      rw (sym same) (record {
        pending = v.pending;
        processing = remove_file-AllMessages n s.processing v.processing;
      })
]

ack_file-IsNamed : (e : Entry) (s : Disk) {t : Disk} → ack_file e s ≡ some t → IsNamed s → IsNamed t
unfolding ack_file
ack_file-IsNamed e s {t} h v = elim (Option-cases (find_file (entry_name e) s.processing)) [
  | inl missing ↦ ground (arith, missing)
  | inr (b, there) ↦
      let after : Disk = record s { processing = remove_file (entry_name e) s.processing } in
      let done : ack_file e s ≡ some after = rw (ack_file, there) refl in
      let same : after ≡ t = cc (sym done ∙ h) in
      rw (sym same) (record {
        pending = v.pending;
        processing = remove_file-AllMessages (entry_name e) s.processing v.processing;
      })
]

divert-IsNamed : (e : Entry) (s : Disk) → IsNamed s → IsNamed (divert e s)
unfolding divert
divert-IsNamed e s v = elim (Option-cases (bury (entry_name e) (waiting_name e) s)) [
  | inl missing ↦ rw (divert, missing) v
  | inr (t, moved) ↦ rw (divert, moved) (bury-IsNamed _ (record e { lease = pos 0 }) s moved v)
]

module _ {ℓ} {T : Type ℓ} (marshal : T → Option Text) where
  publish_file-IsNamed :
      (seq : Text) (payload : T) (s : Disk) {t : Disk}
      → publish_file marshal seq payload s ≡ some t
      → IsNamed s
      → IsNamed t
  unfolding publish_file
  publish_file-IsNamed seq payload s {t} h v = elim (Option-cases (marshal payload)) [
    | inl bad ↦ ground (arith, bad)
    | inr (b, good) ↦
        let e : Entry = record { seq = seq; deliveries = pos 0; lease = pos 0 } in
        let after : Disk = record s { pending = write_file (entry_name e) b s.pending } in
        let done : publish_file marshal seq payload s ≡ some after = rw (publish_file, good) refl in
        let same : after ≡ t = cc (sym done ∙ h) in
        rw (sym same)
          (record { pending = write_entry e b s.pending v.pending; processing = v.processing })
  ]

  Step-IsNamed : {s t : System} → Step marshal s t → IsNamed s.disk → IsNamed t.disk
  unfolding nack_file dead_letter_file seal_disk
  Step-IsNamed {s} (published seq payload d w f) v =
      rw f (publish_file-IsNamed seq payload s.disk w v)
  Step-IsNamed {s} (sealed f) v = rw f (record { pending = v.pending; processing = v.processing })
  Step-IsNamed {s} (taken name e lease d parsed w f) v =
      rw f (take_pending-IsNamed name (once_more lease e) s.disk w v)
  Step-IsNamed {s} (reclaimed name e now d parsed late w f) v =
      rw f (put_back-IsNamed name (record e { lease = pos 0 }) s.disk w v)
  Step-IsNamed {s} (acked e d w f) v = rw f (ack_file-IsNamed e s.disk w v)
  Step-IsNamed {s} (nacked e d w f) v =
      rw f (put_back-IsNamed _ (record e { lease = pos 0 }) s.disk w v)
  Step-IsNamed {s} (dead_lettered e d w f) v =
      rw f (bury-IsNamed _ (record e { lease = pos 0 }) s.disk w v)
  Step-IsNamed {s} (diverted e f) v = rw f (divert-IsNamed e s.disk v)

  pub Reach-IsNamed : {s t : System} → FreshReach marshal s t → IsNamed s.disk → IsNamed t.disk
  Reach-IsNamed here v = v
  Reach-IsNamed (next p st fresh) v = Step-IsNamed st (Reach-IsNamed p v)
