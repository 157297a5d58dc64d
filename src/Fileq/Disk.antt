-- ===== src/Fileq/Disk.antt =====
-- The directories of a file queue and the operations on them (queue/fileq/fileq.go). A directory is
-- the list of its files by name. A file operation fails where its file is missing, and else does
-- what it is asked; the codec and the clock are the caller's.
pub mod Claim
pub mod Seq
pub mod System
pub mod Renames
pub mod Conserved
pub mod Round
pub mod Named
pub mod Drained
pub mod Lives
use gojob.Prelude.{
  length, ℕ, ℕ, ◌+◌, ◌==◌, ◌&&◌, Bool, true, false, Option, none, some, List, [], ◌∷◌, ◌++◌,
  if◌then◌else◌, ℤ, pos, length, map, negsuc, sub_ℕ, pos_part, neg_part, leb_ℤ, ltb_ℤ,
}
use gojob.Fileq.{Entry, eqb_text, ltb_text, suffix, cut_suffix, entry_name, parse_name}
use gojob.Fileq.Decimal.{Text}

abbrev pub Dir : Type 0
Dir = List (Text × Text)

unfoldable pub find_file : Text → Dir → Option Text
find_file name [] = none
find_file name ((n, b) ∷ files) =
    let rest = find_file name files in if eqb_text n name then some b else rest

unfoldable pub remove_file : Text → Dir → Dir
remove_file name [] = []
remove_file name ((n, b) ∷ files) =
    let rest = remove_file name files in if eqb_text n name then rest else (n, b) ∷ rest

-- A file of that name is replaced.
unfoldable pub write_file : Text → Text → Dir → Dir
unfolding remove_file
write_file name b files = (name, b) ∷ remove_file name files

pub record Disk : Type 0 where
  pub pending : Dir
  pub processing : Dir
  pub dead : Dir
  pub is_sealed : Bool

-- list: the names that end in .json. ReadDir and sort.Strings put them in order.
unfoldable pub is_message : Text → Bool
unfolding cut_suffix suffix
is_message name = elim (cut_suffix suffix name) [ none ↦ false | some base ↦ true ]

unfoldable pub insert : Text → List Text → List Text
insert x [] = x ∷ []
insert x (y ∷ ys) = let rest = insert x ys in if ltb_text x y then x ∷ y ∷ ys else y ∷ rest

unfoldable pub list_names : Dir → List Text
unfolding is_message insert
list_names [] = []
list_names ((n, b) ∷ files) =
    let rest = list_names files in if is_message n then insert n rest else rest

-- The renames of the queue, by the directories that they join: whether the file was there, and the
-- disk after it.
unfoldable pub take_pending : Text → Text → Disk → Option Disk
unfolding find_file remove_file write_file
take_pending name name' s = elim (find_file name s.pending) [
  | none ↦ none
  | some b ↦ some (record s {
    pending = remove_file name s.pending;
    processing = write_file name' b s.processing;
  })
]

unfoldable pub put_back : Text → Text → Disk → Option Disk
unfolding find_file remove_file write_file
put_back name name' s = elim (find_file name s.processing) [
  | none ↦ none
  | some b ↦ some (record s {
    processing = remove_file name s.processing;
    pending = write_file name' b s.pending;
  })
]

unfoldable pub bury : Text → Text → Disk → Option Disk
unfolding find_file remove_file write_file
bury name name' s = elim (find_file name s.processing) [
  | none ↦ none
  | some b ↦
      some
        (record s { processing = remove_file name s.processing; dead = write_file name' b s.dead })
]

-- An error of os.Rename that is discarded, or one that ends in "try the next".
abbrev pub or_same : Disk → Option Disk → Disk
or_same s none = s
or_same s (some s') = s'

abbrev pub waiting_name : Entry → Text
waiting_name e = entry_name (record e { lease = pos 0 })

-- Publish: the `.tmp` file that it writes first is in no list.
unfoldable pub publish_file {ℓ} : {T : Type ℓ} → (T → Option Text) → Text → T → Disk → Option Disk
unfolding write_file entry_name
publish_file marshal seq payload s = elim (marshal payload) [
  | none ↦ none
  | some b ↦ some (record s {
    pending =
        write_file (entry_name (record { seq = seq; deliveries = pos 0; lease = pos 0 })) b
          s.pending;
  })
]

unfoldable pub seal_disk : Disk → Disk
seal_disk s = record s { is_sealed = true }

unfoldable pub dead_count : Disk → ℕ
unfolding list_names
dead_count s = length (list_names s.dead)

-- divert.
unfoldable pub divert : Entry → Disk → Disk
unfolding bury entry_name
divert e s = or_same s (bury (entry_name e) (waiting_name e) s)

unfoldable pub once_more : ℤ → Entry → Entry
once_more lease e = record e {
  deliveries = sub_ℕ (pos_part e.deliveries + 1) (neg_part e.deliveries);
  lease = lease;
}

-- The callbacks of wrap, on the entry of the delivered message, without their sync.Once.
unfoldable pub ack_file : Entry → Disk → Option Disk
unfolding find_file remove_file entry_name
ack_file e s = elim (find_file (entry_name e) s.processing) [
  | none ↦ none
  | some b ↦ some (record s { processing = remove_file (entry_name e) s.processing })
]

unfoldable pub nack_file : Entry → Disk → Option Disk
unfolding put_back entry_name
nack_file e s = put_back (entry_name e) (waiting_name e) s

unfoldable pub dead_letter_file : Entry → Disk → Option Disk
unfolding bury entry_name
dead_letter_file e s = bury (entry_name e) (waiting_name e) s

-- reclaimExpired, on the names of the processing directory.
unfoldable pub reclaim_names : ℤ → List Text → Disk → Disk
unfolding put_back parse_name entry_name
reclaim_names now [] s = s
reclaim_names now (n ∷ ns) s = elim (parse_name n) [
  | none ↦ reclaim_names now ns s
  | some e ↦
      reclaim_names now ns
        (if leb_ℤ now e.lease then s else or_same s (put_back n (waiting_name e) s))
]

unfoldable pub reclaim_expired : ℤ → Disk → Disk
unfolding reclaim_names list_names
reclaim_expired now s = reclaim_names now (list_names s.processing) s

abbrev pub is_empty : List Text → Bool
is_empty [] = true
is_empty (n ∷ ns) = false

-- drained makes three reads, one after the other, and others change the directories in between: the
-- disk at the read of the marker, at the count of processing, and at the count of pending.
unfoldable pub drained : Disk → Disk → Disk → Bool
unfolding list_names
drained at_marker at_processing at_pending =
    at_marker.is_sealed
    && is_empty (list_names at_processing.processing)
    && is_empty (list_names at_pending.pending)

module _ {ℓ} {T : Type ℓ} (unmarshal : Text → Option T) (lease : Text → ℤ) where
  -- What claim makes of a file that it has moved into processing: the message, or the disk without it.
  unfoldable pub decode : Entry → Disk → Option T
  unfolding find_file entry_name
  decode e s = elim (find_file (entry_name e) s.processing) [ none ↦ none | some b ↦ unmarshal b ]

  -- claim, on the names that are left; `lease` is the deadline of
  -- the new lease, by the clock when the name is tried.
  unfoldable pub claim_names : List Text → Disk → Disk × Option (Entry × T)
  unfolding parse_name once_more take_pending decode divert
  claim_names [] s = (s, none)
  claim_names (n ∷ ns) s = elim (parse_name n) [
    | none ↦ claim_names ns s
    | some e ↦ elim (take_pending n (entry_name (once_more (lease n) e)) s) [
      | none ↦ claim_names ns s
      | some s' ↦ elim (decode (once_more (lease n) e) s') [
        | some payload ↦ (s', some (once_more (lease n) e, payload))
        | none ↦ claim_names ns (divert (once_more (lease n) e) s')
      ]
    ]
  ]

  unfoldable pub claim : Disk → Disk × Option (Entry × T)
  unfolding claim_names list_names
  claim s = claim_names (list_names s.pending) s
