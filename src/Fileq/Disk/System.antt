-- ===== src/Fileq/Disk/System.antt =====
-- The processes that share the directory of a file queue (queue/fileq/fileq.go). A step is one file
-- operation that succeeds; one that fails changes nothing. A callback may come at any time, for any
-- entry that was ever claimed, and any number of times.
use gojob.Prelude.{◌≡◌, true, Option, some, List, [], ◌∷◌, ℤ, ltb_ℤ}
use gojob.Fileq.{Entry, entry_name, parse_name}
use gojob.Fileq.Decimal.{Text}
use gojob.Fileq.Disk.{
  Disk, once_more, publish_file, seal_disk, take_pending, put_back, waiting_name, ack_file,
  nack_file, dead_letter_file, divert,
}

-- The last two fields are not in the program: the sequences published, and those acknowledged.
pub record System : Type 0 where
  pub disk : Disk
  pub published : List Text
  pub acked : List Text

unfoldable pub start : Disk → System
start disk = record { disk = disk; published = []; acked = [] }

module _ {ℓ} {T : Type ℓ} (marshal : T → Option Text) where
  pub data Step (s t : System) : Type ℓ where
    published :
        (seq : Text) (payload : T) (d : Disk)
        → publish_file marshal seq payload s.disk ≡ some d
        → t ≡ record s { disk = d; published = seq ∷ s.published }
        → Step s t
    sealed : t ≡ record s { disk = seal_disk s.disk } → Step s t
    -- The rename of claim, for a name from any listing.
    taken :
        (name : Text) (e : Entry) (lease : ℤ) (d : Disk)
        → parse_name name ≡ some e
        → take_pending name (entry_name (once_more lease e)) s.disk ≡ some d
        → t ≡ record s { disk = d }
        → Step s t
    -- The rename of reclaimExpired.
    reclaimed :
        (name : Text) (e : Entry) (now : ℤ) (d : Disk)
        → parse_name name ≡ some e
        → ltb_ℤ e.lease now ≡ true
        → put_back name (waiting_name e) s.disk ≡ some d
        → t ≡ record s { disk = d }
        → Step s t
    acked :
        (e : Entry) (d : Disk)
        → ack_file e s.disk ≡ some d
        → t ≡ record s { disk = d; acked = e.seq ∷ s.acked }
        → Step s t
    nacked :
        (e : Entry) (d : Disk) → nack_file e s.disk ≡ some d → t ≡ record s { disk = d } → Step s t
    dead_lettered :
        (e : Entry) (d : Disk)
        → dead_letter_file e s.disk ≡ some d
        → t ≡ record s { disk = d }
        → Step s t
    diverted : (e : Entry) → t ≡ record s { disk = divert e s.disk } → Step s t

  pub data Reach (s : System) : System → Type ℓ where
    here : Reach s s
    next : {t u : System} → Reach s t → Step t u → Reach s u
