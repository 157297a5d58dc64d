-- ===== src/Tests/Disk.antt =====
-- Tests of queue/fileq/fileq.go: a directory that several processes share.
use gojob.Prelude.{ℕ, ◌+◌, ◌≤◌, ◌≡◌, refl, true, false, Option, none, some, [], ◌∷◌, pos, arith}
use gojob.Fileq.{Entry, entry_name, parse_name, eqb_text}
use gojob.Fileq.Decimal.{Text}
use gojob.Fileq.Disk.{
  Disk, publish_file, take_pending, ack_file, seal_disk, drained, once_more, nack_file, write_file,
  remove_file, find_file,
}
use gojob.Fileq.Disk.Conserved.{FreshReach, here, next, one_file}
use gojob.Fileq.Disk.Drained.{drained_one_file, stays, drained_misses_claim}
use gojob.Fileq.Disk.Lives.{Stands, FreshReach-Lives}
use gojob.Queue.Lifecycle.{Stage, absent, Lives}
use gojob.Fileq.Disk.Renames.{files_on, seq_count}
use gojob.Fileq.Disk.Round.{finished, delivers, receive_round}
use gojob.Fileq.Disk.System.{System, start, published, sealed, taken, acked}
use gojob.Fileq.Names.{parse_name-entry_name}

abbrev one_byte : ℕ → Option Text
one_byte x = some (x ∷ [])

abbrev first_of : Text → Option ℕ
first_of [] = none
first_of (c ∷ cs) = some c

abbrev nothing_on : Disk
nothing_on = record { pending = []; processing = []; dead = []; is_sealed = false }

abbrev fresh_one : Entry
fresh_one = record { seq = b'1' ∷ []; deliveries = pos 0; lease = pos 0 }

abbrev leased_one : Entry
leased_one = record { seq = b'1' ∷ []; deliveries = pos 1; lease = pos 50 }

abbrev one_pending : Disk
one_pending = record nothing_on { pending = (entry_name fresh_one, 7 ∷ []) ∷ [] }

abbrev one_leased : Disk
one_leased = record nothing_on { processing = (entry_name leased_one, 7 ∷ []) ∷ [] }

pending-FreshReach :
    FreshReach one_byte
      (start nothing_on)
      (record { disk = one_pending; published = (b'1' ∷ []) ∷ []; acked = [] })
unfolding start publish_file entry_name write_file
pending-FreshReach = next here (published (b'1' ∷ []) 7 one_pending refl refl) refl

read_fresh : parse_name (entry_name fresh_one) ≡ some fresh_one
read_fresh =
    parse_name-entry_name fresh_one ((λ e. absurd (omega arith)), tt) (omega arith) (omega arith)

leased-FreshReach :
    FreshReach one_byte
      (start nothing_on)
      (record { disk = one_leased; published = (b'1' ∷ []) ∷ []; acked = [] })
unfolding take_pending once_more entry_name write_file find_file remove_file eqb_text
leased-FreshReach =
    next pending-FreshReach
      (taken (entry_name fresh_one) fresh_one (pos 50) one_leased read_fresh refl refl) tt

abbrev sealed_leased : Disk
sealed_leased = record one_leased { is_sealed = true }

abbrev sealed_system : System
sealed_system = record { disk = sealed_leased; published = (b'1' ∷ []) ∷ []; acked = [] }

sealed-FreshReach : FreshReach one_byte (start nothing_on) sealed_system
unfolding seal_disk
sealed-FreshReach = next leased-FreshReach (sealed refl) tt

-- Acknowledged and sealed.
abbrev done_disk : Disk
done_disk = record nothing_on { is_sealed = true }

done-FreshReach :
    FreshReach one_byte
      (start nothing_on)
      (record { disk = done_disk; published = (b'1' ∷ []) ∷ []; acked = (b'1' ∷ []) ∷ [] })
unfolding ack_file seal_disk find_file remove_file entry_name eqb_text
done-FreshReach =
    next {t = record { disk = nothing_on; published = (b'1' ∷ []) ∷ []; acked = (b'1' ∷ []) ∷ [] }}
      (next leased-FreshReach (acked leased_one nothing_on refl refl) tt) (sealed refl) tt

one_file_example :
    (seq_count (b'1' ∷ []) ((b'1' ∷ []) ∷ []) ≡ files_on (b'1' ∷ []) one_leased + 0)
    × (seq_count (b'1' ∷ []) ((b'1' ∷ []) ∷ []) ≤ 1)
one_file_example = one_file one_byte nothing_on (λ q. refl) leased-FreshReach (b'1' ∷ [])

abbrev done_system : System
done_system = record { disk = done_disk; published = (b'1' ∷ []) ∷ []; acked = (b'1' ∷ []) ∷ [] }

-- The marker is read before the ack, the directories are counted after it.
drained_one_file_example :
    seq_count (b'1' ∷ []) ((b'1' ∷ []) ∷ []) ≡ 0 + seq_count (b'1' ∷ []) ((b'1' ∷ []) ∷ [])
unfolding drained ack_file find_file remove_file entry_name eqb_text
drained_one_file_example =
    drained_one_file one_byte nothing_on {s = sealed_system} {t = done_system} {u = done_system}
      (λ q. refl) tt tt sealed-FreshReach (next here (acked leased_one done_disk refl refl) tt)
      stays refl (b'1' ∷ [])

-- A sealed queue whose only message is held under a lease. It is nacked before the count of processing
-- and claimed once more before that of pending: drained says true, and the message is in processing.
abbrev waiting_again : Disk
waiting_again = record sealed_leased {
  processing = [];
  pending = (entry_name (record leased_one { lease = pos 0 }), 7 ∷ []) ∷ [];
}

abbrev held_again : Disk
held_again = record sealed_leased {
  processing = (entry_name (record leased_one { deliveries = pos 2; lease = pos 90 }), 7 ∷ []) ∷ [];
}

drained_in_flight :
    (nack_file leased_one sealed_leased ≡ some waiting_again)
    × (take_pending
          (entry_name (record leased_one { lease = pos 0 }))
          (entry_name (once_more (pos 90) (record leased_one { lease = pos 0 })))
          waiting_again
        ≡ some held_again)
    × (drained sealed_leased waiting_again held_again ≡ true)
unfolding drained nack_file take_pending once_more entry_name eqb_text
drained_in_flight = (refl, refl, refl)

FreshReach-Lives_example :
    (a b : Stage) × Lives absent a
    × Stands (b'1' ∷ []) a one_leased []
    × Lives a b
    × Stands (b'1' ∷ []) b done_disk ((b'1' ∷ []) ∷ [])
unfolding ack_file seal_disk find_file remove_file entry_name eqb_text
FreshReach-Lives_example =
    FreshReach-Lives one_byte nothing_on {t = done_system} (λ q. refl) leased-FreshReach
      (next {t = record done_system { disk = nothing_on }}
        (next here (acked leased_one nothing_on refl refl) tt) (sealed refl) tt)
      (b'1' ∷ [])

abbrev pending_system : System
pending_system = record { disk = one_pending; published = (b'1' ∷ []) ∷ []; acked = [] }

-- The round delivers the message under its lease; on the sealed and empty queue it finishes.
rounds :
    ((receive_round first_of (λ n. pos 50) (pos 3) one_pending one_leased one_leased one_leased).1
      ≡ delivers leased_one 7)
    × ((receive_round first_of (λ n. pos 50) (pos 3) done_disk done_disk done_disk done_disk).1
        ≡ finished)
unfolding receive_round entry_name
rounds = (refl, refl)

abbrev misled : Disk
misled = record nothing_on { pending = (entry_name fresh_one, 7 ∷ []) ∷ []; is_sealed = true }

drained_misses_claim_example :
    (t : Disk) × (take_pending (entry_name fresh_one) (entry_name leased_one) misled ≡ some t)
    × (drained misled misled t ≡ true)
    × (find_file (entry_name leased_one) t.processing ≡ some (7 ∷ []))
drained_misses_claim_example =
    drained_misses_claim misled (entry_name fresh_one) (entry_name leased_one) (7 ∷ []) refl refl
      refl

-- A callback that comes after the lease was reclaimed and the message claimed again finds no file.
late_nack_missing :
    nack_file leased_one (record nothing_on {
      processing =
          (entry_name (record leased_one { deliveries = pos 2; lease = pos 90 }), 7 ∷ []) ∷ [];
    })
    ≡ none
unfolding nack_file entry_name eqb_text
late_nack_missing = refl
