-- ===== src/Tests/Files.antt =====
-- Tests of queue/fileq/fileq.go: names of message files.
use gojob.Prelude.{ℕ, ◌≡◌, refl, inr, true, false, Option, some, none, [], ◌∷◌, pos, negsuc, arith}
use gojob.Fileq.{Entry, entry_name, parse_name, ltb_text}
use gojob.Fileq.Disk.{
  publish_file, seal_disk, dead_count, Disk, claim, list_names, drained, reclaim_expired, nack_file,
}
use gojob.Fileq.Disk.Claim.{IsClaimed, claim-IsClaimed}
use gojob.Fileq.Decimal.{Text, format_int, parse_int}
use gojob.Fileq.Names.{NoDot}
use gojob.Fileq.Options
use gojob.Fileq.Order.{later_sorts_after, numbered}

abbrev leased : Entry
leased = record {
  seq = b'1' ∷ b'7' ∷ b'_' ∷ b'2' ∷ [];
  deliveries = pos 3;
  lease = pos 1700000000000000000;
}

no_dot : NoDot leased.seq
no_dot = (
  λ e. absurd (omega arith),
  (λ e. absurd (omega arith), (λ e. absurd (omega arith), (λ e. absurd (omega arith), tt))),
)

-- A name without the ending, and one with two parts, are no messages.
refused :
    (parse_name (b'1' ∷ b'.' ∷ b'2' ∷ b'.' ∷ b'0' ∷ []) ≡ none)
    × (parse_name (b'1' ∷ b'.' ∷ b'2' ∷ b'.' ∷ b'j' ∷ b's' ∷ b'o' ∷ b'n' ∷ []) ≡ none)
unfolding parse_name
refused = (refl, refl)

-- Signs, and the two ends of int64.
signed :
    (format_int (negsuc 41) ≡ b'-' ∷ b'4' ∷ b'2' ∷ [])
    × (parse_int (b'+' ∷ b'0' ∷ b'7' ∷ []) ≡ some (pos 7))
    × (parse_int (format_int (pos 9223372036854775808)) ≡ none)
unfolding format_int parse_int
signed = (refl, refl, refl)

-- The ninth message sorts before the tenth.
later_sorts_after_example :
    ltb_text (numbered 17 9 (pos 3) (pos 0)) (numbered 17 10 (pos 0) (pos 0)) ≡ true
later_sorts_after_example =
    later_sorts_after 17 17 9 10 (pos 3) (pos 0) (pos 0) (pos 0) (omega arith)
      (inr (refl, omega arith, omega arith))

-- A lease that is not positive is ignored, and so is a poll interval.
configured :
    Options.apply_options
      (Options.with_lease (pos 5)
        ∷ Options.with_lease (negsuc 0)
        ∷ Options.with_poll_interval (pos 0)
        ∷ [])
      Options.defaults
    ≡ record Options.defaults { lease = pos 5 }
unfolding Options.apply_options Options.with_lease Options.with_poll_interval Options.defaults
configured = refl

-- Two published files, of which the first is empty and cannot be decoded.
abbrev fresh_entry : ℕ → Entry
fresh_entry c = record { seq = c ∷ []; deliveries = pos 0; lease = pos 0 }

abbrev two_files : Disk
two_files = record {
  pending = (entry_name (fresh_entry b'2'), b'7' ∷ []) ∷ (entry_name (fresh_entry b'1'), []) ∷ [];
  processing = [];
  dead = [];
  is_sealed = true;
}

abbrev first_byte : Text → Option ℕ
first_byte [] = none
first_byte (c ∷ cs) = some c

abbrev after_claim : Disk
after_claim = record {
  pending = [];
  processing =
      (entry_name (record (fresh_entry b'2') { deliveries = pos 1; lease = pos 50 }), b'7' ∷ [])
      ∷ [];
  dead = (entry_name (record (fresh_entry b'1') { deliveries = pos 1 }), []) ∷ [];
  is_sealed = true;
}

-- The empty file is diverted, and the other one is leased.
claimed_second :
    claim first_byte (λ n. pos 50) two_files
    ≡ (after_claim, some (record (fresh_entry b'2') { deliveries = pos 1; lease = pos 50 }, b'7'))
unfolding claim entry_name ltb_text
claimed_second = refl

claim-IsClaimed_example :
    IsClaimed first_byte
      (λ n. pos 50)
      (list_names two_files.pending)
      after_claim
      (record (fresh_entry b'2') { deliveries = pos 1; lease = pos 50 })
      b'7'
claim-IsClaimed_example = claim-IsClaimed first_byte (λ n. pos 50) two_files claimed_second

-- A lease that has passed is returned to pending with its count; before that the queue is not drained.
reclaimed :
    (let after = reclaim_expired (pos 51) after_claim in drained after after after ≡ false)
    × (list_names (reclaim_expired (pos 51) after_claim).pending
        ≡ entry_name (record (fresh_entry b'2') { deliveries = pos 1 }) ∷ [])
    × (nack_file
          (record (fresh_entry b'2') { deliveries = pos 1; lease = pos 50 })
          (reclaim_expired (pos 51) after_claim)
        ≡ none)
unfolding drained reclaim_expired entry_name nack_file
reclaimed = (refl, refl, refl)

-- A payload that cannot be encoded is not published; a diverted file counts as dead.
published_once :
    (publish_file {T = ℕ} (λ x. none) (b'1' ∷ []) 7 (seal_disk two_files) ≡ none)
    × (dead_count after_claim ≡ 1)
unfolding publish_file dead_count entry_name
published_once = (refl, refl)
