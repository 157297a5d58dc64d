-- ===== src/Tests/Pipeline.antt =====
-- Tests of source.go, shard.go, sink.go and stats.go.
use gojob.Prelude.{
  ℕ, ◌≡◌, ◌==◌, refl, true, false, Option, none, some, List, [], ◌∷◌, ℤ, pos, negsuc, if◌then◌else◌,
  All, ◌-ℤ◌,
}
use gojob.Shard.{shard_stream}
use gojob.Sink.{returned, Encoded, text, failed, encode, write_jsonl, TeeRun, tee}
use gojob.Sink.Jsonl.{Lines, IsRun, write_jsonl-IsRun}
use gojob.Sink.Lockstep.{Lockstep, tee-Lockstep}
use gojob.Source.{from}
use gojob.Stats.{
  Stats, StatsOption, with_total, with_stats, new_stats, snapshot, observe, count_all, done_added,
  failed_added, counts_of, stats_stream, tick, finished, Snapshot,
}
use gojob.Stats.Counts.{AllOffered, IsCount, with_stats-IsCount}
use gojob.Stats.Torn.{counts_of_all}
use gojob.Stream.{Stream, Turn, accept, cancel}
use gojob.Stream.Relay.{IsAccept}
use gojob.Task.{Error, canceled, other, Result, ResultJson, to_json}

abbrev letters : List ℕ
letters = b'a' ∷ b'b' ∷ b'c' ∷ b'd' ∷ b'e' ∷ []

abbrev input : Stream ℕ
input = record { items = letters; closed = true }

abbrev five : List Turn
five = accept ∷ accept ∷ accept ∷ accept ∷ accept ∷ []

no_cancels : All IsAccept five
no_cancels = (refl, (refl, (refl, (refl, (refl, tt)))))

from_cancelled : from letters (accept ∷ cancel ∷ []) ≡ record { items = b'a' ∷ []; closed = true }
unfolding from
from_cancelled = refl

second_of_three :
    shard_stream (pos 3) (pos 1) input five ≡ record { items = b'b' ∷ b'e' ∷ []; closed = true }
unfolding shard_stream
second_of_three = refl

one_shard : shard_stream (pos 1) (pos 7) input [] ≡ input
unfolding shard_stream
one_shard = refl

tee_cancelled :
    tee input (pos 2) (accept ∷ accept ∷ accept ∷ cancel ∷ [])
    ≡ some (record { outs = (b'a' ∷ b'b' ∷ []) ∷ (b'a' ∷ []) ∷ []; closed = true })
unfolding tee
tee_cancelled = refl

tee_panics : tee input (negsuc 0) [] ≡ none
unfolding tee
tee_panics = refl

tee-Lockstep_example :
    (run : TeeRun ℕ) × (tee input (pos 2) (accept ∷ cancel ∷ []) ≡ some run)
    × Lockstep 2 [] letters run.outs
tee-Lockstep_example = tee-Lockstep input 2 (accept ∷ cancel ∷ [])

abbrev result_of : ℕ → Option Error → Result ℕ
result_of v e = record { value = v; err = e; attempts = 1; started_at = pos 0; duration = pos 0 }

abbrev good : Result ℕ
good = result_of 1 none

abbrev bad : Result ℕ
bad = result_of 2 (some (other "boom"))

-- The value as the text, and a value of 3 that does not encode.
abbrev marshal : ResultJson ℕ → Encoded ℕ
marshal r = if r.value == 3 then failed (other "json") else text r.value

abbrev writes : ℕ → Option Error
writes i = none

abbrev results : Stream (Result ℕ)
results = record { items = good ∷ bad ∷ []; closed = true }

abbrev poisoned : Stream (Result ℕ)
poisoned = record { items = good ∷ result_of 3 none ∷ bad ∷ []; closed = true }

first_error :
    write_jsonl marshal writes canceled poisoned five ≡ (1 ∷ [], returned (some (other "json")))
unfolding write_jsonl to_json
first_error = refl

write_jsonl-IsRun_example :
    IsRun marshal writes canceled 0 poisoned.items true
      (write_jsonl marshal writes canceled poisoned five).0
      (write_jsonl marshal writes canceled poisoned five).1
write_jsonl-IsRun_example = write_jsonl-IsRun marshal writes canceled poisoned five

both_written : Lines marshal writes canceled 0 (good ∷ bad ∷ []) (1 ∷ 2 ∷ [])
unfolding encode to_json
both_written =
    Lines.line_of {r = good} {line = 1} refl
      (Lines.line_of {r = bad} {line = 2} refl Lines.none_left)

abbrev opts : List StatsOption
opts = with_total (pos 2) ∷ []

counted :
    ((with_stats true opts (pos 0) results five).1.done ≡ 2)
    × ((with_stats true opts (pos 0) results five).1.failed ≡ 1)
    × ((with_stats true opts (pos 0) results five).1.total ≡ pos 2)
unfolding with_stats with_total
counted = (refl, refl, refl)

with_stats-IsCount_example :
    IsCount true
      (new_stats opts (pos 0))
      results.items
      (with_stats true opts (pos 0) results five).0
      (with_stats true opts (pos 0) results five).1
    × ((new_stats opts (pos 0)).done ≡ 0)
    × ((new_stats opts (pos 0)).failed ≡ 0)
with_stats-IsCount_example =
    with_stats-IsCount true opts (pos 0) results five (AllOffered.cons (pos 2) AllOffered.nil)

abbrev fresh : Stats
fresh = record { total = negsuc 0; done = 0; failed = 0; started = pos 0; fin = false }

-- No result at the first load and two failures at the second: minus two succeeded.
torn : (snapshot fresh (observe bad (observe bad fresh)) (pos 9)).succeeded ≡ negsuc 1
unfolding snapshot observe ◌-ℤ◌
torn = refl

-- Both loads between the two additions for a failure: it counts as a success.
not_yet_failed :
    let between = count_all (done_added ∷ []) fresh in
    ((snapshot between between (pos 9)).succeeded ≡ pos 1)
    × (counts_of_all (bad ∷ []) ≡ done_added ∷ failed_added ∷ [])
unfolding snapshot count_all counts_of_all counts_of ◌-ℤ◌
not_yet_failed = (refl, refl)

abbrev snap_at : ℤ → Snapshot
snap_at n = record { total = n; done = n; succeeded = n; failed = pos 0; elapsed = n }

-- The final snapshot comes last, and closes the channel.
final_snapshot :
    stats_stream (tick (snap_at (pos 1)) ∷ finished (snap_at (pos 2)) ∷ [])
    ≡ record { items = snap_at (pos 1) ∷ snap_at (pos 2) ∷ []; closed = true }
unfolding stats_stream
final_snapshot = refl
