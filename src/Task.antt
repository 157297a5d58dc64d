-- ===== src/Task.antt =====
-- task.go: the Result of one item and the flat object that MarshalJSON hands to encoding/json.
-- Task and TaskFunc stand with Execute, in Process.Execute.
pub mod Json
use gojob.Prelude.{ℕ, suc, ◌+◌, ◌-◌, ◌/◌, Option, none, some, ℤ, pos, negsuc, String, ◌-ℤ◌, sub_ℕ}

-- The errors that the library tells apart; any other carries its message.
pub data Error : Type 0 where
  canceled deadline_exceeded queue_closed : Error
  other : String → Error

-- `Error()` of the standard library's two context errors and of queue.ErrClosed.
unfoldable pub message : Error → String
message canceled = "context canceled"
message deadline_exceeded = "context deadline exceeded"
message queue_closed = "queue: closed"
message (other text) = text

-- A time.Time is its nanoseconds since the Unix epoch; a Duration counts nanoseconds.
pub record Result {ℓ} (A : Type ℓ) : Type ℓ where
  pub value : A
  pub err : Option Error
  pub attempts : ℕ
  pub started_at : ℤ
  pub duration : ℤ

pub record ResultJson {ℓ} (A : Type ℓ) : Type ℓ where
  pub value : A
  pub error : String
  pub attempts : ℕ
  pub started_at : ℤ
  pub duration_ms : ℤ

-- time.Time keeps its nanoseconds within the second positive, so UnixMicro rounds down.
unfoldable pub unix_micro : ℤ → ℤ
unix_micro (pos n) = pos (n / 1000)
unix_micro (negsuc n) = negsuc (n / 1000)

-- Go's integer division rounds towards zero.
unfoldable pub milliseconds : ℤ → ℤ
milliseconds (pos n) = pos (n / 1000000)
milliseconds (negsuc n) = sub_ℕ 0 (suc n / 1000000)

unfoldable pub err_string : Option Error → String
unfolding message
err_string none = ""
err_string (some e) = message e

-- The struct that Result.MarshalJSON hands to json.Marshal.
unfoldable pub to_json {ℓ} : {A : Type ℓ} → Result A → ResultJson A
unfolding err_string unix_micro milliseconds
to_json r = record {
  value = r.value;
  error = err_string r.err;
  attempts = r.attempts;
  started_at = unix_micro r.started_at;
  duration_ms = milliseconds r.duration;
}
