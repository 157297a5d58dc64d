-- ===== src/Sink/Jsonl.antt =====
-- What WriteJSONL has written, and what it returns (sink.go).
use native.Mathlib.Nat.{add-zero}
use gojob.Prelude.{
  ℕ, suc, ◌+◌, ◌<◌, ◌≡◌, ◌⊎◌, inl, inr, refl, ap, ◌∙◌, Bool, true, false, Option, none, some, List,
  [], ◌∷◌, ◌++◌, append_assoc, append-nil, length, All, arith,
}
use gojob.Stream.{Stream, Turn, accept, cancel}
use gojob.Stream.Relay.{IsAccept}
use gojob.Task.{Error, Result, ResultJson}
use gojob.Sink.{Exit, returned, waiting, Encoded, text, failed, encode, write_loop, write_jsonl}

module _ {ℓ} {A : Type ℓ} {Text : Type 0} (marshal : ResultJson A → Encoded Text)
    (write : ℕ → Option Error) (ctx_err : Error) where
  -- `Lines i rs lines`: the results in order encode to these lines, from the i-th call on.
  pub data Lines : ℕ → List (Result A) → List Text → Type ℓ where
    none_left : {i : ℕ} → Lines i [] []
    line_of :
        {i : ℕ} {r : Result A} {rs : List (Result A)} {line : Text} {lines : List Text}
        → encode marshal write ctx_err i r ≡ text line
        → Lines (suc i) rs lines
        → Lines i (r ∷ rs) (line ∷ lines)

  -- How a run stops behind the results that it has written: at the end of a closed input, at ctx, at
  -- the next result's error, or not yet.
  pub data Reason (i : ℕ) (rest : List (Result A)) (closed : Bool) : Exit → Type ℓ where
    at_end : rest ≡ [] → closed ≡ true → Reason i rest closed (returned none)
    at_cancel : Reason i rest closed (returned (some ctx_err))
    at_error :
        {r : Result A} {rs : List (Result A)} {e : Error}
        → rest ≡ r ∷ rs
        → encode marshal write ctx_err i r ≡ failed e
        → Reason i rest closed (returned (some e))
    at_turn : Reason i rest closed waiting

  -- The results written so far, the lines that they encode to, and why the run stands there.
  pub record IsRun (i : ℕ) (rs : List (Result A)) (closed : Bool) (lines : List Text) (exit : Exit)
      : Type ℓ where
    pub written : List (Result A)
    pub rest : List (Result A)
    pub in_order : written ++ rest ≡ rs
    pub encoded : Lines i written lines
    pub reason : Reason (i + length written) rest closed exit

  Encoded-cases :
      (e : Encoded Text) → ((line : Text) × (e ≡ text line)) ⊎ ((x : Error) × (e ≡ failed x))
  Encoded-cases (text line) = inl (line, refl)
  Encoded-cases (failed x) = inr (x, refl)

  -- A run that starts with `lines` written.
  abbrev Continues : ℕ → List Text → List (Result A) → Bool → List Text × Exit → Type ℓ
  Continues i lines rs closed out =
      (new : List Text) × (exit : Exit) × (out ≡ (lines ++ new, exit)) × IsRun i rs closed new exit

  stops_here :
      (i : ℕ) (lines : List Text) (rs : List (Result A)) (closed : Bool) (exit : Exit)
      → Reason i rs closed exit
      → Continues i lines rs closed (lines, exit)
  stops_here i lines rs closed exit why = (
    [],
    exit,
    rw append-nil,
    record {
      written = [];
      rest = rs;
      in_order = refl;
      encoded = none_left;
      reason = rw add-zero why;
    },
  )

  goes_on :
      (i : ℕ) (lines : List Text) (r : Result A) (rs : List (Result A)) (closed : Bool)
      (line : Text) (out : List Text × Exit)
      → encode marshal write ctx_err i r ≡ text line
      → Continues (suc i) (lines ++ line ∷ []) rs closed out
      → Continues i lines (r ∷ rs) closed out
  goes_on i lines r rs closed line out h (new, exit, e, run) = (
    line ∷ new,
    exit,
    e ∙ ap (λ l. (l, exit)) (append_assoc lines (line ∷ []) new),
    record {
      written = r ∷ run.written;
      rest = run.rest;
      in_order = ap (λ l. r ∷ l) run.in_order;
      encoded = line_of h run.encoded;
      reason =
          let shift : i + suc (length run.written) ≡ suc i + length run.written = omega arith in
          rw shift run.reason;
    },
  )

  write_loop-Continues :
      (i : ℕ) (lines : List Text) (rs : List (Result A)) (closed : Bool) (ts : List Turn)
      → Continues i lines rs closed (write_loop marshal write ctx_err i lines rs closed ts)
  unfolding write_loop
  write_loop-Continues i lines rs closed [] = stops_here i lines rs closed waiting at_turn
  write_loop-Continues i lines rs closed (cancel ∷ ts) =
      stops_here i lines rs closed (returned (some ctx_err)) at_cancel
  write_loop-Continues i lines [] true (accept ∷ ts) =
      stops_here i lines [] true (returned none) (at_end refl refl)
  write_loop-Continues i lines [] false (accept ∷ ts) = stops_here i lines [] false waiting at_turn
  write_loop-Continues i lines (r ∷ rs) closed (accept ∷ ts) =
      elim (Encoded-cases (encode marshal write ctx_err i r)) [
        | inl (line, h) ↦
            rw (h, write_loop)
              (goes_on i lines r rs closed line _ h
                (write_loop-Continues (suc i) (lines ++ line ∷ []) rs closed ts))
        | inr (x, h) ↦
            rw (h, write_loop)
              (stops_here i lines (r ∷ rs) closed (returned (some x)) (at_error refl h))
      ]

  -- Whatever the turns, WriteJSONL has written the lines of a prefix of the results, in order and
  -- without a gap. It returns nil only when all results of a closed input are written, an encode or
  -- write error only as the first one met, with nothing written after it, and else ctx's error.
  pub write_jsonl-IsRun :
      (input : Stream (Result A)) (ts : List Turn)
      → IsRun 0 input.items input.closed
          (write_jsonl marshal write ctx_err input ts).0
          (write_jsonl marshal write ctx_err input ts).1
  unfolding write_jsonl
  write_jsonl-IsRun input ts =
      let (new, exit, e, run) = write_loop-Continues 0 [] input.items input.closed ts in rw e run

  complete_from :
      (i : ℕ) (lines : List Text) (rs : List (Result A)) (new : List Text) (ts : List Turn)
      → Lines i rs new
      → All IsAccept ts
      → length rs < length ts
      → write_loop marshal write ctx_err i lines rs true ts ≡ (lines ++ new, returned none)
  unfolding write_loop
  complete_from i lines rs new [] h a l = absurd (omega arith)
  complete_from i lines rs new (cancel ∷ ts) h a l = cc a.0
  complete_from i lines [] new (accept ∷ ts) none_left a l = rw append-nil
  complete_from i lines (r ∷ rs) new (accept ∷ ts) (line_of {line} {lines = later} h k) a l =
      rw (h, write_loop)
        (complete_from (suc i) (lines ++ line ∷ []) rs later ts k a.1 (omega arith)
          ∙ ap (λ t. (t, returned none)) (append_assoc lines (line ∷ []) later))

  -- Where every result encodes, ctx is not done, and the input is closed, WriteJSONL returns nil with
  -- one line for each result, in order.
  pub write_jsonl_complete :
      (rs : List (Result A)) (lines : List Text) (ts : List Turn)
      → Lines 0 rs lines
      → All IsAccept ts
      → length rs < length ts
      → write_jsonl marshal write ctx_err (record { items = rs; closed = true }) ts
        ≡ (lines, returned none)
  unfolding write_jsonl
  write_jsonl_complete rs lines ts h a l = complete_from 0 [] rs lines ts h a l
