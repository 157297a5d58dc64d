-- ===== src/Sink.antt =====
-- sink.go: WriteJSONL, Drain and Tee.
pub mod Jsonl
pub mod Lockstep
use gojob.Prelude.{
  ℕ, zero, suc, Bool, true, false, Option, none, some, List, [], ◌∷◌, ◌++◌, replicate, ℤ, pos,
  negsuc,
}
use gojob.Stream.{Stream, Turn, accept, cancel}
use gojob.Task.{Error, Result, ResultJson, to_json}

-- How a sink stands: it has returned its error, or waits for the next turn.
pub data Exit : Type 0 where
  returned : Option Error → Exit
  waiting : Exit

-- What json.Marshal makes of a value: its text, or an error.
pub data Encoded (Text : Type 0) : Type 0 where
  text : Text → Encoded Text
  failed : Error → Encoded Text

-- json.Marshal and the writer are the caller's; `ctx_err` is ctx.Err() once ctx is done.
module _ {ℓ} {A : Type ℓ} {Text : Type 0} (marshal : ResultJson A → Encoded Text)
    (write : ℕ → Option Error) (ctx_err : Error) where
  -- enc.Encode(r) as the i-th call: the line that it writes, or the error of json.Marshal, or that of
  -- the writer.
  unfoldable pub encode : ℕ → Result A → Encoded Text
  encode i r = elim (marshal (to_json r)) [
    | failed e ↦ failed e
    | text line ↦ elim (write i) [ none ↦ text line | some e ↦ failed e ]
  ]

  -- The lines written so far grow at the end of `lines`; `i` counts the calls of the writer.
  unfoldable pub write_loop : ℕ → List Text → List (Result A) → Bool → List Turn → List Text × Exit
  write_loop i lines rs closed [] = (lines, waiting)
  write_loop i lines rs closed (cancel ∷ ts) = (lines, returned (some ctx_err))
  write_loop i lines [] true (accept ∷ ts) = (lines, returned none)
  write_loop i lines [] false (accept ∷ ts) = (lines, waiting)
  write_loop i lines (r ∷ rs) closed (accept ∷ ts) = elim (encode i r) [
    | failed e ↦ (lines, returned (some e))
    | text line ↦ write_loop (suc i) (lines ++ line ∷ []) rs closed ts
  ]

  unfoldable pub write_jsonl : Stream (Result A) → List Turn → List Text × Exit
  unfolding write_loop encode
  write_jsonl input ts = write_loop 0 [] input.items input.closed ts

-- `for range in {}`: returns when the input is closed, with nothing kept.
unfoldable pub drain {ℓ} : {A : Type ℓ} → Stream (Result A) → Exit
drain input = elim input.closed [ true ↦ returned none | false ↦ waiting ]

-- What is left after one result has been offered to all outputs.
pub data Offered : Type 0 where
  to_all : List Turn → Offered
  stopped stuck : Offered

pub record TeeRun {ℓ} (A : Type ℓ) : Type ℓ where
  pub outs : List (List A)
  pub closed : Bool

module _ {ℓ} {A : Type ℓ} where
  -- The inner loop over the outputs, each given by what it has carried so far.
  unfoldable pub offer : A → List (List A) → List Turn → List (List A) × Offered
  offer r [] ts = ([], to_all ts)
  offer r (o ∷ os) [] = (o ∷ os, stuck)
  offer r (o ∷ os) (cancel ∷ ts) = (o ∷ os, stopped)
  offer r (o ∷ os) (accept ∷ ts) = let (os', after) = offer r os ts in ((o ++ r ∷ []) ∷ os', after)

  unfoldable pub tee_loop : List A → Bool → List (List A) → List Turn → TeeRun A
  tee_loop [] closed outs ts = record { outs = outs; closed = closed }
  tee_loop (r ∷ rs) closed outs ts =
      let (outs', after) = offer r outs ts in
      elim after [
        | to_all rest ↦ tee_loop rs closed outs' rest
        | stopped ↦ record { outs = outs'; closed = true }
        | stuck ↦ record { outs = outs'; closed = false }
      ]

  -- `make` panics on a negative length: `none`.
  unfoldable pub tee : Stream A → ℤ → List Turn → Option (TeeRun A)
  unfolding tee_loop offer
  tee input (pos n) ts = some (tee_loop input.items input.closed (replicate n []) ts)
  tee input (negsuc n) ts = none
