-- ===== src/Queue/Consume/Round.antt =====
-- One round of the loop of Consume, by what it does with the message (queue/consume.go).
use gojob.Prelude.{◌≡◌, Bool, true, false, none, some, List, [], ◌∷◌, if◌then◌else◌, arith}
use gojob.Queue.{Message}
use gojob.Queue.Consume.{Config, Outcome, is_final, perform, action, emitted, consume_loop, before}
use gojob.Stream.{Turn, accept, cancel, ended, blocked}
use gojob.Task.{Result}

-- The result carries a message, not the nil of a zero value.
abbrev pub HasMessage {ℓ κ μ} :
    {Q : Type ℓ} {In : Type κ} {Out : Type μ} → Result (Outcome Q In Out) → Type (ℓ ⊔ κ)
HasMessage {Q} {In} r = (m : Message Q In) × (r.value.msg ≡ some m)

module _ {ℓ κ μ} {Q : Type ℓ} {In : Type κ} {Out : Type μ} (cfg : Config) where
  -- The queue after the calls for these results, in order.
  unfoldable pub performed : Q → List (Result (Outcome Q In Out)) → Q
  performed q [] = q
  performed q (r ∷ rs) = elim r.value.msg [
    | none ↦ q
    | some m ↦ performed (perform (action cfg r m) m q) rs
  ]

  -- The results of the finalized messages.
  unfoldable pub emissions : List (Result (Outcome Q In Out)) → List (Result Out)
  emissions [] = []
  emissions (r ∷ rs) =
      let rest = emissions rs in
      elim r.value.msg [
        | none ↦ rest
        | some m ↦ if is_final (action cfg r m) then emitted cfg r ∷ rest else rest
      ]

  module _ (r : Result (Outcome Q In Out)) (m : Message Q In) (has : r.value.msg ≡ some m) where
    unfoldable pub next_queue : Q → Q
    next_queue q = perform (action cfg r m) m q

    pub performed-cons :
        (q : Q) (rs : List (Result (Outcome Q In Out)))
        → performed q (r ∷ rs) ≡ performed (next_queue q) rs
    unfolding performed next_queue
    performed-cons q rs = ground arith

    pub emissions_final :
        (rs : List (Result (Outcome Q In Out)))
        → is_final (action cfg r m) ≡ true
        → emissions (r ∷ rs) ≡ emitted cfg r ∷ emissions rs
    unfolding emissions
    emissions_final rs f = ground arith

    pub emissions_again :
        (rs : List (Result (Outcome Q In Out)))
        → is_final (action cfg r m) ≡ false
        → emissions (r ∷ rs) ≡ emissions rs
    unfolding emissions
    emissions_again rs f = ground arith

    pub loop_again :
        (q : Q) (rs : List (Result (Outcome Q In Out))) (closed : Bool) (ts : List Turn)
        → is_final (action cfg r m) ≡ false
        → consume_loop cfg q (r ∷ rs) closed ts ≡ consume_loop cfg (next_queue q) rs closed ts
    unfolding consume_loop next_queue
    loop_again q rs closed ts f = ground arith

    pub loop_stuck :
        (q : Q) (rs : List (Result (Outcome Q In Out))) (closed : Bool)
        → is_final (action cfg r m) ≡ true
        → consume_loop cfg q (r ∷ rs) closed []
          ≡ record { output = blocked; queue = next_queue q; panicked = false }
    unfolding consume_loop next_queue
    loop_stuck q rs closed f = ground arith

    pub loop_cancel :
        (q : Q) (rs : List (Result (Outcome Q In Out))) (closed : Bool) (ts : List Turn)
        → is_final (action cfg r m) ≡ true
        → consume_loop cfg q (r ∷ rs) closed (cancel ∷ ts)
          ≡ record { output = ended; queue = next_queue q; panicked = false }
    unfolding consume_loop next_queue
    loop_cancel q rs closed ts f = ground arith

    pub loop_accept :
        (q : Q) (rs : List (Result (Outcome Q In Out))) (closed : Bool) (ts : List Turn)
        → is_final (action cfg r m) ≡ true
        → consume_loop cfg q (r ∷ rs) closed (accept ∷ ts)
          ≡ before (emitted cfg r) (consume_loop cfg (next_queue q) rs closed ts)
    unfolding consume_loop next_queue
    loop_accept q rs closed ts f = ground arith
