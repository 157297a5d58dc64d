-- ===== src/Process/Attempts.antt =====
-- Which attempt runOne returns, and how many it makes (process.go).
use gojob.Prelude.{
  ℕ, zero, suc, ◌+◌, ◌≤◌, ◌<◌, ◌≡◌, ◌≢◌, ◌⊎◌, inl, inr, refl, sym, Option, none, some, pos_part,
  arith, Option-cases,
}
use gojob.Options.{Config}
use gojob.Options.Valid.{IsValid}
use gojob.Task.{Error}
use gojob.Process.{Env, Progress, interrupted, attempt_once, attempt_loop, run_one}

last_or_below : (m n : ℕ) → m ≤ suc n → (m ≤ n) ⊎ (m ≡ suc n)
last_or_below m n h = omega arith

module _ {ℓ} {Out : Type ℓ} (cfg : Config) (env : Env Out) where
  -- The attempt with this number failed.
  abbrev pub Fails : ℕ → Type 0
  Fails n = (attempt_once cfg env n).1 ≢ none

  -- The three ways in which the loop stops after `n` attempts, with this error.
  abbrev pub Stops : ℕ → Option Error → Type 0
  Stops n err =
      ((attempt_once cfg env n).1 ≡ none) × (err ≡ none)
      ⊎ ((n ≡ pos_part cfg.retries) × Fails n × (err ≡ (attempt_once cfg env n).1))
      ⊎ ((n < pos_part cfg.retries) × Fails n × (err ≢ none) × (err ≡ interrupted cfg env (suc n)))

  -- Every attempt before the n-th failed, no wait up to it was interrupted, and the value is that
  -- of the n-th attempt.
  pub record IsOutcome (n : ℕ) (val : Out) (err : Option Error) : Type ℓ where
    pub some_attempt : 0 < n
    pub few_attempts : n ≤ pos_part cfg.retries
    pub before_fail : (m : ℕ) → 0 < m → m < n → Fails m
    pub before_wait : (m : ℕ) → 1 < m → m ≤ n → interrupted cfg env m ≡ none
    pub last_value : val ≡ (attempt_once cfg env n).0
    pub stop : Stops n err

  -- The loop after `n` failed attempts.
  record Going (n left : ℕ) (p : Progress Out) : Type ℓ where
    count : p.attempts ≡ n
    rounds : n + left ≡ pos_part cfg.retries
    all_fail : (m : ℕ) → 0 < m → m ≤ n → Fails m
    all_wait : (m : ℕ) → 1 < m → m ≤ n → interrupted cfg env m ≡ none
    value : 0 < n → p.val ≡ (attempt_once cfg env n).0
    error : 0 < n → p.err ≡ (attempt_once cfg env n).1

  -- There is no wait before the first attempt.
  interrupted-one : interrupted cfg env 1 ≡ none
  unfolding interrupted
  interrupted-one = ground arith

  attempted : ℕ → Progress Out
  attempted n = record {
    val = (attempt_once cfg env n).0;
    err = (attempt_once cfg env n).1;
    attempts = n;
  }

  loop_interrupted :
      (left n : ℕ) (p : Progress Out) {e : Error}
      → interrupted cfg env n ≡ some e
      → attempt_loop cfg env (suc left) n p ≡ record p { err = some e }
  unfolding attempt_loop
  loop_interrupted left n p h = rw (h, attempt_loop)

  loop_succeeds :
      (left n : ℕ) (p : Progress Out)
      → interrupted cfg env n ≡ none
      → (attempt_once cfg env n).1 ≡ none
      → attempt_loop cfg env (suc left) n p ≡ attempted n
  unfolding attempt_loop attempted
  loop_succeeds left n p h k = ground arith

  loop_fails :
      (left n : ℕ) (p : Progress Out) {e : Error}
      → interrupted cfg env n ≡ none
      → (attempt_once cfg env n).1 ≡ some e
      → attempt_loop cfg env (suc left) n p ≡ attempt_loop cfg env left (suc n) (attempted n)
  unfolding attempt_loop attempted
  loop_fails left n p h k = ground arith

  Going-next :
      (left n : ℕ) (p : Progress Out) {e : Error}
      → Going n (suc left) p
      → interrupted cfg env (suc n) ≡ none
      → (attempt_once cfg env (suc n)).1 ≡ some e
      → Going (suc n) left (attempted (suc n))
  unfolding attempted
  Going-next left n p {e} g h k = record {
    count = refl;
    rounds = omega (arith, g.rounds);
    all_fail = λ m i j. elim (last_or_below m n j) [
      | inl lower ↦ g.all_fail m i lower
      | inr same ↦ rw same (λ good. cc)
    ];
    all_wait = λ m i j. elim (last_or_below m n j) [
      | inl lower ↦ g.all_wait m i lower
      | inr same ↦ rw same h
    ];
    value = λ _. refl;
    error = λ _. refl;
  }

  abbrev Outcome : Progress Out → Type ℓ
  Outcome p = (n : ℕ) × (p.attempts ≡ n) × IsOutcome n p.val p.err

  loop_ends : (n : ℕ) (p : Progress Out) → 0 < n → Going n 0 p → IsOutcome n p.val p.err
  loop_ends n p h g = record {
    some_attempt = h;
    few_attempts = omega (arith, g.rounds);
    before_fail = λ m i j. g.all_fail m i (omega arith);
    before_wait = g.all_wait;
    last_value = g.value h;
    stop = inr (inl (omega (arith, g.rounds), g.all_fail n h (omega arith), g.error h));
  }

  loop_good :
      (left n : ℕ) (p : Progress Out)
      → Going n (suc left) p
      → interrupted cfg env (suc n) ≡ none
      → (attempt_once cfg env (suc n)).1 ≡ none
      → IsOutcome (suc n) (attempt_once cfg env (suc n)).0 (attempt_once cfg env (suc n)).1
  loop_good left n p g quiet good = record {
    some_attempt = omega arith;
    few_attempts = omega (arith, g.rounds);
    before_fail = λ m i j. g.all_fail m i (omega arith);
    before_wait = λ m i j. elim (last_or_below m n j) [
      | inl lower ↦ g.all_wait m i lower
      | inr same ↦ rw same quiet
    ];
    last_value = refl;
    stop = inl (good, good);
  }

  loop_stopped :
      (left n : ℕ) (p : Progress Out) {e : Error}
      → 0 < n
      → Going n (suc left) p
      → interrupted cfg env (suc n) ≡ some e
      → IsOutcome n p.val (some e)
  loop_stopped left n p {e} h g stopped = record {
    some_attempt = h;
    few_attempts = omega (arith, g.rounds);
    before_fail = λ m i j. g.all_fail m i (omega arith);
    before_wait = g.all_wait;
    last_value = g.value h;
    stop =
        inr (inr (omega (arith, g.rounds), g.all_fail n h (omega arith), (λ q. cc), sym stopped));
  }

  -- A wait that is interrupted is not the one before the first attempt.
  interrupted_later : (n : ℕ) {e : Error} → interrupted cfg env (suc n) ≡ some e → 0 < n
  interrupted_later zero h = cc interrupted-one
  interrupted_later (suc n) h = omega arith

  attempt_loop-Outcome :
      (left n : ℕ) (p : Progress Out)
      → 0 < n + left
      → Going n left p
      → Outcome (attempt_loop cfg env left (suc n) p)
  attempt_loop-Outcome zero n p h g =
      unfold attempt_loop in (n, g.count, loop_ends n p (omega arith) g)
  attempt_loop-Outcome (suc left) n p h g = elim (Option-cases (interrupted cfg env (suc n))) [
    | inl quiet ↦ elim (Option-cases (attempt_once cfg env (suc n)).1) [
      | inl good ↦
          rw (loop_succeeds left (suc n) p quiet good)
            (unfold attempted in (suc n, refl, loop_good left n p g quiet good))
      | inr (e, bad) ↦ rw (loop_fails left (suc n) p quiet bad) (
          attempt_loop-Outcome left (suc n) (attempted (suc n)) (omega arith)
            (Going-next left n p g quiet bad))
    ]
    | inr (e, stopped) ↦
        rw (loop_interrupted left (suc n) p stopped)
          (n, g.count, loop_stopped left n p (interrupted_later n stopped) g stopped)
  ]

  started : Progress Out
  started = record { val = env.zero_value; err = none; attempts = 0 }

  started-Going : Going 0 (pos_part cfg.retries) started
  unfolding started
  started-Going = record {
    count = refl;
    rounds = omega arith;
    all_fail = λ m i j. absurd (omega arith);
    all_wait = λ m i j. absurd (omega arith);
    value = λ h. absurd (omega arith);
    error = λ h. absurd (omega arith);
  }

  -- With a valid configuration runOne makes at least one attempt and at most `retries`. Its value is
  -- that of the last attempt that it made, every attempt before that one failed, and it stops in one
  -- of three ways: the attempt succeeded and there is no error; the attempts are used up and the
  -- error is that of the last one; or ctx ended the wait before the next attempt, with its error.
  pub run_one-IsOutcome :
      IsValid cfg
      → IsOutcome (run_one cfg env).attempts (run_one cfg env).value (run_one cfg env).err
  unfolding run_one started
  run_one-IsOutcome v =
      let (n, count, outcome) =
        attempt_loop-Outcome (pos_part cfg.retries) 0 started (omega (arith, v.some_attempt))
          started-Going in
      rw count outcome
