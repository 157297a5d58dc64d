-- ===== src/Sink/Lockstep.antt =====
-- The outputs of Tee advance together (sink.go).
use mathlib.Core.Path.{ap₂}
use gojob.Prelude.{
  ℕ, zero, suc, ◌+◌, ◌*◌, ◌≤◌, ◌≡◌, refl, ap, ◌∙◌, ◌⊎◌, inl, inr, Bool, some, List, [], ◌∷◌, ◌++◌,
  append_assoc, append-nil, length, take, replicate, All, pos, arith,
}
use gojob.Stream.{Stream, Turn, accept, cancel}
use gojob.Stream.Relay.{IsAccept}
use gojob.Sink.{Offered, to_all, stopped, stuck, TeeRun, offer, tee_loop, tee}

Offered-cases :
    (o : Offered) → ((rest : List Turn) × (o ≡ to_all rest)) ⊎ ((o ≡ stopped) ⊎ (o ≡ stuck))
Offered-cases (to_all rest) = inl (rest, refl)
Offered-cases stopped = inr (inl refl)
Offered-cases stuck = inr (inr refl)

module _ {ℓ} {A : Type ℓ} where
  -- The first `k` outputs are one value ahead of the other `j`.
  abbrev split_outs : ℕ → ℕ → List A → List A → List (List A)
  split_outs k j ahead behind = replicate k ahead ++ replicate j behind

  -- How far one value has come: all outputs have it only if the loop goes on.
  record Came (r : A) (n : ℕ) (done : List A) (out : List (List A) × Offered) : Type ℓ where
    ahead : ℕ
    behind : ℕ
    all_of : ahead + behind ≡ n
    outs : out.0 ≡ split_outs ahead behind (done ++ r ∷ []) done
    everyone : (rest : List Turn) → out.1 ≡ to_all rest → behind ≡ 0

  offer-Came :
      (r : A) (n : ℕ) (done : List A) (ts : List Turn)
      → Came r n done (offer r (replicate n done) ts)
  unfolding offer
  offer-Came r zero done ts = record {
    ahead = 0;
    behind = 0;
    all_of = omega arith;
    outs = refl;
    everyone = λ rest e. refl;
  }
  offer-Came r (suc n) done [] = record {
    ahead = 0;
    behind = suc n;
    all_of = omega arith;
    outs = refl;
    everyone = λ rest e. cc;
  }
  offer-Came r (suc n) done (cancel ∷ ts) = record {
    ahead = 0;
    behind = suc n;
    all_of = omega arith;
    outs = refl;
    everyone = λ rest e. cc;
  }
  offer-Came r (suc n) done (accept ∷ ts) =
      let c = offer-Came r n done ts in
      record {
        ahead = suc c.ahead;
        behind = c.behind;
        all_of = omega (arith, c.all_of);
        outs = ap (λ l. (done ++ r ∷ []) ∷ l) c.outs;
        everyone = c.everyone;
      }

  -- The outputs after some whole rounds and a part of the next.
  pub record Lockstep (n : ℕ) (done items : List A) (outs : List (List A)) : Type ℓ where
    pub rounds : ℕ
    pub ahead : ℕ
    pub behind : ℕ
    pub all_of : ahead + behind ≡ n
    pub outs_are :
        outs ≡ split_outs ahead behind (done ++ take (suc rounds) items) (done ++ take rounds items)

  halts :
      (r : A) (rs : List A) (n : ℕ) (done : List A) (ts : List Turn)
      → Lockstep n done (r ∷ rs) (offer r (replicate n done) ts).0
  halts r rs n done ts =
      let c = offer-Came r n done ts in
      record {
        rounds = 0;
        ahead = c.ahead;
        behind = c.behind;
        all_of = c.all_of;
        outs_are = rw append-nil c.outs;
      }

  full :
      (r : A) (n : ℕ) (done : List A) (ts rest : List Turn)
      → (offer r (replicate n done) ts).1 ≡ to_all rest
      → (offer r (replicate n done) ts).0 ≡ replicate n (done ++ r ∷ [])
  full r n done ts rest e =
      let c = offer-Came r n done ts in
      let none_behind = c.everyone rest e in
      let everyone : c.ahead ≡ n = omega (arith, c.all_of) in
      c.outs ∙ ap₂ (λ a b. split_outs a b (done ++ r ∷ []) done) everyone none_behind ∙ append-nil _

  tee_loop-Lockstep :
      (n : ℕ) (done rs : List A) (closed : Bool) (ts : List Turn)
      → Lockstep n done rs (tee_loop rs closed (replicate n done) ts).outs
  unfolding tee_loop
  tee_loop-Lockstep n done [] closed ts = record {
    rounds = 0;
    ahead = 0;
    behind = n;
    all_of = omega arith;
    outs_are = rw append-nil;
  }
  tee_loop-Lockstep n done (r ∷ rs) closed ts =
      elim (Offered-cases (offer r (replicate n done) ts).1) [
        | inl (rest, e) ↦
            let s = tee_loop-Lockstep n (done ++ r ∷ []) rs closed rest in
            rw (e, tee_loop)
              (rw (full r n done ts rest e) (record {
                rounds = suc s.rounds;
                ahead = s.ahead;
                behind = s.behind;
                all_of = s.all_of;
                outs_are =
                    s.outs_are
                    ∙ ap₂ (split_outs s.ahead s.behind) (append_assoc done (r ∷ []) _)
                        (append_assoc done (r ∷ []) _);
              }))
        | inr other ↦ elim other [
          | inl e ↦ rw (e, tee_loop) (halts r rs n done ts)
          | inr e ↦ rw (e, tee_loop) (halts r rs n done ts)
        ]
      ]

  -- At every moment, cancelled or not, the outputs of a Tee carry the same prefix of the input, but
  -- for at most one item, which the outputs at the front may have and the others not yet.
  pub tee-Lockstep :
      (input : Stream A) (n : ℕ) (ts : List Turn)
      → (run : TeeRun A) × (tee input (pos n) ts ≡ some run) × Lockstep n [] input.items run.outs
  unfolding tee
  tee-Lockstep input n ts = (
    tee_loop input.items input.closed (replicate n []) ts,
    refl,
    tee_loop-Lockstep n [] input.items input.closed ts,
  )

  offer_uncancelled :
      (r : A) (n : ℕ) (done : List A) (ts : List Turn) (m : ℕ)
      → All IsAccept ts
      → n + m ≤ length ts
      → (rest : List Turn) × (offer r (replicate n done) ts
          ≡ (replicate n (done ++ r ∷ []), to_all rest))
        × All IsAccept rest
        × (m ≤ length rest)
  unfolding offer
  offer_uncancelled r zero done ts m a l = (ts, refl, a, omega arith)
  offer_uncancelled r (suc n) done [] m a l = absurd (omega arith)
  offer_uncancelled r (suc n) done (cancel ∷ ts) m a l = cc a.0
  offer_uncancelled r (suc n) done (accept ∷ ts) m a l =
      let (rest, e, ar, lr) = offer_uncancelled r n done ts m a.1 (omega arith) in
      (rest, ap (λ (p : List (List A) × Offered). ((done ++ r ∷ []) ∷ p.0, p.1)) e, ar, lr)

  tee_loop_uncancelled :
      (n : ℕ) (done rs : List A) (closed : Bool) (ts : List Turn)
      → All IsAccept ts
      → length rs * n ≤ length ts
      → tee_loop rs closed (replicate n done) ts
        ≡ record { outs = replicate n (done ++ rs); closed = closed }
  unfolding tee_loop
  tee_loop_uncancelled n done [] closed ts a l = rw append-nil
  tee_loop_uncancelled n done (r ∷ rs) closed ts a l =
      let (rest, e, ar, lr) = offer_uncancelled r n done ts (length rs * n) a (omega arith) in
      let after : (offer r (replicate n done) ts).1 ≡ to_all rest = ap (λ p. p.1) e in
      let outs : (offer r (replicate n done) ts).0 ≡ replicate n (done ++ r ∷ []) =
        ap (λ p. p.0) e in
      rw (after, tee_loop)
        (rw outs (tee_loop_uncancelled n (done ++ r ∷ []) rs closed rest ar lr)
          ∙ ap (λ o. record { outs = replicate n o; closed = closed })
              (append_assoc done (r ∷ []) rs))

  -- Without a cancellation, and with consumers that take everything, each of the n outputs carries
  -- the whole input, and they are closed exactly if the input is.
  pub tee_uncancelled :
      (input : Stream A) (n : ℕ) (ts : List Turn)
      → All IsAccept ts
      → length input.items * n ≤ length ts
      → tee input (pos n) ts
        ≡ some (record { outs = replicate n input.items; closed = input.closed })
  unfolding tee
  tee_uncancelled input n ts a l =
      ap some (tee_loop_uncancelled n [] input.items input.closed ts a l)
