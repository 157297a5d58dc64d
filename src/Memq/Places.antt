-- ===== src/Memq/Places.antt =====
-- The places where a payload of a memq queue may be (queue/memq/memq.go).
use mathlib.Core.List.{Perm}
use mathlib.Core.List.Perm
use gojob.Prelude.{
  ℕ, zero, suc, ◌+◌, ◌≡◌, refl, ap, true, false, none, some, List, [], ◌∷◌, ◌++◌, map, pull, arith,
  Bool-cases, inl, inr,
}
use gojob.Memq.{Item, Queue, publish, got, receive, receive_from}
use gojob.Memq.System.{
  Receiver, checking, waiting, holding, returned, Handle, System, get_handle, fire,
}

module _ {ℓ} {T : Type ℓ} where
  -- The payloads that goroutines of Receive hold, and those of messages not yet finalized.
  unfoldable pub carried : List (Receiver T) → List T
  carried [] = []
  carried (holding it ∷ rs) = it.payload ∷ carried rs
  carried (_ ∷ rs) = carried rs

  unfoldable pub open_items : List (Handle T) → List T
  open_items [] = []
  open_items (h ∷ hs) =
      let rest = open_items hs in elim h.fired [ true ↦ rest | false ↦ h.item.payload ∷ rest ]

  abbrev pub waiting_payloads : System T → List T
  waiting_payloads s = map (λ it. it.payload) s.queue.pending

  -- Every place where a payload may be.
  abbrev pub places : System T → List T
  places s =
      waiting_payloads s
      ++ (carried s.receivers ++ (open_items s.handles ++ (s.queue.dead ++ (s.acked ++ s.lost))))

  pub carried-append : (rs ss : List (Receiver T)) → carried (rs ++ ss) ≡ carried rs ++ carried ss
  unfolding carried
  carried-append [] ss = refl
  carried-append (holding it ∷ rs) ss = ap (λ l. it.payload ∷ l) (carried-append rs ss)
  carried-append (checking ∷ rs) ss = carried-append rs ss
  carried-append (waiting ∷ rs) ss = carried-append rs ss
  carried-append (returned ∷ rs) ss = carried-append rs ss

  pub open_items-append :
      (hs ks : List (Handle T)) → open_items (hs ++ ks) ≡ open_items hs ++ open_items ks
  unfolding open_items
  open_items-append [] ks = refl
  open_items-append (h ∷ hs) ks = ground (arith, open_items-append hs ks)

  pub open_used :
      (h : Handle T) (hs : List (Handle T)) → h.fired ≡ true → open_items (h ∷ hs) ≡ open_items hs
  unfolding open_items
  open_used h hs f = ground arith

  pub open_fresh :
      (h : Handle T) (hs : List (Handle T))
      → h.fired ≡ false
      → open_items (h ∷ hs) ≡ h.item.payload ∷ open_items hs
  unfolding open_items
  open_fresh h hs f = ground arith

  pub open_items-fire :
      (hs : List (Handle T)) (i : ℕ) {h : Handle T}
      → get_handle hs i ≡ some h
      → h.fired ≡ false
      → Perm (open_items hs) (h.item.payload ∷ open_items (fire hs i))
  open_items-fire [] i e f = cc
  open_items-fire (k ∷ hs) zero {h} e f =
      let same : k ≡ h = cc in
      rw (same, open_fresh h hs f, open_used (record h { fired = true }) hs refl) (Perm.refl _)
  open_items-fire (k ∷ hs) (suc i) {h} e f =
      let ih = open_items-fire hs i e f in
      elim (Bool-cases k.fired) [
        | inl used ↦ rw (open_used k hs used, open_used k (fire hs i) used) ih
        | inr fresh ↦
            rw (open_fresh k hs fresh, open_fresh k (fire hs i) fresh)
              (pull h.item.payload (k.item.payload ∷ []) _ _ ih)
      ]

  abbrev pub Got : List (Item T) → Queue T → Item T → Queue T → Type ℓ
  Got xs q it q' =
      (first : Item T) × (rest : List (Item T)) × (xs ≡ first ∷ rest)
      × (it ≡ record first { deliveries = first.deliveries + 1 })
      × (q' ≡ record q { pending = rest })

  receive_from-got :
      (xs : List (Item T)) (q : Queue T) {it : Item T} {q' : Queue T}
      → receive_from xs q ≡ got it q'
      → Got xs q it q'
  unfolding receive_from
  receive_from-got [] q e = ground arith
  receive_from-got (x ∷ xs) q e = (x, xs, refl, cc, cc)

  pub receive-got :
      (q : Queue T) {it : Item T} {q' : Queue T} → receive q ≡ got it q' → Got q.pending q it q'
  receive-got q e = receive_from-got q.pending q (unfold receive in e)

  pub publish-ok :
      (x : T) (q : Queue T) {q' : Queue T}
      → publish x q ≡ (q', none)
      → q' ≡ record q {
        pending = q.pending ++ (record { payload = x; deliveries = 0 }) ∷ [];
        outstanding = q.outstanding + 1;
      }
  unfolding publish
  publish-ok x q e = ground arith
