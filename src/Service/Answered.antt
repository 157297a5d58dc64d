-- ===== src/Service/Answered.antt =====
-- What the consumer of Consume's output is told of the messages of the queue (queue/consume.go,
-- queue/memq/memq.go).
use mathlib.Core.List.{Perm}
use gojob.Prelude.{
  ◌≡◌, ◌⊎◌, refl, ap, ◌≤ℤ◌, ◌<ℤ◌, false, some, none, List, [], ◌∷◌, ◌++◌, All, inl, inr, pos,
  Option-cases,
}
use gojob.Memq.{finalize, new}
use gojob.Memq.Drained.{drained_all_finalized}
use gojob.Memq.Handles.{handled_by, finalize_fresh, first_call}
use gojob.Memq.System as Backend
use gojob.Memq.System.{System, Handle, get_handle, finalize_handle, wrap}
use gojob.Queue.{Message, new_message}
use gojob.Queue.Consume.{Config, Outcome, action, emitted, is_final}
use gojob.Queue.Consume.Finalized.{action_cases}
use gojob.Service.{
  Ticket, Loop, handling, emitting, left, Service, after, start, Step, queue_step, handed, worked,
  passed, dropped, stopped, drained, cancel, process_closed, handled, crash, sent, send_stopped,
  finished, Reach, here, next,
}
use gojob.Service.Carried.{Carries, IsCarried, Reach-IsCarried}
use gojob.Service.Ended.{Step-alive, left-IsEnded}
use gojob.Service.Held.{own-handles, handling-open}
use gojob.Service.Kept.{Reach-IsOwned}
use gojob.Service.Owned.{IsOwned}
use gojob.Service.Projected.{handled-finalize, Reach-memq}
use gojob.Task.{Result}

module _ {ℓ μ} {T : Type ℓ} {Out : Type μ} where
  -- The payloads of the results without an error, the last one first.
  unfoldable pub succeeded : List (Ticket T × Result Out) → List T
  succeeded [] = []
  succeeded ((x, r) ∷ rs) = elim r.err [
    | none ↦ x.item.payload ∷ succeeded rs
    | some e ↦ succeeded rs
  ]

  -- The payloads of the results with an error, the first one first.
  unfoldable pub failed : List (Ticket T × Result Out) → List T
  failed [] = []
  failed ((x, r) ∷ rs) = elim r.err [ none ↦ failed rs | some e ↦ failed rs ++ x.item.payload ∷ [] ]

  -- A finalized message whose result waits in the select.
  abbrev unsent : Loop T Out → List (Ticket T × Result Out)
  unsent (emitting x r) = (x, r) ∷ []
  unsent _ = []

  -- An error is only reported of a message whose deliveries have reached a limit that is set.
  abbrev pub IsAtLimit : Config → Ticket T × Result Out → Type 0
  IsAtLimit cfg (x, r) =
      (r.err ≡ none)
      ⊎ ((pos 0 <ℤ cfg.max_deliveries) × (cfg.max_deliveries ≤ℤ pos x.item.deliveries))

  record IsAnswered (cfg : Config) (s : Service T Out) : Type (ℓ ⊔ μ) where
    acks : s.memq.acked ≡ succeeded (unsent s.loop ++ s.results)
    deads : s.memq.queue.dead ≡ failed (unsent s.loop ++ s.results)
    limits : All (IsAtLimit cfg) (unsent s.loop ++ s.results)

  -- A step that leaves the finalized messages and their results alone.
  same-IsAnswered :
      (cfg : Config) (s t : Service T Out)
      → t.memq.acked ≡ s.memq.acked
      → t.memq.queue.dead ≡ s.memq.queue.dead
      → unsent t.loop ++ t.results ≡ unsent s.loop ++ s.results
      → IsAnswered cfg s
      → IsAnswered cfg t
  same-IsAnswered cfg s t a d u v = record {
    acks = rw (a, u) v.acks;
    deads = rw (d, u) v.deads;
    limits = rw u v.limits;
  }

  module _ (cfg : Config) (s : Service T Out) (x : Ticket T) (r : Result (Outcome (System T) T Out))
      (m : Message (System T) T) (l : s.loop ≡ handling x r) (has : r.value.msg ≡ some m)
      (carried : IsCarried cfg s) (h : Handle T) (same : h.item ≡ x.item)
      (v : IsAnswered cfg s) where
    handled-IsAnswered : IsAnswered cfg (record s {
      memq = first_call (handled_by (action cfg r m)) x.index h s.memq;
      loop = after x (action cfg r m) (emitted cfg r);
    })
    unfolding first_call handled_by after is_final finalize emitted succeeded failed wrap
        new_message
    handled-IsAnswered =
        let acks : s.memq.acked ≡ succeeded s.results = rw l at v.acks in
        let deads : s.memq.queue.dead ≡ failed s.results = rw l at v.deads in
        let limits : All (IsAtLimit cfg) s.results = rw l at v.limits in
        let carries : Carries cfg x r = rw l at carried.loop in
        let message : m ≡ wrap x.index x.item = cc in
        let paid : h.item.payload ≡ x.item.payload = ap (λ it. it.payload) same in
        elim (action_cases cfg r m) [
          | inl (a, ok) ↦ rw a (record {
            acks = rw (ok, paid, acks) refl;
            deads = rw (ok, deads) refl;
            limits = (inl ok, limits);
          })
          | inr (inl (a, bad, set, reached)) ↦ elim (Option-cases r.err) [
            | inl ok ↦ absurd (bad ok)
            | inr (err, e) ↦ rw a (record {
              acks = rw (e, acks) refl;
              deads = rw (e, paid, deads) refl;
              limits = (inr (set, rw message at reached), limits);
            })
          ]
          | inr (inr (a, _, _)) ↦ rw a (record { acks = acks; deads = deads; limits = limits })
        ]

  module _ (cfg : Config) where
    Step-IsAnswered :
        {s t : Service T Out}
        → Step cfg s t
        → t.cancelled ≡ false
        → IsCarried cfg s
        → IsOwned s
        → IsAnswered cfg s
        → IsAnswered cfg t
    Step-IsAnswered {s} (queue_step q st own e) alive c o v =
        let (_, a, d) = own-handles s st own in rw e (same-IsAnswered cfg s _ a d refl v)
    Step-IsAnswered {s} (handed pre post before behind it w i e) alive c o v =
        rw e (same-IsAnswered cfg s _ refl refl refl v)
    Step-IsAnswered {s} (worked before behind x z cs rs env w each e) alive c o v =
        rw e (same-IsAnswered cfg s _ refl refl refl v)
    Step-IsAnswered {s} (passed before behind x r w l e) alive c o v =
        rw e (same-IsAnswered cfg s _ refl refl (rw l refl) v)
    Step-IsAnswered {s} (dropped before behind x r w c' e) alive c o v =
        rw e (same-IsAnswered cfg s _ refl refl refl v)
    Step-IsAnswered {s} (stopped before behind w c' e) alive c o v =
        rw e (same-IsAnswered cfg s _ refl refl refl v)
    Step-IsAnswered {s} (drained before behind w r e) alive c o v =
        rw e (same-IsAnswered cfg s _ refl refl refl v)
    Step-IsAnswered {s} (cancel c' e) alive c o v = rw e (same-IsAnswered cfg s _ refl refl refl v)
    Step-IsAnswered {s} (process_closed all open_still e) alive c o v =
        rw e (same-IsAnswered cfg s _ refl refl refl v)
    Step-IsAnswered {s} (handled x r m l has e) alive c o v =
        let (h, found, same, fresh, _) = handling-open s x r l o in
        rw
          (
            e,
            handled-finalize cfg s x r m l has c,
            finalize_fresh (handled_by (action cfg r m)) x.index s.memq found fresh,
          )
          (handled-IsAnswered cfg s x r m l has c h same v)
    Step-IsAnswered {s} (crash x r l n e) alive c o v =
        rw e (same-IsAnswered cfg s _ refl refl (rw l refl) v)
    Step-IsAnswered {s} (sent x r l e) alive c o v =
        rw e (same-IsAnswered cfg s _ refl refl (rw l refl) v)
    Step-IsAnswered {s} (send_stopped x r l k e) alive c o v =
        let alive_before = Step-alive cfg (send_stopped x r l k e) alive in cc
    Step-IsAnswered {s} (finished l k e) alive c o v =
        rw e (same-IsAnswered cfg s _ refl refl (rw l refl) v)

    Reach-IsAnswered :
        {s : Service T Out} → Reach cfg (start cfg) s → s.cancelled ≡ false → IsAnswered cfg s
    unfolding start Backend.start new succeeded failed
    Reach-IsAnswered here alive = record { acks = refl; deads = refl; limits = tt }
    Reach-IsAnswered (next p st) alive =
        Step-IsAnswered st alive (Reach-IsCarried cfg p) (Reach-IsOwned cfg p)
          (Reach-IsAnswered p (Step-alive cfg st alive))

    -- When Consume has closed its output, neither ctx is done nor the queue closed, every payload that
    -- was published has its result with the consumer, as often as it was published. The payloads of
    -- the results without an error are those acknowledged, in order, and those of the results with an
    -- error are the dead letters, in order; a result has an error only if a limit of deliveries is set
    -- and the message has been delivered that often.
    pub closed_all_results :
        {s : Service T Out}
        → Reach cfg (start cfg) s
        → s.cancelled ≡ false
        → s.memq.queue.is_closed ≡ false
        → s.loop ≡ left
        → Perm s.memq.published (failed s.results ++ succeeded s.results)
          × (s.memq.acked ≡ succeeded s.results)
          × (s.memq.queue.dead ≡ failed s.results)
          × All (IsAtLimit cfg) s.results
    closed_all_results {s} p alive open_still l =
        let v = Reach-IsAnswered p alive in
        let acks : s.memq.acked ≡ succeeded s.results = rw l at v.acks in
        let deads : s.memq.queue.dead ≡ failed s.results = rw l at v.deads in
        let limits : All (IsAtLimit cfg) s.results = rw l at v.limits in
        let all : Perm s.memq.published (s.memq.queue.dead ++ s.memq.acked) =
          elim (left-IsEnded cfg p alive l) [
            | inl closed_now ↦ cc
            | inr done ↦ drained_all_finalized 1 (Reach-memq cfg p) done
          ] in
        (rw (acks, deads) at all, acks, deads, limits)
