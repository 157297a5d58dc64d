-- ===== src/Fileq/Disk/Round.antt =====
-- One round of Receive on a directory (queue/fileq/fileq.go), and the file operations that it makes.
use gojob.Prelude.{
  ◌≡◌, refl, ap, ◌∙◌, true, Option, some, none, List, [], ◌∷◌, ℤ, arith, Bool-cases, Option-cases,
  inl, inr, if◌then◌else◌, leb_ℤ, ltb_ℤ,
}
use gojob.Fileq.{Entry, entry_name, parse_name}
use gojob.Fileq.Decimal.{Text}
use gojob.Fileq.Disk.{
  Disk, once_more, take_pending, put_back, waiting_name, or_same, reclaim_names, reclaim_expired,
  list_names, drained, decode, divert, claim_names, claim,
}
use gojob.Fileq.Disk.Claim.{claim_unreadable, claim_gone, claim_decoded, claim_diverted}
use gojob.Fileq.Disk.Conserved.{FreshReach, here, next, IsFresh, FreshReach-trans}
use gojob.Fileq.Disk.System.{System, Step, taken, reclaimed, diverted}

-- What one round of Receive comes to.
pub data Round {ℓ} (T : Type ℓ) : Type ℓ where
  delivers : Entry → T → Round T
  finished polls : Round T

module _ {ℓ} {T : Type ℓ} (unmarshal : Text → Option T) (lease : Text → ℤ) where
  -- The round behind the claim: without a message, it ends where the queue is drained, by the disks
  -- that the three reads of drained find.
  unfoldable pub round_of : Disk → Disk → Disk → Option (Entry × T) → Round T
  unfolding drained
  round_of a b c (some (e, payload)) = delivers e payload
  round_of a b c none = if drained a b c then finished else polls

  unfoldable pub receive_round : ℤ → Disk → Disk → Disk → Disk → Disk × Round T
  unfolding claim reclaim_expired round_of
  receive_round now d at_marker at_processing at_pending =
      let got = claim unmarshal lease (reclaim_expired now d) in
      (got.0, round_of at_marker at_processing at_pending got.1)

  module _ (marshal : T → Option Text) where
    -- A run of the steps that ends at this disk.
    abbrev pub RunsTo : System → Disk → Type ℓ
    RunsTo s d = (t : System) × FreshReach marshal s t × (t.disk ≡ d)

    -- A run behind one step.
    behind :
        (s : System) (d : Disk) {e : Disk} (st : Step marshal s (record s { disk = d }))
        → IsFresh marshal st
        → RunsTo (record s { disk = d }) e
        → RunsTo s e
    behind s d st fresh (t, p, e) = (t, FreshReach-trans marshal (next here st fresh) p, e)

    claim_names-RunsTo :
        (names : List Text) (s : System) → RunsTo s (claim_names unmarshal lease names s.disk).0
    claim_names-RunsTo [] s = unfold claim_names in (s, here, refl)
    claim_names-RunsTo (n ∷ ns) s = elim (Option-cases (parse_name n)) [
      | inl unreadable ↦
          rw (claim_unreadable unmarshal lease n ns s.disk unreadable) (claim_names-RunsTo ns s)
      | inr (e, read) ↦
          let to = entry_name (once_more (lease n) e) in
          elim (Option-cases (take_pending n to s.disk)) [
            | inl gone ↦
                rw (claim_gone unmarshal lease n ns s.disk read gone) (claim_names-RunsTo ns s)
            | inr (d, moved) ↦
                let take : Step marshal s (record s { disk = d }) =
                  taken n e (lease n) d read moved refl in
                elim (Option-cases (decode unmarshal lease (once_more (lease n) e) d)) [
                  | inl bad ↦ rw (claim_diverted unmarshal lease n ns s.disk read moved bad) (
                      behind s d take tt (
                        behind (record s { disk = d }) (divert (once_more (lease n) e) d)
                          (diverted (once_more (lease n) e) refl) tt
                          (claim_names-RunsTo ns
                            (record s { disk = divert (once_more (lease n) e) d }))))
                  | inr (payload, good) ↦
                      rw (claim_decoded unmarshal lease n ns s.disk read moved good)
                        (behind s d take tt (record s { disk = d }, here, refl))
                ]
          ]
    ]

    reclaim_skips :
        (now : ℤ) (n : Text) (ns : List Text) (d : Disk)
        → parse_name n ≡ none
        → reclaim_names now (n ∷ ns) d ≡ reclaim_names now ns d
    unfolding reclaim_names
    reclaim_skips now n ns d e = rw (reclaim_names, e) refl

    reclaim_reads :
        (now : ℤ) (n : Text) (ns : List Text) (d : Disk) {e : Entry}
        → parse_name n ≡ some e
        → reclaim_names now (n ∷ ns) d
          ≡ reclaim_names now ns
              (if leb_ℤ now e.lease then d else or_same d (put_back n (waiting_name e) d))
    unfolding reclaim_names
    reclaim_reads now n ns d e = rw (reclaim_names, e) refl

    reclaim_names-RunsTo :
        (now : ℤ) (names : List Text) (s : System) → RunsTo s (reclaim_names now names s.disk)
    reclaim_names-RunsTo now [] s = unfold reclaim_names in (s, here, refl)
    reclaim_names-RunsTo now (n ∷ ns) s = elim (Option-cases (parse_name n)) [
      | inl unreadable ↦
          rw (reclaim_skips now n ns s.disk unreadable) (reclaim_names-RunsTo now ns s)
      | inr (e, read) ↦
          rw (reclaim_reads now n ns s.disk read) (elim (Bool-cases (leb_ℤ now e.lease)) [
            | inl held ↦ rw held (reclaim_names-RunsTo now ns s)
            | inr expired ↦ rw expired (elim (Option-cases (put_back n (waiting_name e) s.disk)) [
              | inl gone ↦ rw gone (reclaim_names-RunsTo now ns s)
              | inr (d, moved) ↦
                  let late : ltb_ℤ e.lease now ≡ true = ground arith in
                  rw moved (
                    behind s d (reclaimed n e now d read late moved refl) tt
                      (reclaim_names-RunsTo now ns (record s { disk = d })))
            ])
          ])
    ]

    -- A round of Receive is a run of file operations that publishes nothing: it reclaims, claims, and
    -- diverts what it cannot read, and what holds of all runs holds of it.
    pub receive_round-RunsTo :
        (now : ℤ) (s : System) (a b c : Disk) → RunsTo s (receive_round now s.disk a b c).0
    unfolding receive_round claim reclaim_expired
    receive_round-RunsTo now s a b c =
        let (t, p, e) = reclaim_names-RunsTo now (list_names s.disk.processing) s in
        let (u, q, f) = claim_names-RunsTo (list_names t.disk.pending) t in
        (
          u,
          FreshReach-trans marshal p q,
          f ∙ ap (λ d. (claim_names unmarshal lease (list_names d.pending) d).0) e,
        )
