-- ===== src/Fileq/Disk/Claim.antt =====
-- What claim returns, and that no one else can claim it again (queue/fileq/fileq.go).
use gojob.Prelude.{
  ◌≡◌, refl, ap, sym, ◌∙◌, Option, none, some, List, [], ◌∷◌, ◌++◌, ℤ, ℕ, zero, suc, pos, negsuc,
  pos_part, neg_part, sub_ℕ, ◌+◌, ◌-ℤ◌, arith, Option-cases, inl, inr,
}
use gojob.Fileq.{Entry, entry_name, parse_name}
use gojob.Fileq.Decimal.{Text}
use gojob.Fileq.Disk.{
  Dir, Disk, find_file, remove_file, take_pending, once_more, decode, divert, claim_names, claim,
  list_names,
}

find_file-remove_file : (name : Text) (files : Dir) → find_file name (remove_file name files) ≡ none
unfolding find_file remove_file
find_file-remove_file name [] = refl
find_file-remove_file name ((n, b) ∷ files) = ground (arith, find_file-remove_file name files)

take_pending-gone :
    (name to : Text) (s : Disk) {t : Disk}
    → take_pending name to s ≡ some t
    → find_file name t.pending ≡ none
unfolding take_pending
take_pending-gone name to s e = elim (Option-cases (find_file name s.pending)) [
  | inl missing ↦ ground (arith, missing)
  | inr (b, there) ↦ ground (arith, there, find_file-remove_file name s.pending)
]

take_pending-missing :
    (name to : Text) (s : Disk) → find_file name s.pending ≡ none → take_pending name to s ≡ none
unfolding take_pending
take_pending-missing name to s e = rw (take_pending, e) refl

from_zero : (n : ℕ) → sub_ℕ n 0 ≡ pos n
from_zero n = ground arith

below_zero : (n : ℕ) → sub_ℕ (0 + 1) (suc (suc n)) ≡ negsuc n
below_zero n = ground arith

differ : (d a b : ℕ) → a ≡ b + d → sub_ℕ a b ≡ pos d
differ d a b e = ground arith

more : (d : ℤ) → sub_ℕ (pos_part d + 1) (neg_part d) -ℤ d ≡ pos 1
unfolding ◌-ℤ◌
more (pos n) = rw (from_zero (n + 1)) (differ 1 (n + 1 + 0) (0 + n) (omega arith))
more (negsuc zero) = refl
more (negsuc (suc n)) = rw (below_zero n) (differ 1 (0 + suc (suc n)) (suc n + 0) (omega arith))

once_more-deliveries : (l : ℤ) (e : Entry) → (once_more l e).deliveries -ℤ e.deliveries ≡ pos 1
unfolding once_more
once_more-deliveries l e = more e.deliveries

module _ {ℓ} {T : Type ℓ} (unmarshal : Text → Option T) (lease : Text → ℤ) where
  -- The message of one of the names: its file is in processing under the new name, its bytes decode to
  -- the payload, and its old name cannot be claimed once more.
  pub record IsClaimed (names : List Text) (t : Disk) (e : Entry) (payload : T) : Type ℓ where
    pub before : List Text
    pub name : Text
    pub after : List Text
    pub listed : before ++ name ∷ after ≡ names
    pub entry : Entry
    pub read : parse_name name ≡ some entry
    pub same_seq : e.seq ≡ entry.seq
    pub one_more : e.deliveries -ℤ entry.deliveries ≡ pos 1
    pub lease_is : e.lease ≡ lease name
    pub bytes : Text
    pub leased : find_file (entry_name e) t.processing ≡ some bytes
    pub decoded : unmarshal bytes ≡ some payload
    pub exclusive : (to : Text) → take_pending name to t ≡ none

  later :
      (n : Text) {names : List Text} {t : Disk} {e : Entry} {payload : T}
      → IsClaimed names t e payload
      → IsClaimed (n ∷ names) t e payload
  later n c = record {
    before = n ∷ c.before;
    name = c.name;
    after = c.after;
    listed = ap (λ l. n ∷ l) c.listed;
    entry = c.entry;
    read = c.read;
    same_seq = c.same_seq;
    one_more = c.one_more;
    lease_is = c.lease_is;
    bytes = c.bytes;
    leased = c.leased;
    decoded = c.decoded;
    exclusive = c.exclusive;
  }

  decode-some :
      (e : Entry) (s : Disk) {payload : T}
      → decode unmarshal lease e s ≡ some payload
      → (bytes : Text) × (find_file (entry_name e) s.processing ≡ some bytes)
        × (unmarshal bytes ≡ some payload)
  unfolding decode
  decode-some e s d = elim (Option-cases (find_file (entry_name e) s.processing)) [
    | inl missing ↦ ground (arith, missing)
    | inr (b, there) ↦ (b, there, ground (arith, there))
  ]

  pub claim_unreadable :
      (n : Text) (ns : List Text) (s : Disk)
      → parse_name n ≡ none
      → claim_names unmarshal lease (n ∷ ns) s ≡ claim_names unmarshal lease ns s
  unfolding claim_names
  claim_unreadable n ns s e = ground (arith, e)

  pub claim_gone :
      (n : Text) (ns : List Text) (s : Disk) {e : Entry}
      → parse_name n ≡ some e
      → take_pending n (entry_name (once_more (lease n) e)) s ≡ none
      → claim_names unmarshal lease (n ∷ ns) s ≡ claim_names unmarshal lease ns s
  unfolding claim_names
  claim_gone n ns s read gone = ground (arith, read, gone)

  pub claim_decoded :
      (n : Text) (ns : List Text) (s : Disk) {t : Disk} {e : Entry} {payload : T}
      → parse_name n ≡ some e
      → take_pending n (entry_name (once_more (lease n) e)) s ≡ some t
      → decode unmarshal lease (once_more (lease n) e) t ≡ some payload
      → claim_names unmarshal lease (n ∷ ns) s ≡ (t, some (once_more (lease n) e, payload))
  unfolding claim_names
  claim_decoded n ns s read moved good = ground (arith, read, moved, good)

  pub claim_diverted :
      (n : Text) (ns : List Text) (s : Disk) {t : Disk} {e : Entry}
      → parse_name n ≡ some e
      → take_pending n (entry_name (once_more (lease n) e)) s ≡ some t
      → decode unmarshal lease (once_more (lease n) e) t ≡ none
      → claim_names unmarshal lease (n ∷ ns) s
        ≡ claim_names unmarshal lease ns (divert (once_more (lease n) e) t)
  unfolding claim_names
  claim_diverted n ns s read moved bad = ground (arith, read, moved, bad)

  -- The first name, moved and decoded.
  this_one :
      (n : Text) (ns : List Text) (s : Disk) {t : Disk} {e : Entry} {payload : T}
      → parse_name n ≡ some e
      → take_pending n (entry_name (once_more (lease n) e)) s ≡ some t
      → decode unmarshal lease (once_more (lease n) e) t ≡ some payload
      → IsClaimed (n ∷ ns) t (once_more (lease n) e) payload
  this_one n ns s {t} {e} read moved good =
      let (bytes, there, decoded) = decode-some (once_more (lease n) e) t good in
      record {
        before = [];
        name = n;
        after = ns;
        listed = refl;
        entry = e;
        read = read;
        same_seq = unfold once_more in refl;
        one_more = once_more-deliveries (lease n) e;
        lease_is = unfold once_more in refl;
        bytes = bytes;
        leased = there;
        decoded = decoded;
        exclusive = λ to. take_pending-missing n to t (take_pending-gone n _ s moved);
      }

  claim_names-IsClaimed :
      (names : List Text) (s : Disk) {t : Disk} {e : Entry} {payload : T}
      → claim_names unmarshal lease names s ≡ (t, some (e, payload))
      → IsClaimed names t e payload
  claim_names-IsClaimed [] s h = unfold claim_names in cc
  claim_names-IsClaimed (n ∷ ns) s {t} {e} {payload} h = elim (Option-cases (parse_name n)) [
    | inl unreadable ↦
        later n (claim_names-IsClaimed ns s (sym (claim_unreadable n ns s unreadable) ∙ h))
    | inr (was, read) ↦
        elim (Option-cases (take_pending n (entry_name (once_more (lease n) was)) s)) [
          | inl gone ↦ later n (claim_names-IsClaimed ns s (sym (claim_gone n ns s read gone) ∙ h))
          | inr (s', moved) ↦
              elim (Option-cases (decode unmarshal lease (once_more (lease n) was) s')) [
                | inl bad ↦
                    later n
                      (claim_names-IsClaimed ns _ (sym (claim_diverted n ns s read moved bad) ∙ h))
                | inr (found, good) ↦
                    let same : (s', some (once_more (lease n) was, found))
                        ≡ (t, some (e, payload)) =
                      sym (claim_decoded n ns s read moved good) ∙ h in
                    let claimed = this_one n ns s read moved good in
                    let disks : s' ≡ t = ap (λ x. x.0) same in
                    let parts = ap (λ x. x.1) same in
                    let entries : once_more (lease n) was ≡ e = cc parts in
                    let payloads : found ≡ payload = cc parts in
                    rw (sym disks, sym entries, sym payloads) claimed
              ]
        ]
  ]

  -- If claim returns a message, it is that of a file that was listed in pending: it has the sequence of
  -- that file's name, a delivery count that is one more than there, and the lease that the clock gave
  -- for the name; its file is in processing under its own name, its bytes decode to the payload, and no
  -- other claim of the old name succeeds.
  pub claim-IsClaimed :
      (s : Disk) {t : Disk} {e : Entry} {payload : T}
      → claim unmarshal lease s ≡ (t, some (e, payload))
      → IsClaimed (list_names s.pending) t e payload
  claim-IsClaimed s h = claim_names-IsClaimed (list_names s.pending) s (unfold claim in h)
