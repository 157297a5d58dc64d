-- ===== src/Redisq/Keys.antt =====
-- Two keys are the same only where queue and field are (queue/redisq/redisq.go: New).
use mathlib.Core.List.{append_cancel_right}
use gojob.Prelude.{
  ◌==◌, ◌≡◌, refl, sym, ap, ◌∙◌, Bool, true, false, Option, some, none, [], ◌∷◌, ◌++◌, arith,
  if◌then◌else◌,
}
use gojob.Fileq.{eqb_text}
use gojob.Fileq.Decimal.{Text}
use gojob.Redisq.Options.{
  Field, seq, pending, processing, leases, payloads, deliveries, dead, is_sealed, suffix, key_name,
  key_at, keys_of,
}

-- The text behind the last colon.
after_colon : Text → Option Text
after_colon [] = none
after_colon (c ∷ cs) =
    let rest = after_colon cs in
    elim rest [ none ↦ if c == b':' then some cs else none | some t ↦ some t ]

no_colon : Text → Bool
no_colon [] = true
no_colon (c ∷ cs) = let rest = no_colon cs in if c == b':' then false else rest

after_colon-none : (w : Text) → no_colon w ≡ true → after_colon w ≡ none
unfolding after_colon no_colon
after_colon-none [] h = refl
after_colon-none (c ∷ w) h = ground (arith, after_colon-none w)

after_colon-append : (p w : Text) → no_colon w ≡ true → after_colon (p ++ b':' ∷ w) ≡ some w
unfolding after_colon
after_colon-append [] w h = rw (after_colon-none w h) refl
after_colon-append (c ∷ p) w h = rw (after_colon-append p w h) refl

-- The field of a suffix.
field_of : Text → Option Field
unfolding suffix eqb_text
field_of w =
    if eqb_text w (suffix seq)
    then some seq
    else if eqb_text w (suffix pending)
    then some pending
    else if eqb_text w (suffix processing)
    then some processing
    else if eqb_text w (suffix leases)
    then some leases
    else if eqb_text w (suffix payloads)
    then some payloads
    else if eqb_text w (suffix deliveries)
    then some deliveries
    else if eqb_text w (suffix dead)
    then some dead
    else if eqb_text w (suffix is_sealed)
    then some is_sealed
    else none

field_of-suffix : (f : Field) → field_of (suffix f) ≡ some f
unfolding field_of suffix
field_of-suffix seq = refl
field_of-suffix pending = refl
field_of-suffix processing = refl
field_of-suffix leases = refl
field_of-suffix payloads = refl
field_of-suffix deliveries = refl
field_of-suffix dead = refl
field_of-suffix is_sealed = refl

no_colon-suffix : (f : Field) → no_colon (suffix f) ≡ true
unfolding no_colon suffix
no_colon-suffix seq = refl
no_colon-suffix pending = refl
no_colon-suffix processing = refl
no_colon-suffix leases = refl
no_colon-suffix payloads = refl
no_colon-suffix deliveries = refl
no_colon-suffix dead = refl
no_colon-suffix is_sealed = refl

after_colon-key_name : (p : Text) (f : Field) → after_colon (key_name p f) ≡ some (suffix f)
unfolding key_name
after_colon-key_name p f = after_colon-append p (suffix f) (no_colon-suffix f)

key_at-key_name : (f : Field) (p : Text) → key_at f (keys_of p) ≡ key_name p f
unfolding keys_of
key_at-key_name seq p = refl
key_at-key_name pending p = refl
key_at-key_name processing p = refl
key_at-key_name leases p = refl
key_at-key_name payloads p = refl
key_at-key_name deliveries p = refl
key_at-key_name dead p = refl
key_at-key_name is_sealed p = refl

-- Queues with different prefixes share no key, whatever the prefixes are, and the eight keys of one
-- queue differ.
pub keys_of_inj :
    (p q : Text) (f g : Field) → key_at f (keys_of p) ≡ key_at g (keys_of q) → (p ≡ q) × (f ≡ g)
keys_of_inj p q f g e =
    let e' : key_name p f ≡ key_name q g = sym (key_at-key_name f p) ∙ e ∙ key_at-key_name g q in
    let named : some (suffix f) ≡ some (suffix g) =
      sym (after_colon-key_name p f) ∙ ap after_colon e' ∙ after_colon-key_name q g in
    let same_suffix : suffix f ≡ suffix g = cc named in
    let found : some f ≡ some g =
      sym (field_of-suffix f) ∙ ap field_of same_suffix ∙ field_of-suffix g in
    let same_field : f ≡ g = cc found in
    let aligned : p ++ b':' ∷ suffix g ≡ q ++ b':' ∷ suffix g =
      ap (λ w. p ++ b':' ∷ w) (sym same_suffix) ∙ (unfold key_name in e') in
    (append_cancel_right p q (b':' ∷ suffix g) aligned, same_field)
