-- ===== src/Source/Delivery.antt =====
-- What From delivers (source.go).
use gojob.Prelude.{◌≡◌, refl, ap, true, List, [], ◌∷◌}
use gojob.Stream.{Turn, accept, cancel, send}
use gojob.Stream.Relay.{relay}
use gojob.Source.{from}

-- From sends its items in order and then closes, and stops early only where ctx is done.
pub from-relay {ℓ} :
    {A : Type ℓ} (items : List A) (ts : List Turn) → from items ts ≡ relay items true ts
unfolding from relay
from-relay [] ts = refl
from-relay (it ∷ items) [] = refl
from-relay (it ∷ items) (accept ∷ ts) = ap (send it) (from-relay items ts)
from-relay (it ∷ items) (cancel ∷ ts) = refl
