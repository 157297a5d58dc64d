-- ===== src/Source.antt =====
-- source.go: From.
pub mod Delivery
pub mod Lines
use gojob.Prelude.{List, [], ◌∷◌}
use gojob.Stream.{Stream, Turn, accept, cancel, ended, blocked, send}

unfoldable pub from {ℓ} : {A : Type ℓ} → List A → List Turn → Stream A
from [] ts = ended
from (it ∷ items) [] = blocked
from (it ∷ items) (accept ∷ ts) = send it (from items ts)
from (it ∷ items) (cancel ∷ ts) = ended
