-- ===== src/Prelude/Bags.antt =====
-- Moving one element to the front of nested appends, up to order.
use mathlib.Core.List.{List, [], ◌∷◌, ◌++◌, Perm, perm_middle}
use mathlib.Core.List.Perm
use mathlib.Core.List as Lists
use mathlib.Core.Nat as Unary
use mathlib.Core.Path.{◌≡◌, refl, sym, ap, ◌∙◌}
use Prim.Native.Nat.{ℕ, suc}
use gojob.Prelude.Lists.{length}

-- The numbers of the library's length, as native ones.
abbrev native : Unary.ℕ → ℕ
native Unary.zero = 0
native (Unary.suc n) = suc (native n)

length-native {ℓ} : {A : Type ℓ} (xs : List A) → native (Lists.length xs) ≡ length xs
length-native [] = refl
length-native (x ∷ xs) = ap suc (length-native xs)

-- A list in another order has the same length.
pub Perm-length {ℓ} : {A : Type ℓ} (xs ys : List A) → Perm xs ys → length xs ≡ length ys
Perm-length xs ys p = sym (length-native xs) ∙ ap native (Perm.length-eq p) ∙ length-native ys

module _ {ℓ} {A : Type ℓ} where
  pub pull : (x : A) (a s r : List A) → Perm s (x ∷ r) → Perm (a ++ s) (x ∷ (a ++ r))
  pull x a s r h = Perm.trans (Perm.append_left a h) (perm_middle a r)

  -- The element in the middle of the first of two lists.
  pub pull_mid : (x : A) (p q i : List A) → Perm ((p ++ x ∷ q) ++ i) (x ∷ ((p ++ q) ++ i))
  pull_mid x p q i = Perm.append_right i (perm_middle p q)

  pub via : {s t : List A} (r : List A) → Perm s r → Perm t r → Perm s t
  via r h k = Perm.trans h (Perm.symm k)
