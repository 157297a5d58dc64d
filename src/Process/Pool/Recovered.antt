-- ===== src/Process/Pool/Recovered.antt =====
-- A run with other items comes from one with the items (process.go).
use mathlib.Core.List.{map-append}
use gojob.Prelude.{◌≡◌, refl, sym, ap, ◌∙◌, List, [], ◌∷◌, ◌++◌, map, All}
use gojob.Process.Pool.{
  Worker, idle, running, offering, gone, IsGone, Pool, Step, take, finish, deliver, drop, drained,
  stop, cancel, close, Reach, here, next,
}
use gojob.Task.{Result}
use gojob.Process.Pool.Renamed.{map_worker, map_pool}

-- A mapped list, split around an element.
map_split {ℓ κ} :
    {A : Type ℓ} {B : Type κ} (g : A → B) (xs : List A) (pre post : List B) (b : B)
    → map g xs ≡ pre ++ b ∷ post
    → (before : List A) × (a : A) × (behind : List A) × (xs ≡ before ++ a ∷ behind)
      × (map g before ≡ pre)
      × (g a ≡ b)
      × (map g behind ≡ post)
map_split g [] [] post b e = cc
map_split g [] (y ∷ pre) post b e = cc
map_split g (x ∷ xs) [] post b e = ([], x, xs, refl, refl, cc, cc)
map_split g (x ∷ xs) (y ∷ pre) post b e =
    let (before, a, behind, same, front, middle, back) = map_split g xs pre post b cc in
    (x ∷ before, a, behind, ap (λ l. x ∷ l) same, cc, middle, back)

map_first {ℓ κ} :
    {A : Type ℓ} {B : Type κ} (g : A → B) (xs : List A) (b : B) (rest : List B)
    → map g xs ≡ b ∷ rest
    → (a : A) × (behind : List A) × (xs ≡ a ∷ behind) × (g a ≡ b) × (map g behind ≡ rest)
map_first g [] b rest e = cc
map_first g (x ∷ xs) b rest e = (x, xs, refl, cc, cc)

map-nil {ℓ κ} : {A : Type ℓ} {B : Type κ} (g : A → B) (xs : List A) → map g xs ≡ [] → xs ≡ []
map-nil g [] e = refl
map-nil g (x ∷ xs) e = cc

module _ {ℓ κ ν} {In : Type ℓ} {Other : Type ν} {Out : Type κ} (h : In → Other) where
  idle_of : (w : Worker In Out) → map_worker h w ≡ idle → w ≡ idle
  idle_of idle e = refl
  idle_of (running x) e = cc
  idle_of (offering x r) e = cc
  idle_of gone e = cc

  gone_of : (w : Worker In Out) → map_worker h w ≡ gone → w ≡ gone
  gone_of idle e = cc
  gone_of (running x) e = cc
  gone_of (offering x r) e = cc
  gone_of gone e = refl

  running_of :
      (w : Worker In Out) (y : Other)
      → map_worker h w ≡ running y
      → (x : In) × (w ≡ running x) × (h x ≡ y)
  running_of idle y e = cc
  running_of (running x) y e = (x, refl, cc)
  running_of (offering x r) y e = cc
  running_of gone y e = cc

  offering_of :
      (w : Worker In Out) (y : Other) (r : Result Out)
      → map_worker h w ≡ offering y r
      → (x : In) × (w ≡ offering x r) × (h x ≡ y)
  offering_of idle y r e = cc
  offering_of (running x) y r e = cc
  offering_of (offering x q) y r e = (x, cc, cc)
  offering_of gone y r e = cc

  IsGone-of : (ws : List (Worker In Out)) → All IsGone (map (map_worker h) ws) → All IsGone ws
  IsGone-of [] all = tt
  IsGone-of (w ∷ ws) (e, all) = (gone_of w e, IsGone-of ws all)

  module _ {μ ρ} (RunsIn : In → Result Out → Type μ) (RunsOther : Other → Result Out → Type ρ)
      (back : (x : In) (r : Result Out) → RunsOther (h x) r → RunsIn x r) where
    -- A step of the pool with the other items is one of the pool.
    Step-back :
        (s : Pool In Out) {v : Pool Other Out}
        → Step RunsOther (map_pool h s) v
        → (t : Pool In Out) × Step RunsIn s t × (map_pool h t ≡ v)
    Step-back s (take pre post y rest w i e) =
        let (p, a, q, split, front, middle, behind) =
          map_split (map_worker h) s.workers pre post idle w in
        let (x, xs, taken, named, later) = map_first h s.input y rest i in
        (
          _,
          take p q x xs (split ∙ ap (λ k. p ++ k ∷ q) (idle_of a middle)) taken refl,
          rw (e, map-append, front, named, behind, later) refl,
        )
    Step-back s (finish pre post y r w run e) =
        let (p, a, q, split, front, middle, behind) =
          map_split (map_worker h) s.workers pre post (running y) w in
        let (x, is, named) = running_of a y middle in
        (
          _,
          finish p q x r (split ∙ ap (λ k. p ++ k ∷ q) is) (back x r (rw named run)) refl,
          rw (e, map-append, front, named, behind) refl,
        )
    Step-back s (deliver pre post y r w e) =
        let (p, a, q, split, front, middle, behind) =
          map_split (map_worker h) s.workers pre post (offering y r) w in
        let (x, is, named) = offering_of a y r middle in
        (
          _,
          deliver p q x r (split ∙ ap (λ k. p ++ k ∷ q) is) refl,
          rw (e, map-append, map-append, front, named, behind) refl,
        )
    Step-back s (drop pre post y r w c e) =
        let (p, a, q, split, front, middle, behind) =
          map_split (map_worker h) s.workers pre post (offering y r) w in
        let (x, is, named) = offering_of a y r middle in
        (
          _,
          drop p q x r (split ∙ ap (λ k. p ++ k ∷ q) is) c refl,
          rw (e, map-append, front, named, behind) refl,
        )
    Step-back s (drained pre post w i e) =
        let (p, a, q, split, front, middle, behind) =
          map_split (map_worker h) s.workers pre post idle w in
        (
          _,
          drained p q (split ∙ ap (λ k. p ++ k ∷ q) (idle_of a middle)) (map-nil h s.input i) refl,
          rw (e, map-append, front, behind) refl,
        )
    Step-back s (stop pre post w c e) =
        let (p, a, q, split, front, middle, behind) =
          map_split (map_worker h) s.workers pre post idle w in
        (
          _,
          stop p q (split ∙ ap (λ k. p ++ k ∷ q) (idle_of a middle)) c refl,
          rw (e, map-append, front, behind) refl,
        )
    Step-back s (cancel c e) = (_, cancel c refl, rw e refl)
    Step-back s (close all c e) = (_, close (IsGone-of s.workers all) c refl, rw e refl)

    -- A run of the pool with the other items is one of the pool.
    pub Reach-back :
        (s : Pool In Out) {u v : Pool Other Out}
        → map_pool h s ≡ u
        → Reach RunsOther u v
        → (t : Pool In Out) × Reach RunsIn s t × (map_pool h t ≡ v)
    Reach-back s e here = (s, here, e)
    Reach-back s e (next p st) =
        let (t, q, same) = Reach-back s e p in
        let (t', st', same') = Step-back t (rw (sym same) at st) in (t', next q st', same')
