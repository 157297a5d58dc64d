-- ===== src/Process/Pool/Renamed.antt =====
-- A pool with other items in the place of its items (process.go): its runs.
use mathlib.Core.List.{map-append}
use gojob.Prelude.{
  ℕ, zero, suc, ◌≡◌, refl, ap, ◌∙◌, List, [], ◌∷◌, ◌++◌, map, replicate, pos_part, All,
}
use gojob.Options.{Config}
use gojob.Process.Pool.{
  Worker, idle, running, offering, gone, IsGone, Pool, start, Step, take, finish, deliver, drop,
  drained, stop, cancel, close, Reach, here, next,
}
use gojob.Task.{Result}

module _ {ℓ κ ν} {In : Type ℓ} {Other : Type ν} {Out : Type κ} (h : In → Other) where
  abbrev pub map_worker : Worker In Out → Worker Other Out
  map_worker idle = idle
  map_worker (running x) = running (h x)
  map_worker (offering x r) = offering (h x) r
  map_worker gone = gone

  -- A pool with other items in the place of the items.
  abbrev pub map_pool : Pool In Out → Pool Other Out
  map_pool s = record {
    input = map h s.input;
    cancelled = s.cancelled;
    workers = map map_worker s.workers;
    sent = map (λ p. (h p.0, p.1)) s.sent;
    dropped = map h s.dropped;
    out_closed = s.out_closed;
  }

  map_worker-swap :
      (s : Pool In Out) (pre post : List (Worker In Out)) (w : Worker In Out)
      → s.workers ≡ pre ++ w ∷ post
      → map map_worker s.workers ≡ map map_worker pre ++ map_worker w ∷ map map_worker post
  map_worker-swap s pre post w e = ap (map map_worker) e ∙ map-append map_worker pre (w ∷ post)

  IsGone-map : (ws : List (Worker In Out)) → All IsGone ws → All IsGone (map map_worker ws)
  IsGone-map [] all = tt
  IsGone-map (w ∷ ws) (e, all) = (ap map_worker e, IsGone-map ws all)

  module _ {μ ρ} (RunsIn : In → Result Out → Type μ) (RunsOther : Other → Result Out → Type ρ)
      (onward : (x : In) (r : Result Out) → RunsIn x r → RunsOther (h x) r) where
    Step-map : {s t : Pool In Out} → Step RunsIn s t → Step RunsOther (map_pool s) (map_pool t)
    Step-map {s} (take pre post x rest w i e) =
        take (map map_worker pre) (map map_worker post) (h x) (map h rest)
          (map_worker-swap s pre post idle w) (ap (map h) i) (rw (e, map-append) refl)
    Step-map {s} (finish pre post x r w run e) =
        finish (map map_worker pre) (map map_worker post) (h x) r
          (map_worker-swap s pre post (running x) w) (onward x r run) (rw (e, map-append) refl)
    Step-map {s} (deliver pre post x r w e) =
        deliver (map map_worker pre) (map map_worker post) (h x) r
          (map_worker-swap s pre post (offering x r) w) (rw (e, map-append, map-append) refl)
    Step-map {s} (drop pre post x r w c e) =
        drop (map map_worker pre) (map map_worker post) (h x) r
          (map_worker-swap s pre post (offering x r) w) c (rw (e, map-append) refl)
    Step-map {s} (drained pre post w i e) =
        drained (map map_worker pre) (map map_worker post) (map_worker-swap s pre post idle w)
          (ap (map h) i) (rw (e, map-append) refl)
    Step-map {s} (stop pre post w c e) =
        stop (map map_worker pre) (map map_worker post) (map_worker-swap s pre post idle w) c
          (rw (e, map-append) refl)
    Step-map {s} (cancel c e) = cancel c (rw e refl)
    Step-map {s} (close all c e) = close (IsGone-map s.workers all) c (rw e refl)

    pub Reach-map :
        {s t : Pool In Out} → Reach RunsIn s t → Reach RunsOther (map_pool s) (map_pool t)
    Reach-map here = here
    Reach-map (next p st) = next (Reach-map p) (Step-map st)

map_idle {ℓ κ ν} :
    {In : Type ℓ} {Other : Type ν} (Out : Type κ) (h : In → Other) (n : ℕ)
    → map (map_worker {Out = Out} h) (replicate n idle) ≡ replicate n idle
map_idle Out h zero = refl
map_idle Out h (suc n) = ap (λ l. idle ∷ l) (map_idle Out h n)

pub map-start {ℓ κ ν} :
    {In : Type ℓ} {Other : Type ν} (Out : Type κ) (h : In → Other) (cfg : Config) (items : List In)
    → map_pool {Out = Out} h (start cfg items) ≡ start cfg (map h items)
unfolding start
map-start Out h cfg items = rw (map_idle Out h (pos_part cfg.workers)) refl

pub same_results {ℓ κ ν} :
    {In : Type ℓ} {Other : Type ν} {Out : Type κ} (h : In → Other) (sent : List (In × Result Out))
    → let renamed : List (Other × Result Out) = map (λ p. (h p.0, p.1)) sent in
      map (λ p. p.1) renamed ≡ map (λ p. p.1) sent
same_results h [] = refl
same_results h (p ∷ sent) = ap (λ l. p.1 ∷ l) (same_results h sent)
