-- ===== src/Stats/Torn.antt =====
-- A snapshot beside a running WithStats, which adds to its two counters one after the other (stats.go).
use gojob.Prelude.{
  ◌+◌, ◌≡◌, ◌≢◌, ◌⊎◌, inl, inr, refl, ap, ℕ, suc, none, List, [], ◌∷◌, ◌++◌, length, Option-cases,
  arith,
}
use gojob.Task.{Result}
use gojob.Stats.{Stats, Count, done_added, failed_added, count_all, counts_of}
use gojob.Stats.Counts.{error_count}

-- The additions to each counter.
abbrev pub done_adds : List Count → ℕ
done_adds [] = 0
done_adds (done_added ∷ cs) = suc (done_adds cs)
done_adds (failed_added ∷ cs) = done_adds cs

abbrev pub failed_adds : List Count → ℕ
failed_adds [] = 0
failed_adds (done_added ∷ cs) = failed_adds cs
failed_adds (failed_added ∷ cs) = suc (failed_adds cs)

pub count_all_adds :
    (cs : List Count) (s : Stats)
    → ((count_all cs s).done ≡ s.done + done_adds cs)
      × ((count_all cs s).failed ≡ s.failed + failed_adds cs)
unfolding count_all
count_all_adds [] s = omega arith
count_all_adds (done_added ∷ cs) s = omega (arith, count_all_adds cs _)
count_all_adds (failed_added ∷ cs) s = omega (arith, count_all_adds cs _)

pub count_all-append :
    (cs ds : List Count) (s : Stats) → count_all (cs ++ ds) s ≡ count_all ds (count_all cs s)
unfolding count_all
count_all-append [] ds s = refl
count_all-append (c ∷ cs) ds s = count_all-append cs ds _

module _ {ℓ} {A : Type ℓ} where
  -- The additions that WithStats makes for these results.
  unfoldable pub counts_of_all : List (Result A) → List Count
  counts_of_all [] = []
  counts_of_all (r ∷ rs) = counts_of r ++ counts_of_all rs

  fine_adds :
      (r : Result A) (rs : List (Result A))
      → r.err ≡ none
      → counts_of_all (r ∷ rs) ≡ done_added ∷ counts_of_all rs
  unfolding counts_of counts_of_all
  fine_adds r rs fine = rw fine refl

  bad_adds :
      (r : Result A) (rs : List (Result A))
      → r.err ≢ none
      → counts_of_all (r ∷ rs) ≡ done_added ∷ failed_added ∷ counts_of_all rs
  unfolding counts_of counts_of_all
  bad_adds r rs bad = elim (Option-cases r.err) [
    | inl fine ↦ absurd (bad fine)
    | inr (e, failed) ↦ rw failed refl
  ]

  pub counts_of_all_adds :
      (rs : List (Result A))
      → (done_adds (counts_of_all rs) ≡ length rs)
        × (failed_adds (counts_of_all rs) ≡ error_count rs)
  counts_of_all_adds [] = unfold counts_of_all in (refl, refl)
  counts_of_all_adds (r ∷ rs) =
      let (d, f) = counts_of_all_adds rs in
      elim (Option-cases r.err) [
        | inl fine ↦ rw (fine_adds r rs fine, fine) (ap suc d, f)
        | inr (e, failed) ↦ rw (bad_adds r rs (λ fine. cc), failed) (ap suc d, ap suc f)
      ]

  -- The failures that are counted where the results `begun` are counted as done: all of them, or all
  -- but the last of these results, which has failed.
  abbrev pub Fails : List (Result A) → ℕ → Type ℓ
  Fails begun n =
      (n ≡ error_count begun)
      ⊎ ((before : List (Result A)) × (last : Result A) × (before ++ last ∷ [] ≡ begun)
          × (last.err ≢ none)
          × (n ≡ error_count before))
