-- ===== src/Crawler/Named.antt =====
-- What a result of the crawler says (examples/crawler/main.go, process.go).
use gojob.Prelude.{
  ◌≡◌, ◌≢◌, ◌⊎◌, inl, inr, refl, sym, ◌∙◌, none, [], ℤ, pos, ◌<ℤ◌, leb_ℤ, Option, Option-cases,
  Bool-cases, arith, ℕ,
}
use gojob.Crawler.{CrawlResult, Reply, bad_request, no_response, response, crawl}
use gojob.Fileq.Decimal.{Text}
use gojob.Options.{Config}
use gojob.Options.Valid.{IsValid}
use gojob.Process.{Env, attempt_once, run_one, run_with_timeout}
use gojob.Process.Attempts.{run_one-IsOutcome}
use gojob.Task.{Error}

-- What an attempt that met this reply says: the URL and the status code of a response, the URL and an
-- error, or, cut off, an error alone.
abbrev pub Answers : Config → Text → Reply → CrawlResult → Option Error → Type 0
Answers cfg url reply value err =
    ((err ≡ none)
      × ((status : ℤ) × (reply ≡ response status)
          × (value ≡ record { url = url; status_code = status })))
    ⊎ ((err ≢ none) × (value ≡ record { url = url; status_code = pos 0 }))
    ⊎ ((err ≢ none) × (pos 0 <ℤ cfg.timeout) × (value ≡ record { url = []; status_code = pos 0 }))

crawl-Answers :
    (cfg : Config) (url : Text) (reply : Reply)
    → Answers cfg url reply (crawl url reply).0 (crawl url reply).1
unfolding crawl
crawl-Answers cfg url (bad_request e) = inr (inl (cc, refl))
crawl-Answers cfg url (no_response e) = inr (inl (cc, refl))
crawl-Answers cfg url (response status) = inl (refl, (status, refl, refl))

attempt-Answers :
    (cfg : Config) (url : Text) (env : Env CrawlResult) (n : ℕ) (reply : Reply)
    → env.call n ≡ crawl url reply
    → env.zero_value ≡ record { url = []; status_code = pos 0 }
    → Answers cfg url reply (attempt_once cfg env n).0 (attempt_once cfg env n).1
unfolding attempt_once run_with_timeout
attempt-Answers cfg url env n reply e z = elim (Bool-cases (leb_ℤ cfg.timeout (pos 0))) [
  | inl unlimited ↦ rw (unlimited, e) (crawl-Answers cfg url reply)
  | inr limited ↦ elim (Option-cases (env.race n)) [
    | inl returns ↦ rw (limited, returns, e) (crawl-Answers cfg url reply)
    | inr (err, cut) ↦ rw (limited, cut, z) (inr (inr (cc, ground arith, refl)))
  ]
]

-- A failed attempt, by the error that the result has instead.
failing-Answers :
    (cfg : Config) (url : Text) (reply : Reply) (value : CrawlResult) (err final : Option Error)
    → err ≢ none
    → final ≢ none
    → Answers cfg url reply value err
    → Answers cfg url reply value final
failing-Answers cfg url reply value err final fails bad (inl (ok, _)) = absurd (fails ok)
failing-Answers cfg url reply value err final fails bad (inr (inl (_, named))) =
    inr (inl (bad, named))
failing-Answers cfg url reply value err final fails bad (inr (inr (_, limited, empty))) =
    inr (inr (bad, limited, empty))

-- A run of Process on a URL, whose attempts are crawls that meet these replies, with at least one
-- attempt allowed and the zero value of CrawlResult for an attempt that is cut off. If its result has
-- no error, it has the URL and the status code of the response to the last attempt. If it has one, it
-- has the URL and no status code or, only where a timeout is set, neither of them: such a line of the
-- output does not tell which URL it was.
pub crawled-Answers :
    (cfg : Config) (url : Text) (env : Env CrawlResult) (replies : ℕ → Reply)
    → IsValid cfg
    → ((n : ℕ) → env.call n ≡ crawl url (replies n))
    → env.zero_value ≡ record { url = []; status_code = pos 0 }
    → let r = run_one cfg env in Answers cfg url (replies r.attempts) r.value r.err
crawled-Answers cfg url env replies v calls zero =
    let n = (run_one cfg env).attempts in
    let o = run_one-IsOutcome cfg env v in
    let last = attempt-Answers cfg url env n (replies n) (calls n) zero in
    rw o.last_value (elim o.stop [
      | inl (ok, err) ↦ elim last [
        | inl (_, answer) ↦ inl (err, answer)
        | inr (inl (bad, _)) ↦ absurd (bad ok)
        | inr (inr (bad, _, _)) ↦ absurd (bad ok)
      ]
      | inr (inl (_, fails, err)) ↦
          failing-Answers cfg url _ _ _ _ fails (λ none_left. fails (sym err ∙ none_left)) last
      | inr (inr (_, fails, bad, err)) ↦ failing-Answers cfg url _ _ _ _ fails bad last
    ])
