-- ===== src/Ping.antt =====
-- examples/tasks/main.go: Execute on one task for each host. What rand draws is an argument.
use mathlib.Core.List.{Perm}
use gojob.Prelude.{
  ◌≡◌, refl, ap, ◌∙◌, true, false, Option, none, some, List, [], ◌∷◌, map, All, ℤ, pos,
}
use gojob.Fileq.Decimal.{Text}
use gojob.Options.{Config, apply_options, defaults, with_workers}
use gojob.Options.Valid
use gojob.Options.Valid.{IsValid, IsOffered, apply_options-IsValid}
use gojob.Process.{run_one, attempt_once, run_with_timeout}
use gojob.Process.Attempts.{run_one-IsOutcome}
use gojob.Process.Execute.{Sends, ExecuteRuns, tasks, execute-process}
use gojob.Process.Pool.{RunsOne}
use gojob.Process.Pool.Completion.{closed_delivers_all}
use gojob.Process.Pool.Results.{sent_are_runs}
use gojob.Task.{Error, Result}

record PingTask : Type 0 where
  host : Text
  latency : ℤ

-- ctx is done first, or the timer fires and rand draws a latency.
data Wait : Type 0 where
  interrupted : Error → Wait
  drawn : ℤ → Wait

unfoldable ping : PingTask → Wait → PingTask × Option Error
ping t (interrupted err) = (t, some err)
ping t (drawn n) = (record t { latency = n }, none)

unfoldable hosts : List Text
hosts =
    (b'a' ∷ b'.' ∷ b'e' ∷ b'x' ∷ b'a' ∷ b'm' ∷ b'p' ∷ b'l' ∷ b'e' ∷ [])
    ∷ (b'b' ∷ b'.' ∷ b'e' ∷ b'x' ∷ b'a' ∷ b'm' ∷ b'p' ∷ b'l' ∷ b'e' ∷ [])
    ∷ (b'c' ∷ b'.' ∷ b'e' ∷ b'x' ∷ b'a' ∷ b'm' ∷ b'p' ∷ b'l' ∷ b'e' ∷ [])
    ∷ (b'd' ∷ b'.' ∷ b'e' ∷ b'x' ∷ b'a' ∷ b'm' ∷ b'p' ∷ b'l' ∷ b'e' ∷ [])
    ∷ []

-- How a call of Execute on the task of a host may come out: it is the call of its only attempt.
abbrev Pings : Text → PingTask × Option Error → Type 0
Pings host out = (w : Wait) × (out ≡ ping (record { host = host; latency = pos 0 }) w)

unfoldable config_of_main : Config
config_of_main = apply_options (with_workers (pos 4) ∷ []) defaults

config_of_main-IsValid : IsValid config_of_main
unfolding config_of_main
config_of_main-IsValid =
    apply_options-IsValid (Valid.AllOffered.cons (IsOffered.workers (pos 4)) Valid.AllOffered.nil)

ping-host : (t : PingTask) (w : Wait) → (ping t w).0.host ≡ t.host
unfolding ping
ping-host t (interrupted err) = refl
ping-host t (drawn n) = refl

-- A result names the host of its task.
Pings-host :
    (host : Text) (r : Result PingTask) → RunsOne Pings config_of_main host r → r.value.host ≡ host
unfolding config_of_main apply_options with_workers defaults attempt_once run_with_timeout
Pings-host host r (env, calls, e) =
    let n = (run_one config_of_main env).attempts in
    let o = run_one-IsOutcome config_of_main env config_of_main-IsValid in
    let (w, call) = calls n in
    ap (λ x. x.value.host) e
    ∙ ap (λ v. v.host) o.last_value
    ∙ ap (λ x. x.0.host) call
    ∙ ping-host _ w

named_hosts :
    (sent : List (Text × Result PingTask))
    → All (λ p. RunsOne Pings config_of_main p.0 p.1) sent
    → map (λ p. p.0) sent ≡ map (λ p. p.1.value.host) sent
named_hosts [] all = refl
named_hosts (p ∷ sent) (run, all) =
    let same = Pings-host p.0 p.1 run in let rest = named_hosts sent all in cc

hosts_of_results :
    (sent : List (Text × Result PingTask))
    → let results : List (Result PingTask) = map (λ p. p.1) sent in
      map (λ p. p.1.value.host) sent ≡ map (λ r. r.value.host) results
hosts_of_results [] = refl
hosts_of_results (p ∷ sent) = ap (λ l. p.1.value.host ∷ l) (hosts_of_results sent)

-- The program pings each host once: where Execute has closed its output and ctx is not done, which it
-- never is there, the results name the hosts, each as often as it is listed.
pings_all :
    (results : List (Result PingTask))
    → Sends
        (ExecuteRuns config_of_main)
        config_of_main
        (tasks Pings config_of_main hosts)
        results
        true
        false
    → Perm hosts (map (λ r. r.value.host) results)
pings_all results sends =
    let (s, p, sent, closed, alive) =
      (execute-process Pings config_of_main hosts results true false).0 sends in
    let all = closed_delivers_all _ config_of_main hosts config_of_main-IsValid p closed alive in
    rw (named_hosts s.sent (sent_are_runs _ config_of_main hosts p), hosts_of_results s.sent, sent)
      at all
