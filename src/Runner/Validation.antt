-- ===== src/Runner/Validation.antt =====
-- The contract checks of the runner (`s04_api_validation` of env/scenario-runner/run_scenarios.py):
-- a request without a key, and one for a command that does not exist.
use mathlib.Core.List.{append_assoc, append-nil}
use mathlib.Core.Path.{subst}
use vehicle_bench_candidate.Base.{
  ℕ, ◌+◌, ◌≡◌, ◌≢◌, ◌∙◌, refl, ap, sym, none, List, [], ◌∷◌, ◌++◌, arith,
}
use vehicle_bench_candidate.Base.Int.{pos}
use vehicle_bench_candidate.Base.Dyadic.{whole}
use vehicle_bench_candidate.Base.Dict.{lookup}
use vehicle_bench_candidate.Body.{BodyCal}
use vehicle_bench_candidate.Gateway.Types.{TcuCal}
use vehicle_bench_candidate.Backend.Commands.{Config, Request, serve, get_command}
use vehicle_bench_candidate.Bench.{Event, answered_in_time, step}
use vehicle_bench_candidate.Runner.{
  Shown, Ev, Moment, Runner, Ended, returned, raised, out_of_fuel, Script, ◌>>=◌, ◌>>◌, ev, sleep,
  http, exchange, post_handler, get_handler, meanwhile, asked_once, status, post,
}
use vehicle_bench_candidate.Runner.Scenarios.{Client, try_temperature, s04_api_validation}
use vehicle_bench_candidate.Runner.Reading.{key-matches}
use vehicle_bench_candidate.Runner.Halting.{
  Later, Stops, Halts, after-Stops, sleep-Halts, status-Halts, post-Halts,
}
use vehicle_bench_candidate.Runner.Ending.{try_temperature-Halts}

module _ (cfg : Config) (cal : TcuCal) (bcal : BodyCal) (env : ℕ → Moment) (unknown : ℕ) where
  abbrev pub tester : Client
  tester = record { key = cfg.api_key; does_not_exist = unknown }

  abbrev printed : Shown → Runner → Runner
  printed shown s = record s { events = s.events ++ (record { t = s.time; shown = shown }) ∷ [] }

  -- The runner after the lock without a key, and after the request for the unknown command.
  abbrev pub refused : Runner → Runner
  refused s = printed (Shown.lock_without_key 401) (
      asked_once cfg cal bcal env
        (step cfg cal bcal
          (Event.request (env s.asked).forwarding none (env s.asked).fresh Request.lock)
          (meanwhile cfg cal bcal env s))
        s)

  abbrev pub unfound : Runner → Runner
  unfound s =
      printed (Shown.get_unknown 404) (asked_once cfg cal bcal env (meanwhile cfg cal bcal env s) s)

  abbrev lock_unkeyed : Script (Unit {0})
  lock_unkeyed =
      exchange cfg cal bcal env (post_handler cfg cal bcal env none Request.lock)
      >>= (λ a. ev (Shown.lock_without_key (http a)))

  refused-eq :
      (s : Runner)
      → (env s.asked).reached ≡ answered_in_time
      → lock_unkeyed s ≡ (returned tt, refused s)
  unfolding serve
  refused-eq s reached = rw reached refl

  checks : Script (Unit {0})
  checks =
      lock_unkeyed
      >> exchange cfg cal bcal env (get_handler cfg cal bcal env cfg.api_key unknown)
      >>= (λ a. ev (Shown.get_unknown (http a)))

  checks-eq :
      (s : Runner)
      → (env s.asked).reached ≡ answered_in_time
      → (env (s.asked + 1)).reached ≡ answered_in_time
      → lookup unknown (meanwhile cfg cal bcal env (refused s)).outside.backend.commands ≡ none
      → checks s ≡ (returned tt, unfound (refused s))
  unfolding checks get_command
  checks-eq s reached reached' missing =
      rw (refused-eq s reached) (rw (reached', key-matches cfg cal bcal env, missing) refl)

  -- What follows a script that has ended is later than its end.
  follows :
      {A B : Type 0} (s t : Runner) (m : Script A) (k : Script B)
      → Stops t (m s)
      → Halts k
      → Stops t ((m >> k) s)
  follows s t m k h halts = after-Stops (λ _. k) t (m s) h (λ _. halts)

  rest-Stops :
      (s : Runner)
      → checks s ≡ (returned tt, unfound (refused s))
      → Stops (unfound (refused s)) (s04_api_validation cfg cal bcal env tester s)
  unfolding s04_api_validation checks
  rest-Stops s e =
      let t = unfound (refused s) in
      let try_16 = try_temperature-Halts cfg cal bcal env tester (whole (pos 16)) in
      let try_28 = try_temperature-Halts cfg cal bcal env tester (whole (pos 28)) in
      let try_35 = try_temperature-Halts cfg cal bcal env tester (whole (pos 35)) in
      let m1 = checks >> try_temperature cfg cal bcal env tester (whole (pos 16)) in
      let m2 = m1 >> try_temperature cfg cal bcal env tester (whole (pos 28)) in
      let m3 = m2 >> try_temperature cfg cal bcal env tester (whole (pos 35)) in
      let m4 = m3 >> sleep 6000 in
      let m5 = m4 >> status cfg cal bcal env cfg.api_key in
      let m6 = m5 >> post cfg cal bcal env cfg.api_key Request.climate_stop in
      let begun : Stops t (checks s) =
        subst (Stops t) (sym e) (omega arith, [], sym (append-nil t.events)) in
      follows s t m6 (sleep 1000)
        (follows s t m5 (post cfg cal bcal env cfg.api_key Request.climate_stop)
          (follows s t m4 (status cfg cal bcal env cfg.api_key)
            (follows s t m3 (sleep 6000)
              (follows s t m2 (try_temperature cfg cal bcal env tester (whole (pos 35)))
                (follows s t m1 (try_temperature cfg cal bcal env tester (whole (pos 28)))
                  (follows s t checks (try_temperature cfg cal bcal env tester (whole (pos 16)))
                    begun try_16)
                  try_28)
                try_35)
              (sleep-Halts 6000))
            (status-Halts cfg cal bcal env cfg.api_key))
          (post-Halts cfg cal bcal env cfg.api_key Request.climate_stop))
        (sleep-Halts 1000)

  two_more :
      (s t u : Runner) (first second : Ev)
      → t.events ≡ (s.events ++ first ∷ []) ++ second ∷ []
      → Later t u
      → (es : List Ev) × (u.events ≡ s.events ++ (first ∷ second ∷ es))
  two_more s t u first second e (le, es, later) = (
    es,
    later
        ∙ ap (λ l. l ++ es) (e ∙ append_assoc s.events (first ∷ []) (second ∷ []))
        ∙ append_assoc s.events (first ∷ second ∷ []) es,
  )

  spelled :
      (s t : Runner) (first second : Ev) (x : Ended (Unit {0}) × Runner)
      → t.events ≡ (s.events ++ first ∷ []) ++ second ∷ []
      → Stops t x
      → (x.0 ≢ out_of_fuel) × ((es : List Ev) × (x.1.events ≡ s.events ++ (first ∷ second ∷ es)))
  spelled s t first second (returned u, s') e later =
      (λ h. cc, two_more s t s' first second e later)
  spelled s t first second (raised f, s') e later = (λ h. cc, two_more s t s' first second e later)
  spelled s t first second (out_of_fuel, s') e later = elim later [ ]

  -- The scenario of the contract checks, when its first two requests are answered and the unknown
  -- command is not in the table: it does not run forever, and the first two things that it prints are
  -- the 401 for the lock without a key and the 404 for the unknown command, whatever the bench does
  -- meanwhile and however the rest goes. The lock without a key leaves the bench as it is.
  pub s04_refusals :
      (s : Runner)
      → (env s.asked).reached ≡ answered_in_time
      → (env (s.asked + 1)).reached ≡ answered_in_time
      → lookup unknown (meanwhile cfg cal bcal env (refused s)).outside.backend.commands ≡ none
      → let (end, s') = s04_api_validation cfg cal bcal env tester s in
        let second = unfound (refused s) in
        (end ≢ out_of_fuel)
        × ((es : List Ev) × (s'.events
              ≡ s.events
                ++ (record { t = (refused s).time; shown = Shown.lock_without_key 401 }
                    ∷ record { t = second.time; shown = Shown.get_unknown 404 }
                    ∷ es)))
        × ((refused s).bench ≡ meanwhile cfg cal bcal env s)
  unfolding step serve
  s04_refusals s reached reached' missing =
      let (ends, more) =
        spelled s (unfound (refused s)) _ _ _ refl
          (rest-Stops s (checks-eq s reached reached' missing)) in
      (ends, more, refl)
