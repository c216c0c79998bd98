-- ===== src/Runner/Reading.antt =====
-- A record that the runner finds terminal at its first poll (`wait_terminal` of
-- env/scenario-runner/run_scenarios.py).
use text.Mathlib.TextEquality.{eq_iff}
use mathlib.Core.Option
use mathlib.Core.List.{map}
use vehicle_bench_candidate.Base.{
  ℕ, ◌+◌, ◌-◌, ◌≡◌, ◌<◌, ◌∙◌, inl, inr, refl, ap, sym, true, Option-cases, none, some, List, [],
  ◌∷◌, ◌++◌, arith, ltb,
}
use vehicle_bench_candidate.Base.Dict.{lookup}
use vehicle_bench_candidate.Body.{BodyCal}
use vehicle_bench_candidate.Gateway.Types.{TcuCal}
use vehicle_bench_candidate.Backend.Store.{CommandRecord, Store, completed}
use vehicle_bench_candidate.Backend.Commands.{Config, key_matches, get_command}
use vehicle_bench_candidate.Backend.Lifecycle.{status_at}
use vehicle_bench_candidate.Bench.{answered_in_time}
use vehicle_bench_candidate.Runner.{
  Moment, Shown, Ev, Runner, returned, meanwhile, asked_once, read, polls, wait_terminal,
}

abbrev pub shown_by : Runner → List Shown
shown_by s = map (λ (e : Ev). e.shown) s.events

pub shown-two :
    (es : List Ev) (e e' : Ev)
    → map (λ (x : Ev). x.shown) ((es ++ e ∷ []) ++ e' ∷ [])
      ≡ map (λ (x : Ev). x.shown) es ++ (e.shown ∷ e'.shown ∷ [])
shown-two [] e e' = refl
shown-two (x ∷ es) e e' = ap (λ xs. x.shown ∷ xs) (shown-two es e e')

pub status_at-record :
    (id : ℕ) (store : Store)
    → status_at id store ≡ some completed
    → (x : CommandRecord) × (lookup id store.commands ≡ some x) × (x.status ≡ completed)
status_at-record id store e = elim (Option-cases (lookup id store.commands)) [
  | inl missing ↦
      let same : none ≡ some completed = ap (Option.map (λ y. y.status)) (sym missing) ∙ e in
      absurd (cc same)
  | inr (x, found) ↦
      let same : some x.status ≡ some completed = ap (Option.map (λ y. y.status)) (sym found) ∙ e in
      (x, found, cc)
]

module _ (cfg : Config) (cal : TcuCal) (bcal : BodyCal) (env : ℕ → Moment) where
  -- The state after one answered request that changes nothing.
  abbrev pub asked_again : Runner → Runner
  asked_again s = asked_once cfg cal bcal env (meanwhile cfg cal bcal env s) s

  pub key-matches : key_matches cfg (some cfg.api_key) ≡ true
  key-matches = ground (arith, eq_iff cfg.api_key cfg.api_key)

  read-found :
      (id : ℕ) (s : Runner) (x : CommandRecord)
      → (env s.asked).reached ≡ answered_in_time
      → lookup id (meanwhile cfg cal bcal env s).outside.backend.commands ≡ some x
      → read cfg cal bcal env cfg.api_key id s ≡ (returned x, asked_again s)
  unfolding get_command
  read-found id s x reached found = rw (reached, key-matches, found) refl

  abbrev pub waited_state : CommandRecord → Runner → Runner
  waited_state x s =
      let s' = asked_again (asked_again s) in
      record s' {
        events = s'.events ++ (record { t = s'.time; shown = Shown.command_shown x }) ∷ [];
      }

  pub wait_terminal-found :
      (timeout id : ℕ) (s : Runner) (x y : CommandRecord)
      → 0 < timeout
      → (env s.asked).reached ≡ answered_in_time
      → (env (s.asked + 1)).reached ≡ answered_in_time
      → lookup id (meanwhile cfg cal bcal env s).outside.backend.commands ≡ some x
      → lookup id (meanwhile cfg cal bcal env (asked_again s)).outside.backend.commands ≡ some y
      → x.status ≡ completed
      → wait_terminal cfg cal bcal env timeout cfg.api_key id s ≡ (returned y, waited_state y s)
  unfolding wait_terminal polls
  wait_terminal-found timeout id s x y some_time reached reached' found found' done =
      let early : ltb (s.time - s.time) timeout ≡ true = ground arith in
      rw
        (
          early,
          read-found id s x reached found,
          done,
          read-found id (asked_again s) y reached' found',
        )
        refl
