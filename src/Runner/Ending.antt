-- ===== src/Runner/Ending.antt =====
-- The end of the whole run (`main` of env/scenario-runner/run_scenarios.py).
use mathlib.Core.List.{map}
use vehicle_bench_candidate.Base.{
  ℕ, zero, suc, ◌+◌, arith, ◌≡◌, ◌⊎◌, inl, inr, refl, Option, none, some, List, [], ◌∷◌,
}
use vehicle_bench_candidate.Base.Int.{pos}
use vehicle_bench_candidate.Base.Dyadic.{Dyadic, whole, halved}
use vehicle_bench_candidate.Body.{BodyCal}
use vehicle_bench_candidate.Gateway.Types.{TcuCal}
use vehicle_bench_candidate.Backend.Commands.{Config, Request}
use vehicle_bench_candidate.Bench.{Bench}
use vehicle_bench_candidate.Runner.{
  Fault, Shown, Ev, Moment, Runner, Ended, returned, raised, out_of_fuel, Script, after, status,
  http, exchange, post_handler, get_handler,
}
use vehicle_bench_candidate.Runner.Halting.{
  Stops, Stops-before, same-Later, Halts, bind, ◌then◌, give-Halts, ev-Halts, sleep-Halts,
  request_id-Halts, exchange-Halts, post-Halts, status-Halts, reset-Halts, wait_terminal-Halts,
}
use vehicle_bench_candidate.Runner.Scenarios.{
  Scenario, s01, s02, s03, s04, all_scenarios, Client, post_and_wait, s01_cycles,
  s01_lock_unlock_cycles, s02_climate_preconditioning, s03_charging_session, wait_if_given,
  try_temperature, s04_api_validation, run_scenario, record_scenario, record_all, tried,
  wait_health, main, select,
}

module _ (cfg : Config) (cal : TcuCal) (bcal : BodyCal) (env : ℕ → Moment) (client : Client) where
  post_and_wait-Halts : (r : Request) → Halts (post_and_wait cfg cal bcal env client r)
  unfolding post_and_wait
  post_and_wait-Halts r =
      bind (bind (post-Halts cfg cal bcal env client.key r) request_id-Halts)
        (wait_terminal-Halts cfg cal bcal env 6000 client.key)

  pub shows-Halts : Halts (status cfg cal bcal env client.key)
  shows-Halts = status-Halts cfg cal bcal env client.key

  s01_cycles-Halts : (n : ℕ) → Halts (s01_cycles cfg cal bcal env client n)
  unfolding s01_cycles
  s01_cycles-Halts zero = give-Halts tt
  s01_cycles-Halts (suc n) =
      post_and_wait-Halts Request.unlock
      then sleep-Halts 500
      then post_and_wait-Halts Request.lock
      then sleep-Halts 500
      then s01_cycles-Halts n

  pub wait_if_given-Halts : (o : Option ℕ) → Halts (wait_if_given cfg cal bcal env client o)
  wait_if_given-Halts none = give-Halts tt
  wait_if_given-Halts (some id) =
      wait_terminal-Halts cfg cal bcal env 6000 client.key id then give-Halts tt

  pub try_temperature-Halts : (t : Dyadic) → Halts (try_temperature cfg cal bcal env client t)
  unfolding try_temperature
  try_temperature-Halts t =
      bind (post-Halts cfg cal bcal env client.key (Request.climate_start (some t)))
        wait_if_given-Halts
      then sleep-Halts 500

  s04-Halts : Halts (s04_api_validation cfg cal bcal env client)
  unfolding s04_api_validation
  s04-Halts =
      bind
        (bind (exchange-Halts cfg cal bcal env (post_handler cfg cal bcal env none Request.lock))
            (λ a. ev-Halts (Shown.lock_without_key (http a)))
          then exchange-Halts cfg cal bcal env
              (get_handler cfg cal bcal env client.key client.does_not_exist))
        (λ a. ev-Halts (Shown.get_unknown (http a)))
      then try_temperature-Halts (whole (pos 16))
      then try_temperature-Halts (whole (pos 28))
      then try_temperature-Halts (whole (pos 35))
      then sleep-Halts 6000
      then shows-Halts
      then post-Halts cfg cal bcal env client.key Request.climate_stop
      then sleep-Halts 1000

  run_scenario-Halts : (x : Scenario) → Halts (run_scenario cfg cal bcal env client x)
  unfolding run_scenario s01_lock_unlock_cycles s02_climate_preconditioning s03_charging_session
  run_scenario-Halts s01 = s01_cycles-Halts 5 then sleep-Halts 5500 then shows-Halts
  run_scenario-Halts s02 =
      post_and_wait-Halts (Request.climate_start (some (halved (pos 45))))
      then sleep-Halts 6000
      then shows-Halts
      then post_and_wait-Halts Request.unlock
      then sleep-Halts 6000
      then shows-Halts
      then post_and_wait-Halts Request.climate_stop
      then sleep-Halts 2000
  run_scenario-Halts s03 =
      post_and_wait-Halts (Request.charging_start (some (pos 60)))
      then sleep-Halts 7000
      then shows-Halts
      then post_and_wait-Halts Request.charging_stop
      then sleep-Halts 7000
      then shows-Halts
      then sleep-Halts 5000
      then shows-Halts
  run_scenario-Halts s04 = s04-Halts

  wait_health-Halts : (n : ℕ) → Halts (wait_health cfg cal bcal env client n)
  unfolding wait_health
  wait_health-Halts n = record { stops = go n }
    where
      again :
          (n : ℕ) (s : Runner) (x : Ended (Unit {0}) × Runner)
          → Stops s x
          → ((t : Runner) → Stops t (wait_health cfg cal bcal env client n t))
          → Stops s (tried cfg cal bcal env client (wait_health cfg cal bcal env client n) x)
      again n s (returned u, t) h next = h
      again n s (out_of_fuel, t) h next = h
      again n s (raised e, t) h next =
          let t' = record t { time = t.time + 1000 } in
          Stops-before s t' (wait_health cfg cal bcal env client n t')
            (omega (arith, h.0), h.1, h.2) (next t')

      go : (n : ℕ) (s : Runner) → Stops s (wait_health cfg cal bcal env client n s)
      go zero s = same-Later s s (omega arith) refl
      go (suc n) s =
          again n s (exchange cfg cal bcal env (λ m b. (tt, b)) s)
            ((exchange-Halts cfg cal bcal env (λ (m : Moment) (b : Bench). (tt, b))).stops s)
            (λ t. go n t)

-- The script ends, and what it returns is so.
abbrev Gives : {A : Type 0} → (A → Type 0) → Ended A × Runner → Type 0
Gives P (returned a, s) = P a
Gives P (raised e, s) = Unit
Gives P (out_of_fuel, s) = ⊥

after-Gives :
    {A B : Type 0} (P : A → Type 0) (Q : B → Type 0) (f : A → Script B) (x : Ended A × Runner)
    → Gives P x
    → ((a : A) → P a → (s : Runner) → Gives Q (f a s))
    → Gives Q (after f x)
after-Gives P Q f (returned a, s) h next = next a h s
after-Gives P Q f (raised e, s) h next = tt
after-Gives P Q f (out_of_fuel, s) h next = h

Stops-Gives : {A : Type 0} (s : Runner) (x : Ended A × Runner) → Stops s x → Gives (λ a. Unit) x
Stops-Gives s (returned a, t) h = tt
Stops-Gives s (raised e, t) h = tt
Stops-Gives s (out_of_fuel, t) h = h

abbrev names : List (Scenario × List Ev) → List Scenario
names entries = map (λ e. e.0) entries

module _ (cfg : Config) (cal : TcuCal) (bcal : BodyCal) (env : ℕ → Moment) (client : Client) where
  record_scenario-Gives :
      (x : Scenario) (s : Runner)
      → Gives (λ e. e.0 ≡ x) (record_scenario cfg cal bcal env client x s)
  unfolding record_scenario
  record_scenario-Gives x s =
      let played =
        reset-Halts cfg cal bcal env client.key
        then sleep-Halts 1000
        then run_scenario-Halts cfg cal bcal env client x
        then sleep-Halts 1500 in
      let s' = record s { events = [] } in
      after-Gives (λ u. Unit) (λ e. e.0 ≡ x) _ _ (Stops-Gives s' _ (played.stops s'))
        (λ u h t. refl)

  record_all-Gives :
      (xs : List Scenario) (s : Runner)
      → Gives (λ entries. names entries ≡ xs) (record_all cfg cal bcal env client xs s)
  unfolding record_all
  record_all-Gives [] s = refl
  record_all-Gives (x ∷ xs) s =
      after-Gives (λ (e : Scenario × List Ev). e.0 ≡ x) (λ entries. names entries ≡ x ∷ xs) _
        (record_scenario cfg cal bcal env client x s) (record_scenario-Gives x s)
        (λ e h t.
          after-Gives (λ entries. names entries ≡ xs) (λ entries. names entries ≡ x ∷ xs) _
            (record_all cfg cal bcal env client xs t) (record_all-Gives xs t)
            (λ entries same u. cc))

  spelled :
      (xs : List Scenario) (x : Ended (List (Scenario × List Ev)) × Runner)
      → Gives (λ entries. names entries ≡ xs) x
      → ((e : Fault) × (x.0 ≡ raised e))
        ⊎ ((entries : List (Scenario × List Ev)) × (x.0 ≡ returned entries)
            × (map (λ e. e.0) entries ≡ xs))
  spelled xs (returned entries, s) h = inr (entries, refl, h)
  spelled xs (raised e, s) h = inl (e, refl)
  spelled xs (out_of_fuel, s) h = elim h [ ]

  -- The whole run always ends, whatever the backend answers and whatever the bench does meanwhile: with
  -- an exception, or with a summary that has an entry for each of the selected scenarios, in their
  -- order, and no other.
  pub main_ends :
      (only : List ℕ) (s : Runner)
      → let end = (main cfg cal bcal env client only s).0 in
        ((e : Fault) × (end ≡ raised e))
        ⊎ ((entries : List (Scenario × List Ev)) × (end ≡ returned entries)
            × (map (λ e. e.0) entries ≡ select only all_scenarios))
  unfolding main
  main_ends only s =
      let healthy = wait_health cfg cal bcal env client 30 s in
      spelled (select only all_scenarios) _ (
        after-Gives (λ u. Unit) (λ entries. names entries ≡ select only all_scenarios) _ healthy
          (Stops-Gives s healthy ((wait_health-Halts cfg cal bcal env client 30).stops s))
          (λ u h t. record_all-Gives (select only all_scenarios) t))
