-- ===== src/Runner/Scenarios.antt =====
-- The scenarios and the choice among them (`s01_lock_unlock_cycles` to `s04_api_validation` and
-- `main` of env/scenario-runner/run_scenarios.py). The packet capture counts by its two sleeps; the
-- summary is the events of each scenario.
use Prim.Native.String.{String}
use vehicle_bench_candidate.Base.{
  ℕ, zero, suc, Bool, true, false, ◌||◌, Option, none, some, List, [], ◌∷◌, ◌==◌, if◌then◌else◌,
}
use vehicle_bench_candidate.Base.Int.{pos}
use vehicle_bench_candidate.Base.Dyadic.{Dyadic, whole, halved}
use vehicle_bench_candidate.Body.{BodyCal}
use vehicle_bench_candidate.Adb.Sync.{same_bytes}
use vehicle_bench_candidate.Gateway.Types.{TcuCal}
use vehicle_bench_candidate.Backend.Store.{CommandRecord}
use vehicle_bench_candidate.Backend.Commands.{Config, Request}
use vehicle_bench_candidate.Runner.{
  Moment, Shown, Ev, Runner, Fault, Ended, returned, raised, out_of_fuel, Script, ◌>>=◌, ◌>>◌, give,
  raise, ev, sleep, http, exchange, post_handler, get_handler, post, status, wait_terminal, reset,
}

pub data Scenario : Type 0 where
  s01 s02 s03 s04 : Scenario

-- The keys of `SCENARIOS`.
unfoldable pub name : Scenario → List ℕ
name s01 =
    b'S' ∷ b'0' ∷ b'1' ∷ b'_' ∷ b'l' ∷ b'o' ∷ b'c' ∷ b'k' ∷ b'_' ∷ b'u' ∷ b'n' ∷ b'l' ∷ b'o' ∷ b'c'
    ∷ b'k' ∷ b'_' ∷ b'c' ∷ b'y' ∷ b'c' ∷ b'l' ∷ b'e' ∷ b's' ∷ []
name s02 =
    b'S' ∷ b'0' ∷ b'2' ∷ b'_' ∷ b'c' ∷ b'l' ∷ b'i' ∷ b'm' ∷ b'a' ∷ b't' ∷ b'e' ∷ b'_' ∷ b'p' ∷ b'r'
    ∷ b'e' ∷ b'c' ∷ b'o' ∷ b'n' ∷ b'd' ∷ b'i' ∷ b't' ∷ b'i' ∷ b'o' ∷ b'n' ∷ b'i' ∷ b'n' ∷ b'g' ∷ []
name s03 =
    b'S' ∷ b'0' ∷ b'3' ∷ b'_' ∷ b'c' ∷ b'h' ∷ b'a' ∷ b'r' ∷ b'g' ∷ b'i' ∷ b'n' ∷ b'g' ∷ b'_' ∷ b's'
    ∷ b'e' ∷ b's' ∷ b's' ∷ b'i' ∷ b'o' ∷ b'n' ∷ []
name s04 =
    b'S' ∷ b'0' ∷ b'4' ∷ b'_' ∷ b'a' ∷ b'p' ∷ b'i' ∷ b'_' ∷ b'v' ∷ b'a' ∷ b'l' ∷ b'i' ∷ b'd' ∷ b'a'
    ∷ b't' ∷ b'i' ∷ b'o' ∷ b'n' ∷ []

abbrev pub all_scenarios : List Scenario
all_scenarios = s01 ∷ s02 ∷ s03 ∷ s04 ∷ []

-- `text.split(separator)`
abbrev pub onto_first : ℕ → List (List ℕ) → List (List ℕ)
onto_first x [] = (x ∷ []) ∷ []
onto_first x (part ∷ parts) = (x ∷ part) ∷ parts

unfoldable pub split : ℕ → List ℕ → List (List ℕ)
split separator [] = [] ∷ []
split separator (x ∷ xs) =
    let rest = split separator xs in if x == separator then [] ∷ rest else onto_first x rest

-- `parts[0]` of a split text, which has a part.
abbrev pub first_part : List (List ℕ) → List ℕ
first_part [] = []
first_part (part ∷ parts) = part

-- `text in parts`
abbrev pub among : List ℕ → List (List ℕ) → Bool
among text [] = false
among text (part ∷ parts) = same_bytes text part || among text parts

abbrev pub is_empty : List ℕ → Bool
is_empty [] = true
is_empty (x ∷ xs) = false

-- The test of the comprehension `selected`, on `args.only`.
unfoldable pub is_selected : List ℕ → Scenario → Bool
unfolding name split
is_selected only s = is_empty only || among (first_part (split b'_' (name s))) (split b',' only)

unfoldable pub select : List ℕ → List Scenario → List Scenario
unfolding is_selected
select only [] = []
select only (s ∷ rest) =
    let selected = select only rest in if is_selected only s then s ∷ selected else selected

-- The key of the runner, and the id that its text `does-not-exist` stands for.
pub record Client : Type 0 where
  pub key : String
  pub does_not_exist : ℕ

-- `d["request_id"]`
abbrev pub request_id : Option ℕ → Script ℕ
request_id (some id) = give id
request_id none = raise Fault.key_error

module _ (cfg : Config) (cal : TcuCal) (bcal : BodyCal) (env : ℕ → Moment) (client : Client) where
  -- `d = post(path, body)` and `wait_terminal(d["request_id"])`, with the default of 6 seconds.
  unfoldable pub post_and_wait : Request → Script CommandRecord
  unfolding wait_terminal
  post_and_wait r =
      post cfg cal bcal env client.key r
      >>= request_id
      >>= wait_terminal cfg cal bcal env 6000 client.key

  unfoldable pub s01_cycles : ℕ → Script (Unit {0})
  unfolding post_and_wait
  s01_cycles zero = give tt
  s01_cycles (suc n) =
      post_and_wait Request.unlock
      >> sleep 500
      >> post_and_wait Request.lock
      >> sleep 500
      >> s01_cycles n

  unfoldable pub s01_lock_unlock_cycles : ℕ → Script (Unit {0})
  unfolding s01_cycles
  s01_lock_unlock_cycles n = s01_cycles n >> sleep 5500 >> status cfg cal bcal env client.key

  unfoldable pub s02_climate_preconditioning : Script (Unit {0})
  unfolding post_and_wait
  s02_climate_preconditioning =
      post_and_wait (Request.climate_start (some (halved (pos 45))))
      >> sleep 6000
      >> status cfg cal bcal env client.key
      >> post_and_wait Request.unlock
      >> sleep 6000
      >> status cfg cal bcal env client.key
      >> post_and_wait Request.climate_stop
      >> sleep 2000

  unfoldable pub s03_charging_session : Script (Unit {0})
  unfolding post_and_wait
  s03_charging_session =
      post_and_wait (Request.charging_start (some (pos 60)))
      >> sleep 7000
      >> status cfg cal bcal env client.key
      >> post_and_wait Request.charging_stop
      >> sleep 7000
      >> status cfg cal bcal env client.key
      >> sleep 5000
      >> status cfg cal bcal env client.key

  -- `if d.get("request_id"): wait_terminal(…)`
  abbrev pub wait_if_given : Option ℕ → Script (Unit {0})
  wait_if_given none = give tt
  wait_if_given (some id) = wait_terminal cfg cal bcal env 6000 client.key id >> give tt

  unfoldable pub try_temperature : Dyadic → Script (Unit {0})
  unfolding wait_terminal
  try_temperature temp =
      post cfg cal bcal env client.key (Request.climate_start (some temp))
      >>= wait_if_given
      >> sleep 500

  unfoldable pub s04_api_validation : Script (Unit {0})
  unfolding try_temperature
  s04_api_validation =
      exchange cfg cal bcal env (post_handler cfg cal bcal env none Request.lock)
      >>= (λ a. ev (Shown.lock_without_key (http a)))
      >> exchange cfg cal bcal env (get_handler cfg cal bcal env client.key client.does_not_exist)
      >>= (λ a. ev (Shown.get_unknown (http a)))
      >> try_temperature (whole (pos 16))
      >> try_temperature (whole (pos 28))
      >> try_temperature (whole (pos 35))
      >> sleep 6000
      >> status cfg cal bcal env client.key
      >> post cfg cal bcal env client.key Request.climate_stop
      >> sleep 1000

  -- `SCENARIOS[name]()`, S01 with its default of five cycles.
  unfoldable pub run_scenario : Scenario → Script (Unit {0})
  unfolding s01_lock_unlock_cycles s02_climate_preconditioning s03_charging_session
      s04_api_validation
  run_scenario s01 = s01_lock_unlock_cycles 5
  run_scenario s02 = s02_climate_preconditioning
  run_scenario s03 = s03_charging_session
  run_scenario s04 = s04_api_validation

  -- The body of the loop over the selected scenarios.
  unfoldable pub record_scenario : Scenario → Script (Scenario × List Ev)
  unfolding run_scenario
  record_scenario scenario s =
      (reset cfg cal bcal env client.key
          >> sleep 1000
          >> run_scenario scenario
          >> sleep 1500
          >> (λ s'. (returned (scenario, s'.events), s')))
        (record s { events = [] })

  unfoldable pub record_all : List Scenario → Script (List (Scenario × List Ev))
  unfolding record_scenario
  record_all [] = give []
  record_all (scenario ∷ rest) =
      record_scenario scenario >>= λ entry. record_all rest >>= λ entries. give (entry ∷ entries)

  -- One try of the loop that waits for `/health`; any exception is caught.
  abbrev pub tried : Script (Unit {0}) → Ended (Unit {0}) × Runner → Ended (Unit {0}) × Runner
  tried again (returned u, s) = (returned u, s)
  tried again (raised e, s) = (sleep 1000 >> again) s
  tried again (out_of_fuel, s) = (out_of_fuel, s)

  unfoldable pub wait_health : ℕ → Script (Unit {0})
  wait_health zero s = (returned tt, s)
  wait_health (suc n) s = tried (wait_health n) (exchange cfg cal bcal env (λ m b. (tt, b)) s)

  -- `main`: the summary's scenarios with their events.
  unfoldable pub main : List ℕ → Script (List (Scenario × List Ev))
  unfolding select wait_health record_all
  main only = wait_health 30 >> record_all (select only all_scenarios)
