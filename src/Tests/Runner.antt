-- ===== src/Tests/Runner.antt =====
-- The theorems on the scenario runner, at concrete inputs: the shipped calibrations, and a bench
-- whose gateway serves each command at once.
use mathlib.Core.List.{map}
use vehicle_bench_candidate.Base.{
  if_keeps, if◌then◌else◌, ℕ, ◌+◌, ◌/◌, ◌%◌, ◌==◌, ◌≡◌, ◌≢◌, ◌≤◌, ◌⊎◌, refl, true, false, none,
  some, List, [], ◌∷◌, ◌++◌, All, arith,
}
use vehicle_bench_candidate.Base.Dict.{lookup}
use vehicle_bench_candidate.Body.{reset}
use vehicle_bench_candidate.Gateway.Types.{empty_vhal, Reason}
use vehicle_bench_candidate.Gateway.Commands.{map_command}
use vehicle_bench_candidate.Backend.Store.{CommandRecord, CommandType, accepted, completed}
use vehicle_bench_candidate.Backend.Commands.{Config, Request, accepted_record, no_params}
use vehicle_bench_candidate.Backend.Lifecycle.{status_at}
use vehicle_bench_candidate.Bench.{
  Event, Conditions, Bench, answered_in_time, lost, body_poll, step, steps,
}
use vehicle_bench_candidate.Bench.Arrivals.{HasId}
use vehicle_bench_candidate.Bench.Dropped.{Avoids}
use vehicle_bench_candidate.Gateway.Sync.{sync_once, sync_answered}
use vehicle_bench_candidate.Bench.Settled.{settled_stays}
use vehicle_bench_candidate.Runner.{
  Moment, Shown, Ev, Runner, Fault, returned, raised, wait_terminal,
}
use vehicle_bench_candidate.Runner.Scenarios.{
  Scenario, s01, s03, all_scenarios, Client, select, post_and_wait, main,
}
use vehicle_bench_candidate.Runner.Waiting.{wait_terminal_ends}
use vehicle_bench_candidate.Runner.Ending.{main_ends}
use vehicle_bench_candidate.Runner.Selection.{joined, is_one_of, filter_scenarios, only_selects}
use vehicle_bench_candidate.Runner.Stopping.{Unmapped, stop_waits_in_vain}
use vehicle_bench_candidate.Tests.{body_cal, tcu_cal}

abbrev pub config : Config
config = record { api_key = "secret"; legacy_climate_schema = true }

abbrev pub meets : Conditions
meets = record {
  reachable = true;
  result_arrives = true;
  report_arrives = true;
  travel_ms = 300;
  delay_ms = 40;
  elapsed = 310;
}

abbrev pub idle_bench : Bench
idle_bench = record {
  running = true;
  gateway = record {
    queue = [];
    journal = [];
    last_result = none;
    vhal = empty_vhal;
    vhal_file = empty_vhal;
    hb_seq = 0;
    hb_missed = 0;
    ecu_online = false;
    commands_seen = 0;
  };
  outside = record {
    backend = record { report = none; commands = []; desired_climate_target = none };
    body = reset body_cal;
    pending = [];
    clock = 1000;
  };
}

-- The worker takes a round before every fourth request from the second on; before the others a
-- second goes by, and the gateway polls.
abbrev pub between : ℕ → List Event
between k =
    if k % 4 == 1
    then Event.round meets ∷ Event.second ∷ []
    else Event.second ∷ Event.poll meets ∷ []

abbrev pub env : ℕ → Moment
env k = record {
  happens = between k;
  lasts = 12;
  reached = answered_in_time;
  forwarding = answered_in_time;
  fresh = k + 1;
  vehicle = meets;
}

abbrev pub first : Runner
first = record { bench = idle_bench; time = 0; asked = 0; events = [] }

env-LeavesId : (id k : ℕ) → All (HasId (λ j. j ≢ id)) (between k)
env-LeavesId id k =
    if_keeps (λ es. All (HasId (λ j. j ≢ id)) es) (k % 4 == 1) _ _ (tt, (tt, tt)) (tt, (tt, tt))

env-Avoids : (id k : ℕ) → All (Avoids id) (between k)
env-Avoids id k = if_keeps (λ es. All (Avoids id) es) (k % 4 == 1) _ _ (tt, (tt, tt)) (tt, (tt, tt))

wait_terminal_ends_example :
    let (end, s') = wait_terminal config tcu_cal body_cal env 6000 "secret" 7 first in
    (s'.asked ≤ 0 + 1 + (6000 + 249) / 250)
    × (((e : Fault) × (end ≡ raised e) × (s'.events ≡ []))
        ⊎ ((r : CommandRecord) × (end ≡ returned r)
            × (lookup 7 s'.bench.outside.backend.commands ≡ some r)
            × (s'.events ≡ [] ++ (record { t = s'.time; shown = Shown.command_shown r }) ∷ [])
            × ((r.status ≢ accepted) ⊎ (0 + 6000 ≤ s'.time))))
wait_terminal_ends_example =
    wait_terminal_ends config tcu_cal body_cal env "secret" 7 first 6000 (env-LeavesId 7)

abbrev operator : Client
operator = record { key = "secret"; does_not_exist = 404 }

main_ends_example :
    let end = (main config tcu_cal body_cal env operator (joined (s03 ∷ s01 ∷ [])) first).0 in
    ((e : Fault) × (end ≡ raised e))
    ⊎ ((entries : List (Scenario × List Ev)) × (end ≡ returned entries)
        × (map (λ e. e.0) entries ≡ select (joined (s03 ∷ s01 ∷ [])) all_scenarios))
main_ends_example = main_ends config tcu_cal body_cal env operator (joined (s03 ∷ s01 ∷ [])) first

only_selects_example :
    (select [] all_scenarios ≡ all_scenarios)
    × (select (joined (s03 ∷ s01 ∷ [])) all_scenarios
        ≡ filter_scenarios (is_one_of (s03 ∷ s01 ∷ [])) all_scenarios)
only_selects_example = only_selects s03 (s01 ∷ [])

tcu_cal-unmapped : map_command "CHARGING_STOP" tcu_cal.command_map ≡ none
unfolding map_command
tcu_cal-unmapped = refl

first-Unmapped : Unmapped config tcu_cal body_cal env operator first
unfolding steps step sync_once body_poll sync_answered
first-Unmapped = record {
  key = refl;
  answered = record { reached = refl; forwarded = refl };
  running = refl;
  unmapped = tcu_cal-unmapped;
  fresh = tt;
  own = env-Avoids 1;
}

stop_waits_in_vain_example :
    let (end, s') =
      post_and_wait config tcu_cal body_cal env operator Request.charging_stop first in
    ((e : Fault) × (end ≡ raised e))
    ⊎ ((r : CommandRecord) × (end ≡ returned r)
        × (r.status ≡ accepted)
        × (0 + 6000 ≤ s'.time)
        × (status_at 1 s'.bench.outside.backend ≡ some accepted))
stop_waits_in_vain_example =
    stop_waits_in_vain config tcu_cal body_cal env operator first first-Unmapped

abbrev pub done_bench : Bench
done_bench = record idle_bench {
  outside = record (idle_bench.outside) {
    backend = record {
      report = none;
      commands =
          (
            3,
            record (accepted_record 3 CommandType.lock no_params 500) {
              status = completed;
              reason = some Reason.ok;
              completed_at = some 900;
            },
          )
          ∷ [];
      desired_climate_target = none;
    };
  };
}

-- A request under another id, rounds, and a poll.
abbrev goes_on_after : List Event
goes_on_after =
    Event.request answered_in_time (some "secret") 4 Request.unlock
    ∷ Event.round meets
    ∷ Event.request lost none 5 Request.lock
    ∷ Event.poll meets
    ∷ []

settled_stays_example :
    let store = (steps config tcu_cal body_cal goes_on_after done_bench).outside.backend in
    (r : CommandRecord) × (lookup 3 store.commands ≡ some r)
    × (r.status ≢ accepted)
    × (r.reason ≢ none)
    × (r.completed_at ≢ none)
settled_stays_example =
    settled_stays config tcu_cal body_cal 3 goes_on_after done_bench
      (ground arith, (tt, (ground arith, (tt, tt)))) (ground arith, tt)
      (completed, refl, ground arith)
