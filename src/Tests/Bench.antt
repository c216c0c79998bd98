-- ===== src/Tests/Bench.antt =====
-- The theorems on the whole bench, at concrete inputs.
use mathlib.Core.Option
use vehicle_bench_candidate.Base.{
  ◌≡◌, ◌≢◌, ◌⊎◌, refl, true, none, some, List, [], ◌∷◌, arith, false, if◌then◌else◌,
}
use vehicle_bench_candidate.Base.Dict.{lookup}
use vehicle_bench_candidate.Body.{reset}
use vehicle_bench_candidate.Gateway.Types.{CommandRecord, Verdict, Reason, empty_vhal, queued}
use vehicle_bench_candidate.Gateway.Worker.{finished_record}
use vehicle_bench_candidate.Gateway.Commands.{door_unlock, map_command, method_named}
use vehicle_bench_candidate.Gateway.Queue.{RunsBy}
use vehicle_bench_candidate.Backend.Store.{
  CommandRecord as BackendRecord, accepted, completed, failed, CommandType,
}
use vehicle_bench_candidate.Backend.Commands.{
  Config, Request, accepted_record, no_params, status_of,
}
use vehicle_bench_candidate.Backend.Lifecycle.{status_at}
use vehicle_bench_candidate.Bench.{
  Event, Conditions, IsOnline, Bench, step, lost, answered_in_time, steps,
}
use vehicle_bench_candidate.Bench.Rounds.{round_reaches_terminal}
use vehicle_bench_candidate.Bench.Doors.{door_request, IsQueued, door_in_time, door_late}
use vehicle_bench_candidate.Bench.Dropped.{charging_stop_stays_accepted}
use vehicle_bench_candidate.Tests.{body_cal, tcu_cal}

abbrev config : Config
config = record { api_key = "secret"; legacy_climate_schema = false }

-- The actuator travels 300 ms.
abbrev fast : Conditions
fast = record {
  reachable = true;
  result_arrives = true;
  report_arrives = true;
  travel_ms = 300;
  delay_ms = 0;
  elapsed = 310;
}

-- The actuator travels 700 ms, longer than the calibrated deadline.
abbrev slow : Conditions
slow = record {
  reachable = true;
  result_arrives = true;
  report_arrives = true;
  travel_ms = 700;
  delay_ms = 0;
  elapsed = 600;
}

abbrev unlock_command : CommandRecord
unlock_command = record {
  request_id = 1;
  command = "UNLOCK";
  params = no_params;
  received_at = 1000;
  state = queued;
  reason = none;
  elapsed_ms = none;
}

abbrev unlock_record : BackendRecord
unlock_record = accepted_record 1 CommandType.unlock no_params 1000

-- A bench with an unlock command on the gateway's queue.
abbrev waiting : Bench
waiting = record {
  running = true;
  gateway = record {
    queue = unlock_command ∷ [];
    journal = unlock_command ∷ [];
    last_result = none;
    vhal = empty_vhal;
    vhal_file = empty_vhal;
    hb_seq = 0;
    hb_missed = 0;
    ecu_online = false;
    commands_seen = 1;
  };
  outside = record {
    backend = record {
      report = none;
      commands = (1, unlock_record) ∷ [];
      desired_climate_target = none;
    };
    body = reset body_cal;
    pending = [];
    clock = 1200;
  };
}

unlock_command-RunsBy : RunsBy tcu_cal unlock_command door_unlock
unfolding map_command method_named
unlock_command-RunsBy = ("door_unlock", refl, refl, tt)

fast-IsOnline : IsOnline fast
fast-IsOnline = record { reachable = refl; result_arrives = refl; report_arrives = refl }

slow-IsOnline : IsOnline slow
slow-IsOnline = record { reachable = refl; result_arrives = refl; report_arrives = refl }

waiting-IsQueued :
    (c : Conditions) → IsOnline c → IsQueued tcu_cal c waiting false unlock_command [] unlock_record
waiting-IsQueued c up = record {
  running = refl;
  head = refl;
  runs = unlock_command-RunsBy;
  syncs = refl;
  online = up;
  known = refl;
}

-- Rounds, a poll, a lost request under another id, and time that passes.
abbrev later : List Event
later =
    Event.round fast
    ∷ Event.round fast
    ∷ Event.poll fast
    ∷ Event.request lost none 6 Request.lock
    ∷ Event.second
    ∷ []

tcu_cal-unmapped : map_command "CHARGING_STOP" tcu_cal.command_map ≡ none
unfolding map_command
tcu_cal-unmapped = refl

charging_stop_stays_accepted_example :
    let stop = Event.request answered_in_time (some config.api_key) 5 Request.charging_stop in
    status_at 5 (steps config tcu_cal body_cal (stop ∷ later) waiting).outside.backend
    ≡ some accepted
charging_stop_stays_accepted_example =
    charging_stop_stays_accepted config tcu_cal body_cal waiting 5 later refl tcu_cal-unmapped
      (omega arith, tt) (tt, (tt, (tt, (omega arith, (tt, tt)))))

round_reaches_terminal_example :
    let b' = step config tcu_cal body_cal (Event.round slow) waiting in
    (b'.running ≡ true)
    × (verdict : Verdict) × (reason : Reason) × (y : BackendRecord) × (b'.gateway.last_result
        ≡ some (finished_record verdict reason slow.elapsed unlock_command))
    × (lookup unlock_command.request_id b'.outside.backend.commands ≡ some y)
    × (((slow.result_arrives ≡ true)
          × (y.status ≡ status_of verdict)
          × (y.status ≢ accepted)
          × (y.reason ≡ some reason)
          × (y.completed_at ≢ none))
        ⊎ ((slow.result_arrives ≡ false) × (y ≡ unlock_record)))
round_reaches_terminal_example =
    round_reaches_terminal config tcu_cal body_cal slow waiting unlock_command [] door_unlock
      {x = unlock_record} refl refl unlock_command-RunsBy refl refl

door_in_time_example :
    let b' = step config tcu_cal body_cal (Event.round fast) waiting in
    (b'.outside.body.doors_locked ≡ false)
    × (status_at unlock_command.request_id b'.outside.backend ≡ some completed)
    × (b'.gateway.vhal.door_lock ≡ some (if false then 1 else 0))
    × (Option.map (λ e. e.0.doors_locked) b'.outside.backend.report ≡ some false)
    × (b'.outside.pending ≡ waiting.outside.pending)
door_in_time_example =
    door_in_time config tcu_cal body_cal fast waiting false unlock_command [] {x = unlock_record}
      (waiting-IsQueued fast fast-IsOnline) (omega arith)

door_late_example :
    let b' = step config tcu_cal body_cal (Event.round slow) waiting in
    let b'' = step config tcu_cal body_cal Event.actuator b' in
    (status_at unlock_command.request_id b'.outside.backend ≡ some failed)
    × (b'.outside.body ≡ waiting.outside.body)
    × (b'.outside.pending ≡ door_request false unlock_command ∷ [])
    × (b''.outside.body.doors_locked ≡ false)
    × (status_at unlock_command.request_id b''.outside.backend ≡ some failed)
door_late_example =
    door_late config tcu_cal body_cal slow waiting false unlock_command [] {x = unlock_record}
      (waiting-IsQueued slow slow-IsOnline) refl (omega arith)
