-- ===== src/Tests/Backend.antt =====
-- The theorems on the backend (env/backend/app/main.py), at concrete inputs.
use mathlib.Core.Option
use vehicle_bench_candidate.Base.{
  ◌+◌, ◌≡◌, ◌⊎◌, ◌↔◌, refl, true, false, none, some, List, [], ◌∷◌, ◌<◌,
}
use vehicle_bench_candidate.Base.Int.{pos, ◌≤ℤ◌}
use vehicle_bench_candidate.Base.Dyadic.{whole, halved}
use vehicle_bench_candidate.Gateway.Types.{Reason, Verdict, StateReport, ResultReport}
use vehicle_bench_candidate.Backend.Store.{
  Store, ok, unprocessable, CommandType, CommandRecord, completed, failed, empty_store,
}
use vehicle_bench_candidate.Backend.Commands.{
  Config, Request, accepted_record, serve, http_error, dispatch_end, command_result, no_params,
}
use vehicle_bench_candidate.Backend.Status.{vehicle_status, VehicleStatus}
use vehicle_bench_candidate.Backend.Access.{
  Forwards, charging_start-validates, InRange, climate_start-validates,
}
use vehicle_bench_candidate.Backend.Lifecycle.{status_at, terminal_status_changes}
use vehicle_bench_candidate.Backend.Records.{Arrival, arrive_all, AreConsistent, records_consistent}
use vehicle_bench_candidate.Base.Dyadic.{Dyadic}
use vehicle_bench_candidate.Backend.Shown.{vehicle_status-report}
use vehicle_bench_candidate.Proto.{ChargingState}

abbrev config : Config
config = record { api_key = "secret"; legacy_climate_schema = false }

abbrev first_record : CommandRecord
first_record = accepted_record 1 CommandType.lock no_params 1000

abbrev second_record : CommandRecord
second_record = accepted_record 2 CommandType.unlock no_params 1500

abbrev driving : StateReport
driving = record {
  vin = "WVGZZZ5NZTW000042";
  reported_at = 3000;
  state_seq = 4;
  doors_locked = true;
  climate_active = true;
  target_temp_c = halved (pos 42);
  cabin_temp_c = halved (pos 38);
  charging_state = ChargingState.idle;
  soc_percent = 42;
  target_soc_percent = pos 80;
  power_kw = 0;
  ecu_online = true;
}

-- Two commands, a report, and a set point of 21.5 degrees that was asked for.
abbrev busy_store : Store
busy_store = record {
  report = some (driving, 3100);
  commands = (1, first_record) ∷ (2, second_record) ∷ [];
  desired_climate_target = some (halved (pos 43));
}

abbrev first_done : ResultReport
first_done = record {
  request_id = 1;
  status = Verdict.completed;
  reason = Reason.ok;
  elapsed_ms = 300;
}

abbrev some_arrivals : List Arrival
some_arrivals =
    Arrival.request (some "secret") 1 1000 Request.lock
    ∷ Arrival.result 1300 first_done
    ∷ Arrival.gateway 1 1400 http_error
    ∷ Arrival.request none 2 1500 Request.unlock
    ∷ []

charging_start-validates_example :
    let result =
      serve config
        (some config.api_key)
        3
        2000
        (Request.charging_start (some (pos 49)))
        busy_store in
    let target = Option.get_or (some (pos 49)) (pos 80) in
    ((pos 50 ≤ℤ target)
      × (target ≤ℤ pos 100)
      × Forwards 3 2000 CommandType.charging_start
          (record { target_temp_c = none; target_soc_percent = some target })
          busy_store.desired_climate_target
          busy_store
          result)
    ⊎ (¬ ((pos 50 ≤ℤ target) × (target ≤ℤ pos 100)) × (result ≡ (unprocessable, busy_store)))
charging_start-validates_example = charging_start-validates config 3 2000 (some (pos 49)) busy_store

climate_start-validates_example :
    let result =
      serve config
        (some config.api_key)
        3
        2000
        (Request.climate_start (some (halved (pos 43))))
        busy_store in
    let target = Option.get_or (some (halved (pos 43))) (whole (pos 22)) in
    (((config.legacy_climate_schema ≡ true) ⊎ InRange target)
      × Forwards 3 2000 CommandType.climate_start
          (record { target_temp_c = some target; target_soc_percent = none })
          (some target)
          busy_store
          result)
    ⊎ ((config.legacy_climate_schema ≡ false)
        × ¬ (InRange target)
        × (result ≡ (unprocessable, busy_store)))
climate_start-validates_example =
    climate_start-validates config 3 2000 (some (halved (pos 43))) busy_store

terminal_status_changes_example :
    let id = first_done.request_id in
    let gave_up = (dispatch_end id 2000 http_error busy_store).1 in
    let reported = (command_result 2000 first_done busy_store).1 in
    (status_at id gave_up ≡ some failed)
    × (status_at id (command_result 3000 first_done gave_up).1 ≡ some completed)
    × (status_at id reported ≡ some completed)
    × (status_at id (dispatch_end id 3000 http_error reported).1 ≡ some failed)
terminal_status_changes_example =
    terminal_status_changes 2000 3000 first_done busy_store {r = first_record} refl refl

records_consistent_example : AreConsistent (arrive_all config some_arrivals empty_store)
records_consistent_example = records_consistent config some_arrivals

vehicle_status-report_example :
    (v : VehicleStatus) × (vehicle_status config (some config.api_key) 5000 busy_store
      ≡ (ok v, busy_store))
    × (v.doors_locked ≡ some driving.doors_locked)
    × (v.climate_active ≡ some driving.climate_active)
    × (v.cabin_temp_c ≡ some driving.cabin_temp_c)
    × (v.charging_state ≡ some driving.charging_state)
    × (v.soc_percent ≡ some driving.soc_percent)
    × (v.target_soc_percent ≡ some driving.target_soc_percent)
    × (v.state_seq ≡ some driving.state_seq)
    × ((v.ecu_online ≡ true) ↔ ((driving.ecu_online ≡ true) × (5000 < 3100 + 20000)))
    × (((d : Dyadic) × (driving.climate_active ≡ true)
          × (busy_store.desired_climate_target ≡ some d)
          × (v.target_temp_c ≡ some d))
        ⊎ (((driving.climate_active ≡ false) ⊎ (busy_store.desired_climate_target ≡ none))
            × (v.target_temp_c ≡ some driving.target_temp_c)))
vehicle_status-report_example = vehicle_status-report config 5000 3100 busy_store driving refl
