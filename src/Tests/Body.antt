-- ===== src/Tests/Body.antt =====
-- The theorems on the Body ECU (env/body-ecu/server.py), at concrete inputs.
use vehicle_bench_candidate.Base.{
  ℕ, zero, suc, false, ◌+◌, ◌*◌, ◌-◌, ◌<◌, ◌≡◌, ◌⊎◌, refl, true, List, [], ◌∷◌, arith,
}
use vehicle_bench_candidate.Base.Int.{pos}
use vehicle_bench_candidate.Proto.{
  LockAction, ClimateAction, ChargingAction, ChargingState, charging, complete, DoorLockRequest,
  ClimateRequest, ChargingRequest,
}
use vehicle_bench_candidate.Body.{BodyModel, reset}
use vehicle_bench_candidate.Body.Run.{Input, run, seconds}
use vehicle_bench_candidate.Body.Invariant.{IsCalibrated, IsValid, run-IsValid}
use vehicle_bench_candidate.Body.Charge.{Fills, shares, session_completes}
use vehicle_bench_candidate.Body.Cabin.{cabin_converges, distance}
use vehicle_bench_candidate.Tests.{body_cal}

abbrev unlock : DoorLockRequest
unlock = record { request_id = 7; action = LockAction.unlock }

abbrev warmer : ClimateRequest
warmer = record { request_id = 8; action = ClimateAction.climate_start; target_temp_raw = pos 60 }

abbrev charge : ChargingRequest
charge = record {
  request_id = 9;
  action = ChargingAction.charging_start;
  target_soc_percent = pos 45;
}

abbrev inputs : List Input
inputs = Input.climate warmer ∷ Input.charging charge ∷ Input.second ∷ Input.door unlock ∷ []

-- A car that charges and heats.
abbrev busy : BodyModel
busy = record {
  doors_locked = true;
  climate_active = true;
  climate_target_raw = pos 44;
  cabin_temp_raw = pos 38;
  charging_state = ChargingState.charging;
  soc = 42;
  target_soc = pos 45;
  state_seq = 2;
  soc_acc = 0;
}

body_cal-IsCalibrated : IsCalibrated body_cal
body_cal-IsCalibrated = record {
  range_lo = omega arith;
  range_hi = omega arith;
  zero_below = refl;
  stays_below = λ acc below. ground arith;
  initial_soc = omega arith;
}

run-IsValid_example : IsValid body_cal (run body_cal inputs (reset body_cal))
run-IsValid_example = run-IsValid body_cal inputs body_cal-IsCalibrated

body_cal-waits : (j : ℕ) → j < 2 → body_cal.floats.at_least_one (shares body_cal (suc j)) ≡ false
body_cal-waits zero lt = refl
body_cal-waits (suc zero) lt = refl
body_cal-waits (suc (suc j)) lt = absurd (omega arith)

body_cal-Fills : Fills body_cal 2
body_cal-Fills = record { waits = body_cal-waits; full = refl; empties = refl }

session_completes_example :
    (let m' = seconds body_cal (1 * suc 2 + 2) busy in
      (m'.charging_state ≡ charging) × (m'.soc ≡ busy.soc + 1))
    × (let m' = seconds body_cal (suc 2 * suc 2) busy in
        (m'.charging_state ≡ complete) × (pos m'.soc ≡ busy.target_soc))
session_completes_example =
    session_completes body_cal busy 2 2 1 2 body_cal-Fills refl refl refl (omega arith)
      (omega arith) (omega arith)

cabin_converges_example :
    let m' = seconds body_cal 6 busy in
    (m'.climate_active ≡ true)
    × (m'.climate_target_raw ≡ busy.climate_target_raw)
    × (distance m'.cabin_temp_raw busy.climate_target_raw
        ≡ distance busy.cabin_temp_raw busy.climate_target_raw - 6)
    × ((6 < distance busy.cabin_temp_raw busy.climate_target_raw)
        ⊎ (m'.cabin_temp_raw ≡ busy.climate_target_raw))
cabin_converges_example = cabin_converges body_cal busy 6 refl
