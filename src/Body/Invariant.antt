-- ===== src/Body/Invariant.antt =====
-- What holds of the Body ECU's state between two inputs, whatever they are.
use vehicle_bench_candidate.Base.{ℕ, ◌+◌, ◌≤◌, ◌<◌, ◌≡◌, ◌⊎◌, false, List, [], ◌∷◌, arith}
use vehicle_bench_candidate.Base.Int.{pos, ◌≤ℤ◌}
use vehicle_bench_candidate.Proto.{DoorLockRequest, ClimateRequest, ChargingRequest}
use vehicle_bench_candidate.Body.{
  BodyCal, BodyModel, is_charging, reset, charge_tick, cabin_tick, physics_tick, actuate_door_lock,
  set_climate, set_charging, reset_state,
}
use vehicle_bench_candidate.Body.Run.{Input, serve, run}

-- A calibration whose range holds the set point of a reset, whose initial state of charge is a
-- percentage, and whose share `1.0 / period` is so small that the sum with a float below 1.0 is below
-- 1.0 again when 1.0 is subtracted.
pub record IsCalibrated (cal : BodyCal) : Type 0 where
  pub range_lo : cal.hvac_temp_raw_min ≤ℤ pos 44
  pub range_hi : pos 44 ≤ℤ cal.hvac_temp_raw_max
  pub zero_below : cal.floats.at_least_one cal.floats.zero_point ≡ false
  pub stays_below :
      (acc : ℕ)
      → cal.floats.at_least_one acc ≡ false
      → let next = cal.floats.add_share cal.charging_soc_step_period_s acc in
        cal.floats.at_least_one (cal.floats.minus_one next) ≡ false
  pub initial_soc : cal.initial_soc_percent ≤ 100

pub record IsValid (cal : BodyCal) (m : BodyModel) : Type 0 where
  pub seq_bound : m.state_seq < 4294967296
  pub soc_bound : m.soc ≤ 100
  pub acc_below : cal.floats.at_least_one m.soc_acc ≡ false
  pub set_point_lo : cal.hvac_temp_raw_min ≤ℤ m.climate_target_raw
  pub set_point_hi : m.climate_target_raw ≤ℤ cal.hvac_temp_raw_max
  pub below_target : (is_charging m.charging_state ≡ false) ⊎ (pos (m.soc + 1) ≤ℤ m.target_soc)

pub reset-IsValid : {cal : BodyCal} → IsCalibrated cal → IsValid cal (reset cal)
unfolding reset
reset-IsValid c = ground arith

module _ {cal : BodyCal} where
  charge_tick-IsValid :
      {m : BodyModel} → IsCalibrated cal → IsValid cal m → IsValid cal (charge_tick cal m)
  unfolding charge_tick
  charge_tick-IsValid {m} c v = ground (arith, c.stays_below m.soc_acc v.acc_below)

  cabin_tick-IsValid : {m : BodyModel} → IsValid cal m → IsValid cal (cabin_tick m)
  unfolding cabin_tick
  cabin_tick-IsValid v = ground arith

  pub physics_tick-IsValid :
      {m : BodyModel} → IsCalibrated cal → IsValid cal m → IsValid cal (physics_tick cal m)
  unfolding physics_tick
  physics_tick-IsValid c v = cabin_tick-IsValid (charge_tick-IsValid c v)

  actuate_door_lock-IsValid :
      (r : DoorLockRequest) {m : BodyModel}
      → IsValid cal m
      → IsValid cal (actuate_door_lock cal 0 r m).1
  unfolding actuate_door_lock
  actuate_door_lock-IsValid r v = ground arith

  set_climate-IsValid :
      (r : ClimateRequest) {m : BodyModel}
      → IsCalibrated cal
      → IsValid cal m
      → IsValid cal (set_climate cal 0 r m).1
  unfolding set_climate
  set_climate-IsValid r c v = ground arith

  set_charging-IsValid :
      (r : ChargingRequest) {m : BodyModel} → IsValid cal m → IsValid cal (set_charging 0 r m).1
  unfolding set_charging
  set_charging-IsValid r v = ground arith

  reset_state-IsValid : (m : BodyModel) → IsCalibrated cal → IsValid cal (reset_state cal 0 m).1
  unfolding reset_state
  reset_state-IsValid m c = reset-IsValid c

  pub serve-IsValid :
      (i : Input) {m : BodyModel} → IsCalibrated cal → IsValid cal m → IsValid cal (serve cal i m)
  unfolding serve
  serve-IsValid (Input.door r) c v = actuate_door_lock-IsValid r v
  serve-IsValid (Input.climate r) c v = set_climate-IsValid r c v
  serve-IsValid (Input.charging r) c v = set_charging-IsValid r v
  serve-IsValid Input.reset {m} c v = reset_state-IsValid m c
  serve-IsValid Input.second c v = physics_tick-IsValid c v

  run_from-IsValid :
      (is : List Input) {m : BodyModel}
      → IsCalibrated cal
      → IsValid cal m
      → IsValid cal (run cal is m)
  unfolding run
  run_from-IsValid [] c v = v
  run_from-IsValid (i ∷ is) c v = run_from-IsValid is c (serve-IsValid i c v)

-- After a reset, any sequence of calls and of rounds of the physics loop, with a calibration
-- whose range of set points holds 22.0 degrees, whose period keeps a float accumulator that is below
-- 1.0 below 1.0 when its share is added and 1.0 is subtracted, and whose initial
-- state of charge is at most 100, leaves the state well formed: the sequence number fits 32
-- bits, the state of charge is at most 100, the accumulator is below 1.0, the set point is in
-- the calibrated range, and while the car charges its state of charge is below the target.
pub run-IsValid :
    (cal : BodyCal) (is : List Input) → IsCalibrated cal → IsValid cal (run cal is (reset cal))
run-IsValid cal is c = run_from-IsValid is c (reset-IsValid c)
