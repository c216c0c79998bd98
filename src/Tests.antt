-- ===== src/Tests.antt =====
-- The theorems applied at concrete inputs: the calibrations that the repository ships
-- (env/body-ecu/body_cal.json and env/ecu-gateway/tcu_cal.json), and small states.
pub mod Body
pub mod Gateway
pub mod Backend
pub mod Adb
pub mod Streams
pub mod Files
pub mod Bench
pub mod Log
pub mod Robot
pub mod Runner
pub mod Scenarios
pub mod Cycles
use Prim.Native.String.{String}
use vehicle_bench_candidate.Base.{suc, ◌-◌, leb, true, none, some, [], ◌∷◌}
use vehicle_bench_candidate.Base.Int.{pos}
use vehicle_bench_candidate.Body.{SocFloats, BodyCal}
use vehicle_bench_candidate.Gateway.Types.{TcuCal}

-- The floats that `_soc_acc` takes on with a period of 3.0, by how often 1.0 / 3.0 was added.
abbrev thirds : SocFloats
thirds = record {
  zero_point = 0;
  add_share = λ period acc. suc acc;
  at_least_one = λ acc. leb 3 acc;
  minus_one = λ acc. acc - 3;
}

-- `body_cal.json`
abbrev pub body_cal : BodyCal
body_cal = record {
  door_actuator_lo_ms = 250;
  door_actuator_hi_ms = 800;
  hvac_temp_raw_min = pos 32;
  hvac_temp_raw_max = pos 56;
  hvac_reset_on_door_unlock = true;
  floats = thirds;
  charging_soc_step_period_s = 3;
  charging_power_kw_x10 = 110;
  heartbeat_slow_every_n = 17;
  heartbeat_slow_extra_ms = 140;
  initial_soc_percent = 42;
}

-- `tcu_cal.json`
abbrev pub tcu_cal : TcuCal
tcu_cal = record {
  vin = "WVGZZZ5NZTW000042";
  command_map =
      ("LOCK", "door_lock")
      ∷ ("UNLOCK", "door_unlock")
      ∷ ("CLIMATE_START", "hvac_start")
      ∷ ("CLIMATE_STOP", "hvac_stop")
      ∷ ("CHARGING_START", "charge_start")
      ∷ ("CHARGE_STOP", "charge_stop")
      ∷ [];
  door_lock_ack_timeout_ms = 600;
  hvac_ack_timeout_ms = 1500;
  charging_ack_timeout_ms = 1500;
  hvac_temp_scale = some (pos 2);
  hvac_temp_quantize = some "floor_integer";
  sync_after_command = some true;
  heartbeat_warn_latency_ms = 100;
}
