-- ===== src/Body/Handlers.antt =====
-- What each handler of the Body ECU changes and what it leaves alone (env/body-ecu/server.py).
use vehicle_bench_candidate.Base.{ℕ, ◌+◌, ◌%◌, ◌≡◌, ◌⊎◌, true, false, if◌then◌else◌, arith}
use vehicle_bench_candidate.Base.Int.{pos, ◌≤ℤ◌, leb_ℤ}
use vehicle_bench_candidate.Proto.{
  LockAction, ClimateAction, ChargingAction, ChargingState, AckResult, DoorLockRequest,
  ClimateRequest, ChargingRequest,
}
use vehicle_bench_candidate.Body.{
  BodyCal, BodyModel, bump, is_charging, or_default_soc, actuate_door_lock, set_climate,
  set_charging,
}

-- What the charger owns is the same in both states.
abbrev pub SameCharging : BodyModel → BodyModel → Type 0
SameCharging m n =
    (m.charging_state ≡ n.charging_state)
    × (m.soc ≡ n.soc)
    × (m.target_soc ≡ n.target_soc)
    × (m.soc_acc ≡ n.soc_acc)

-- What the air conditioning owns is the same in both states, its power aside.
abbrev pub SameSetPoint : BodyModel → BodyModel → Type 0
SameSetPoint m n =
    (m.climate_target_raw ≡ n.climate_target_raw) × (m.cabin_temp_raw ≡ n.cabin_temp_raw)

-- A door request leaves the charger and the set point alone. Lock and unlock are answered OK,
-- leave the doors as requested and raise the sequence number by one modulo 2 ^ 32; only an unlock
-- under a calibration that says so switches the air conditioning off; any other action is
-- rejected and changes nothing.
pub actuate_door_lock_lem :
    (cal : BodyCal) (now : ℕ) (r : DoorLockRequest) (m : BodyModel)
    → let (answer, m') = actuate_door_lock cal now r m in
      SameCharging m' m
      × SameSetPoint m' m
      × (answer.request_id ≡ r.request_id)
      × ((r.action ≡ LockAction.lock)
            × (answer.result ≡ AckResult.ok)
            × (m' ≡ bump (record m { doors_locked = true }))
          ⊎ (r.action ≡ LockAction.unlock)
            × (answer.result ≡ AckResult.ok)
            × (m'.doors_locked ≡ false)
            × (m'.state_seq ≡ (m.state_seq + 1) % 4294967296)
            × (m'.climate_active
                ≡ (if cal.hvac_reset_on_door_unlock then false else m.climate_active))
          ⊎ (r.action ≡ LockAction.unspecified) × (answer.result ≡ AckResult.rejected) × (m' ≡ m))
unfolding actuate_door_lock
actuate_door_lock_lem cal now r m = ground arith

-- A climate request leaves the doors, the charger and the cabin temperature alone. A start is
-- answered OK, switches the air conditioning on and sets the requested raw temperature, clamped
-- to the calibrated range, which leaves it unchanged if it is in the range; a stop is
-- answered OK and only switches it off; any other action is rejected and changes nothing. The
-- calibrated range must not be empty.
pub set_climate_lem :
    (cal : BodyCal) (now : ℕ) (r : ClimateRequest) (m : BodyModel)
    → cal.hvac_temp_raw_min ≤ℤ cal.hvac_temp_raw_max
    → let (answer, m') = set_climate cal now r m in
      SameCharging m' m
      × (m'.doors_locked ≡ m.doors_locked)
      × (m'.cabin_temp_raw ≡ m.cabin_temp_raw)
      × ((r.action ≡ ClimateAction.climate_start)
            × (answer.result ≡ AckResult.ok)
            × (m'.climate_active ≡ true)
            × (cal.hvac_temp_raw_min ≤ℤ m'.climate_target_raw)
            × (m'.climate_target_raw ≤ℤ cal.hvac_temp_raw_max)
            × ((m'.climate_target_raw ≡ r.target_temp_raw)
                ⊎ ¬ (
                    (cal.hvac_temp_raw_min ≤ℤ r.target_temp_raw)
                    × (r.target_temp_raw ≤ℤ cal.hvac_temp_raw_max)))
            × (m'.state_seq ≡ (m.state_seq + 1) % 4294967296)
          ⊎ (r.action ≡ ClimateAction.climate_stop)
            × (answer.result ≡ AckResult.ok)
            × (m' ≡ bump (record m { climate_active = false }))
          ⊎ (r.action ≡ ClimateAction.unspecified)
            × (answer.result ≡ AckResult.rejected)
            × (m' ≡ m))
unfolding set_climate
set_climate_lem cal now r m range = ground arith

-- A charging request leaves the doors and the air conditioning alone. A start during a session
-- changes only the sequence number; otherwise it takes the requested target, or 80 for 0, and the
-- session is complete at once if the battery is there already, and runs if not; a stop makes the
-- charger idle; these are answered OK, and any other action is rejected and changes nothing.
pub set_charging_lem :
    (now : ℕ) (r : ChargingRequest) (m : BodyModel)
    → let (answer, m') = set_charging now r m in
      let target = or_default_soc r.target_soc_percent in
      SameSetPoint m' m
      × (m'.doors_locked ≡ m.doors_locked)
      × (m'.climate_active ≡ m.climate_active)
      × (m'.soc ≡ m.soc)
      × ((r.action ≡ ChargingAction.charging_start)
            × (answer.result ≡ AckResult.ok)
            × (m'
                ≡ bump (
                    if is_charging m.charging_state
                    then m
                    else if leb_ℤ target (pos m.soc)
                    then record m { target_soc = target; charging_state = ChargingState.complete }
                    else record m { target_soc = target; charging_state = ChargingState.charging }))
          ⊎ (r.action ≡ ChargingAction.charging_stop)
            × (answer.result ≡ AckResult.ok)
            × (m' ≡ bump (record m { charging_state = ChargingState.idle }))
          ⊎ (r.action ≡ ChargingAction.unspecified)
            × (answer.result ≡ AckResult.rejected)
            × (m' ≡ m))
unfolding set_charging
set_charging_lem now r m = ground arith
