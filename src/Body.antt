-- ===== src/Body.antt =====
-- The Body ECU (env/body-ecu/server.py): the state of `BodyModel`, its physics, and the handlers
-- of `BodyControlServicer`. Each handler changes the state in one section under `self.m.lock`, so
-- it is one function on the state; the time that it sleeps before or after is its caller's.
-- The clock (`uptime_ms`) is an argument. What Python's floats do in `_soc_acc` is a parameter.
pub mod Run
pub mod Invariant
pub mod Handlers
pub mod Charge
pub mod Cabin
use vehicle_bench_candidate.Base.{
  ℕ, ◌+◌, ◌-◌, ◌%◌, Bool, true, false, not, ◌&&◌, ◌||◌, if◌then◌else◌, leb, ltb, ◌==◌,
}
use vehicle_bench_candidate.Base.Int.{ℤ, pos, negsuc, ◌+ℤ◌, ltb_ℤ, leb_ℤ, ◌==ℤ◌, max_ℤ, min_ℤ}
use vehicle_bench_candidate.Proto.{
  LockAction, ClimateAction, ChargingAction, ChargingState, AckResult, DoorLockRequest,
  ClimateRequest, ChargingRequest, Detail, CommandAck, BodyState, HeartbeatResponse,
}

-- What `physics_loop` does with floats, each float as a number that stands for it: `0.0`,
-- `acc + 1.0 / period`, `acc >= 1.0` and `acc - 1.0`.
pub record SocFloats : Type 0 where
  pub zero_point : ℕ
  pub add_share : ℕ → ℕ → ℕ
  pub at_least_one : ℕ → Bool
  pub minus_one : ℕ → ℕ

-- The calibration (`body_cal.json`), as far as the program reads it; the period is a float.
pub record BodyCal : Type 0 where
  pub door_actuator_lo_ms : ℕ
  pub door_actuator_hi_ms : ℕ
  pub hvac_temp_raw_min : ℤ
  pub hvac_temp_raw_max : ℤ
  pub hvac_reset_on_door_unlock : Bool
  pub floats : SocFloats
  pub charging_soc_step_period_s : ℕ
  pub charging_power_kw_x10 : ℕ
  pub heartbeat_slow_every_n : ℕ
  pub heartbeat_slow_extra_ms : ℕ
  pub initial_soc_percent : ℕ

pub record BodyModel : Type 0 where
  pub doors_locked : Bool
  pub climate_active : Bool
  pub climate_target_raw : ℤ
  pub cabin_temp_raw : ℤ
  pub charging_state : ChargingState
  pub soc : ℕ
  pub target_soc : ℤ
  pub state_seq : ℕ
  pub soc_acc : ℕ

unfoldable pub reset : BodyCal → BodyModel
reset cal = record {
  doors_locked = true;
  climate_active = false;
  climate_target_raw = pos 44;
  cabin_temp_raw = pos 38;
  charging_state = ChargingState.idle;
  soc = cal.initial_soc_percent;
  target_soc = pos 80;
  state_seq = 0;
  soc_acc = cal.floats.zero_point;
}

-- `& 0xFFFFFFFF` keeps the low 32 bits.
abbrev pub bump : BodyModel → BodyModel
bump m = record m { state_seq = (m.state_seq + 1) % 4294967296 }

abbrev pub is_charging : ChargingState → Bool
is_charging ChargingState.charging = true
is_charging _ = false

unfoldable pub snapshot : BodyCal → ℕ → BodyModel → BodyState
snapshot cal uptime m = record {
  doors_locked = m.doors_locked;
  climate_active = m.climate_active;
  target_temp_raw = m.climate_target_raw;
  cabin_temp_raw = m.cabin_temp_raw;
  charging_state = m.charging_state;
  soc_percent = m.soc;
  target_soc_percent = m.target_soc;
  power_kw_x10 = if is_charging m.charging_state then cal.charging_power_kw_x10 else 0;
  ecu_uptime_ms = uptime;
  state_seq = m.state_seq;
}

-- `min(100, n)`
abbrev min_100 : ℕ → ℕ
min_100 n = if ltb n 100 then n else 100

-- The end of a step of the state of charge.
abbrev complete_charge : BodyModel → BodyModel
complete_charge m =
    if leb_ℤ m.target_soc (pos m.soc)
    then bump (record m { charging_state = ChargingState.complete })
    else m

-- The first half of a round of `physics_loop`.
unfoldable pub charge_tick : BodyCal → BodyModel → BodyModel
charge_tick cal m =
    if is_charging m.charging_state
    then (let acc = cal.floats.add_share cal.charging_soc_step_period_s m.soc_acc in
        if cal.floats.at_least_one acc
        then complete_charge
            (bump (record m { soc_acc = cal.floats.minus_one acc; soc = min_100 (m.soc + 1) }))
        else record m { soc_acc = acc })
    else m

-- The second half.
unfoldable pub cabin_tick : BodyModel → BodyModel
cabin_tick m =
    if m.climate_active && not (m.cabin_temp_raw ==ℤ m.climate_target_raw)
    then bump (record m {
      cabin_temp_raw =
          m.cabin_temp_raw
          +ℤ (if ltb_ℤ m.cabin_temp_raw m.climate_target_raw then pos 1 else negsuc 0);
    })
    else m

-- One round of `physics_loop`, a second long.
unfoldable pub physics_tick : BodyCal → BodyModel → BodyModel
physics_tick cal m = cabin_tick (charge_tick cal m)

abbrev ack : ℕ → AckResult → Detail → ℕ → CommandAck
ack id r d uptime = record { request_id = id; result = r; detail = d; ecu_timestamp_ms = uptime }

-- The locked section of `_actuate_door_lock` on an unlock, before `bump`.
abbrev unlock_doors : BodyCal → BodyModel → BodyModel
unlock_doors cal m = record m {
  doors_locked = false;
  climate_active =
      if cal.hvac_reset_on_door_unlock && m.climate_active then false else m.climate_active;
}

abbrev actuate : BodyCal → ℕ → ℕ → LockAction → BodyModel → CommandAck × BodyModel
actuate cal uptime id LockAction.lock m =
    (ack id AckResult.ok Detail.actuated uptime, bump (record m { doors_locked = true }))
actuate cal uptime id LockAction.unlock m =
    (ack id AckResult.ok Detail.actuated uptime, bump (unlock_doors cal m))
actuate cal uptime id LockAction.unspecified m =
    (ack id AckResult.rejected Detail.unsupported_action uptime, m)

-- `_actuate_door_lock`, from the end of the actuator's travel on.
unfoldable pub actuate_door_lock :
    BodyCal → ℕ → DoorLockRequest → BodyModel → CommandAck × BodyModel
actuate_door_lock cal uptime r m = actuate cal uptime r.request_id r.action m

-- The range check of `SetClimate`.
abbrev pub clamp_raw : BodyCal → ℤ → ℤ
clamp_raw cal raw =
    if ltb_ℤ raw cal.hvac_temp_raw_min || ltb_ℤ cal.hvac_temp_raw_max raw
    then max_ℤ cal.hvac_temp_raw_min (min_ℤ cal.hvac_temp_raw_max raw)
    else raw

abbrev climate_case : BodyCal → ℕ → ℕ → ℤ → ClimateAction → BodyModel → CommandAck × BodyModel
climate_case cal uptime id raw ClimateAction.climate_start m =
    let target = clamp_raw cal raw in
    (
      ack id AckResult.ok (Detail.hvac_on target) uptime,
      bump (record m { climate_target_raw = target; climate_active = true }),
    )
climate_case cal uptime id raw ClimateAction.climate_stop m =
    (ack id AckResult.ok Detail.hvac_off uptime, bump (record m { climate_active = false }))
climate_case cal uptime id raw ClimateAction.unspecified m =
    (ack id AckResult.rejected Detail.unsupported_action uptime, m)

unfoldable pub set_climate : BodyCal → ℕ → ClimateRequest → BodyModel → CommandAck × BodyModel
set_climate cal uptime r m = climate_case cal uptime r.request_id r.target_temp_raw r.action m

-- `request.target_soc_percent or 80`
abbrev pub or_default_soc : ℤ → ℤ
or_default_soc n = if n ==ℤ pos 0 then pos 80 else n

-- `SetCharging` on a start while no session runs.
abbrev begin_charging : ℤ → BodyModel → Detail × BodyModel
begin_charging target m =
    if leb_ℤ target (pos m.soc)
    then (
      Detail.soc_already_at_target,
      record m { target_soc = target; charging_state = ChargingState.complete },
    )
    else (
      Detail.charging_started,
      record m { target_soc = target; charging_state = ChargingState.charging },
    )

abbrev start_charging : ℤ → BodyModel → Detail × BodyModel
start_charging requested m =
    if is_charging m.charging_state
    then (Detail.already_charging, m)
    else begin_charging (or_default_soc requested) m

abbrev charging_case : ℕ → ℕ → ℤ → ChargingAction → BodyModel → CommandAck × BodyModel
charging_case uptime id requested ChargingAction.charging_start m =
    let (detail, m') = start_charging requested m in (ack id AckResult.ok detail uptime, bump m')
charging_case uptime id requested ChargingAction.charging_stop m = (
  ack id AckResult.ok Detail.charging_stopped uptime,
  bump (record m { charging_state = ChargingState.idle }),
)
charging_case uptime id requested ChargingAction.unspecified m =
    (ack id AckResult.rejected Detail.unsupported_action uptime, m)

unfoldable pub set_charging : ℕ → ChargingRequest → BodyModel → CommandAck × BodyModel
set_charging uptime r m = charging_case uptime r.request_id r.target_soc_percent r.action m

unfoldable pub get_body_state : BodyCal → ℕ → BodyModel → BodyState
unfolding snapshot
get_body_state cal uptime m = snapshot cal uptime m

-- `ResetState` answers with an empty request id.
unfoldable pub reset_state : BodyCal → ℕ → BodyModel → CommandAck × BodyModel
unfolding reset
reset_state cal uptime m = (ack 0 AckResult.ok Detail.reset uptime, reset cal)

-- `Heartbeat`: the counter goes up, and every n-th answer is later by a fixed extra delay. Python
-- raises on `% 0`; a calibrated n is positive.
unfoldable pub heartbeat : BodyCal → ℕ → ℕ → ℕ → ℕ → HeartbeatResponse × ℕ × ℕ
heartbeat cal uptime jitter seq hb_count =
    let count = hb_count + 1 in
    (
      record { seq = seq; ecu_timestamp_ms = uptime },
      if count % cal.heartbeat_slow_every_n == 0
          then jitter + cal.heartbeat_slow_extra_ms
          else jitter,
      count,
    )
