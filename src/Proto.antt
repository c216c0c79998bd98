-- ===== src/Proto.antt =====
-- The messages between the gateway and the Body ECU (env/proto/vehicle_ecu.proto), as the two
-- programs use them. An enum holds the values that the contract names; a request id is only ever
-- compared and copied, so it is a number; `detail` texts are the cases of a type.
use vehicle_bench_candidate.Base.{ℕ, Bool}
use vehicle_bench_candidate.Base.Int.{ℤ}

pub data LockAction : Type 0 where
  unspecified lock unlock : LockAction

pub data ClimateAction : Type 0 where
  unspecified climate_start climate_stop : ClimateAction

pub data ChargingAction : Type 0 where
  unspecified charging_start charging_stop : ChargingAction

pub data ChargingState : Type 0 where
  unspecified idle charging complete fault : ChargingState

pub data AckResult : Type 0 where
  unspecified ok rejected actuator_error : AckResult

pub record DoorLockRequest : Type 0 where
  pub request_id : ℕ
  pub action : LockAction

pub record ClimateRequest : Type 0 where
  pub request_id : ℕ
  pub action : ClimateAction
  pub target_temp_raw : ℤ

pub record ChargingRequest : Type 0 where
  pub request_id : ℕ
  pub action : ChargingAction
  pub target_soc_percent : ℤ

-- The texts that the Body ECU writes into `detail`.
pub data Detail : Type 0 where
  actuated unsupported_action hvac_off already_charging soc_already_at_target : Detail
  charging_started charging_stopped reset : Detail
  hvac_on : ℤ → Detail

pub record CommandAck : Type 0 where
  pub request_id : ℕ
  pub result : AckResult
  pub detail : Detail
  pub ecu_timestamp_ms : ℕ

-- `BodyState` with the fields of its `ClimateState` and `ChargingStatus` beside its own.
pub record BodyState : Type 0 where
  pub doors_locked : Bool
  pub climate_active : Bool
  pub target_temp_raw : ℤ
  pub cabin_temp_raw : ℤ
  pub charging_state : ChargingState
  pub soc_percent : ℕ
  pub target_soc_percent : ℤ
  pub power_kw_x10 : ℕ
  pub ecu_uptime_ms : ℕ
  pub state_seq : ℕ

pub record HeartbeatResponse : Type 0 where
  pub seq : ℕ
  pub ecu_timestamp_ms : ℕ
