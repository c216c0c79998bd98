-- ===== src/Gateway/Types.antt =====
-- What `class Gateway` keeps and sends (env/ecu-gateway/gateway.py). The dicts whose keys the
-- program fixes are records; `time.time()` and the request ids are numbers, as they are only
-- copied and compared. Values of JSON bodies have the types that the backend sends.
use Prim.Native.String.{String}
use vehicle_bench_candidate.Base.{ℕ, ◌≡◌, ◌⊎◌, inl, inr, refl, Bool, false, Option, none, List, []}
use vehicle_bench_candidate.Base.Int.{ℤ}
use vehicle_bench_candidate.Base.Dyadic.{Dyadic}
use vehicle_bench_candidate.Proto.{AckResult, ChargingState}

-- `tcu_cal.json`; the keys that are read by `cal.get` with a default may be missing.
pub record TcuCal : Type 0 where
  pub vin : String
  pub command_map : List (String × String)
  pub door_lock_ack_timeout_ms : ℕ
  pub hvac_ack_timeout_ms : ℕ
  pub charging_ack_timeout_ms : ℕ
  pub hvac_temp_scale : Option ℤ
  pub hvac_temp_quantize : Option String
  pub sync_after_command : Option Bool
  pub heartbeat_warn_latency_ms : ℕ

-- The status codes of a failed gRPC call.
pub data GrpcCode : Type 0 where
  cancelled unknown invalid_argument deadline_exceeded not_found already_exists : GrpcCode
  permission_denied resource_exhausted failed_precondition aborted out_of_range : GrpcCode
  unimplemented internal unavailable data_loss unauthenticated : GrpcCode

-- How a call that was awaited ended: the answer, or an `AioRpcError`.
pub data Outcome (A : Type 0) : Type 0 where
  reply : A → Outcome A
  rpc_error : GrpcCode → Outcome A

pub Outcome-cases :
    {A : Type 0} (o : Outcome A)
    → ((a : A) × (o ≡ reply a)) ⊎ ((code : GrpcCode) × (o ≡ rpc_error code))
Outcome-cases (reply a) = inl (a, refl)
Outcome-cases (rpc_error code) = inr (code, refl)

-- The reason texts: `OK`, `ECU_TIMEOUT`, `GRPC_<code>` and `ECU_<result>` of the gateway, and
-- `VEHICLE_UNREACHABLE` and `TCU_HTTP_<status>` of the backend.
pub data Reason : Type 0 where
  ok ecu_timeout : Reason
  grpc : GrpcCode → Reason
  ecu : AckResult → Reason
  vehicle_unreachable : Reason
  tcu_http : ℕ → Reason

pub data Verdict : Type 0 where
  completed failed : Verdict

pub record Params : Type 0 where
  pub target_temp_c : Option Dyadic
  pub target_soc_percent : Option ℤ

-- The JSON body of `/telematics/command`; no `request_id` stands for a missing or empty one.
pub record CommandBody : Type 0 where
  pub request_id : Option ℕ
  pub command : String
  pub params : Params

pub data RecordState : Type 0 where
  queued dropped : RecordState
  finished : Verdict → RecordState

-- A command on the queue and in the journal.
pub record CommandRecord : Type 0 where
  pub request_id : ℕ
  pub command : String
  pub params : Params
  pub received_at : ℕ
  pub state : RecordState
  pub reason : Option Reason
  pub elapsed_ms : Option ℕ

-- The vehicle properties; `None` is `none`. `ev_charge_power_kw` is in tenths.
pub record Vhal : Type 0 where
  pub door_lock : Option ℕ
  pub hvac_power_on : Option ℕ
  pub hvac_temperature_set : Option Dyadic
  pub hvac_temperature_current : Option Dyadic
  pub ev_charge_state : Option ChargingState
  pub ev_battery_level : Option ℕ
  pub ev_charge_target : Option ℤ
  pub ev_charge_power_kw : Option ℕ
  pub body_ecu_online : Bool
  pub body_ecu_uptime_ms : Option ℕ
  pub state_seq : Option ℕ
  pub last_sync_utc : Option ℕ

-- `vhal_file` is `props.json`, and `journal` the lines of the command journal, oldest first.
pub record Gateway : Type 0 where
  pub queue : List CommandRecord
  pub journal : List CommandRecord
  pub last_result : Option CommandRecord
  pub vhal : Vhal
  pub vhal_file : Vhal
  pub hb_seq : ℕ
  pub hb_missed : ℕ
  pub ecu_online : Bool
  pub commands_seen : ℕ

-- The body of `/internal/vehicle/state-report`.
pub record StateReport : Type 0 where
  pub vin : String
  pub reported_at : ℕ
  pub state_seq : ℕ
  pub doors_locked : Bool
  pub climate_active : Bool
  pub target_temp_c : Dyadic
  pub cabin_temp_c : Dyadic
  pub charging_state : ChargingState
  pub soc_percent : ℕ
  pub target_soc_percent : ℤ
  pub power_kw : ℕ
  pub ecu_online : Bool

-- The path and the body of `/internal/commands/{req}/result`.
pub record ResultReport : Type 0 where
  pub request_id : ℕ
  pub status : Verdict
  pub reason : Reason
  pub elapsed_ms : ℕ

abbrev pub empty_vhal : Vhal
empty_vhal = record {
  door_lock = none;
  hvac_power_on = none;
  hvac_temperature_set = none;
  hvac_temperature_current = none;
  ev_charge_state = none;
  ev_battery_level = none;
  ev_charge_target = none;
  ev_charge_power_kw = none;
  body_ecu_online = false;
  body_ecu_uptime_ms = none;
  state_seq = none;
  last_sync_utc = none;
}

-- `__init__`; the journal is a file that outlives the process.
unfoldable pub start : List CommandRecord → Gateway
start journal = record {
  queue = [];
  journal = journal;
  last_result = none;
  vhal = empty_vhal;
  vhal_file = empty_vhal;
  hb_seq = 0;
  hb_missed = 0;
  ecu_online = false;
  commands_seen = 0;
}
