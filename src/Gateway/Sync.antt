-- ===== src/Gateway/Sync.antt =====
-- The polling of the Body ECU, its supervision, and what the gateway tells the cloud
-- (`sync_once`, `heartbeat_loop` and `report_result` of env/ecu-gateway/gateway.py).
use vehicle_bench_candidate.Base.{
  ℕ, ◌+◌, Bool, true, false, some, List, [], ◌∷◌, leb, ltb, if◌then◌else◌,
}
use vehicle_bench_candidate.Base.Dyadic.{halved}
use vehicle_bench_candidate.Proto.{CommandAck, BodyState, HeartbeatResponse}
use vehicle_bench_candidate.Gateway.Types.{
  TcuCal, Outcome, reply, rpc_error, Gateway, Vhal, StateReport, ResultReport,
}
use vehicle_bench_candidate.Gateway.Task.{Call}

-- What the gateway meets, with a state of its own: the Body ECU behind gRPC, the backend's two
-- internal endpoints (an error of a post is caught and logged), and the clocks.
pub record World (S : Type 0) : Type 0 where
  pub rpc : Call → S → Outcome CommandAck × S
  pub get_body_state : S → Outcome BodyState × S
  pub reset_state : S → Outcome CommandAck × S
  pub post_result : ResultReport → S → S
  pub post_state : StateReport → S → S
  pub elapsed_ms : S → ℕ
  pub utc_now : S → ℕ

abbrev flag : Bool → ℕ
flag true = 1
flag false = 0

-- `persist_vhal`
abbrev persist_vhal : Gateway → Gateway
persist_vhal g = record g { vhal_file = g.vhal }

-- `sync_once` when `GetBodyState` fails.
unfoldable pub sync_failed : Gateway → Gateway
sync_failed g =
    persist_vhal
      (record g { ecu_online = false; vhal = record (g.vhal) { body_ecu_online = false } })

-- The update of the properties in `sync_once`.
unfoldable pub mirror : ℕ → BodyState → Vhal → Vhal
mirror now state vhal = record {
  door_lock = some (flag state.doors_locked);
  hvac_power_on = some (flag state.climate_active);
  hvac_temperature_set = some (halved state.target_temp_raw);
  hvac_temperature_current = some (halved state.cabin_temp_raw);
  ev_charge_state = some state.charging_state;
  ev_battery_level = some state.soc_percent;
  ev_charge_target = some state.target_soc_percent;
  ev_charge_power_kw = some state.power_kw_x10;
  body_ecu_online = true;
  body_ecu_uptime_ms = some state.ecu_uptime_ms;
  state_seq = some state.state_seq;
  last_sync_utc = some now;
}

-- The report of `sync_once`, made of the answer.
unfoldable pub state_report : TcuCal → ℕ → BodyState → StateReport
state_report cal now state = record {
  vin = cal.vin;
  reported_at = now;
  state_seq = state.state_seq;
  doors_locked = state.doors_locked;
  climate_active = state.climate_active;
  target_temp_c = halved state.target_temp_raw;
  cabin_temp_c = halved state.cabin_temp_raw;
  charging_state = state.charging_state;
  soc_percent = state.soc_percent;
  target_soc_percent = state.target_soc_percent;
  power_kw = state.power_kw_x10;
  ecu_online = true;
}

unfoldable pub sync_answered : ℕ → BodyState → Gateway → Gateway
unfolding mirror
sync_answered now state g =
    persist_vhal (record g { vhal = mirror now state g.vhal; ecu_online = true })

module _ {S : Type 0} (cal : TcuCal) (w : World S) where
  unfoldable pub sync_once : Gateway → S → Gateway × S
  unfolding sync_failed sync_answered state_report
  sync_once g s =
      let (answer, s') = w.get_body_state s in
      elim answer [
        | rpc_error code ↦ (sync_failed g, s')
        | reply state ↦
            let now = w.utc_now s' in
            (sync_answered now state g, w.post_state (state_report cal now state) s')
      ]

-- What a round of the supervision logs.
pub data HeartbeatLog : Type 0 where
  latency_warning heartbeat_ok heartbeat_failed : HeartbeatLog

-- A round of `heartbeat_loop`, after the sequence number has gone up.
abbrev heartbeat_outcome : TcuCal → Outcome HeartbeatResponse → ℕ → Gateway → HeartbeatLog × Gateway
heartbeat_outcome cal (reply response) latency g = (
  if ltb cal.heartbeat_warn_latency_ms latency then latency_warning else heartbeat_ok,
  record g { hb_missed = 0 },
)
heartbeat_outcome cal (rpc_error code) latency g =
    let missed = g.hb_missed + 1 in
    (
      heartbeat_failed,
      record g { hb_missed = missed; ecu_online = if leb 3 missed then false else g.ecu_online },
    )

unfoldable pub heartbeat_round :
    TcuCal → Outcome HeartbeatResponse → ℕ → Gateway → HeartbeatLog × Gateway
heartbeat_round cal outcome latency g =
    heartbeat_outcome cal outcome latency (record g { hb_seq = g.hb_seq + 1 })

-- Rounds of `heartbeat_loop`: how each call ended, and its latency.
unfoldable pub supervise : TcuCal → List (Outcome HeartbeatResponse × ℕ) → Gateway → Gateway
supervise cal [] g = g
supervise cal ((outcome, latency) ∷ rest) g =
    supervise cal rest (heartbeat_round cal outcome latency g).1
