-- ===== src/Backend/Commands.antt =====
-- The life of a remote command in the backend (env/backend/app/main.py): the command endpoints,
-- `dispatch` before and after its request to the gateway, and the gateway's result.
use Prim.Native.String.{String}
use text.Mathlib.Text.{◌==◌ as str_eq}
use mathlib.Core.Option
use vehicle_bench_candidate.Base.{
  ℕ, Bool, false, ◌&&◌, ◌||◌, Option, none, some, ◌==◌, if◌then◌else◌,
}
use vehicle_bench_candidate.Base.Int.{ℤ, pos, leb_ℤ}
use vehicle_bench_candidate.Base.Dict.{lookup, insert}
use vehicle_bench_candidate.Base.Dyadic.{Dyadic, whole, at_least, at_most}
use vehicle_bench_candidate.Gateway.Types.{
  Reason, Verdict, Params, CommandBody, StateReport, ResultReport,
}
use vehicle_bench_candidate.Gateway.Worker.{QueuedAnswer}
use vehicle_bench_candidate.Backend.Store.{
  CommandType, command_text, CommandStatus, CommandRecord, Store, empty_store, Response, ok,
  no_content, unauthorized, not_found, unprocessable, bad_gateway, unavailable, update_record,
}

-- The environment variables `VEHICLE_API_KEY` and `API_COMPAT_LEGACY_CLIMATE_SCHEMA`.
pub record Config : Type 0 where
  pub api_key : String
  pub legacy_climate_schema : Bool

-- `x_api_key != API_KEY` is false.
abbrev pub key_matches : Config → Option String → Bool
key_matches cfg none = false
key_matches cfg (some key) = str_eq key cfg.api_key

-- `require_api_key`, before a handler.
abbrev pub with_key {ℓ} :
    {A : Type ℓ} → Config → Option String → Store → Response A × Store → Response A × Store
with_key cfg presented store handled =
    if key_matches cfg presented then handled else (unauthorized, store)

-- How the request to the gateway ended: an answer with its status, or an `httpx.HTTPError`.
pub data TcuAnswer : Type 0 where
  answered : ℕ → QueuedAnswer → TcuAnswer
  http_error : TcuAnswer

abbrev pub no_params : Params
no_params = record { target_temp_c = none; target_soc_percent = none }

abbrev pub accepted_record : ℕ → CommandType → Params → ℕ → CommandRecord
accepted_record id command params now = record {
  request_id = id;
  command = command;
  params = params;
  status = CommandStatus.accepted;
  reason = none;
  submitted_at = now;
  completed_at = none;
  elapsed_ms = none;
  tcu_ack = none;
}

-- `dispatch` up to the request: the new record, and what is sent.
unfoldable pub dispatch_begin : ℕ → ℕ → CommandType → Params → Store → Response CommandBody × Store
dispatch_begin id now command params store = (
  ok (record { request_id = some id; command = command_text command; params = params }),
  record store { commands = insert id (accepted_record id command params now) store.commands },
)

abbrev pub failed_with : Reason → ℕ → CommandRecord → CommandRecord
failed_with reason now r = record r {
  status = CommandStatus.failed;
  reason = some reason;
  completed_at = some now;
}

-- `dispatch` from the end of the request on; the answer with 200 is the id of the command.
unfoldable pub dispatch_end : ℕ → ℕ → TcuAnswer → Store → Response ℕ × Store
dispatch_end id now http_error store = (
  unavailable id,
  record store {
    commands = update_record id (failed_with Reason.vehicle_unreachable now) store.commands;
  },
)
dispatch_end id now (answered status body) store =
    if status == 200
    then (
      ok id,
      record store {
        commands = update_record id (λ r. record r { tcu_ack = some body }) store.commands;
      },
    )
    else (
      bad_gateway id,
      record store {
        commands = update_record id (failed_with (Reason.tcu_http status) now) store.commands;
      },
    )

-- The bodies of the command endpoints, up to the request to the gateway; a body that is left out
-- has the declared default.
unfoldable pub vehicle_lock : ℕ → ℕ → Store → Response CommandBody × Store
vehicle_lock id now store = dispatch_begin id now CommandType.lock no_params store

unfoldable pub vehicle_unlock : ℕ → ℕ → Store → Response CommandBody × Store
vehicle_unlock id now store = dispatch_begin id now CommandType.unlock no_params store

-- Both schemas of `/climate/start`: only the current one has bounds.
unfoldable pub climate_start_endpoint :
    Config → ℕ → ℕ → Option Dyadic → Store → Response CommandBody × Store
climate_start_endpoint cfg id now body store =
    let target = Option.get_or body (whole (pos 22)) in
    if cfg.legacy_climate_schema || at_least target 16 && at_most target 28
    then dispatch_begin id now CommandType.climate_start
        (record no_params { target_temp_c = some target })
        (record store { desired_climate_target = some target })
    else (unprocessable, store)

unfoldable pub climate_stop_endpoint : ℕ → ℕ → Store → Response CommandBody × Store
climate_stop_endpoint id now store =
    dispatch_begin id now CommandType.climate_stop no_params
      (record store { desired_climate_target = none })

unfoldable pub charging_start_endpoint : ℕ → ℕ → Option ℤ → Store → Response CommandBody × Store
charging_start_endpoint id now body store =
    let target = Option.get_or body (pos 80) in
    if leb_ℤ (pos 50) target && leb_ℤ target (pos 100)
    then dispatch_begin id now CommandType.charging_start
        (record no_params { target_soc_percent = some target }) store
    else (unprocessable, store)

unfoldable pub charging_stop_endpoint : ℕ → ℕ → Store → Response CommandBody × Store
charging_stop_endpoint id now store =
    dispatch_begin id now CommandType.charging_stop no_params store

-- A request to one of the command endpoints.
pub data Request : Type 0 where
  lock unlock climate_stop charging_stop : Request
  climate_start : Option Dyadic → Request
  charging_start : Option ℤ → Request

-- The route of a request.
unfoldable pub route : Config → ℕ → ℕ → Request → Store → Response CommandBody × Store
unfolding vehicle_lock vehicle_unlock climate_start_endpoint climate_stop_endpoint
    charging_start_endpoint charging_stop_endpoint
route cfg id now Request.lock store = vehicle_lock id now store
route cfg id now Request.unlock store = vehicle_unlock id now store
route cfg id now (Request.climate_start body) store = climate_start_endpoint cfg id now body store
route cfg id now Request.climate_stop store = climate_stop_endpoint id now store
route cfg id now (Request.charging_start body) store = charging_start_endpoint id now body store
route cfg id now Request.charging_stop store = charging_stop_endpoint id now store

-- The same behind `require_api_key`.
unfoldable pub serve :
    Config → Option String → ℕ → ℕ → Request → Store → Response CommandBody × Store
serve cfg key id now request store = with_key cfg key store (route cfg id now request store)

abbrev pub status_of : Verdict → CommandStatus
status_of Verdict.completed = CommandStatus.completed
status_of Verdict.failed = CommandStatus.failed

abbrev pub with_result : ResultReport → ℕ → CommandRecord → CommandRecord
with_result result now r = record r {
  status = status_of result.status;
  reason = some result.reason;
  elapsed_ms = some result.elapsed_ms;
  completed_at = some now;
}

-- `/internal/commands/{request_id}/result`
unfoldable pub command_result : ℕ → ResultReport → Store → Response (Unit {0}) × Store
command_result now result store = elim (lookup result.request_id store.commands) [
  | none ↦ (not_found, store)
  | some r ↦ (
    no_content,
    record store {
      commands = update_record result.request_id (with_result result now) store.commands;
    },
  )
]

-- `GET /vehicle/commands/{request_id}`, behind the key.
unfoldable pub get_command : Config → Option String → ℕ → Store → Response CommandRecord × Store
get_command cfg key id store =
    with_key cfg key store
      (elim (lookup id store.commands) [ none ↦ not_found | some r ↦ ok r ], store)

-- `/internal/vehicle/state-report`, received at `now`.
unfoldable pub state_report : ℕ → StateReport → Store → Response (Unit {0}) × Store
state_report now report store = (no_content, record store { report = some (report, now) })

abbrev reset_answer : TcuAnswer → Response (Unit {0})
reset_answer http_error = unavailable 0
reset_answer (answered status body) = ok tt

-- `/bench/reset`, behind the key, given how its request to the gateway ended: the store is reset
-- first, and the status of an answer is not looked at.
unfoldable pub bench_reset :
    Config → Option String → TcuAnswer → Store → Response (Unit {0}) × Store
bench_reset cfg key answer store = with_key cfg key store (reset_answer answer, empty_store)
