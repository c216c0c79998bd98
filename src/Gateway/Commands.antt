-- ===== src/Gateway/Commands.antt =====
-- The command handlers of the gateway (`_grpc`, `_door` and `cmd_*` of
-- env/ecu-gateway/gateway.py), and the encoding of the set point.
use Prim.Native.String.{String}
use text.Mathlib.Text.{◌==◌}
use mathlib.Core.Option
use vehicle_bench_candidate.Base.{
  ℕ, ◌⊎◌, inl, inr, Option, none, some, List, [], ◌∷◌, if◌then◌else◌,
}
use vehicle_bench_candidate.Base.Int.{ℤ, pos, ◌*ℤ◌, is_int32}
use vehicle_bench_candidate.Base.Dyadic.{Dyadic, whole, scaled, trunc, round}
use vehicle_bench_candidate.Proto.{AckResult, LockAction, ClimateAction, ChargingAction, CommandAck}
use vehicle_bench_candidate.Gateway.Types.{
  TcuCal, GrpcCode, Outcome, reply, rpc_error, Reason, Verdict, completed, failed, Params,
}
use vehicle_bench_candidate.Gateway.Task.{Message, Task, done, raised, await, ◌>>=◌}

-- `Gateway.encode_hvac_temp`
unfoldable pub encode_hvac_temp : TcuCal → Dyadic → ℤ
unfolding trunc round
encode_hvac_temp cal temp_c =
    let scale = Option.get_or cal.hvac_temp_scale (pos 2) in
    let mode = Option.get_or cal.hvac_temp_quantize "floor_integer" in
    if mode == "round_half" then round (scaled temp_c scale) else trunc temp_c *ℤ scale

abbrev error_reason : GrpcCode → Reason
error_reason GrpcCode.deadline_exceeded = Reason.ecu_timeout
error_reason code = Reason.grpc code

-- The pair that `_grpc` returns: an acknowledgement or the text of an error.
abbrev pub settle : Outcome CommandAck → CommandAck ⊎ Reason
settle (reply ack) = inl ack
settle (rpc_error code) = inr (error_reason code)

unfoldable pub grpc : Message → ℕ → Task (CommandAck ⊎ Reason)
grpc message timeout_ms =
    await (record { message = message; timeout_ms = timeout_ms }) (λ o. done (settle o))

-- `("COMPLETED", "OK") if ack.result == pb.OK else ("FAILED", f"ECU_{...}")`
abbrev judge : AckResult → Verdict × Reason
judge AckResult.ok = (completed, Reason.ok)
judge result = (failed, Reason.ecu result)

abbrev pub conclude : CommandAck ⊎ Reason → Verdict × Reason
conclude (inl ack) = judge ack.result
conclude (inr err) = (failed, err)

-- `_door`
unfoldable pub door_command : TcuCal → ℕ → LockAction → Task (Verdict × Reason)
unfolding grpc
door_command cal req action = do
  answer ←
      grpc (Message.door (record { request_id = req; action = action }))
        cal.door_lock_ack_timeout_ms
  done (conclude answer)

unfoldable pub cmd_door_lock : TcuCal → ℕ → Params → Task (Verdict × Reason)
unfolding door_command
cmd_door_lock cal req params = door_command cal req LockAction.lock

unfoldable pub cmd_door_unlock : TcuCal → ℕ → Params → Task (Verdict × Reason)
unfolding door_command
cmd_door_unlock cal req params = door_command cal req LockAction.unlock

-- The message is built inside `_grpc`, where only an `AioRpcError` is caught: a raw temperature
-- outside `int32` raises `ValueError`.
unfoldable pub cmd_hvac_start : TcuCal → ℕ → Params → Task (Verdict × Reason)
unfolding grpc encode_hvac_temp
cmd_hvac_start cal req params =
    let raw = encode_hvac_temp cal (Option.get_or params.target_temp_c (whole (pos 22))) in
    if is_int32 raw
    then (do
      answer ←
          grpc
            (Message.climate (record {
              request_id = req;
              action = ClimateAction.climate_start;
              target_temp_raw = raw;
            }))
            cal.hvac_ack_timeout_ms
      done (conclude answer))
    else raised

-- A field that is not set is 0.
unfoldable pub cmd_hvac_stop : TcuCal → ℕ → Params → Task (Verdict × Reason)
unfolding grpc
cmd_hvac_stop cal req params = do
  answer ←
      grpc
        (Message.climate (record {
          request_id = req;
          action = ClimateAction.climate_stop;
          target_temp_raw = pos 0;
        }))
        cal.hvac_ack_timeout_ms
  done (conclude answer)

unfoldable pub cmd_charge_start : TcuCal → ℕ → Params → Task (Verdict × Reason)
unfolding grpc
cmd_charge_start cal req params =
    let target = Option.get_or params.target_soc_percent (pos 80) in
    if is_int32 target
    then (do
      answer ←
          grpc
            (Message.charging (record {
              request_id = req;
              action = ChargingAction.charging_start;
              target_soc_percent = target;
            }))
            cal.charging_ack_timeout_ms
      done (conclude answer))
    else raised

unfoldable pub cmd_charge_stop : TcuCal → ℕ → Params → Task (Verdict × Reason)
unfolding grpc
cmd_charge_stop cal req params = do
  answer ←
      grpc
        (Message.charging (record {
          request_id = req;
          action = ChargingAction.charging_stop;
          target_soc_percent = pos 0;
        }))
        cal.charging_ack_timeout_ms
  done (conclude answer)

-- The methods `cmd_*`.
pub data Method : Type 0 where
  door_lock door_unlock hvac_start hvac_stop charge_start charge_stop : Method

unfoldable pub run_method : Method → TcuCal → ℕ → Params → Task (Verdict × Reason)
unfolding cmd_door_lock cmd_door_unlock cmd_hvac_start cmd_hvac_stop cmd_charge_start
    cmd_charge_stop
run_method door_lock = cmd_door_lock
run_method door_unlock = cmd_door_unlock
run_method hvac_start = cmd_hvac_start
run_method hvac_stop = cmd_hvac_stop
run_method charge_start = cmd_charge_start
run_method charge_stop = cmd_charge_stop

-- `getattr(self, f"cmd_{name}")`; with no such method it raises `AttributeError`.
unfoldable pub method_named : String → Option Method
method_named name =
    if name == "door_lock"
    then some door_lock
    else if name == "door_unlock"
    then some door_unlock
    else if name == "hvac_start"
    then some hvac_start
    else if name == "hvac_stop"
    then some hvac_stop
    else if name == "charge_start"
    then some charge_start
    else if name == "charge_stop"
    then some charge_stop
    else none

-- `command_map.get(command)`
unfoldable pub map_command : String → List (String × String) → Option String
map_command command [] = none
map_command command (e ∷ rest) = if e.0 == command then some e.1 else map_command command rest
