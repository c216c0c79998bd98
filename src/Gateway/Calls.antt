-- ===== src/Gateway/Calls.antt =====
-- What a command handler asks of the Body ECU, and what it makes of the answer (`cmd_*` of
-- env/ecu-gateway/gateway.py).
use mathlib.Core.Option
use vehicle_bench_candidate.Base.{ℕ, ◌≡◌, ◌↔◌, refl, true, none, some, arith}
use vehicle_bench_candidate.Base.Int.{pos, is_int32}
use vehicle_bench_candidate.Base.Dyadic.{whole}
use vehicle_bench_candidate.Proto.{LockAction, ClimateAction, ChargingAction, AckResult, CommandAck}
use vehicle_bench_candidate.Gateway.Types.{TcuCal, Outcome, reply, completed, Params}
use vehicle_bench_candidate.Gateway.Task.{Message, Call, done, await, complete}
use vehicle_bench_candidate.Gateway.Commands.{
  Method, door_lock, door_unlock, hvac_start, hvac_stop, charge_start, charge_stop, run_method,
  encode_hvac_temp, settle, conclude,
}

abbrev pub message_id : Message → ℕ
message_id (Message.door r) = r.request_id
message_id (Message.climate r) = r.request_id
message_id (Message.charging r) = r.request_id

-- The number that a handler puts into an `int32` field fits there.
abbrev pub Fits : TcuCal → Params → Method → Type 0
Fits cal params hvac_start =
    is_int32 (encode_hvac_temp cal (Option.get_or params.target_temp_c (whole (pos 22)))) ≡ true
Fits cal params charge_start = is_int32 (Option.get_or params.target_soc_percent (pos 80)) ≡ true
Fits cal params _ = Unit

-- The message that each handler sends, and its deadline.
abbrev pub call_of : Method → TcuCal → ℕ → Params → Call
call_of door_lock cal req params = record {
  message = Message.door (record { request_id = req; action = LockAction.lock });
  timeout_ms = cal.door_lock_ack_timeout_ms;
}
call_of door_unlock cal req params = record {
  message = Message.door (record { request_id = req; action = LockAction.unlock });
  timeout_ms = cal.door_lock_ack_timeout_ms;
}
call_of hvac_start cal req params = record {
  message = Message.climate (record {
    request_id = req;
    action = ClimateAction.climate_start;
    target_temp_raw = encode_hvac_temp cal (Option.get_or params.target_temp_c (whole (pos 22)));
  });
  timeout_ms = cal.hvac_ack_timeout_ms;
}
call_of hvac_stop cal req params = record {
  message =
      Message.climate
        (record { request_id = req; action = ClimateAction.climate_stop; target_temp_raw = pos 0 });
  timeout_ms = cal.hvac_ack_timeout_ms;
}
call_of charge_start cal req params = record {
  message = Message.charging (record {
    request_id = req;
    action = ChargingAction.charging_start;
    target_soc_percent = Option.get_or params.target_soc_percent (pos 80);
  });
  timeout_ms = cal.charging_ack_timeout_ms;
}
call_of charge_stop cal req params = record {
  message = Message.charging (record {
    request_id = req;
    action = ChargingAction.charging_stop;
    target_soc_percent = pos 0;
  });
  timeout_ms = cal.charging_ack_timeout_ms;
}

run_method_lem :
    (m : Method) (cal : TcuCal) (req : ℕ) (params : Params)
    → Fits cal params m
    → run_method m cal req params
      ≡ await (call_of m cal req params) (λ o. done (conclude (settle o)))
unfolding run_method
run_method_lem door_lock cal req params fits = refl
run_method_lem door_unlock cal req params fits = refl
run_method_lem hvac_start cal req params fits = rw fits
run_method_lem hvac_stop cal req params fits = refl
run_method_lem charge_start cal req params fits = rw fits
run_method_lem charge_stop cal req params fits = refl

-- A completed verdict is an answer OK.
conclude-completed :
    (o : Outcome CommandAck)
    → ((conclude (settle o)).0 ≡ completed)
      ↔ ((ack : CommandAck) × (o ≡ reply ack) × (ack.result ≡ AckResult.ok))
conclude-completed o = ground arith

-- Each handler, run against any server, makes exactly one call, which carries the id of the
-- command, the method's message and its calibrated deadline, and ends with a verdict: COMPLETED
-- if and only if the server acknowledged with OK. The number that the handler sends, if any, must
-- fit an `int32`.
pub run_method-one_call :
    {S : Type 0} (server : Call → S → Outcome CommandAck × S) (m : Method) (cal : TcuCal) (req : ℕ)
    (params : Params) (s : S)
    → Fits cal params m
    → let c = call_of m cal req params in
      let (o, s') = server c s in
      (message_id c.message ≡ req)
      × (complete server (run_method m cal req params) s ≡ (some (conclude (settle o)), s'))
      × (((conclude (settle o)).0 ≡ completed)
          ↔ ((ack : CommandAck) × (o ≡ reply ack) × (ack.result ≡ AckResult.ok)))
unfolding complete
run_method-one_call server m cal req params s fits =
    (carries m, rw (run_method_lem m cal req params fits), conclude-completed _)
  where
    carries : (m : Method) → message_id (call_of m cal req params).message ≡ req
    carries door_lock = refl
    carries _ = refl

-- A handler whose number does not fit an `int32` raises before any call.
pub run_method-raises :
    {S : Type 0} (server : Call → S → Outcome CommandAck × S) (m : Method) (cal : TcuCal) (req : ℕ)
    (params : Params) (s : S)
    → ¬ (Fits cal params m)
    → complete server (run_method m cal req params) s ≡ (none, s)
unfolding complete run_method
run_method-raises server hvac_start cal req params s wide = ground arith
run_method-raises server charge_start cal req params s wide = ground arith
run_method-raises server _ cal req params s wide = absurd (wide tt)
