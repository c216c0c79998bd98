-- ===== src/Tests/Gateway.antt =====
-- The theorems on the gateway (env/ecu-gateway/gateway.py), at concrete inputs.
use Prim.Native.String.{String}
use text.Mathlib.TextEquality.{eq_iff}
use vehicle_bench_candidate.Base.{
  ◌*◌, ◌^◌, ◌≤◌, ◌<◌, ◌+◌, ℕ, ◌+◌, ◌≡◌, inl, inr, refl, true, false, none, some, arith, ◌↔◌, List,
  [], ◌∷◌, ◌++◌, map, length,
}
use vehicle_bench_candidate.Base.Int.{pos}
use vehicle_bench_candidate.Base.Dyadic.{halved}
use vehicle_bench_candidate.Gateway.Types.{
  Outcome, reply, Reason, completed, Params, CommandRecord, queued, Gateway, CommandBody,
  start as start_gateway, empty_vhal,
}
use vehicle_bench_candidate.Gateway.Commands.{
  encode_hvac_temp, door_lock, hvac_start, run_method, settle, conclude, method_named, map_command,
}
use vehicle_bench_candidate.Proto.{AckResult, CommandAck, BodyState, Detail, ChargingState}
use vehicle_bench_candidate.Gateway.Task.{Call, complete}
use vehicle_bench_candidate.Gateway.Calls.{call_of, run_method-one_call, message_id}
use vehicle_bench_candidate.Gateway.Sync.{World}
use vehicle_bench_candidate.Gateway.Worker.{waits, continues, worker_round, rounds}
use vehicle_bench_candidate.Gateway.Encoding.{Floors, encode_floor_bounds}
use vehicle_bench_candidate.Gateway.Queue.{worker_drains}
use vehicle_bench_candidate.Gateway.Mirror.{IsMirrored, Move, moves, gateway-IsMirrored}
use vehicle_bench_candidate.Gateway.Fifo.{Trace}
use vehicle_bench_candidate.Gateway.Refinement.{view, finals, gateway_refines_fifo}
use vehicle_bench_candidate.Gateway.Flight.{
  Turn, turns, arrivals, in_hand, from_start, commands_in_order,
}
use vehicle_bench_candidate.Tests.{tcu_cal}

tcu_cal-Floors : Floors tcu_cal
tcu_cal-Floors = ground (arith, eq_iff "floor_integer" "round_half")

-- A Body ECU that answers OK to every call, and counts the calls.
abbrev ok_ack : CommandAck
ok_ack = record {
  request_id = 7;
  result = AckResult.ok;
  detail = Detail.actuated;
  ecu_timestamp_ms = 5;
}

abbrev ok_server : Call → ℕ → Outcome CommandAck × ℕ
ok_server c n = (reply ok_ack, n + 1)

abbrev ok_state : BodyState
ok_state = record {
  doors_locked = true;
  climate_active = false;
  target_temp_raw = pos 44;
  cabin_temp_raw = pos 38;
  charging_state = ChargingState.idle;
  soc_percent = 42;
  target_soc_percent = pos 80;
  power_kw_x10 = 0;
  ecu_uptime_ms = 9000;
  state_seq = 1;
}

abbrev ok_world : World ℕ
ok_world = record {
  rpc = ok_server;
  get_body_state = λ n. (reply ok_state, n);
  reset_state = λ n. (reply ok_ack, n);
  post_result = λ r n. n;
  post_state = λ r n. n;
  elapsed_ms = λ n. 40;
  utc_now = λ n. 9000;
}

abbrev half_degree_params : Params
half_degree_params = record { target_temp_c = some (halved (pos 43)); target_soc_percent = none }

abbrev no_params : Params
no_params = record { target_temp_c = none; target_soc_percent = none }

abbrev queued_command : ℕ → String → CommandRecord
queued_command id command = record {
  request_id = id;
  command = command;
  params = no_params;
  received_at = 1000;
  state = queued;
  reason = none;
  elapsed_ms = none;
}

-- A lock command, and one that the calibration does not map.
abbrev two_commands : Gateway
two_commands = record {
  queue = queued_command 1 "LOCK" ∷ queued_command 2 "CHARGING_STOP" ∷ [];
  journal = [];
  last_result = none;
  vhal = empty_vhal;
  vhal_file = empty_vhal;
  hb_seq = 4;
  hb_missed = 0;
  ecu_online = true;
  commands_seen = 2;
}

abbrev lock_body : CommandBody
lock_body = record { request_id = some 1; command = "LOCK"; params = no_params }

abbrev some_moves : List Move
some_moves = Move.receive 7 1000 lock_body ∷ Move.round ∷ Move.poll ∷ []

encode_floor_bounds_example :
    (degrees : ℕ) × (encode_hvac_temp tcu_cal (record { num = pos 45; shift = 1 })
      ≡ pos (degrees * 2))
    × (degrees * 2 ^ 1 ≤ 45)
    × (45 < degrees * 2 ^ 1 + 2 ^ 1)
encode_floor_bounds_example = encode_floor_bounds tcu_cal 45 1 refl tcu_cal-Floors

run_method-one_call_example :
    let c = call_of hvac_start tcu_cal 7 half_degree_params in
    let (o, s') = ok_server c 0 in
    (message_id c.message ≡ 7)
    × (complete ok_server (run_method hvac_start tcu_cal 7 half_degree_params) 0
        ≡ (some (conclude (settle o)), s'))
    × (((conclude (settle o)).0 ≡ completed)
        ↔ ((ack : CommandAck) × (o ≡ reply ack) × (ack.result ≡ AckResult.ok)))
unfolding encode_hvac_temp
run_method-one_call_example =
    run_method-one_call ok_server hvac_start tcu_cal 7 half_degree_params 0 refl

worker_drains_example :
    let (end, g', s') = rounds tcu_cal ok_world (length two_commands.queue) two_commands 0 in
    (end ≡ continues)
    × (g'.queue ≡ [])
    × (map (λ x. x.request_id) g'.journal
        ≡ map (λ x. x.request_id) two_commands.journal
          ++ map (λ x. x.request_id) two_commands.queue)
    × ((worker_round tcu_cal ok_world g' s').0 ≡ waits)
unfolding map_command method_named
worker_drains_example =
    worker_drains tcu_cal ok_world two_commands 0
      (inr (door_lock, ("door_lock", refl, refl, tt)), (inl refl, tt))

gateway-IsMirrored_example : IsMirrored (moves tcu_cal ok_world some_moves (start_gateway [], 0)).0
gateway-IsMirrored_example = gateway-IsMirrored tcu_cal ok_world [] some_moves 0

gateway_refines_fifo_example :
    Trace some_moves
      (view (start_gateway []))
      (view (moves tcu_cal ok_world some_moves (start_gateway [], 0)).0)
unfolding map_command method_named
gateway_refines_fifo_example =
    gateway_refines_fifo tcu_cal ok_world [] some_moves 0
      (inr (door_lock, ("door_lock", refl, refl, tt)), (tt, (tt, tt)))

-- A second command arrives while the first is on its way to the Body ECU.
abbrev some_turns : List Turn
some_turns =
    Turn.arrive 7 1000 lock_body
    ∷ Turn.take
    ∷ Turn.arrive 8 1010 (record { request_id = none; command = "LOCK"; params = no_params })
    ∷ Turn.polled (reply ok_state) 1020
    ∷ Turn.handled (some (completed, Reason.ok)) 300
    ∷ Turn.take
    ∷ []

commands_in_order_example :
    let f = turns tcu_cal some_turns from_start in
    finals f.gateway.journal ++ (in_hand f.held ++ map (λ r. r.request_id) f.gateway.queue)
    ≡ arrivals tcu_cal some_turns from_start
commands_in_order_example =
    commands_in_order tcu_cal some_turns (tt, (tt, (tt, (tt, (tt, (tt, tt))))))
