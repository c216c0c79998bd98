-- ===== src/Gateway/Mirror.antt =====
-- The vehicle properties of the gateway, their file, and the supervision of the Body ECU
-- (env/ecu-gateway/gateway.py).
use vehicle_bench_candidate.Base.{
  ℕ, ◌≡◌, ◌⊎◌, inl, inr, refl, true, false, Bool-cases, Option, none, some, List, [], ◌∷◌, arith,
}
use mathlib.Core.Option
use vehicle_bench_candidate.Proto.{HeartbeatResponse}
use vehicle_bench_candidate.Gateway.Types.{
  TcuCal, Verdict, Reason, Outcome, Outcome-cases, reply, rpc_error, Gateway, CommandBody,
  CommandRecord, start as start_gateway,
}
use vehicle_bench_candidate.Gateway.Sync.{World, sync_once, heartbeat_round}
use vehicle_bench_candidate.Gateway.Worker.{
  handle_command, worker_round, handle_reset, conclude_round, process, take_round, dispatch_command,
  drop, missing_method, start, Dispatch,
}

-- `props.json` holds the properties as they are in memory, and they say that the Body ECU is
-- online whenever the gateway takes it to be.
pub record IsMirrored (g : Gateway) : Type 0 where
  pub file_is : g.vhal_file ≡ g.vhal
  pub online_is : (g.ecu_online ≡ false) ⊎ (g.vhal.body_ecu_online ≡ true)

start_gateway-IsMirrored : (journal : List CommandRecord) → IsMirrored (start_gateway journal)
unfolding start_gateway
start_gateway-IsMirrored journal = ground arith

handle_command-IsMirrored :
    (fresh now : ℕ) (body : CommandBody) (g : Gateway)
    → IsMirrored g
    → IsMirrored (handle_command fresh now body g).1
unfolding handle_command
handle_command-IsMirrored fresh now body g h = record {
  file_is = h.file_is;
  online_is = h.online_is;
}

heartbeat_round-IsMirrored :
    (cal : TcuCal) (outcome : Outcome HeartbeatResponse) (latency : ℕ) (g : Gateway)
    → IsMirrored g
    → IsMirrored (heartbeat_round cal outcome latency g).1
unfolding heartbeat_round
heartbeat_round-IsMirrored cal (reply response) latency g h = record {
  file_is = h.file_is;
  online_is = h.online_is;
}
heartbeat_round-IsMirrored cal (rpc_error code) latency g h = record {
  file_is = h.file_is;
  online_is = ground (arith, h.online_is);
}

-- What makes the gateway's state move.
pub data Move : Type 0 where
  receive : ℕ → ℕ → CommandBody → Move
  round poll reset : Move
  heartbeat : Outcome HeartbeatResponse → ℕ → Move

module _ {S : Type 0} (cal : TcuCal) (w : World S) where
  -- A poll establishes it.
  sync_once-IsMirrored : (g : Gateway) (s : S) → IsMirrored (sync_once cal w g s).0
  unfolding sync_once
  sync_once-IsMirrored g s = elim (Outcome-cases (w.get_body_state s).0) [
    | inl (state, e) ↦ rw (e, sync_once) (record { file_is = refl; online_is = inr refl })
    | inr (code, e) ↦ rw (e, sync_once) (record { file_is = refl; online_is = inl refl })
  ]

  conclude_round-IsMirrored :
      (r : CommandRecord) (result : Option (Verdict × Reason)) (g : Gateway) (s : S)
      → IsMirrored g
      → IsMirrored (conclude_round cal w r result g s).1
  conclude_round-IsMirrored r none g s h = h
  conclude_round-IsMirrored r (some (verdict, reason)) g s h =
      elim (Bool-cases (Option.get_or cal.sync_after_command true)) [
        | inl synced ↦ rw synced (sync_once-IsMirrored _ _)
        | inr skipped ↦ rw skipped (record { file_is = h.file_is; online_is = h.online_is })
      ]

  process-IsMirrored :
      (r : CommandRecord) (d : Dispatch) (g : Gateway) (s : S)
      → IsMirrored g
      → IsMirrored (process cal w r d g s).1
  process-IsMirrored r drop g s h = record { file_is = h.file_is; online_is = h.online_is }
  process-IsMirrored r missing_method g s h = h
  process-IsMirrored r (start task) g s h = conclude_round-IsMirrored r _ g _ h

  take_round-IsMirrored :
      (q : List CommandRecord) (g : Gateway) (s : S)
      → IsMirrored g
      → IsMirrored (take_round cal w q g s).1
  take_round-IsMirrored [] g s h = h
  take_round-IsMirrored (r ∷ rest) g s h =
      process-IsMirrored r (dispatch_command cal r) (record g { queue = rest }) s
        (record { file_is = h.file_is; online_is = h.online_is })

  worker_round-IsMirrored :
      (g : Gateway) (s : S) → IsMirrored g → IsMirrored (worker_round cal w g s).1
  unfolding worker_round
  worker_round-IsMirrored g s h = take_round-IsMirrored g.queue g s h

  handle_reset-IsMirrored :
      (g : Gateway) (s : S) → IsMirrored g → IsMirrored (handle_reset cal w g s).1
  unfolding handle_reset
  handle_reset-IsMirrored g s h = elim (Outcome-cases (w.reset_state s).0) [
    | inl (ack, e) ↦ rw (e, handle_reset) (sync_once-IsMirrored _ _)
    | inr (code, e) ↦ rw (e, handle_reset) h
  ]

  abbrev pub move : Move → Gateway × S → Gateway × S
  move (receive fresh now body) (g, s) = ((handle_command fresh now body g).1, s)
  move round (g, s) = let (_, g', s') = worker_round cal w g s in (g', s')
  move poll (g, s) = sync_once cal w g s
  move reset (g, s) = let (_, g', s') = handle_reset cal w g s in (g', s')
  move (heartbeat outcome latency) (g, s) = ((heartbeat_round cal outcome latency g).1, s)

  unfoldable pub moves : List Move → Gateway × S → Gateway × S
  moves [] x = x
  moves (m ∷ ms) x = moves ms (move m x)

  move-IsMirrored : (m : Move) (g : Gateway) (s : S) → IsMirrored g → IsMirrored (move m (g, s)).0
  move-IsMirrored (receive fresh now body) g s h = handle_command-IsMirrored fresh now body g h
  move-IsMirrored round g s h = worker_round-IsMirrored g s h
  move-IsMirrored poll g s h = sync_once-IsMirrored g s
  move-IsMirrored reset g s h = handle_reset-IsMirrored g s h
  move-IsMirrored (heartbeat outcome latency) g s h =
      heartbeat_round-IsMirrored cal outcome latency g h

  moves_from-IsMirrored :
      (ms : List Move) (x : Gateway × S) → IsMirrored x.0 → IsMirrored (moves ms x).0
  unfolding moves
  moves_from-IsMirrored [] x h = h
  moves_from-IsMirrored (m ∷ ms) x h =
      moves_from-IsMirrored ms (move m x) (move-IsMirrored m x.0 x.1 h)

-- From a start of the gateway on, whatever commands, worker rounds, polls, resets and heartbeats
-- follow, and whatever the world answers, `props.json` holds the properties as they are in memory,
-- and they say that the Body ECU is online whenever the gateway takes it to be.
pub gateway-IsMirrored :
    {S : Type 0} (cal : TcuCal) (w : World S) (journal : List CommandRecord) (ms : List Move)
    (s : S)
    → IsMirrored (moves cal w ms (start_gateway journal, s)).0
gateway-IsMirrored cal w journal ms s =
    moves_from-IsMirrored cal w ms _ (start_gateway-IsMirrored journal)
