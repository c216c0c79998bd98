-- ===== src/Gateway/Supervision.antt =====
-- The supervision of the Body ECU (`heartbeat_loop` of env/ecu-gateway/gateway.py).
use vehicle_bench_candidate.Base.{
  ℕ, ◌+◌, ◌≤◌, ◌<◌, ◌≡◌, ◌↔◌, false, List, [], ◌∷◌, All, length, leb, if◌then◌else◌, arith,
}
use vehicle_bench_candidate.Proto.{HeartbeatResponse}
use vehicle_bench_candidate.Gateway.Types.{TcuCal, GrpcCode, Outcome, reply, rpc_error, Gateway}
use vehicle_bench_candidate.Gateway.Sync.{latency_warning, heartbeat_round, supervise}

-- A heartbeat call that failed.
abbrev pub IsMiss : Outcome HeartbeatResponse × ℕ → Type 0
IsMiss (outcome, latency) = (code : GrpcCode) × (outcome ≡ rpc_error code)

misses :
    (cal : TcuCal) (xs : List (Outcome HeartbeatResponse × ℕ)) (g : Gateway)
    → All IsMiss xs
    → (3 ≤ g.hb_missed → g.ecu_online ≡ false)
    → let g' = supervise cal xs g in
      (g'.hb_missed ≡ g.hb_missed + length xs)
      × (g'.ecu_online ≡ (if leb 3 (g.hb_missed + length xs) then false else g.ecu_online))
      × (g'.vhal ≡ g.vhal)
unfolding supervise heartbeat_round
misses cal [] g h off = ground arith
misses cal ((reply r, latency) ∷ xs) g h off = absurd (cc h.0.1)
misses cal ((rpc_error code, latency) ∷ xs) g h off =
    ground (arith, misses cal xs (heartbeat_round cal (rpc_error code) latency g).1 h.1)

-- After any number of failed heartbeats in a row, counted from a reset counter, the gateway takes
-- the Body ECU to be offline if they are three or more, and otherwise holds what it held before;
-- the counter is their number, and the vehicle properties are not touched, `BODY_ECU_ONLINE`
-- among them.
pub three_misses :
    (cal : TcuCal) (xs : List (Outcome HeartbeatResponse × ℕ)) (g : Gateway)
    → All IsMiss xs
    → g.hb_missed ≡ 0
    → let g' = supervise cal xs g in
      (g'.ecu_online ≡ (if leb 3 (length xs) then false else g.ecu_online))
      × (g'.hb_missed ≡ length xs)
      × (g'.vhal ≡ g.vhal)
three_misses cal xs g h fresh = ground (arith, misses cal xs g h)

-- An answered heartbeat resets the counter and leaves `ecu_online` as it was, so a lost Body ECU
-- comes back only by a poll; it is logged as a warning if and only if its latency is above the
-- calibrated threshold.
pub heartbeat_answered :
    (cal : TcuCal) (response : HeartbeatResponse) (latency : ℕ) (g : Gateway)
    → let (log, g') = heartbeat_round cal (reply response) latency g in
      (g'.hb_missed ≡ 0)
      × (g'.ecu_online ≡ g.ecu_online)
      × (g'.hb_seq ≡ g.hb_seq + 1)
      × ((log ≡ latency_warning) ↔ (cal.heartbeat_warn_latency_ms < latency))
unfolding heartbeat_round
heartbeat_answered cal response latency g = ground arith
