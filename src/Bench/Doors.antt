-- ===== src/Bench/Doors.antt =====
-- Locking and unlocking from the queue of the gateway to the doors and back to the cloud.
use mathlib.Core.Option
use vehicle_bench_candidate.Base.{
  ◌≡◌, ◌≤◌, ◌<◌, refl, ap, Bool, true, false, some, List, [], ◌∷◌, ◌++◌, arith, ltb, if◌then◌else◌,
}
use vehicle_bench_candidate.Base.Dict.{lookup}
use vehicle_bench_candidate.Proto.{LockAction, DoorLockRequest}
use vehicle_bench_candidate.Body.{BodyCal, get_body_state, actuate_door_lock}
use vehicle_bench_candidate.Gateway.Types.{
  TcuCal, reply, rpc_error, GrpcCode, CommandRecord, Reason, Verdict, ResultReport,
}
use vehicle_bench_candidate.Gateway.Commands.{Method, door_lock, door_unlock}
use vehicle_bench_candidate.Gateway.Calls.{call_of}
use vehicle_bench_candidate.Gateway.Sync.{state_report, sync_answered}
use vehicle_bench_candidate.Gateway.Queue.{RunsBy}
use vehicle_bench_candidate.Backend.Store.{CommandRecord as BackendRecord, completed, failed}
use vehicle_bench_candidate.Backend.Commands.{
  state_report as backend_state_report, Config, command_result, status_of,
}
use vehicle_bench_candidate.Backend.Lifecycle.{reported_at, status_at}
use vehicle_bench_candidate.Bench.{
  Event, Conditions, Outside, Bench, IsOnline, body_rpc, told_result-arrives, told_state-arrives,
  step,
}
use vehicle_bench_candidate.Bench.Rounds.{Syncs, round-eq, sync_once-reachable}

-- The two door commands, by the doors that they ask for.
abbrev pub method : Bool → Method
method true = door_lock
method false = door_unlock

abbrev pub action : Bool → LockAction
action true = LockAction.lock
action false = LockAction.unlock

abbrev pub door_request : Bool → CommandRecord → DoorLockRequest
door_request lock r = record { request_id = r.request_id; action = action lock }

-- What is common to the theorems on a door command: it is at the head of the queue of a running
-- gateway that polls after each command, its map entry is a door method, the Body ECU is
-- reachable, the gateway's posts arrive, and the backend has the command.
pub record IsQueued (cal : TcuCal) (c : Conditions) (b : Bench) (lock : Bool) (r : CommandRecord)
    (rest : List CommandRecord) (x : BackendRecord) : Type 0 where
  pub running : b.running ≡ true
  pub head : b.gateway.queue ≡ r ∷ rest
  pub runs : RunsBy cal r (method lock)
  pub syncs : Syncs cal
  pub online : IsOnline c
  pub known : lookup r.request_id b.outside.backend.commands ≡ some x

-- The actuator is done before the deadline of the call.
abbrev InTime : TcuCal → Conditions → Type 0
InTime cal c = ltb c.travel_ms cal.door_lock_ack_timeout_ms ≡ true

module _ (cal : TcuCal) (bcal : BodyCal) (c : Conditions) (up : c.reachable ≡ true) where
  pub door_rpc-in_time :
      (lock : Bool) (r : CommandRecord) (o : Outside)
      → ltb c.travel_ms cal.door_lock_ack_timeout_ms ≡ true
      → body_rpc bcal c (call_of (method lock) cal r.request_id r.params) o ≡ (
        reply (actuate_door_lock bcal o.clock (door_request lock r) o.body).0,
        record o { body = (actuate_door_lock bcal o.clock (door_request lock r) o.body).1 },
      )
  unfolding body_rpc
  door_rpc-in_time true r o fast = rw (up, fast) refl
  door_rpc-in_time false r o fast = rw (up, fast) refl

  door_rpc-late :
      (lock : Bool) (r : CommandRecord) (o : Outside)
      → ltb c.travel_ms cal.door_lock_ack_timeout_ms ≡ false
      → body_rpc bcal c (call_of (method lock) cal r.request_id r.params) o ≡ (
        rpc_error GrpcCode.deadline_exceeded,
        record o { pending = o.pending ++ door_request lock r ∷ [] },
      )
  unfolding body_rpc
  door_rpc-late true r o slow = rw (up, slow) refl
  door_rpc-late false r o slow = rw (up, slow) refl

-- The status of a command after its result was told.
pub told_status :
    (result : ResultReport) (o : Outside) {x : BackendRecord}
    → lookup result.request_id o.backend.commands ≡ some x
    → status_at result.request_id (command_result o.clock result o.backend).1
      ≡ some (status_of result.status)
told_status result o h = ap (Option.map (λ y. y.status)) (reported_at o.clock result o.backend h)

-- A door command at the head of the queue of a running gateway that polls after each command, with its
-- method in the command map, a backend that knows it, a reachable Body ECU and an actuation that ends
-- before the deadline, when the gateway's posts arrive: after one
-- round the doors are as asked for, and the command is COMPLETED at the backend; the gateway's
-- property and the state reported to the backend show the doors as asked for; and the round adds no
-- actuation to those that were left over before it.
pub door_in_time :
    (cfg : Config) (cal : TcuCal) (bcal : BodyCal) (c : Conditions) (b : Bench) (lock : Bool)
    (r : CommandRecord) (rest : List CommandRecord) {x : BackendRecord}
    → IsQueued cal c b lock r rest x
    → c.travel_ms < cal.door_lock_ack_timeout_ms
    → let b' = step cfg cal bcal (Event.round c) b in
      (b'.outside.body.doors_locked ≡ lock)
      × (status_at r.request_id b'.outside.backend ≡ some completed)
      × (b'.gateway.vhal.door_lock ≡ some (if lock then 1 else 0))
      × (Option.map (λ e. e.0.doors_locked) b'.outside.backend.report ≡ some lock)
      × (b'.outside.pending ≡ b.outside.pending)
unfolding step actuate_door_lock get_body_state sync_answered state_report backend_state_report
    command_result
door_in_time cfg cal bcal c b true r rest h fast =
    rw
      (
        h.running,
        round-eq cal bcal c b.gateway b.outside r rest (method true) h.head h.runs h.syncs,
        door_rpc-in_time cal bcal c h.online.reachable true r b.outside (ground arith),
      )
      (rw
        (
          sync_once-reachable cal bcal c _ _ h.online.reachable,
          told_result-arrives _ _ h.online.result_arrives,
          told_state-arrives _ _ h.online.report_arrives,
        )
        (
          refl,
          told_status
              (record {
                request_id = r.request_id;
                status = Verdict.completed;
                reason = Reason.ok;
                elapsed_ms = c.elapsed;
              })
              b.outside h.known,
          refl,
          refl,
          refl,
        ))
door_in_time cfg cal bcal c b false r rest h fast =
    rw
      (
        h.running,
        round-eq cal bcal c b.gateway b.outside r rest (method false) h.head h.runs h.syncs,
        door_rpc-in_time cal bcal c h.online.reachable false r b.outside (ground arith),
      )
      (rw
        (
          sync_once-reachable cal bcal c _ _ h.online.reachable,
          told_result-arrives _ _ h.online.result_arrives,
          told_state-arrives _ _ h.online.report_arrives,
        )
        (
          refl,
          told_status
              (record {
                request_id = r.request_id;
                status = Verdict.completed;
                reason = Reason.ok;
                elapsed_ms = c.elapsed;
              })
              b.outside h.known,
          refl,
          refl,
          refl,
        ))

-- A door command whose actuation takes up to its deadline or longer, on a bench with no actuation
-- left over, when the gateway's posts arrive: after one round the command is FAILED at the backend, and the Body ECU has not
-- changed. But the actuation goes on, and when it ends the doors are as asked for, while the
-- command is still FAILED.
pub door_late :
    (cfg : Config) (cal : TcuCal) (bcal : BodyCal) (c : Conditions) (b : Bench) (lock : Bool)
    (r : CommandRecord) (rest : List CommandRecord) {x : BackendRecord}
    → IsQueued cal c b lock r rest x
    → b.outside.pending ≡ []
    → cal.door_lock_ack_timeout_ms ≤ c.travel_ms
    → let b' = step cfg cal bcal (Event.round c) b in
      let b'' = step cfg cal bcal Event.actuator b' in
      (status_at r.request_id b'.outside.backend ≡ some failed)
      × (b'.outside.body ≡ b.outside.body)
      × (b'.outside.pending ≡ door_request lock r ∷ [])
      × (b''.outside.body.doors_locked ≡ lock)
      × (status_at r.request_id b''.outside.backend ≡ some failed)
unfolding step actuate_door_lock get_body_state sync_answered state_report backend_state_report
    command_result
door_late cfg cal bcal c b true r rest h idle slow =
    rw
      (
        h.running,
        round-eq cal bcal c b.gateway b.outside r rest (method true) h.head h.runs h.syncs,
        door_rpc-late cal bcal c h.online.reachable true r b.outside (ground arith),
      )
      (rw
        (
          sync_once-reachable cal bcal c _ _ h.online.reachable,
          told_result-arrives _ _ h.online.result_arrives,
          told_state-arrives _ _ h.online.report_arrives,
        )
        (let told =
            told_status
              (record {
                request_id = r.request_id;
                status = Verdict.failed;
                reason = Reason.ecu_timeout;
                elapsed_ms = c.elapsed;
              })
              b.outside h.known in
          (told, refl, rw idle refl, rw idle refl, rw idle told)))
door_late cfg cal bcal c b false r rest h idle slow =
    rw
      (
        h.running,
        round-eq cal bcal c b.gateway b.outside r rest (method false) h.head h.runs h.syncs,
        door_rpc-late cal bcal c h.online.reachable false r b.outside (ground arith),
      )
      (rw
        (
          sync_once-reachable cal bcal c _ _ h.online.reachable,
          told_result-arrives _ _ h.online.result_arrives,
          told_state-arrives _ _ h.online.report_arrives,
        )
        (let told =
            told_status
              (record {
                request_id = r.request_id;
                status = Verdict.failed;
                reason = Reason.ecu_timeout;
                elapsed_ms = c.elapsed;
              })
              b.outside h.known in
          (told, refl, rw idle refl, rw idle refl, rw idle told)))
