-- ===== src/Bench.antt =====
-- The bench as a whole: the backend, the gateway and the Body ECU, each by its own operations, and
-- what connects them (the HTTP posts of env/backend/app/main.py and env/ecu-gateway/gateway.py, and
-- the gRPC calls that env/body-ecu/server.py serves). An event is one client request with its
-- forwarding, one round of the gateway's worker with the calls that it makes, one poll, the end of
-- an actuator's travel that outlived its call, or one second of the Body ECU's physics.
pub mod Rounds
pub mod Doors
pub mod Stuck
pub mod Foreign
pub mod Dropped
pub mod Served
pub mod Locked
pub mod Sequences
pub mod Answered
pub mod Quiet
pub mod Climate
pub mod Arrivals
pub mod Settled
use Prim.Native.String.{String}
use vehicle_bench_candidate.Base.{
  ℕ, ◌≡◌, refl, ◌+◌, Bool, true, false, Option, none, some, List, [], ◌∷◌, ◌++◌, ltb, if◌then◌else◌,
}
use vehicle_bench_candidate.Proto.{DoorLockRequest, CommandAck, BodyState}
use vehicle_bench_candidate.Body.{
  BodyCal, BodyModel, actuate_door_lock, set_climate, set_charging, get_body_state, reset_state,
  physics_tick,
}
use vehicle_bench_candidate.Gateway.Types.{
  TcuCal, GrpcCode, Outcome, reply, rpc_error, CommandBody, Gateway, StateReport, ResultReport,
}
use vehicle_bench_candidate.Gateway.Task.{Message, Call}
use vehicle_bench_candidate.Gateway.Sync.{World, sync_once}
use vehicle_bench_candidate.Gateway.Worker.{
  RoundEnd, waits, continues, crashes, QueuedAnswer, handle_command, worker_round,
}
use vehicle_bench_candidate.Backend.Store.{Store, Response, ok}
use vehicle_bench_candidate.Backend.Commands.{
  Config, Request, TcuAnswer, answered, http_error, serve, dispatch_end, command_result,
  state_report,
}

-- What the environment chooses for a call: whether the Body ECU is reachable, how long the door
-- actuator travels (`random.randint`) or the other handlers sleep, network time included, and what
-- the gateway's clock measures; and whether the gateway's posts of a result and of a report reach the
-- backend.
pub record Conditions : Type 0 where
  pub reachable : Bool
  pub result_arrives : Bool
  pub report_arrives : Bool
  pub travel_ms : ℕ
  pub delay_ms : ℕ
  pub elapsed : ℕ

-- All but the gateway: `pending` are the door requests whose calls ran into their deadlines while
-- the shielded actuation goes on.
pub record Outside : Type 0 where
  pub backend : Store
  pub body : BodyModel
  pub pending : List DoorLockRequest
  pub clock : ℕ

-- `running` is false once the gateway's program has ended by an exception of its worker.
pub record Bench : Type 0 where
  pub running : Bool
  pub gateway : Gateway
  pub outside : Outside

abbrev within : Conditions → ℕ → CommandAck → Outcome CommandAck
within c timeout_ms ack =
    if ltb c.delay_ms timeout_ms then reply ack else rpc_error GrpcCode.deadline_exceeded

-- A call that reaches the Body ECU. The doors move only at the end of the travel; the other
-- handlers change the state before they sleep, so a call that misses its deadline has changed it.
abbrev pub served : BodyCal → Conditions → Message → ℕ → Outside → Outcome CommandAck × Outside
served bcal c (Message.door r) timeout_ms o =
    if ltb c.travel_ms timeout_ms
    then (let (ack, body) = actuate_door_lock bcal o.clock r o.body in
        (reply ack, record o { body = body }))
    else (rpc_error GrpcCode.deadline_exceeded, record o { pending = o.pending ++ r ∷ [] })
served bcal c (Message.climate r) timeout_ms o =
    let (ack, body) = set_climate bcal o.clock r o.body in
    (within c timeout_ms ack, record o { body = body })
served bcal c (Message.charging r) timeout_ms o =
    let (ack, body) = set_charging o.clock r o.body in
    (within c timeout_ms ack, record o { body = body })

unfoldable pub body_rpc : BodyCal → Conditions → Call → Outside → Outcome CommandAck × Outside
body_rpc bcal c call o =
    if c.reachable
    then served bcal c call.message call.timeout_ms o
    else (rpc_error GrpcCode.unavailable, o)

unfoldable pub body_poll : BodyCal → Conditions → Outside → Outcome BodyState × Outside
body_poll bcal c o = (
  if c.reachable
      then reply (get_body_state bcal o.clock o.body)
      else rpc_error GrpcCode.unavailable,
  o,
)

unfoldable pub body_reset : BodyCal → Conditions → Outside → Outcome CommandAck × Outside
body_reset bcal c o =
    if c.reachable
    then (let (ack, body) = reset_state bcal o.clock o.body in
        (reply ack, record o { body = body }))
    else (rpc_error GrpcCode.unavailable, o)

-- The posts to the backend. One that raises is only logged, so that nothing is told.
unfoldable pub told_result : Bool → ResultReport → Outside → Outside
told_result arrives r o =
    if arrives then record o { backend = (command_result o.clock r o.backend).1 } else o

unfoldable pub told_state : Bool → StateReport → Outside → Outside
told_state arrives r o =
    if arrives then record o { backend = (state_report o.clock r o.backend).1 } else o

module _ {arrives : Bool} where
  pub told_result-arrives :
      (r : ResultReport) (o : Outside)
      → arrives ≡ true
      → told_result arrives r o ≡ record o { backend = (command_result o.clock r o.backend).1 }
  unfolding told_result
  told_result-arrives r o h = rw h refl

  pub told_result-lost :
      (r : ResultReport) (o : Outside) → arrives ≡ false → told_result arrives r o ≡ o
  unfolding told_result
  told_result-lost r o h = rw h refl

  pub told_state-arrives :
      (r : StateReport) (o : Outside)
      → arrives ≡ true
      → told_state arrives r o ≡ record o { backend = (state_report o.clock r o.backend).1 }
  unfolding told_state
  told_state-arrives r o h = rw h refl

  pub told_state-lost :
      (r : StateReport) (o : Outside) → arrives ≡ false → told_state arrives r o ≡ o
  unfolding told_state
  told_state-lost r o h = rw h refl

-- The Body ECU is reachable, and the gateway's posts arrive.
pub record IsOnline (c : Conditions) : Type 0 where
  pub reachable : c.reachable ≡ true
  pub result_arrives : c.result_arrives ≡ true
  pub report_arrives : c.report_arrives ≡ true

-- What the gateway meets on the bench.
abbrev pub bench_world : BodyCal → Conditions → World Outside
bench_world bcal c = record {
  rpc = body_rpc bcal c;
  get_body_state = body_poll bcal c;
  reset_state = body_reset bcal c;
  post_result = told_result c.result_arrives;
  post_state = told_state c.report_arrives;
  elapsed_ms = λ o. c.elapsed;
  utc_now = λ o. o.clock;
}

-- How the backend's request to the gateway goes: it never arrives, it arrives and is answered, or
-- it arrives and the answer is lost.
pub data Link : Type 0 where
  lost answered_in_time answer_lost : Link

abbrev pub forward : Link → ℕ → CommandBody → Bench → Bench
forward lost id body b = record b {
  outside = record (b.outside) {
    backend = (dispatch_end id b.outside.clock http_error b.outside.backend).1;
  };
}
forward answered_in_time id body b =
    let (answer, g) = handle_command id b.outside.clock body b.gateway in
    record b {
      gateway = g;
      outside = record (b.outside) {
        backend = (dispatch_end id b.outside.clock (answered 200 answer) b.outside.backend).1;
      };
    }
forward answer_lost id body b = record b {
  gateway = (handle_command id b.outside.clock body b.gateway).1;
  outside = record (b.outside) {
    backend = (dispatch_end id b.outside.clock http_error b.outside.backend).1;
  };
}

abbrev pub forward_response : Link → ℕ → Response CommandBody × Store → Bench → Bench
forward_response link id (ok body, store) b =
    forward link id body (record b { outside = record (b.outside) { backend = store } })
forward_response link id (_, store) b = record b {
  outside = record (b.outside) { backend = store };
}

abbrev pub finish_travel : BodyCal → List DoorLockRequest → Outside → Outside
finish_travel bcal [] o = o
finish_travel bcal (r ∷ rest) o = record o {
  body = (actuate_door_lock bcal o.clock r o.body).1;
  pending = rest;
}

pub data Event : Type 0 where
  request : Link → Option String → ℕ → Request → Event
  round poll : Conditions → Event
  actuator second : Event

abbrev pub goes_on : RoundEnd → Bool
goes_on crashes = false
goes_on _ = true

module _ (cfg : Config) (cal : TcuCal) (bcal : BodyCal) where
  unfoldable pub step : Event → Bench → Bench
  step (request link key id r) b =
      forward_response (if b.running then link else lost) id
        (serve cfg key id b.outside.clock r b.outside.backend) b
  step (round c) b =
      if b.running
      then (let (end, g, o) = worker_round cal (bench_world bcal c) b.gateway b.outside in
          record { running = goes_on end; gateway = g; outside = o })
      else b
  step (poll c) b =
      if b.running
      then (let (g, o) = sync_once cal (bench_world bcal c) b.gateway b.outside in
          record b { gateway = g; outside = o })
      else b
  step actuator b = record b { outside = finish_travel bcal b.outside.pending b.outside }
  step second b = record b {
    outside = record (b.outside) {
      body = physics_tick bcal b.outside.body;
      clock = b.outside.clock + 1000;
    };
  }

  unfoldable pub steps : List Event → Bench → Bench
  steps [] b = b
  steps (e ∷ es) b = steps es (step e b)
