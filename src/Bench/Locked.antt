-- ===== src/Bench/Locked.antt =====
-- What is shown of the doors after a door command, and while no command is on its way
-- (`_actuate_door_lock` of env/body-ecu/server.py, `sync_once` of env/ecu-gateway/gateway.py and
-- `state_report` of env/backend/app/main.py).
use Prim.Native.String.{String}
use mathlib.Core.Option
use vehicle_bench_candidate.Base.{
  ℕ, ◌≡◌, ◌∙◌, inl, inr, refl, ap, Bool, Bool-cases, true, false, some, List, [], ◌∷◌, All, arith,
}
use vehicle_bench_candidate.Base.Dict.{insert, lookup-insert}
use vehicle_bench_candidate.Body.{
  BodyCal, BodyModel, physics_tick, charge_tick, cabin_tick, get_body_state, actuate_door_lock,
}
use vehicle_bench_candidate.Proto.{DoorLockRequest, AckResult}
use vehicle_bench_candidate.Gateway.Types.{TcuCal, CommandBody, reply}
use vehicle_bench_candidate.Gateway.Calls.{call_of}
use vehicle_bench_candidate.Gateway.Sync.{sync_once, state_report, sync_answered, sync_failed}
use vehicle_bench_candidate.Gateway.Worker.{new_record}
use vehicle_bench_candidate.Gateway.Queue.{RunsBy}
use vehicle_bench_candidate.Backend.Store.{Store, CommandType, command_text, completed, ok}
use vehicle_bench_candidate.Backend.Commands.{
  state_report as backend_state_report, Config, Request, serve, accepted_record, no_params, route,
  dispatch_begin,
}
use vehicle_bench_candidate.Backend.Access.{serve-key}
use vehicle_bench_candidate.Backend.Lifecycle.{status_at}
use vehicle_bench_candidate.Bench.{
  Event, Conditions, Outside, Bench, body_rpc, body_poll, told_state, step, steps,
}
use vehicle_bench_candidate.Bench.Rounds.{Syncs}
use vehicle_bench_candidate.Bench.Doors.{method, action, door_rpc-in_time}
use vehicle_bench_candidate.Bench.Served.{IsReady}
use vehicle_bench_candidate.Bench.Answered.{commanded, commanded-IsAnsweredBy}
use vehicle_bench_candidate.Bench.Quiet.{IsQuiet}
use vehicle_bench_candidate.Bench.Climate.{IsPrompt}

-- The paths `/vehicle/lock` and `/vehicle/unlock`, and the commands that they stand for.
abbrev pub door_path : Bool → Request
door_path true = Request.lock
door_path false = Request.unlock

abbrev door_text : Bool → String
door_text true = "LOCK"
door_text false = "UNLOCK"

abbrev door_type : Bool → CommandType
door_type true = CommandType.lock
door_type false = CommandType.unlock

abbrev pub door_body : ℕ → Bool → CommandBody
door_body id lock = record { request_id = some id; command = door_text lock; params = no_params }

-- A calibration under which the worker runs both door commands and polls after them.
pub record RunsDoors (cal : TcuCal) : Type 0 where
  pub runs : (lock : Bool) → RunsBy cal (new_record 0 0 (door_body 0 lock)) (method lock)
  pub syncs : Syncs cal

-- The bench is ready, and the Body ECU and the report that the backend has agree on the doors.
pub record ShowsDoors (lock : Bool) (b : Bench) : Type 0 where
  pub ready : IsReady b
  pub doors : b.outside.body.doors_locked ≡ lock
  pub shown : Option.map (λ e. e.0.doors_locked) b.outside.backend.report ≡ some lock

module _ (cfg : Config) (cal : TcuCal) (bcal : BodyCal) where
  physics_tick-doors : (m : BodyModel) → (physics_tick bcal m).doors_locked ≡ m.doors_locked
  unfolding physics_tick charge_tick cabin_tick
  physics_tick-doors m = ground arith

  poll-ShowsDoors :
      (lock : Bool) (c : Conditions) (b : Bench)
      → ShowsDoors lock b
      → ShowsDoors lock (step cfg cal bcal (Event.poll c) b)
  unfolding step sync_once body_poll sync_failed sync_answered state_report backend_state_report
      get_body_state told_state
  poll-ShowsDoors lock c b h = elim (Bool-cases c.reachable) [
    | inl up ↦ elim (Bool-cases c.report_arrives) [
      | inl told ↦
          rw (h.ready.running, up, told)
            (record {
              ready = record { running = refl; idle = h.ready.idle };
              doors = h.doors;
              shown = ap some h.doors;
            })
      | inr lost ↦
          rw (h.ready.running, up, lost)
            (record {
              ready = record { running = refl; idle = h.ready.idle };
              doors = h.doors;
              shown = h.shown;
            })
    ]
    | inr down ↦
        rw (h.ready.running, down)
          (record {
            ready = record { running = refl; idle = h.ready.idle };
            doors = h.doors;
            shown = h.shown;
          })
  ]

  quiet-ShowsDoors :
      (lock : Bool) (e : Event) (b : Bench)
      → IsQuiet e
      → ShowsDoors lock b
      → ShowsDoors lock (step cfg cal bcal e b)
  unfolding step
  quiet-ShowsDoors lock Event.second b quiet h = record {
    ready = record { running = h.ready.running; idle = h.ready.idle };
    doors = physics_tick-doors b.outside.body ∙ h.doors;
    shown = h.shown;
  }
  quiet-ShowsDoors lock (Event.poll c) b quiet h = poll-ShowsDoors lock c b h
  quiet-ShowsDoors lock (Event.request link key id r) b quiet h = elim quiet [ ]
  quiet-ShowsDoors lock (Event.round c) b quiet h = elim quiet [ ]
  quiet-ShowsDoors lock Event.actuator b quiet h = elim quiet [ ]

  pub all_quiet-ShowsDoors :
      (lock : Bool) (es : List Event) (b : Bench)
      → All IsQuiet es
      → ShowsDoors lock b
      → ShowsDoors lock (steps cfg cal bcal es b)
  unfolding steps
  all_quiet-ShowsDoors lock [] b quiet h = h
  all_quiet-ShowsDoors lock (e ∷ es) b quiet h =
      all_quiet-ShowsDoors lock es (step cfg cal bcal e b) quiet.1
        (quiet-ShowsDoors lock e b quiet.0 h)

  abbrev pub stored : Bool → ℕ → Bench → Store
  stored lock id b = record (b.outside.backend) {
    commands =
        insert id (accepted_record id (door_type lock) no_params b.outside.clock)
          b.outside.backend.commands;
  }

  pub serve-door :
      (lock : Bool) (id : ℕ) (b : Bench)
      → serve cfg (some cfg.api_key) id b.outside.clock (door_path lock) b.outside.backend
        ≡ (ok (door_body id lock), stored lock id b)
  unfolding route dispatch_begin command_text
  serve-door true id b = serve-key cfg id b.outside.clock Request.lock b.outside.backend
  serve-door false id b = serve-key cfg id b.outside.clock Request.unlock b.outside.backend

  abbrev door_request : ℕ → Bool → DoorLockRequest
  door_request id lock = record { request_id = id; action = action lock }

  moved :
      (lock : Bool) (id now : ℕ) (m : BodyModel)
      → ((actuate_door_lock bcal now (door_request id lock) m).0.result ≡ AckResult.ok)
        × ((actuate_door_lock bcal now (door_request id lock) m).1.doors_locked ≡ lock)
  unfolding actuate_door_lock
  moved true id now m = (refl, refl)
  moved false id now m = (refl, refl)

  module _ (maps : RunsDoors cal) (c : Conditions) (prompt : IsPrompt cal c) where
    called :
        (lock : Bool) (id : ℕ) (o : Outside)
        → body_rpc bcal c (call_of (method lock) cal id no_params) o ≡ (
          reply (actuate_door_lock bcal o.clock (door_request id lock) o.body).0,
          record o { body = (actuate_door_lock bcal o.clock (door_request id lock) o.body).1 },
        )
    called lock id o =
        door_rpc-in_time cal bcal c prompt.online.reachable lock
          (new_record id o.clock (door_body id lock)) o (ground (arith, prompt.travel))

    pub door_commanded :
        (lock : Bool) (id : ℕ) (b : Bench)
        → IsReady b
        → let b' = commanded cfg cal bcal c cfg.api_key id (door_path lock) b in
          ShowsDoors lock b' × (status_at id b'.outside.backend ≡ some completed)
    unfolding state_report get_body_state
    door_commanded lock id b ready =
        let now = b.outside.clock in
        let rec = accepted_record id (door_type lock) no_params now in
        let (ack, m) = actuate_door_lock bcal now (door_request id lock) b.outside.body in
        let (h, desired) =
          commanded-IsAnsweredBy cfg cal bcal c cfg.api_key id (door_path lock) (door_text lock)
            no_params (stored lock id b) b (method lock) ack m {x = rec} ready
            (serve-door lock id b) (moved lock id now b.outside.body).0 (maps.runs lock) maps.syncs
            prompt.online (ground (arith, lookup-insert id id rec b.outside.backend.commands))
            (λ backend. called lock id (record (b.outside) { backend = backend })) in
        let turned = (moved lock id now b.outside.body).1 in
        (
          record {
            ready = h.ready;
            doors = ap (λ (x : BodyModel). x.doors_locked) h.body ∙ turned;
            shown = ap (Option.map (λ e. e.0.doors_locked)) h.report ∙ ap some turned;
          },
          h.status,
        )
