-- ===== src/Bench/Answered.antt =====
-- A command of a client that is forwarded, served and answered in time, by whichever method
-- (`dispatch` of env/backend/app/main.py, `worker` of env/ecu-gateway/gateway.py).
use Prim.Native.String.{String}
use mathlib.Core.Path.{subst}
use vehicle_bench_candidate.Base.{
  ℕ, ◌≡◌, ◌∙◌, inl, inr, refl, ap, sym, true, Bool-cases, some, [], ◌∷◌, ◌++◌, arith,
}
use vehicle_bench_candidate.Base.Dict.{lookup}
use vehicle_bench_candidate.Proto.{CommandAck, AckResult}
use vehicle_bench_candidate.Body.{BodyCal, BodyModel, get_body_state}
use vehicle_bench_candidate.Gateway.Types.{
  TcuCal, reply, ResultReport, Verdict, Reason, CommandBody, CommandRecord, Params,
}
use vehicle_bench_candidate.Gateway.Commands.{Method}
use vehicle_bench_candidate.Gateway.Calls.{call_of}
use vehicle_bench_candidate.Gateway.Sync.{state_report, sync_answered}
use vehicle_bench_candidate.Gateway.Worker.{new_record, handle_command}
use vehicle_bench_candidate.Gateway.Queue.{RunsBy}
use vehicle_bench_candidate.Backend.Store.{
  CommandRecord as BackendRecord, Store, CommandStatus, completed, ok,
}
use vehicle_bench_candidate.Backend.Commands.{
  state_report as backend_state_report, Config, Request, serve, answered,
}
use vehicle_bench_candidate.Backend.Lifecycle.{
  status_at, command_result_lem, dispatch_end_lem, settled,
}
use vehicle_bench_candidate.Bench.{
  Event, Conditions, Outside, Bench, IsOnline, answered_in_time, forward, body_rpc, told_result,
  told_result-arrives, told_result-lost, told_state-arrives, step,
}
use vehicle_bench_candidate.Bench.Rounds.{Syncs, round-eq, sync_once-reachable}
use vehicle_bench_candidate.Bench.Doors.{told_status}
use vehicle_bench_candidate.Bench.Served.{IsReady}

-- What is left of a command whose call left `body` with the Body ECU and was acknowledged: the bench
-- is ready for the next, the command has this status, and the report that the backend shows is of
-- that state of the Body ECU.
pub record IsAnsweredBy (cal : TcuCal) (bcal : BodyCal) (id now : ℕ) (m : BodyModel)
    (s : CommandStatus) (b : Bench) : Type 0 where
  pub ready : IsReady b
  pub body : b.outside.body ≡ m
  pub status : status_at id b.outside.backend ≡ some s
  pub report :
      b.outside.backend.report ≡ some (state_report cal now (get_body_state bcal now m), now)

told_result-desired :
    (c : Conditions) (result : ResultReport) (o : Outside)
    → (told_result c.result_arrives result o).backend.desired_climate_target
      ≡ o.backend.desired_climate_target
told_result-desired c result o = elim (Bool-cases c.result_arrives) [
  | inl told ↦
      ap (λ (t : Outside). t.backend.desired_climate_target) (told_result-arrives result o told)
      ∙ elim (command_result_lem o.clock result o.backend 0) [
        | inl (unknown, answer, same) ↦ ap (λ t. t.desired_climate_target) same
        | inr (r, known, answer, others, report, desired) ↦ desired
      ]
  | inr lost ↦
      ap (λ (t : Outside). t.backend.desired_climate_target) (told_result-lost result o lost)
]

module _ (cfg : Config) (cal : TcuCal) (bcal : BodyCal) (c : Conditions) where
  round-IsAnsweredBy :
      (b : Bench) (r : CommandRecord) (m : Method) (ack : CommandAck) (body : BodyModel)
      {x : BackendRecord}
      → ack.result ≡ AckResult.ok
      → b.running ≡ true
      → b.gateway.queue ≡ r ∷ []
      → RunsBy cal r m
      → Syncs cal
      → IsOnline c
      → lookup r.request_id b.outside.backend.commands ≡ some x
      → body_rpc bcal c (call_of m cal r.request_id r.params) b.outside
        ≡ (reply ack, record (b.outside) { body = body })
      → let b' = step cfg cal bcal (Event.round c) b in
        IsAnsweredBy cal bcal r.request_id b.outside.clock body completed b'
        × (b'.outside.backend.desired_climate_target ≡ b.outside.backend.desired_climate_target)
  unfolding step backend_state_report sync_answered
  round-IsAnsweredBy b r m ack body {x} acked running head runs syncs up known called =
      let result : ResultReport = record {
        request_id = r.request_id;
        status = Verdict.completed;
        reason = Reason.ok;
        elapsed_ms = c.elapsed;
      } in
      rw (running, round-eq cal bcal c b.gateway b.outside r [] m head runs syncs, called, acked)
        (rw
          (
            sync_once-reachable cal bcal c _ _ up.reachable,
            told_result-arrives _ _ up.result_arrives,
            told_state-arrives _ _ up.report_arrives,
          )
          (
            record {
              ready = record { running = refl; idle = refl };
              body = refl;
              status = told_status result b.outside {x = x} known;
              report = refl;
            },
            ap (λ (t : Outside). t.backend.desired_climate_target)
                  (sym (told_result-arrives result b.outside up.result_arrives))
                ∙ told_result-desired c result b.outside,
          ))

  abbrev pub body_of : ℕ → String → Params → CommandBody
  body_of id text params = record { request_id = some id; command = text; params = params }

  -- The bench after the request and one round of the worker.
  abbrev pub commanded : String → ℕ → Request → Bench → Bench
  commanded key id r b =
      step cfg cal bcal (Event.round c)
        (step cfg cal bcal (Event.request answered_in_time (some key) id r) b)

  request-eq :
      (key : String) (id : ℕ) (r : Request) (body : CommandBody) (store : Store) (b : Bench)
      → b.running ≡ true
      → serve cfg (some key) id b.outside.clock r b.outside.backend ≡ (ok body, store)
      → step cfg cal bcal (Event.request answered_in_time (some key) id r) b
        ≡ forward answered_in_time id body
            (record b { outside = record (b.outside) { backend = store } })
  unfolding step
  request-eq key id r body store b running served = rw (running, served) refl

  forward-IsAnsweredBy :
      (id : ℕ) (text : String) (params : Params) (b : Bench) (m : Method) (ack : CommandAck)
      (body : BodyModel) {x : BackendRecord}
      → IsReady b
      → ack.result ≡ AckResult.ok
      → RunsBy cal (new_record id b.outside.clock (body_of id text params)) m
      → Syncs cal
      → IsOnline c
      → lookup id b.outside.backend.commands ≡ some x
      → ((store : Store)
          → let o = record (b.outside) { backend = store } in
            body_rpc bcal c (call_of m cal id params) o ≡ (reply ack, record o { body = body }))
      → let b' =
          step cfg cal bcal
            (Event.round c)
            (forward answered_in_time id (body_of id text params) b) in
        IsAnsweredBy cal bcal id b.outside.clock body completed b'
        × (b'.outside.backend.desired_climate_target ≡ b.outside.backend.desired_climate_target)
  unfolding handle_command
  forward-IsAnsweredBy id text params b m ack body {x} ready acked runs syncs up known called =
      let sent = body_of id text params in
      let answer = answered 200 (handle_command id b.outside.clock sent b.gateway).0 in
      let ended = dispatch_end_lem id b.outside.clock answer b.outside.backend id in
      let b' = forward answered_in_time id sent b in
      let (h, desired) =
        round-IsAnsweredBy b' (new_record id b.outside.clock sent) m ack body
          {x = settled b.outside.clock answer x} acked ready.running
          (ap (λ q. q ++ new_record id b.outside.clock sent ∷ []) ready.idle) runs syncs up
          (ended.0 ∙ ground (arith, known)) (called b'.outside.backend) in
      (h, desired ∙ ended.2)

  -- A command that the backend accepts, that the gateway runs by the method `m`, and whose call the Body
  -- ECU acknowledges, leaving `body`.
  pub commanded-IsAnsweredBy :
      (key : String) (id : ℕ) (r : Request) (text : String) (params : Params) (store : Store)
      (b : Bench) (m : Method) (ack : CommandAck) (body : BodyModel) {x : BackendRecord}
      → IsReady b
      → serve cfg (some key) id b.outside.clock r b.outside.backend
        ≡ (ok (body_of id text params), store)
      → ack.result ≡ AckResult.ok
      → RunsBy cal (new_record id b.outside.clock (body_of id text params)) m
      → Syncs cal
      → IsOnline c
      → lookup id store.commands ≡ some x
      → ((backend : Store)
          → let o = record (b.outside) { backend = backend } in
            body_rpc bcal c (call_of m cal id params) o ≡ (reply ack, record o { body = body }))
      → let b' = commanded key id r b in
        IsAnsweredBy cal bcal id b.outside.clock body completed b'
        × (b'.outside.backend.desired_climate_target ≡ store.desired_climate_target)
  commanded-IsAnsweredBy key id r text params store b m ack body {x} ready served acked runs syncs
        up known called =
      let b0 = record b { outside = record (b.outside) { backend = store } } in
      subst
        (λ (b1 : Bench).
          IsAnsweredBy cal bcal id b.outside.clock body completed
            (step cfg cal bcal (Event.round c) b1)
          × ((step cfg cal bcal (Event.round c) b1).outside.backend.desired_climate_target
              ≡ store.desired_climate_target))
        (sym (request-eq key id r (body_of id text params) store b ready.running served))
        (forward-IsAnsweredBy id text params b0 m ack body {x = x}
          (record { running = ready.running; idle = ready.idle }) acked runs syncs up known called)
