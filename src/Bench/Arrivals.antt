-- ===== src/Bench/Arrivals.antt =====
-- What the events of the bench do to the backend's store: a predicate that the backend's handlers
-- keep, over every event (the HTTP posts of env/backend/app/main.py and
-- env/ecu-gateway/gateway.py).
use Prim.Native.String.{String}
use vehicle_bench_candidate.Base.{if_keeps, if◌then◌else◌, ℕ, sym, Option, List, [], ◌∷◌, All}
use mathlib.Core.Path.{subst}
use vehicle_bench_candidate.Proto.{DoorLockRequest}
use vehicle_bench_candidate.Body.{BodyCal}
use vehicle_bench_candidate.Gateway.Types.{TcuCal, CommandBody, StateReport, ResultReport}
use vehicle_bench_candidate.Gateway.Worlds.{Keeps, worker_round-keeps, sync_once-keeps_world}
use vehicle_bench_candidate.Backend.Store.{
  Store, Response, ok, no_content, unauthorized, not_found, unprocessable, bad_gateway, unavailable,
}
use vehicle_bench_candidate.Backend.Commands.{
  Config, Request, TcuAnswer, serve, dispatch_end, command_result, state_report,
}
use vehicle_bench_candidate.Bench.{
  Event, Conditions, Outside, Bench, Link, lost, answered_in_time, answer_lost, forward,
  forward_response, finish_travel, bench_world, body_poll, told_result, told_state, step, steps,
}
use vehicle_bench_candidate.Bench.Rounds.{body_rpc-backend}

-- A predicate on the store that the backend's handlers keep, the requests those whose id is in
-- `Ids`.
pub record IsKeptBy (cfg : Config) (Ids : ℕ → Type 0) (Q : Store → Type 0) : Type 0 where
  pub served :
      (key : Option String) (id now : ℕ) (r : Request) (store : Store)
      → Ids id
      → Q store
      → Q (serve cfg key id now r store).1
  pub ended :
      (id now : ℕ) (answer : TcuAnswer) (store : Store)
      → Q store
      → Q (dispatch_end id now answer store).1
  pub told :
      (now : ℕ) (r : ResultReport) (store : Store) → Q store → Q (command_result now r store).1
  pub reported :
      (now : ℕ) (r : StateReport) (store : Store) → Q store → Q (state_report now r store).1

-- The id of a request is one of `Ids`.
abbrev pub HasId : (ℕ → Type 0) → Event → Type 0
HasId Ids (Event.request link key id r) = Ids id
HasId Ids _ = Unit

module _ (cfg : Config) (cal : TcuCal) (bcal : BodyCal) {Ids : ℕ → Type 0} {Q : Store → Type 0}
    (kept : IsKeptBy cfg Ids Q) where
  bench_world-Keeps : (c : Conditions) → Keeps (bench_world bcal c) (λ o. Q o.backend)
  unfolding body_poll told_result told_state
  bench_world-Keeps c = record {
    rpc = λ call o h. subst Q (sym (body_rpc-backend cal bcal c call o)) h;
    polled = λ o h. h;
    result = λ r o h.
        if_keeps (λ (t : Outside). Q t.backend) c.result_arrives _ o
          (kept.told o.clock r o.backend h) h;
    state = λ r o h.
        if_keeps (λ (t : Outside). Q t.backend) c.report_arrives _ o
          (kept.reported o.clock r o.backend h) h;
  }

  forward-keeps :
      (link : Link) (id : ℕ) (body : CommandBody) (b : Bench)
      → Q b.outside.backend
      → Q (forward link id body b).outside.backend
  forward-keeps lost id body b h = kept.ended id b.outside.clock _ b.outside.backend h
  forward-keeps answered_in_time id body b h = kept.ended id b.outside.clock _ b.outside.backend h
  forward-keeps answer_lost id body b h = kept.ended id b.outside.clock _ b.outside.backend h

  response-keeps :
      (link : Link) (id : ℕ) (answer : Response CommandBody) (store : Store) (b : Bench)
      → Q store
      → Q (forward_response link id (answer, store) b).outside.backend
  response-keeps link id (ok body) store b h =
      forward-keeps link id body (record b { outside = record (b.outside) { backend = store } }) h
  response-keeps link id no_content store b h = h
  response-keeps link id unauthorized store b h = h
  response-keeps link id not_found store b h = h
  response-keeps link id unprocessable store b h = h
  response-keeps link id (bad_gateway j) store b h = h
  response-keeps link id (unavailable j) store b h = h

  travel-keeps :
      (pending : List DoorLockRequest) (o : Outside)
      → Q o.backend
      → Q (finish_travel bcal pending o).backend
  travel-keeps [] o h = h
  travel-keeps (r ∷ rest) o h = h

  step-keeps :
      (e : Event) (b : Bench)
      → HasId Ids e
      → Q b.outside.backend
      → Q (step cfg cal bcal e b).outside.backend
  unfolding step
  step-keeps (Event.request link key id r) b fresh h =
      let (answer, store) = serve cfg key id b.outside.clock r b.outside.backend in
      response-keeps (if b.running then link else lost) id answer store b
        (kept.served key id b.outside.clock r b.outside.backend fresh h)
  step-keeps (Event.round c) b fresh h =
      if_keeps (λ (t : Bench). Q t.outside.backend) b.running _ _
        (worker_round-keeps cal (bench_world bcal c) (λ o. Q o.backend) (bench_world-Keeps c)
          b.gateway b.outside h)
        h
  step-keeps (Event.poll c) b fresh h =
      if_keeps (λ (t : Bench). Q t.outside.backend) b.running _ _
        (sync_once-keeps_world cal (bench_world bcal c) (λ o. Q o.backend) (bench_world-Keeps c)
          b.gateway b.outside h)
        h
  step-keeps Event.actuator b fresh h = travel-keeps b.outside.pending b.outside h
  step-keeps Event.second b fresh h = h

  pub steps-keeps :
      (es : List Event) (b : Bench)
      → All (HasId Ids) es
      → Q b.outside.backend
      → Q (steps cfg cal bcal es b).outside.backend
  unfolding steps
  steps-keeps [] b fresh h = h
  steps-keeps (e ∷ es) b fresh h =
      steps-keeps es (step cfg cal bcal e b) fresh.1 (step-keeps e b fresh.0 h)
