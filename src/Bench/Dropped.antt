-- ===== src/Bench/Dropped.antt =====
-- Commands that the gateway has no mapping for (`worker` of env/ecu-gateway/gateway.py), followed over
-- everything that may happen afterwards.
use mathlib.Core.Option
use vehicle_bench_candidate.Base.{
  if_keeps, ℕ, ◌≡◌, ◌≢◌, ◌∙◌, inl, inr, refl, ap, sym, true, none, some, List, [], ◌∷◌, arith, All,
  All-snoc, All-map, Option-cases, if◌then◌else◌,
}
use vehicle_bench_candidate.Base.Dict.{lookup, insert, lookup-insert}
use vehicle_bench_candidate.Proto.{DoorLockRequest}
use vehicle_bench_candidate.Body.{BodyCal}
use vehicle_bench_candidate.Gateway.Types.{TcuCal, Gateway, CommandBody}
use vehicle_bench_candidate.Gateway.Commands.{map_command}
use vehicle_bench_candidate.Gateway.Worker.{worker_round, handle_command, QueuedAnswer}
use vehicle_bench_candidate.Gateway.Queue.{sync_once-keeps}
use vehicle_bench_candidate.Backend.Store.{
  CommandRecord as BackendRecord, Store, CommandType, command_text, accepted, Response, ok,
}
use vehicle_bench_candidate.Backend.Commands.{
  Config, Request, accepted_record, no_params, route, dispatch_begin, dispatch_end, answered,
}
use vehicle_bench_candidate.Backend.Lifecycle.{dispatch_end_lem, status_at}
use vehicle_bench_candidate.Bench.{
  Event, Link, lost, answered_in_time, answer_lost, Conditions, Bench, bench_world, step, steps,
  goes_on, forward, forward_response, finish_travel,
}
use vehicle_bench_candidate.Backend.Access.{serve-key}
use vehicle_bench_candidate.Bench.Stuck.{IsOther, IsStuck, sync_once-status, take_round-status}
use vehicle_bench_candidate.Bench.Foreign.{Leaves, serve-Leaves, forward-status}

-- An event that is no request under this id.
abbrev pub Avoids : ℕ → Event → Type 0
Avoids id (Event.request link key j r) = j ≢ id
Avoids id _ = Unit

module _ (cal : TcuCal) (id : ℕ) where
  handle_command-IsOther :
      (j now : ℕ) (body : CommandBody) (g : Gateway)
      → j ≢ id
      → body.request_id ≡ some j
      → All (IsOther cal id) g.queue
      → All (IsOther cal id) (handle_command j now body g).1.queue
  unfolding handle_command
  handle_command-IsOther j now body g ne named h =
      All-snoc (IsOther cal id) g.queue _ h
        (inl (λ e. ne (ap (λ x. Option.get_or x j) (sym named) ∙ e)))

  forward-IsStuck :
      (link : Link) (j : ℕ) (body : CommandBody) (b : Bench)
      → j ≢ id
      → body.request_id ≡ some j
      → IsStuck cal id b
      → IsStuck cal id (forward link j body b)
  forward-IsStuck lost j body b ne named h = record {
    waiting = forward-status id lost j body b ne ∙ h.waiting;
    queued = h.queued;
  }
  forward-IsStuck answered_in_time j body b ne named h = record {
    waiting = forward-status id answered_in_time j body b ne ∙ h.waiting;
    queued = handle_command-IsOther j b.outside.clock body b.gateway ne named h.queued;
  }
  forward-IsStuck answer_lost j body b ne named h = record {
    waiting = forward-status id answer_lost j body b ne ∙ h.waiting;
    queued = handle_command-IsOther j b.outside.clock body b.gateway ne named h.queued;
  }

  forward_response-IsStuck :
      (link : Link) (j : ℕ) (x : Response CommandBody × Store) (b : Bench)
      → j ≢ id
      → Leaves id j b.outside.backend x
      → IsStuck cal id b
      → IsStuck cal id (forward_response link j x b)
  forward_response-IsStuck link j (ok body, store) b ne (status, named) h =
      forward-IsStuck link j body _ ne named
        (record { waiting = status ∙ h.waiting; queued = h.queued })
  forward_response-IsStuck link j (_, store) b ne (status, named) h = record {
    waiting = status ∙ h.waiting;
    queued = h.queued;
  }

  finish_travel-IsStuck :
      (bcal : BodyCal) (p : List DoorLockRequest) (b : Bench)
      → IsStuck cal id b
      → IsStuck cal id (record b { outside = finish_travel bcal p b.outside })
  finish_travel-IsStuck bcal [] b h = record { waiting = h.waiting; queued = h.queued }
  finish_travel-IsStuck bcal (r ∷ p) b h = record { waiting = h.waiting; queued = h.queued }

module _ (cfg : Config) (cal : TcuCal) (bcal : BodyCal) (id : ℕ) where
  round-IsStuck :
      (c : Conditions) (b : Bench)
      → IsStuck cal id b
      → let (end, g, o) = worker_round cal (bench_world bcal c) b.gateway b.outside in
        IsStuck cal id (record { running = goes_on end; gateway = g; outside = o })
  unfolding worker_round
  round-IsStuck c b h =
      let (status, queued) =
        take_round-status cal bcal c id b.gateway.queue b.gateway b.outside refl h.queued in
      record { waiting = status ∙ h.waiting; queued = queued }

  step-IsStuck :
      (e : Event) (b : Bench)
      → Avoids id e
      → IsStuck cal id b
      → IsStuck cal id (step cfg cal bcal e b)
  unfolding step
  step-IsStuck (Event.request link key j r) b ne h =
      forward_response-IsStuck cal id (if b.running then link else lost) j _ b ne
        (serve-Leaves id j b.outside.clock ne cfg key r b.outside.backend) h
  step-IsStuck (Event.round c) b _ h =
      if_keeps (IsStuck cal id) b.running _ b (round-IsStuck c b h) h
  step-IsStuck (Event.poll c) b _ h =
      if_keeps (IsStuck cal id) b.running _ b
        (record {
          waiting = sync_once-status cal bcal c id b.gateway b.outside ∙ h.waiting;
          queued = rw (sync_once-keeps cal (bench_world bcal c) b.gateway b.outside).0 h.queued;
        })
        h
  step-IsStuck Event.actuator b _ h = finish_travel-IsStuck cal id bcal b.outside.pending b h
  step-IsStuck Event.second b _ h = record { waiting = h.waiting; queued = h.queued }

  steps-IsStuck :
      (es : List Event) (b : Bench)
      → All (Avoids id) es
      → IsStuck cal id b
      → IsStuck cal id (steps cfg cal bcal es b)
  unfolding steps
  steps-IsStuck [] b avoids h = h
  steps-IsStuck (e ∷ es) b avoids h =
      steps-IsStuck es (step cfg cal bcal e b) avoids.1 (step-IsStuck e b avoids.0 h)

-- An acknowledged forwarding leaves the status of its command.
acknowledged-status :
    (id now : ℕ) (answer : QueuedAnswer) (store : Store)
    → status_at id (dispatch_end id now (answered 200 answer) store).1 ≡ status_at id store
acknowledged-status id now answer store = elim (Option-cases (lookup id store.commands)) [
  | inl e ↦
      ap (Option.map (λ y. y.status))
        (ground (arith, (dispatch_end_lem id now (answered 200 answer) store id).0))
  | inr (r, e) ↦ rw ((dispatch_end_lem id now (answered 200 answer) store id).0, e) (ground arith)
]

unmapped-IsStuck :
    (cal : TcuCal) (id : ℕ) (body : CommandBody) (b : Bench)
    → map_command body.command cal.command_map ≡ none
    → status_at id b.outside.backend ≡ some accepted
    → All (λ r. r.request_id ≢ id) b.gateway.queue
    → IsStuck cal id (forward answered_in_time id body b)
unfolding handle_command
unmapped-IsStuck cal id body b unmapped waiting fresh = record {
  waiting = acknowledged-status id b.outside.clock _ b.outside.backend ∙ waiting;
  queued =
      All-snoc (IsOther cal id) b.gateway.queue _
        (All-map (λ r. r.request_id ≢ id) (IsOther cal id) b.gateway.queue (λ r ne. inl ne) fresh)
        (inr unmapped);
}

-- A request to stop charging that a running gateway acknowledges, under a calibration whose command
-- map has no entry `CHARGING_STOP`, stays ACCEPTED as long as the bench is not reset and no request
-- comes under its id again: whatever worker rounds, polls, requests under other ids, lost or failed
-- calls and posts, ends of travels and seconds follow, its status is ACCEPTED. No command under its
-- id may be on the queue before.
pub charging_stop_stays_accepted :
    (cfg : Config) (cal : TcuCal) (bcal : BodyCal) (b : Bench) (id : ℕ) (es : List Event)
    → b.running ≡ true
    → map_command "CHARGING_STOP" cal.command_map ≡ none
    → All (λ r. r.request_id ≢ id) b.gateway.queue
    → All (Avoids id) es
    → let stop = Event.request answered_in_time (some cfg.api_key) id Request.charging_stop in
      status_at id (steps cfg cal bcal (stop ∷ es) b).outside.backend ≡ some accepted
unfolding steps step route dispatch_begin command_text
charging_stop_stays_accepted cfg cal bcal b id es running unmapped fresh avoids =
    (steps-IsStuck cfg cal bcal id es _ avoids requested).waiting
  where
    stored : Store
    stored = record (b.outside.backend) {
      commands =
          insert id (accepted_record id CommandType.charging_stop no_params b.outside.clock)
            b.outside.backend.commands;
    }

    command : BackendRecord
    command = accepted_record id CommandType.charging_stop no_params b.outside.clock

    found : lookup id stored.commands ≡ some command
    found = ground (arith, lookup-insert id id command b.outside.backend.commands)

    waiting : status_at id stored ≡ some accepted
    waiting = ap (Option.map (λ y. y.status)) found

    requested : IsStuck cal id (
        step cfg cal bcal
          (Event.request answered_in_time (some cfg.api_key) id Request.charging_stop)
          b)
    requested =
        rw (running, serve-key cfg id b.outside.clock Request.charging_stop b.outside.backend)
          (unmapped-IsStuck cal id
            (record { request_id = some id; command = "CHARGING_STOP"; params = no_params })
            (record b { running = true; outside = record (b.outside) { backend = stored } })
            unmapped waiting fresh)
