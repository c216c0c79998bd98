-- ===== src/Bench/Quiet.antt =====
-- What the climate shows while no command is on its way: polls and seconds (`sync_once` of
-- env/ecu-gateway/gateway.py, `physics_loop` of env/body-ecu/server.py).
use vehicle_bench_candidate.Base.{
  ℕ, ◌≡◌, ◌∙◌, inl, inr, refl, ap, Bool, Bool-cases, Option, some, List, [], ◌∷◌, All, arith,
}
use vehicle_bench_candidate.Base.Int.{ℤ}
use vehicle_bench_candidate.Base.Dyadic.{Dyadic, halved}
use vehicle_bench_candidate.Body.{
  BodyCal, BodyModel, physics_tick, charge_tick, cabin_tick, get_body_state,
}
use vehicle_bench_candidate.Gateway.Types.{TcuCal, StateReport}
use vehicle_bench_candidate.Gateway.Sync.{sync_once, state_report, sync_answered, sync_failed}
use vehicle_bench_candidate.Backend.Commands.{state_report as backend_state_report, Config}
use vehicle_bench_candidate.Backend.Lifecycle.{status_at}
use vehicle_bench_candidate.Bench.{Event, Conditions, Bench, body_poll, told_state, step, steps}
use vehicle_bench_candidate.Bench.Stuck.{sync_once-status}
use vehicle_bench_candidate.Bench.Served.{IsReady}

-- A second or a poll.
abbrev pub IsQuiet : Event → Type 0
IsQuiet Event.second = Unit
IsQuiet (Event.poll c) = Unit
IsQuiet _ = ⊥

-- The bench is ready; the Body ECU and the report that the backend has agree on whether the climate
-- runs and on its set point; and this set point was asked for.
pub record ShowsClimate (active : Bool) (raw : ℤ) (asked : Option Dyadic) (b : Bench) : Type 0 where
  pub ready : IsReady b
  pub runs : b.outside.body.climate_active ≡ active
  pub target : b.outside.body.climate_target_raw ≡ raw
  pub shown :
      (r : StateReport) × (at : ℕ) × (b.outside.backend.report ≡ some (r, at))
      × (r.climate_active ≡ active)
      × (r.target_temp_c ≡ halved raw)
  pub desired : b.outside.backend.desired_climate_target ≡ asked

module _ (cfg : Config) (cal : TcuCal) (bcal : BodyCal) where
  physics_tick-climate :
      (m : BodyModel)
      → ((physics_tick bcal m).climate_active ≡ m.climate_active)
        × ((physics_tick bcal m).climate_target_raw ≡ m.climate_target_raw)
  unfolding physics_tick charge_tick cabin_tick
  physics_tick-climate m = ground arith

  poll-ShowsClimate :
      (active : Bool) (raw : ℤ) (asked : Option Dyadic) (c : Conditions) (b : Bench)
      → ShowsClimate active raw asked b
      → ShowsClimate active raw asked (step cfg cal bcal (Event.poll c) b)
  unfolding step sync_once body_poll sync_failed sync_answered state_report backend_state_report
      get_body_state told_state
  poll-ShowsClimate active raw asked c b h = elim (Bool-cases c.reachable) [
    | inl up ↦ elim (Bool-cases c.report_arrives) [
      | inl told ↦
          rw (h.ready.running, up, told)
            (record {
              ready = record { running = refl; idle = h.ready.idle };
              runs = h.runs;
              target = h.target;
              shown = (_, b.outside.clock, refl, h.runs, ap halved h.target);
              desired = h.desired;
            })
      | inr lost ↦
          rw (h.ready.running, up, lost)
            (record {
              ready = record { running = refl; idle = h.ready.idle };
              runs = h.runs;
              target = h.target;
              shown = h.shown;
              desired = h.desired;
            })
    ]
    | inr down ↦
        rw (h.ready.running, down)
          (record {
            ready = record { running = refl; idle = h.ready.idle };
            runs = h.runs;
            target = h.target;
            shown = h.shown;
            desired = h.desired;
          })
  ]

  quiet-ShowsClimate :
      (active : Bool) (raw : ℤ) (asked : Option Dyadic) (e : Event) (b : Bench)
      → IsQuiet e
      → ShowsClimate active raw asked b
      → ShowsClimate active raw asked (step cfg cal bcal e b)
  unfolding step
  quiet-ShowsClimate active raw asked Event.second b quiet h = record {
    ready = record { running = h.ready.running; idle = h.ready.idle };
    runs = (physics_tick-climate b.outside.body).0 ∙ h.runs;
    target = (physics_tick-climate b.outside.body).1 ∙ h.target;
    shown = h.shown;
    desired = h.desired;
  }
  quiet-ShowsClimate active raw asked (Event.poll c) b quiet h =
      poll-ShowsClimate active raw asked c b h
  quiet-ShowsClimate active raw asked (Event.request link key id r) b quiet h = elim quiet [ ]
  quiet-ShowsClimate active raw asked (Event.round c) b quiet h = elim quiet [ ]
  quiet-ShowsClimate active raw asked Event.actuator b quiet h = elim quiet [ ]

  pub all_quiet-ShowsClimate :
      (active : Bool) (raw : ℤ) (asked : Option Dyadic) (es : List Event) (b : Bench)
      → All IsQuiet es
      → ShowsClimate active raw asked b
      → ShowsClimate active raw asked (steps cfg cal bcal es b)
  unfolding steps
  all_quiet-ShowsClimate active raw asked [] b quiet h = h
  all_quiet-ShowsClimate active raw asked (e ∷ es) b quiet h =
      all_quiet-ShowsClimate active raw asked es (step cfg cal bcal e b) quiet.1
        (quiet-ShowsClimate active raw asked e b quiet.0 h)

  quiet-status :
      (id : ℕ) (e : Event) (b : Bench)
      → IsQuiet e
      → status_at id (step cfg cal bcal e b).outside.backend ≡ status_at id b.outside.backend
  unfolding step
  quiet-status id Event.second b quiet = refl
  quiet-status id (Event.poll c) b quiet = elim (Bool-cases b.running) [
    | inl up ↦ rw up (sync_once-status cal bcal c id b.gateway b.outside)
    | inr down ↦ rw down refl
  ]
  quiet-status id (Event.request link key j r) b quiet = elim quiet [ ]
  quiet-status id (Event.round c) b quiet = elim quiet [ ]
  quiet-status id Event.actuator b quiet = elim quiet [ ]

  pub all_quiet-status :
      (id : ℕ) (es : List Event) (b : Bench)
      → All IsQuiet es
      → status_at id (steps cfg cal bcal es b).outside.backend ≡ status_at id b.outside.backend
  unfolding steps
  all_quiet-status id [] b quiet = refl
  all_quiet-status id (e ∷ es) b quiet =
      all_quiet-status id es (step cfg cal bcal e b) quiet.1 ∙ quiet-status id e b quiet.0
