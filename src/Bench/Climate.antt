-- ===== src/Bench/Climate.antt =====
-- The commands of the climate scenario (`s02_climate_preconditioning` of
-- env/scenario-runner/run_scenarios.py) on the bench: starting the climate, unlocking the doors,
-- stopping the climate.
use vehicle_bench_candidate.Base.{
  ℕ, ◌≡◌, ◌<◌, ◌∙◌, refl, ap, Bool, true, false, ◌&&◌, ◌||◌, Option, none, some, arith, ltb,
  if◌then◌else◌,
}
use vehicle_bench_candidate.Base.Int.{ℤ, pos}
use vehicle_bench_candidate.Base.Dyadic.{Dyadic, halved, at_least, at_most}
use vehicle_bench_candidate.Base.Dict.{insert, lookup-insert}
use vehicle_bench_candidate.Proto.{LockAction, ClimateAction}
use vehicle_bench_candidate.Body.{
  BodyCal, BodyModel, clamp_raw, actuate_door_lock, set_climate, get_body_state,
}
use vehicle_bench_candidate.Gateway.Types.{TcuCal, Params}
use vehicle_bench_candidate.Gateway.Commands.{encode_hvac_temp, hvac_start, hvac_stop, door_unlock}
use vehicle_bench_candidate.Gateway.Sync.{state_report}
use vehicle_bench_candidate.Gateway.Worker.{new_record}
use vehicle_bench_candidate.Gateway.Queue.{RunsBy}
use vehicle_bench_candidate.Backend.Store.{Store, CommandType, command_text, completed}
use vehicle_bench_candidate.Backend.Commands.{
  Config, Request, accepted_record, no_params, route, dispatch_begin,
}
use vehicle_bench_candidate.Backend.Access.{serve-key}
use vehicle_bench_candidate.Backend.Lifecycle.{status_at}
use vehicle_bench_candidate.Bench.{Conditions, IsOnline, Bench, body_rpc}
use vehicle_bench_candidate.Bench.Rounds.{Syncs}
use vehicle_bench_candidate.Bench.Served.{IsReady}
use vehicle_bench_candidate.Bench.Answered.{IsAnsweredBy, commanded, commanded-IsAnsweredBy}
use vehicle_bench_candidate.Bench.Quiet.{ShowsClimate}

abbrev pub set_point : Dyadic → Params
set_point t = record { target_temp_c = some t; target_soc_percent = none }

-- A calibration under which the worker runs the three commands and polls after them.
pub record RunsClimate (cal : TcuCal) (t : Dyadic) : Type 0 where
  pub start :
      RunsBy cal
        (new_record 0 0
          (record { request_id = some 0; command = "CLIMATE_START"; params = set_point t }))
        hvac_start
  pub unlock :
      RunsBy cal
        (new_record 0 0 (record { request_id = some 0; command = "UNLOCK"; params = no_params }))
        door_unlock
  pub stop :
      RunsBy cal
        (new_record 0 0
          (record { request_id = some 0; command = "CLIMATE_STOP"; params = no_params }))
        hvac_stop
  pub syncs : Syncs cal

-- The Body ECU is reachable, the gateway's posts arrive, and the handlers are done before the deadlines of the calls.
pub record IsPrompt (cal : TcuCal) (c : Conditions) : Type 0 where
  pub online : IsOnline c
  pub travel : c.travel_ms < cal.door_lock_ack_timeout_ms
  pub delay : c.delay_ms < cal.hvac_ack_timeout_ms

-- The set point is one that the configured schema lets through.
abbrev pub IsAccepted : Config → Dyadic → Type 0
IsAccepted cfg t = (cfg.legacy_climate_schema || at_least t 16 && at_most t 28) ≡ true

module _ (cfg : Config) (cal : TcuCal) (bcal : BodyCal) (t : Dyadic) (maps : RunsClimate cal t)
    (c : Conditions) (prompt : IsPrompt cal c) where
  IsAnsweredBy-ShowsClimate :
      (id now : ℕ) (m : BodyModel) (active : Bool) (raw : ℤ) (asked : Option Dyadic) (b : Bench)
      → m.climate_active ≡ active
      → m.climate_target_raw ≡ raw
      → IsAnsweredBy cal bcal id now m completed b
      → b.outside.backend.desired_climate_target ≡ asked
      → ShowsClimate active raw asked b × (status_at id b.outside.backend ≡ some completed)
  unfolding state_report get_body_state
  IsAnsweredBy-ShowsClimate id now m active raw asked b runs target h desired = (
    record {
      ready = h.ready;
      runs = ap (λ (x : BodyModel). x.climate_active) h.body ∙ runs;
      target = ap (λ (x : BodyModel). x.climate_target_raw) h.body ∙ target;
      shown =
          (state_report cal now (get_body_state bcal now m), now, h.report, runs, ap halved target);
      desired = desired;
    },
    h.status,
  )

  in_time_hvac : ltb c.delay_ms cal.hvac_ack_timeout_ms ≡ true
  in_time_hvac = ground (arith, prompt.delay)

  in_time_door : ltb c.travel_ms cal.door_lock_ack_timeout_ms ≡ true
  in_time_door = ground (arith, prompt.travel)

  pub climate_started :
      (id : ℕ) (b : Bench)
      → IsReady b
      → IsAccepted cfg t
      → let b' = commanded cfg cal bcal c cfg.api_key id (Request.climate_start (some t)) b in
        ShowsClimate true (clamp_raw bcal (encode_hvac_temp cal t)) (some t) b'
        × (status_at id b'.outside.backend ≡ some completed)
  unfolding route dispatch_begin command_text body_rpc set_climate
  climate_started id b ready accepted =
      let params = set_point t in
      let now = b.outside.clock in
      let rec = accepted_record id CommandType.climate_start params now in
      let (ack, m) =
        set_climate bcal now
          (record {
            request_id = id;
            action = ClimateAction.climate_start;
            target_temp_raw = encode_hvac_temp cal t;
          })
          b.outside.body in
      let store : Store = record (b.outside.backend) {
        commands = insert id rec b.outside.backend.commands;
        desired_climate_target = some t;
      } in
      let (h, desired) =
        commanded-IsAnsweredBy cfg cal bcal c cfg.api_key id (Request.climate_start (some t))
          "CLIMATE_START" params store b hvac_start ack m {x = rec} ready
          (serve-key cfg id now (Request.climate_start (some t)) b.outside.backend
            ∙ (rw accepted refl))
          refl maps.start maps.syncs prompt.online
          (ground (arith, lookup-insert id id rec b.outside.backend.commands))
          (λ backend. rw (prompt.online.reachable, in_time_hvac) refl) in
      IsAnsweredBy-ShowsClimate id now m true (clamp_raw bcal (encode_hvac_temp cal t)) (some t) _
        refl refl h desired

  -- An unlock stops the climate under a calibration that says so.
  pub unlocked :
      (id : ℕ) (active : Bool) (raw : ℤ) (asked : Option Dyadic) (b : Bench)
      → ShowsClimate active raw asked b
      → let b' = commanded cfg cal bcal c cfg.api_key id Request.unlock b in
        ShowsClimate
          (if bcal.hvac_reset_on_door_unlock && active then false else active)
          raw
          asked
          b'
        × (status_at id b'.outside.backend ≡ some completed)
  unfolding route dispatch_begin command_text body_rpc actuate_door_lock
  unlocked id active raw asked b shows =
      let now = b.outside.clock in
      let rec = accepted_record id CommandType.unlock no_params now in
      let (ack, m) =
        actuate_door_lock bcal now (record { request_id = id; action = LockAction.unlock })
          b.outside.body in
      let store : Store = record (b.outside.backend) {
        commands = insert id rec b.outside.backend.commands;
      } in
      let (h, desired) =
        commanded-IsAnsweredBy cfg cal bcal c cfg.api_key id Request.unlock "UNLOCK" no_params store
          b door_unlock ack m {x = rec} shows.ready
          (serve-key cfg id now Request.unlock b.outside.backend) refl maps.unlock maps.syncs
          prompt.online (ground (arith, lookup-insert id id rec b.outside.backend.commands))
          (λ backend. rw (prompt.online.reachable, in_time_door) refl) in
      IsAnsweredBy-ShowsClimate id now m
        (if bcal.hvac_reset_on_door_unlock && active then false else active) raw asked _
        (ap (λ x. if bcal.hvac_reset_on_door_unlock && x then false else x) shows.runs) shows.target
        h (desired ∙ shows.desired)

  pub climate_stopped :
      (id : ℕ) (active : Bool) (raw : ℤ) (asked : Option Dyadic) (b : Bench)
      → ShowsClimate active raw asked b
      → let b' = commanded cfg cal bcal c cfg.api_key id Request.climate_stop b in
        ShowsClimate false raw none b' × (status_at id b'.outside.backend ≡ some completed)
  unfolding route dispatch_begin command_text body_rpc set_climate
  climate_stopped id active raw asked b shows =
      let now = b.outside.clock in
      let rec = accepted_record id CommandType.climate_stop no_params now in
      let (ack, m) =
        set_climate bcal now
          (record { request_id = id; action = ClimateAction.climate_stop; target_temp_raw = pos 0 })
          b.outside.body in
      let store : Store = record (b.outside.backend) {
        commands = insert id rec b.outside.backend.commands;
        desired_climate_target = none;
      } in
      let (h, desired) =
        commanded-IsAnsweredBy cfg cal bcal c cfg.api_key id Request.climate_stop "CLIMATE_STOP"
          no_params store b hvac_stop ack m {x = rec} shows.ready
          (serve-key cfg id now Request.climate_stop b.outside.backend) refl maps.stop maps.syncs
          prompt.online (ground (arith, lookup-insert id id rec b.outside.backend.commands))
          (λ backend. rw (prompt.online.reachable, in_time_hvac) refl) in
      IsAnsweredBy-ShowsClimate id now m false raw none _ refl shows.target h desired
