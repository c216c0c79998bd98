-- ===== src/Runner/Session.antt =====
-- The parts of the climate scenario (`s02_climate_preconditioning` of
-- env/scenario-runner/run_scenarios.py): a command that is served at once, and a status after some sleep.
use mathlib.Core.Path.{subst}
use vehicle_bench_candidate.Base.{
  ℕ, ◌+◌, ◌≡◌, ◌∙◌, inl, inr, refl, ap, sym, Bool, Bool-cases, true, false, ◌&&◌, none, some, [],
  ◌∷◌, ◌++◌, All, if◌then◌else◌,
}
use vehicle_bench_candidate.Base.Int.{ℤ, pos}
use vehicle_bench_candidate.Base.Dyadic.{Dyadic, halved}
use vehicle_bench_candidate.Base.Dict.{insert}
use vehicle_bench_candidate.Body.{BodyCal, clamp_raw}
use vehicle_bench_candidate.Gateway.Types.{TcuCal, CommandBody}
use vehicle_bench_candidate.Gateway.Commands.{encode_hvac_temp}
use vehicle_bench_candidate.Backend.Store.{
  Store, CommandRecord, CommandType, command_text, completed, accepted,
}
use vehicle_bench_candidate.Backend.Commands.{
  Config, Request, accepted_record, route, dispatch_begin,
}
use vehicle_bench_candidate.Backend.Status.{VehicleStatus}
use vehicle_bench_candidate.Backend.Access.{serve-key}
use vehicle_bench_candidate.Bench.{answered_in_time}
use vehicle_bench_candidate.Bench.Served.{IsReady}
use vehicle_bench_candidate.Bench.Quiet.{IsQuiet, ShowsClimate, all_quiet-ShowsClimate}
use vehicle_bench_candidate.Bench.Answered.{commanded}
use vehicle_bench_candidate.Bench.Climate.{
  RunsClimate, IsAccepted, climate_started, unlocked, climate_stopped, set_point,
}
use vehicle_bench_candidate.Runner.{Moment, Shown, Runner, returned, meanwhile, status}
use vehicle_bench_candidate.Runner.Scenarios.{post_and_wait}
use vehicle_bench_candidate.Runner.Reading.{shown_by}
use vehicle_bench_candidate.Runner.Prompt.{
  Serves, client, served_bench, command_served, status_read,
}

-- 22.5 degrees
abbrev pub asked_for : Dyadic
asked_for = halved (pos 45)

-- The environment of the eleven requests of the scenario, the first of which is `k`.
pub record IsPromptSession (cal : TcuCal) (env : ℕ → Moment) (k : ℕ) : Type 0 where
  pub start : Serves cal env k
  pub seen : (env (k + 3)).reached ≡ answered_in_time
  pub seen_quiet : All IsQuiet (env (k + 3)).happens
  pub unlock : Serves cal env (k + 4)
  pub seen_again : (env (k + 7)).reached ≡ answered_in_time
  pub seen_again_quiet : All IsQuiet (env (k + 7)).happens
  pub stop : Serves cal env (k + 8)

accepts : (cfg : Config) → IsAccepted cfg asked_for
accepts cfg = elim (Bool-cases cfg.legacy_climate_schema) [ inl e ↦ rw e refl | inr e ↦ rw e refl ]

-- The set point with which the Body ECU runs then.
abbrev pub raw_asked : TcuCal → BodyCal → ℤ
raw_asked cal bcal = clamp_raw bcal (encode_hvac_temp cal asked_for)

-- What is left of the climate by an unlock.
abbrev pub left_running : BodyCal → Bool
left_running bcal = if bcal.hvac_reset_on_door_unlock && true then false else true

-- What a served command leaves: it is completed, three requests were made, and its acceptance and
-- its record were printed.
abbrev pub Sends : (ℕ → Moment) → Runner → Runner → Request → CommandRecord → Type 0
Sends env s s' r x =
    (x.status ≡ completed)
    × (s'.asked ≡ s.asked + 3)
    × (shown_by s'
        ≡ shown_by s
          ++ (Shown.posted r 200 (some (env s.asked).fresh) (some accepted)
              ∷ Shown.command_shown x
              ∷ []))

module _ (cfg : Config) (cal : TcuCal) (bcal : BodyCal) (maps : RunsClimate cal asked_for)
    (env : ℕ → Moment) (unknown : ℕ) where
  -- The bench after a served command shows what it showed when it was served.
  served-ShowsClimate :
      (active : Bool) (raw : ℤ) (r : Request) (s : Runner) (h : Serves cal env s.asked)
      → ShowsClimate active raw (some asked_for) (
          commanded cfg cal bcal h.meets cfg.api_key
            (env s.asked).fresh
            r
            (meanwhile cfg cal bcal env s))
      → ShowsClimate active raw (some asked_for) (served_bench cfg cal bcal env unknown r s h)
  served-ShowsClimate active raw r s h shows =
      all_quiet-ShowsClimate cfg cal bcal active raw (some asked_for) _ _ h.quiet_again
        (all_quiet-ShowsClimate cfg cal bcal active raw (some asked_for) _ _ h.later_quiet shows)

  pub started :
      (s : Runner)
      → Serves cal env s.asked
      → IsReady (meanwhile cfg cal bcal env s)
      → let r = Request.climate_start (some asked_for) in
        (x : CommandRecord) × (s' : Runner) × (post_and_wait cfg cal bcal env
            (client cfg cal bcal env unknown)
            r
            s
          ≡ (returned x, s'))
        × Sends env s s' r x
        × ShowsClimate true (raw_asked cal bcal) (some asked_for) s'.bench
  unfolding route dispatch_begin command_text
  started s h ready =
      let r = Request.climate_start (some asked_for) in
      let b = meanwhile cfg cal bcal env s in
      let id = (env s.asked).fresh in
      let (shows, done) =
        climate_started cfg cal bcal asked_for maps h.meets h.prompt id b ready (accepts cfg) in
      let body : CommandBody = record {
        request_id = some id;
        command = "CLIMATE_START";
        params = set_point asked_for;
      } in
      let store : Store = record (b.outside.backend) {
        commands =
            insert id
              (accepted_record id CommandType.climate_start (set_point asked_for) b.outside.clock)
              b.outside.backend.commands;
        desired_climate_target = some asked_for;
      } in
      let (x, s', returns, status, asked, bench, shown) =
        command_served cfg cal bcal env unknown r s h body store ready.running
          (serve-key cfg id b.outside.clock r b.outside.backend ∙ (rw (accepts cfg) refl)) done in
      (
        x,
        s',
        returns,
        (status, asked, shown),
        subst (ShowsClimate true (raw_asked cal bcal) (some asked_for)) (sym bench)
            (served-ShowsClimate true (raw_asked cal bcal) r s h shows),
      )

  pub unlocks :
      (s : Runner)
      → Serves cal env s.asked
      → ShowsClimate true (raw_asked cal bcal) (some asked_for) (meanwhile cfg cal bcal env s)
      → (x : CommandRecord) × (s' : Runner) × (post_and_wait cfg cal bcal env
            (client cfg cal bcal env unknown)
            Request.unlock
            s
          ≡ (returned x, s'))
        × Sends env s s' Request.unlock x
        × ShowsClimate (left_running bcal) (raw_asked cal bcal) (some asked_for) s'.bench
  unfolding route dispatch_begin command_text
  unlocks s h shows =
      let b = meanwhile cfg cal bcal env s in
      let id = (env s.asked).fresh in
      let (shows', done) =
        unlocked cfg cal bcal asked_for maps h.meets h.prompt id true (raw_asked cal bcal)
          (some asked_for) b shows in
      let (x, s', returns, status, asked, bench, shown) =
        command_served cfg cal bcal env unknown Request.unlock s h _ _ shows.ready.running
          (serve-key cfg id b.outside.clock Request.unlock b.outside.backend) done in
      (
        x,
        s',
        returns,
        (status, asked, shown),
        subst (ShowsClimate (left_running bcal) (raw_asked cal bcal) (some asked_for)) (sym bench) (
            served-ShowsClimate (left_running bcal) (raw_asked cal bcal) Request.unlock s h shows'),
      )

  pub stops :
      (active : Bool) (s : Runner)
      → Serves cal env s.asked
      → ShowsClimate active (raw_asked cal bcal) (some asked_for) (meanwhile cfg cal bcal env s)
      → (x : CommandRecord) × (s' : Runner) × (post_and_wait cfg cal bcal env
            (client cfg cal bcal env unknown)
            Request.climate_stop
            s
          ≡ (returned x, s'))
        × Sends env s s' Request.climate_stop x
        × ShowsClimate false (raw_asked cal bcal) none s'.bench
  unfolding route dispatch_begin command_text
  stops active s h shows =
      let b = meanwhile cfg cal bcal env s in
      let id = (env s.asked).fresh in
      let (shows', done) =
        climate_stopped cfg cal bcal asked_for maps h.meets h.prompt id active (raw_asked cal bcal)
          (some asked_for) b shows in
      let (x, s', returns, status, asked, bench, shown) =
        command_served cfg cal bcal env unknown Request.climate_stop s h _ _ shows.ready.running
          (serve-key cfg id b.outside.clock Request.climate_stop b.outside.backend) done in
      (
        x,
        s',
        returns,
        (status, asked, shown),
        subst (ShowsClimate false (raw_asked cal bcal) none) (sym bench) (
            all_quiet-ShowsClimate cfg cal bcal false (raw_asked cal bcal) none _ _ h.quiet_again (
              all_quiet-ShowsClimate cfg cal bcal false (raw_asked cal bcal) none _ _ h.later_quiet
                shows')),
      )

  -- A status that is read after some sleep.
  pub looks :
      (active : Bool) (ms k : ℕ) (s : Runner)
      → s.asked ≡ k
      → (env k).reached ≡ answered_in_time
      → All IsQuiet (env k).happens
      → ShowsClimate active (raw_asked cal bcal) (some asked_for) s.bench
      → let s1 = record s { time = s.time + ms } in
        (v : VehicleStatus) × (s' : Runner) × (status cfg cal bcal env cfg.api_key s1
          ≡ (returned tt, s'))
        × (v.climate_active ≡ some active)
        × (v.target_temp_c ≡ some (if active then asked_for else halved (raw_asked cal bcal)))
        × (s'.asked ≡ k + 1)
        × (shown_by s' ≡ shown_by s ++ Shown.status_shown v ∷ [])
        × ShowsClimate active (raw_asked cal bcal) (some asked_for) s'.bench
  looks active ms k s asked reached quiet shows =
      let s1 = record s { time = s.time + ms } in
      let shows1 =
        all_quiet-ShowsClimate cfg cal bcal active (raw_asked cal bcal) (some asked_for)
          (env s.asked).happens s.bench (subst (λ j. All IsQuiet (env j).happens) (sym asked) quiet)
          shows in
      let (v, s', returns, runs, target, asked', bench, shown) =
        status_read cfg cal bcal env unknown active (raw_asked cal bcal) asked_for s1
          (subst (λ j. (env j).reached ≡ answered_in_time) (sym asked) reached) shows1 in
      (
        v,
        s',
        returns,
        runs,
        target,
        asked' ∙ ap (λ j. j + 1) asked,
        shown,
        subst (ShowsClimate active (raw_asked cal bcal) (some asked_for)) (sym bench) shows1,
      )
