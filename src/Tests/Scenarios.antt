-- ===== src/Tests/Scenarios.antt =====
-- The theorems on the climate scenario and the contract checks of the scenario runner, on the bench of
-- Tests/Runner.
use vehicle_bench_candidate.Base.{
  ℕ, ◌+◌, ◌%◌, ◌≡◌, ◌≢◌, refl, true, false, not, none, some, List, [], ◌∷◌, ◌++◌, arith,
}
use vehicle_bench_candidate.Base.Dict.{lookup}
use vehicle_bench_candidate.Body.{clamp_raw}
use vehicle_bench_candidate.Gateway.Commands.{encode_hvac_temp, map_command, method_named}
use vehicle_bench_candidate.Backend.Store.{CommandRecord, completed}
use vehicle_bench_candidate.Backend.Commands.{Request, serve, state_report}
use vehicle_bench_candidate.Gateway.Worker.{worker_round}
use vehicle_bench_candidate.Backend.Status.{VehicleStatus}
use vehicle_bench_candidate.Bench.{Event, IsOnline, body_poll, told_state, step, steps}
use vehicle_bench_candidate.Gateway.Sync.{sync_once, sync_answered}
use vehicle_bench_candidate.Bench.Served.{IsReady}
use vehicle_bench_candidate.Bench.Climate.{RunsClimate, IsPrompt}
use vehicle_bench_candidate.Runner.{Shown, Ev, Runner, returned, out_of_fuel, meanwhile}
use vehicle_bench_candidate.Runner.Scenarios.{
  Client, s02_climate_preconditioning, s04_api_validation,
}
use vehicle_bench_candidate.Runner.Validation.{tester, refused, unfound, s04_refusals}
use vehicle_bench_candidate.Runner.Reading.{shown_by}
use vehicle_bench_candidate.Runner.Prompt.{Serves, client}
use vehicle_bench_candidate.Runner.Session.{asked_for, IsPromptSession}
use vehicle_bench_candidate.Runner.Preconditioning.{accepted_post, s02_shows}
use vehicle_bench_candidate.Body as BodyEcu
use vehicle_bench_candidate.Body.{get_body_state}
use vehicle_bench_candidate.Gateway.Sync.{state_report as report_of}
use vehicle_bench_candidate.Runner.{reset}
use vehicle_bench_candidate.Runner.Resetting.{reset_restores}
use vehicle_bench_candidate.Tests.{body_cal, tcu_cal}
use vehicle_bench_candidate.Tests.Runner.{done_bench, config, meets, env, first}

tcu_cal-RunsClimate : RunsClimate tcu_cal asked_for
unfolding map_command method_named encode_hvac_temp
tcu_cal-RunsClimate = record {
  start = ("hvac_start", refl, refl, refl);
  unlock = ("door_unlock", refl, refl, tt);
  stop = ("hvac_stop", refl, refl, tt);
  syncs = refl;
}

meets-IsOnline : IsOnline meets
meets-IsOnline = record { reachable = refl; result_arrives = refl; report_arrives = refl }

pub meets-IsPrompt : IsPrompt tcu_cal meets
meets-IsPrompt = record { online = meets-IsOnline; travel = omega arith; delay = omega arith }

served_at : (k : ℕ) → k % 4 ≡ 0 → Serves tcu_cal env k
served_at k h = record {
  meets = meets;
  later = Event.second ∷ [];
  prompt = meets-IsPrompt;
  answered = record { reached = refl; forwarded = refl };
  quiet = ground arith;
  reached = refl;
  served = ground arith;
  later_quiet = (tt, tt);
  reached_again = refl;
  quiet_again = ground arith;
}

first-IsPromptSession : IsPromptSession tcu_cal env 0
first-IsPromptSession = record {
  start = served_at 0 refl;
  seen = refl;
  seen_quiet = (tt, (tt, tt));
  unlock = served_at 4 refl;
  seen_again = refl;
  seen_again_quiet = (tt, (tt, tt));
  stop = served_at 8 refl;
}

first-IsReady : IsReady (meanwhile config tcu_cal body_cal env first)
unfolding steps step sync_once body_poll sync_answered
first-IsReady = record { running = refl; idle = refl }

s02_shows_example :
    let runner = client config tcu_cal body_cal env 0 in
    let (end, s') = s02_climate_preconditioning config tcu_cal body_cal env runner first in
    (end ≡ returned tt)
    × (x1 : CommandRecord) × (v1 : VehicleStatus) × (x2 : CommandRecord) × (v2 : VehicleStatus)
    × (x3 : CommandRecord) × (shown_by s'
        ≡ shown_by first
          ++ (accepted_post env (Request.climate_start (some asked_for)) 0
              ∷ Shown.command_shown x1
              ∷ Shown.status_shown v1
              ∷ accepted_post env Request.unlock (0 + 4)
              ∷ Shown.command_shown x2
              ∷ Shown.status_shown v2
              ∷ accepted_post env Request.climate_stop (0 + 8)
              ∷ Shown.command_shown x3
              ∷ []))
    × (x1.status ≡ completed)
    × (x2.status ≡ completed)
    × (x3.status ≡ completed)
    × (v1.climate_active ≡ some true)
    × (v1.target_temp_c ≡ some asked_for)
    × (v2.climate_active ≡ some (not body_cal.hvac_reset_on_door_unlock))
    × (s'.bench.outside.body.climate_active ≡ false)
    × (s'.bench.outside.body.climate_target_raw
        ≡ clamp_raw body_cal (encode_hvac_temp tcu_cal asked_for))
s02_shows_example =
    s02_shows config tcu_cal body_cal tcu_cal-RunsClimate env 0 first first-IsPromptSession
      first-IsReady

abbrev checker : Client
checker = tester config tcu_cal body_cal env 404

abbrev refused_first : Runner
refused_first = refused config tcu_cal body_cal env 404 first

unknown_missing :
    lookup 404 (meanwhile config tcu_cal body_cal env refused_first).outside.backend.commands ≡ none
unfolding steps step serve sync_once body_poll sync_answered state_report worker_round told_state
unknown_missing = refl

s04_refusals_example :
    let (end, s') = s04_api_validation config tcu_cal body_cal env checker first in
    let second = unfound config tcu_cal body_cal env 404 (refused_first) in
    (end ≢ out_of_fuel)
    × ((es : List Ev) × (s'.events
          ≡ []
            ++ (record { t = refused_first.time; shown = Shown.lock_without_key 401 }
                ∷ record { t = second.time; shown = Shown.get_unknown 404 }
                ∷ es)))
    × (refused_first.bench ≡ meanwhile config tcu_cal body_cal env first)
s04_refusals_example = s04_refusals config tcu_cal body_cal env 404 first refl refl unknown_missing

abbrev used : Runner
used = record first { bench = done_bench }

abbrev rebooted : Runner
rebooted = (reset config tcu_cal body_cal env "secret" used).1

reset_restores_example :
    let b = meanwhile config tcu_cal body_cal env used in
    let now = b.outside.clock in
    let fresh = BodyEcu.reset body_cal in
    ((reset config tcu_cal body_cal env "secret" used).0 ≡ returned tt)
    × (rebooted.events ≡ [] ++ (record { t = 0 + 12; shown = Shown.reset_done 200 }) ∷ [])
    × (rebooted.bench.outside.backend.commands ≡ [])
    × (rebooted.bench.outside.backend.desired_climate_target ≡ none)
    × (rebooted.bench.outside.backend.report
        ≡ some (report_of tcu_cal now (get_body_state body_cal now fresh), now))
    × (rebooted.bench.outside.body ≡ fresh)
    × (rebooted.bench.gateway.queue ≡ [])
    × (rebooted.bench.outside.pending ≡ b.outside.pending)
unfolding steps step sync_once body_poll sync_answered
reset_restores_example =
    reset_restores config tcu_cal body_cal env used (record { reached = refl; forwarded = refl })
      refl refl refl
