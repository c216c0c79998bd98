-- ===== src/Tests/Cycles.antt =====
-- The theorem on the scenario of unlocking and locking, on the bench of Tests/Runner.
use vehicle_bench_candidate.Base.{
  ℕ, ◌+◌, ◌%◌, ◌≡◌, ◌==◌, refl, Bool, true, false, none, some, List, [], ◌∷◌, ◌++◌, arith,
  if◌then◌else◌,
}
use vehicle_bench_candidate.Body.{reset, get_body_state}
use vehicle_bench_candidate.Gateway.Commands.{map_command, method_named}
use vehicle_bench_candidate.Gateway.Queue.{RunsBy}
use vehicle_bench_candidate.Gateway.Sync.{state_report}
use vehicle_bench_candidate.Gateway.Worker.{new_record}
use vehicle_bench_candidate.Backend.Status.{VehicleStatus}
use vehicle_bench_candidate.Bench.{Event, answered_in_time}
use vehicle_bench_candidate.Bench.Doors.{method}
use vehicle_bench_candidate.Bench.Locked.{RunsDoors, ShowsDoors, door_body}
use vehicle_bench_candidate.Runner.{Moment, Shown, Runner, returned}
use vehicle_bench_candidate.Runner.Scenarios.{s01_lock_unlock_cycles}
use vehicle_bench_candidate.Runner.Reading.{shown_by}
use vehicle_bench_candidate.Runner.Prompt.{Serves, client}
use vehicle_bench_candidate.Runner.Cycles.{IsPromptCycles, PrintsCycles, s01_shows}
use vehicle_bench_candidate.Tests.{body_cal, tcu_cal}
use vehicle_bench_candidate.Tests.Runner.{idle_bench, config, meets}
use vehicle_bench_candidate.Tests.Scenarios.{meets-IsPrompt}

tcu_cal-RunsDoors : RunsDoors tcu_cal
unfolding map_command method_named
tcu_cal-RunsDoors = record { runs = doors; syncs = refl }
  where
    doors : (lock : Bool) → RunsBy tcu_cal (new_record 0 0 (door_body 0 lock)) (method lock)
    doors true = ("door_lock", refl, refl, tt)
    doors false = ("door_unlock", refl, refl, tt)

-- The worker takes a round before the second request of each command.
abbrev moments : ℕ → Moment
moments k = record {
  happens =
      if k % 3 == 1
      then Event.round meets ∷ Event.second ∷ []
      else Event.second ∷ Event.poll meets ∷ [];
  lasts = 12;
  reached = answered_in_time;
  forwarding = answered_in_time;
  fresh = k + 1;
  vehicle = meets;
}

-- The bench after a poll.
abbrev begun : Runner
begun = record {
  bench = record idle_bench {
    outside = record (idle_bench.outside) {
      backend = record {
        report =
            some (state_report tcu_cal 900 (get_body_state body_cal 900 (reset body_cal)), 900);
        commands = [];
        desired_climate_target = none;
      };
    };
  };
  time = 0;
  asked = 0;
  events = [];
}

served_at : (k : ℕ) → k % 3 ≡ 0 → Serves tcu_cal moments k
served_at k h = record {
  meets = meets;
  later = Event.second ∷ [];
  prompt = meets-IsPrompt;
  answered = record { reached = refl; forwarded = refl };
  quiet = ground arith;
  reached = refl;
  served = ground arith;
  later_quiet = (tt, tt);
  reached_again = refl;
  quiet_again = ground arith;
}

begun-IsPromptCycles : IsPromptCycles tcu_cal moments 2 0
begun-IsPromptCycles = record {
  cycles = (served_at 0 refl, served_at 3 refl, (served_at 6 refl, served_at 9 refl, tt));
  seen = refl;
  seen_quiet = (tt, (tt, tt));
}

begun-ShowsDoors : ShowsDoors true begun.bench
unfolding reset state_report get_body_state
begun-ShowsDoors = record {
  ready = record { running = refl; idle = refl };
  doors = refl;
  shown = refl;
}

s01_shows_example :
    let (end, s') =
      s01_lock_unlock_cycles config tcu_cal body_cal moments
        (client config tcu_cal body_cal moments 0)
        2
        begun in
    (end ≡ returned tt)
    × (es : List Shown) × (v : VehicleStatus) × (shown_by s'
        ≡ shown_by begun ++ (es ++ Shown.status_shown v ∷ []))
    × PrintsCycles moments 2 begun.asked es
    × (v.doors_locked ≡ some true)
    × (s'.bench.outside.body.doors_locked ≡ true)
s01_shows_example =
    s01_shows config tcu_cal body_cal tcu_cal-RunsDoors moments 0 2 begun begun-IsPromptCycles
      begun-ShowsDoors
