-- ===== src/Runner/Cycles.antt =====
-- The scenario that unlocks and locks the car (`s01_lock_unlock_cycles` of
-- env/scenario-runner/run_scenarios.py) from end to end, on a bench where the gateway serves each
-- command before the runner's first poll.
use mathlib.Core.Option
use mathlib.Core.List.{map-append, append-nil}
use mathlib.Core.Path.{subst}
use vehicle_bench_candidate.Base.{
  ℕ, zero, suc, ◌+◌, ◌*◌, ◌≡◌, ◌∙◌, refl, ap, sym, Bool, true, false, Option, none, some, List, [],
  ◌∷◌, ◌++◌, All, arith,
}
use vehicle_bench_candidate.Base.Dyadic.{Dyadic}
use vehicle_bench_candidate.Body.{BodyCal}
use vehicle_bench_candidate.Gateway.Types.{TcuCal, StateReport}
use vehicle_bench_candidate.Backend.Store.{CommandRecord, completed, ok}
use vehicle_bench_candidate.Backend.Commands.{Config, Request}
use vehicle_bench_candidate.Backend.Status.{VehicleStatus, status_of_report, vehicle_status}
use vehicle_bench_candidate.Bench.{Bench, answered_in_time}
use vehicle_bench_candidate.Bench.Quiet.{IsQuiet}
use vehicle_bench_candidate.Bench.Locked.{
  door_path, RunsDoors, ShowsDoors, all_quiet-ShowsDoors, serve-door, door_body, stored,
  door_commanded,
}
use vehicle_bench_candidate.Runner.{
  Moment, Shown, Ev, Runner, returned, Script, ◌>>◌, sleep, meanwhile, status,
}
use vehicle_bench_candidate.Runner.Scenarios.{post_and_wait, s01_cycles, s01_lock_unlock_cycles}
use vehicle_bench_candidate.Runner.Reading.{shown_by, asked_again, key-matches}
use vehicle_bench_candidate.Runner.Prompt.{Serves, client, command_served}
use vehicle_bench_candidate.Runner.Preconditioning.{runs_then, printed, accepted_post}

-- The environment of `n` cycles of six requests each, the first of which is `k`.
abbrev pub ServesCycles : TcuCal → (ℕ → Moment) → ℕ → ℕ → Type 0
ServesCycles cal env zero k = Unit
ServesCycles cal env (suc n) k =
    Serves cal env k × Serves cal env (k + 3) × ServesCycles cal env n (k + 6)

-- The environment of the scenario: the cycles, and the status after them.
pub record IsPromptCycles (cal : TcuCal) (env : ℕ → Moment) (n k : ℕ) : Type 0 where
  pub cycles : ServesCycles cal env n k
  pub seen : (env (k + n * 6)).reached ≡ answered_in_time
  pub seen_quiet : All IsQuiet (env (k + n * 6)).happens

-- What `n` cycles print: each command is accepted and then COMPLETED.
abbrev pub PrintsCycles : (ℕ → Moment) → ℕ → ℕ → List Shown → Type 0
PrintsCycles env zero k es = es ≡ []
PrintsCycles env (suc n) k es =
    (x1 x2 : CommandRecord) × (rest : List Shown) × (es
      ≡ (accepted_post env Request.unlock k ∷ Shown.command_shown x1 ∷ [])
        ++ ((accepted_post env Request.lock (k + 3) ∷ Shown.command_shown x2 ∷ []) ++ rest))
    × (x1.status ≡ completed)
    × (x2.status ≡ completed)
    × PrintsCycles env n (k + 6) rest

status_of_report-doors :
    (now : ℕ) (desired : Option Dyadic) (report : Option (StateReport × ℕ))
    → (status_of_report now desired report).doors_locked ≡ Option.map (λ e. e.0.doors_locked) report
status_of_report-doors now desired none = refl
status_of_report-doors now desired (some report) = refl

module _ (cfg : Config) (cal : TcuCal) (bcal : BodyCal) (maps : RunsDoors cal) (env : ℕ → Moment)
    (unknown : ℕ) where
  abbrev sends : Bool → Script CommandRecord
  sends lock = post_and_wait cfg cal bcal env (client cfg cal bcal env unknown) (door_path lock)

  door_sent :
      (lock was : Bool) (k : ℕ) (s : Runner)
      → s.asked ≡ k
      → Serves cal env k
      → ShowsDoors was s.bench
      → (x : CommandRecord) × (s' : Runner) × (sends lock s ≡ (returned x, s'))
        × (x.status ≡ completed)
        × (s'.asked ≡ k + 3)
        × (shown_by s'
            ≡ shown_by s ++ (accepted_post env (door_path lock) k ∷ Shown.command_shown x ∷ []))
        × ShowsDoors lock s'.bench
  door_sent lock was k s asked serves shows =
      let h = subst (Serves cal env) (sym asked) serves in
      let b = meanwhile cfg cal bcal env s in
      let id = (env s.asked).fresh in
      let ready =
        (all_quiet-ShowsDoors cfg cal bcal was (env s.asked).happens s.bench h.quiet shows).ready in
      let (shows', done) = door_commanded cfg cal bcal maps h.meets h.prompt lock id b ready in
      let (x, s', returns, status, asked', bench, shown) =
        command_served cfg cal bcal env unknown (door_path lock) s h (door_body id lock)
          (stored cfg cal bcal lock id b) ready.running (serve-door cfg cal bcal lock id b) done in
      (
        x,
        s',
        returns,
        status,
        asked' ∙ ap (λ j. j + 3) asked,
        shown
            ∙ ap
                (λ j.
                  shown_by s ++ (accepted_post env (door_path lock) j ∷ Shown.command_shown x ∷ []))
                asked,
        subst (ShowsDoors lock) (sym bench) (
            all_quiet-ShowsDoors cfg cal bcal lock _ _ h.quiet_again
              (all_quiet-ShowsDoors cfg cal bcal lock _ _ h.later_quiet shows')),
      )

  abbrev slept : ℕ → Runner → Runner
  slept ms s = record s { time = s.time + ms }

  cycles_sent :
      (n k : ℕ) (s : Runner)
      → s.asked ≡ k
      → ServesCycles cal env n k
      → ShowsDoors true s.bench
      → (es : List Shown) × (s' : Runner) × (s01_cycles cfg cal bcal env
            (client cfg cal bcal env unknown)
            n
            s
          ≡ (returned tt, s'))
        × (s'.asked ≡ k + n * 6)
        × (shown_by s' ≡ shown_by s ++ es)
        × PrintsCycles env n k es
        × ShowsDoors true s'.bench
  unfolding s01_cycles
  cycles_sent zero k s asked h shows =
      ([], s, refl, omega (arith, asked), sym (append-nil (shown_by s)), refl, shows)
  cycles_sent (suc n) k s asked h shows =
      let (unlocks, locks, later) = h in
      let (x1, s1, run1, done1, asked1, shown1, shows1) =
        door_sent false true k s asked unlocks shows in
      let (x2, s2, run2, done2, asked2, shown2, shows2) =
        door_sent true false (k + 3) (slept 500 s1) asked1 locks shows1 in
      let (es, s3, run3, asked3, shown3, prints, shows3) =
        cycles_sent n (k + 6) (slept 500 s2) (omega (arith, asked2)) later shows2 in
      (
        _,
        s3,
        runs_then (sends false >> sleep 500 >> sends true >> sleep 500)
            (s01_cycles cfg cal bcal env (client cfg cal bcal env unknown) n) s (slept 500 s2) tt
            (runs_then (sends false >> sleep 500 >> sends true) (sleep 500) s s2 x2
              (runs_then (sends false >> sleep 500) (sends true) s (slept 500 s1) tt
                (runs_then (sends false) (sleep 500) s s1 x1 run1 refl) run2)
              refl)
            run3,
        omega (arith, asked3),
        printed (shown_by s3) (shown_by s1) (shown_by s)
            (accepted_post env Request.unlock k ∷ Shown.command_shown x1 ∷ []) _
            (printed (shown_by s3) (shown_by s2) (shown_by s1)
              (accepted_post env Request.lock (k + 3) ∷ Shown.command_shown x2 ∷ []) es shown3
              shown2)
            shown1,
        (x1, x2, es, refl, done1, done2, prints),
        shows3,
      )

  -- The status that is read while the report shows the doors.
  doors_read :
      (lock : Bool) (s : Runner)
      → (env s.asked).reached ≡ answered_in_time
      → ShowsDoors lock (meanwhile cfg cal bcal env s)
      → (v : VehicleStatus) × (s' : Runner) × (status cfg cal bcal env cfg.api_key s
          ≡ (returned tt, s'))
        × (v.doors_locked ≡ some lock)
        × (s'.bench ≡ meanwhile cfg cal bcal env s)
        × (shown_by s' ≡ shown_by s ++ Shown.status_shown v ∷ [])
  unfolding vehicle_status
  doors_read lock s reached h =
      let b = meanwhile cfg cal bcal env s in
      let now = b.outside.clock in
      let v =
        status_of_report now b.outside.backend.desired_climate_target b.outside.backend.report in
      let answer : (vehicle_status cfg (some cfg.api_key) now b.outside.backend).0 ≡ ok v =
        rw (key-matches cfg cal bcal env) refl in
      let s' = asked_again cfg cal bcal env s in
      (
        v,
        record s' {
          events = s.events ++ (record { t = s'.time; shown = Shown.status_shown v }) ∷ [];
        },
        rw (reached, answer) refl,
        status_of_report-doors now b.outside.backend.desired_climate_target b.outside.backend.report
            ∙ h.shown,
        refl,
        map-append (λ (e : Ev). e.shown) s.events _,
      )

  -- The scenario with any number of cycles, on a bench that is idle with the doors locked and reported
  -- as locked, as a reset leaves it, when the calibration runs both door commands and polls after
  -- them, all requests of the runner and their forwardings are answered, and the worker serves each
  -- command in time and with its posts arriving before the runner's first poll, with only seconds and
  -- polls of the gateway besides: it ends, and prints for each unlock and each lock its acceptance and
  -- a record that is COMPLETED, and at the end a status that shows the doors locked, which they are.
  pub s01_shows :
      (n : ℕ) (s : Runner)
      → IsPromptCycles cal env n s.asked
      → ShowsDoors true s.bench
      → let (end, s') =
          s01_lock_unlock_cycles cfg cal bcal env (client cfg cal bcal env unknown) n s in
        (end ≡ returned tt)
        × (es : List Shown) × (v : VehicleStatus) × (shown_by s'
            ≡ shown_by s ++ (es ++ Shown.status_shown v ∷ []))
        × PrintsCycles env n s.asked es
        × (v.doors_locked ≡ some true)
        × (s'.bench.outside.body.doors_locked ≡ true)
  unfolding s01_lock_unlock_cycles
  s01_shows n s h shows =
      let (es, s1, run1, asked1, shown1, prints, shows1) =
        cycles_sent n s.asked s refl h.cycles shows in
      let s2 = slept 5500 s1 in
      let shows2 =
        all_quiet-ShowsDoors cfg cal bcal true (env s1.asked).happens s1.bench
          (subst (λ j. All IsQuiet (env j).happens) (sym asked1) h.seen_quiet) shows1 in
      let (v, s3, run3, doors, bench, shown3) =
        doors_read true s2 (subst (λ j. (env j).reached ≡ answered_in_time) (sym asked1) h.seen)
          shows2 in
      let cycled = s01_cycles cfg cal bcal env (client cfg cal bcal env unknown) n in
      let look = status cfg cal bcal env cfg.api_key in
      let ran : s01_lock_unlock_cycles cfg cal bcal env (client cfg cal bcal env unknown) n s
          ≡ (returned tt, s3) =
        runs_then (cycled >> sleep 5500) look s s2 tt
          (runs_then cycled (sleep 5500) s s1 tt run1 refl) run3 in
      rw ran (
        refl,
        es,
        v,
        printed (shown_by s3) (shown_by s1) (shown_by s) es (Shown.status_shown v ∷ []) shown3
            shown1,
        prints,
        doors,
        ap (λ (t : Bench). t.outside.body.doors_locked) bench ∙ shows2.doors,
      )
