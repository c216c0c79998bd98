-- ===== src/Runner/Preconditioning.antt =====
-- The climate scenario from end to end (`s02_climate_preconditioning` of
-- env/scenario-runner/run_scenarios.py), on a bench where the gateway serves each command before the
-- runner's first poll.
use mathlib.Core.List.{append_assoc}
use mathlib.Core.Path.{subst}
use vehicle_bench_candidate.Base.{
  ℕ, ◌+◌, ◌≡◌, ◌∙◌, inl, inr, refl, ap, sym, Bool-cases, true, false, not, none, some, List, [],
  ◌∷◌, ◌++◌, arith,
}
use vehicle_bench_candidate.Body.{BodyCal, clamp_raw}
use vehicle_bench_candidate.Gateway.Types.{TcuCal}
use vehicle_bench_candidate.Gateway.Commands.{encode_hvac_temp}
use vehicle_bench_candidate.Backend.Store.{CommandRecord, completed, accepted}
use vehicle_bench_candidate.Backend.Commands.{Config, Request}
use vehicle_bench_candidate.Backend.Status.{VehicleStatus}
use vehicle_bench_candidate.Bench.Served.{IsReady}
use vehicle_bench_candidate.Bench.Quiet.{ShowsClimate, all_quiet-ShowsClimate}
use vehicle_bench_candidate.Bench.Climate.{RunsClimate}
use vehicle_bench_candidate.Runner.{
  Moment, Shown, Runner, Ended, returned, Script, after, ◌>>◌, sleep, meanwhile, status,
}
use vehicle_bench_candidate.Runner.Scenarios.{post_and_wait, s02_climate_preconditioning}
use vehicle_bench_candidate.Runner.Reading.{shown_by}
use vehicle_bench_candidate.Runner.Prompt.{Serves, client}
use vehicle_bench_candidate.Runner.Session.{
  asked_for, IsPromptSession, raw_asked, left_running, Sends, started, unlocks, stops, looks,
}

pub runs_then :
    {A B : Type 0} (m : Script A) (k : Script B) (s s' : Runner) (a : A) {y : Ended B × Runner}
    → m s ≡ (returned a, s')
    → k s' ≡ y
    → (m >> k) s ≡ y
runs_then m k s s' a e e' = ap (after (λ _. k)) e ∙ e'

-- One more piece of what was printed.
pub printed :
    {A : Type 0} (zs ys xs ws bs : List A) → zs ≡ ys ++ bs → ys ≡ xs ++ ws → zs ≡ xs ++ (ws ++ bs)
printed zs ys xs ws bs e e' = e ∙ ap (λ l. l ++ bs) e' ∙ append_assoc xs ws bs

-- The acceptance that is printed for the request `k`.
abbrev pub accepted_post : (ℕ → Moment) → Request → ℕ → Shown
accepted_post env r k = Shown.posted r 200 (some (env k).fresh) (some accepted)

module _ (cfg : Config) (cal : TcuCal) (bcal : BodyCal) (maps : RunsClimate cal asked_for)
    (env : ℕ → Moment) (unknown : ℕ) where
  left_running-not : (left_running bcal) ≡ not bcal.hvac_reset_on_door_unlock
  left_running-not = elim (Bool-cases bcal.hvac_reset_on_door_unlock) [
    | inl e ↦ rw e refl
    | inr e ↦ rw e refl
  ]

  abbrev sends : Request → Script CommandRecord
  sends r = post_and_wait cfg cal bcal env (client cfg cal bcal env unknown) r

  abbrev slept : ℕ → Runner → Runner
  slept ms s = record s { time = s.time + ms }

  abbrev look : Script (Unit {0})
  look = status cfg cal bcal env cfg.api_key

  abbrev start : Request
  start = Request.climate_start (some asked_for)

  abbrev until_seen : Script (Unit {0})
  until_seen = sends start >> sleep 6000 >> look

  abbrev until_seen_again : Script (Unit {0})
  until_seen_again = until_seen >> sends Request.unlock >> sleep 6000 >> look

  abbrev sent_pair : Request → ℕ → CommandRecord → List Shown
  sent_pair r k x = accepted_post env r k ∷ Shown.command_shown x ∷ []

  -- After the first status.
  abbrev Seen : Runner → Type 0
  Seen s =
      (x1 : CommandRecord) × (v1 : VehicleStatus) × (s2 : Runner) × (until_seen s
        ≡ (returned tt, s2))
      × (s2.asked ≡ s.asked + 4)
      × (shown_by s2 ≡ shown_by s ++ (sent_pair start s.asked x1 ++ Shown.status_shown v1 ∷ []))
      × (x1.status ≡ completed)
      × (v1.climate_active ≡ some true)
      × (v1.target_temp_c ≡ some asked_for)
      × ShowsClimate true (raw_asked cal bcal) (some asked_for) s2.bench

  seen :
      (s : Runner)
      → IsPromptSession cal env s.asked
      → ((x1 : CommandRecord) × (s1 : Runner) × (sends start s ≡ (returned x1, s1))
          × Sends env s s1 start x1
          × ShowsClimate true (raw_asked cal bcal) (some asked_for) s1.bench)
      → Seen s
  seen s h (x1, s1, run1, (done1, asked1, shown1), shows1) =
      let (v1, s2, run2, active1, target1, asked2, shown2, shows2) =
        looks cfg cal bcal maps env unknown true 6000 (s.asked + 3) s1 asked1 h.seen h.seen_quiet
          shows1 in
      (
        x1,
        v1,
        s2,
        runs_then (sends start >> sleep 6000) look s (slept 6000 s1) tt
            (runs_then (sends start) (sleep 6000) s s1 x1 run1 refl) run2,
        omega (arith, asked2),
        printed (shown_by s2) (shown_by s1) (shown_by s) (sent_pair start s.asked x1)
            (Shown.status_shown v1 ∷ []) shown2 shown1,
        done1,
        active1,
        target1,
        shows2,
      )

  -- After the unlock, up to the second status.
  abbrev SeenAgain : Runner → Type 0
  SeenAgain s =
      (x1 : CommandRecord) × (v1 : VehicleStatus) × (x2 : CommandRecord) × (v2 : VehicleStatus)
      × (s4 : Runner) × (until_seen_again s ≡ (returned tt, s4))
      × (s4.asked ≡ s.asked + 8)
      × (shown_by s4
          ≡ shown_by s
            ++ ((sent_pair start s.asked x1 ++ Shown.status_shown v1 ∷ [])
                ++ (sent_pair Request.unlock (s.asked + 4) x2 ++ Shown.status_shown v2 ∷ [])))
      × (x1.status ≡ completed)
      × (x2.status ≡ completed)
      × (v1.climate_active ≡ some true)
      × (v1.target_temp_c ≡ some asked_for)
      × (v2.climate_active ≡ some (left_running bcal))
      × ShowsClimate (left_running bcal) (raw_asked cal bcal) (some asked_for) s4.bench

  -- The unlock and the second status, from the first on.
  unlocked_and_seen :
      (s s2 : Runner)
      → IsPromptSession cal env s.asked
      → s2.asked ≡ s.asked + 4
      → ((x2 : CommandRecord) × (s3 : Runner) × (sends Request.unlock s2 ≡ (returned x2, s3))
          × Sends env s2 s3 Request.unlock x2
          × ShowsClimate (left_running bcal) (raw_asked cal bcal) (some asked_for) s3.bench)
      → (x2 : CommandRecord) × (v2 : VehicleStatus) × (s3 : Runner) × (s4 : Runner) × (sends
            Request.unlock s2
          ≡ (returned x2, s3))
        × (look (slept 6000 s3) ≡ (returned tt, s4))
        × (s4.asked ≡ s.asked + 8)
        × (shown_by s4
            ≡ shown_by s2
              ++ (sent_pair Request.unlock (s.asked + 4) x2 ++ Shown.status_shown v2 ∷ []))
        × (x2.status ≡ completed)
        × (v2.climate_active ≡ some (left_running bcal))
        × ShowsClimate (left_running bcal) (raw_asked cal bcal) (some asked_for) s4.bench
  unlocked_and_seen s s2 h asked2 (x2, s3, run3, (done2, asked3, shown3), shows3) =
      let asked3' : s3.asked ≡ s.asked + 7 = omega (arith, asked3, asked2) in
      let (v2, s4, run4, active2, target2, asked4, shown4, shows4) =
        looks cfg cal bcal maps env unknown (left_running bcal) 6000 (s.asked + 7) s3 asked3'
          h.seen_again h.seen_again_quiet shows3 in
      (
        x2,
        v2,
        s3,
        s4,
        run3,
        run4,
        omega (arith, asked4),
        printed (shown_by s4) (shown_by s3) (shown_by s2)
            (sent_pair Request.unlock (s.asked + 4) x2) (Shown.status_shown v2 ∷ []) shown4
            (shown3 ∙ ap (λ k. shown_by s2 ++ sent_pair Request.unlock k x2) asked2),
        done2,
        active2,
        shows4,
      )

  seen_again : (s : Runner) → IsPromptSession cal env s.asked → Seen s → SeenAgain s
  seen_again s h (x1, v1, s2, run2, asked2, shown2, done1, active1, target1, shows2) =
      let unlock = subst (Serves cal env) (sym asked2) h.unlock in
      let (x2, v2, s3, s4, run3, run4, asked4, shown4, done2, active2, shows4) =
        unlocked_and_seen s s2 h asked2 (
          unlocks cfg cal bcal maps env unknown s2 unlock (
            all_quiet-ShowsClimate cfg cal bcal true (raw_asked cal bcal) (some asked_for)
              (env s2.asked).happens s2.bench unlock.quiet shows2)) in
      (
        x1,
        v1,
        x2,
        v2,
        s4,
        runs_then (until_seen >> sends Request.unlock >> sleep 6000) look s (slept 6000 s3) tt
            (runs_then (until_seen >> sends Request.unlock) (sleep 6000) s s3 x2
              (runs_then until_seen (sends Request.unlock) s s2 tt run2 run3) refl)
            run4,
        asked4,
        printed (shown_by s4) (shown_by s2) (shown_by s)
            (sent_pair start s.asked x1 ++ Shown.status_shown v1 ∷ [])
            (sent_pair Request.unlock (s.asked + 4) x2 ++ Shown.status_shown v2 ∷ []) shown4 shown2,
        done1,
        done2,
        active1,
        target1,
        active2,
        shows4,
      )

  abbrev Shows02 : Runner → Ended (Unit {0}) × Runner → Type 0
  Shows02 s (end, s') =
      (end ≡ returned tt)
      × (x1 : CommandRecord) × (v1 : VehicleStatus) × (x2 : CommandRecord) × (v2 : VehicleStatus)
      × (x3 : CommandRecord) × (shown_by s'
          ≡ shown_by s
            ++ (accepted_post env (Request.climate_start (some asked_for)) s.asked
                ∷ Shown.command_shown x1
                ∷ Shown.status_shown v1
                ∷ accepted_post env Request.unlock (s.asked + 4)
                ∷ Shown.command_shown x2
                ∷ Shown.status_shown v2
                ∷ accepted_post env Request.climate_stop (s.asked + 8)
                ∷ Shown.command_shown x3
                ∷ []))
      × (x1.status ≡ completed)
      × (x2.status ≡ completed)
      × (x3.status ≡ completed)
      × (v1.climate_active ≡ some true)
      × (v1.target_temp_c ≡ some asked_for)
      × (v2.climate_active ≡ some (not bcal.hvac_reset_on_door_unlock))
      × (s'.bench.outside.body.climate_active ≡ false)
      × (s'.bench.outside.body.climate_target_raw ≡ clamp_raw bcal (encode_hvac_temp cal asked_for))

  stopped :
      (s s4 : Runner)
      → IsPromptSession cal env s.asked
      → s4.asked ≡ s.asked + 8
      → ShowsClimate (left_running bcal) (raw_asked cal bcal) (some asked_for) s4.bench
      → (x3 : CommandRecord) × (s5 : Runner) × (sends Request.climate_stop s4 ≡ (returned x3, s5))
        × Sends env s4 s5 Request.climate_stop x3
        × ShowsClimate false (raw_asked cal bcal) none s5.bench
  stopped s s4 h asked4 shows4 =
      let stop = subst (Serves cal env) (sym asked4) h.stop in
      stops cfg cal bcal maps env unknown (left_running bcal) s4 stop (
        all_quiet-ShowsClimate cfg cal bcal (left_running bcal) (raw_asked cal bcal)
          (some asked_for) (env s4.asked).happens s4.bench stop.quiet shows4)

  ended :
      (s : Runner)
      → IsPromptSession cal env s.asked
      → SeenAgain s
      → Shows02 s (s02_climate_preconditioning cfg cal bcal env (client cfg cal bcal env unknown) s)
  unfolding s02_climate_preconditioning
  ended s h
        (
          x1, v1, x2, v2, s4, run4, asked4, shown4, done1, done2, active1, target1, active2, shows4,
        ) =
      let (x3, s5, run5, (done3, asked5, shown5), shows5) = stopped s s4 h asked4 shows4 in
      let ran : s02_climate_preconditioning cfg cal bcal env (client cfg cal bcal env unknown) s
          ≡ (returned tt, slept 2000 s5) =
        runs_then (until_seen_again >> sends Request.climate_stop) (sleep 2000) s s5 x3
          (runs_then until_seen_again (sends Request.climate_stop) s s4 tt run4 run5) refl in
      subst (Shows02 s) (sym ran) (
        refl,
        x1,
        v1,
        x2,
        v2,
        x3,
        printed (shown_by s5) (shown_by s4) (shown_by s)
            ((sent_pair start s.asked x1 ++ Shown.status_shown v1 ∷ [])
              ++ (sent_pair Request.unlock (s.asked + 4) x2 ++ Shown.status_shown v2 ∷ []))
            (sent_pair Request.climate_stop (s.asked + 8) x3)
            (shown5 ∙ ap (λ k. shown_by s4 ++ sent_pair Request.climate_stop k x3) asked4) shown4,
        done1,
        done2,
        done3,
        active1,
        target1,
        active2 ∙ ap some left_running-not,
        shows5.runs,
        shows5.target,
      )

  -- The climate scenario on a bench that is ready when its first request arrives, when the calibration
  -- runs the three commands, polls after them and fits the set point, all requests of the runner and
  -- their forwardings are answered, and the worker serves each command in time and with its posts
  -- arriving before the runner's first poll, with only seconds and polls of the gateway besides: it
  -- ends, and prints for each of its commands the acceptance and a record that is COMPLETED. The status
  -- after the start shows that the climate runs at 22.5 degrees. The status after the unlock shows that
  -- it runs exactly if the Body ECU does not reset it on an unlock. At the end the climate does not run,
  -- and the set point of the Body ECU is the encoded and clamped one.
  pub s02_shows :
      (s : Runner)
      → IsPromptSession cal env s.asked
      → IsReady (meanwhile cfg cal bcal env s)
      → let (end, s') =
          s02_climate_preconditioning cfg cal bcal env (client cfg cal bcal env unknown) s in
        (end ≡ returned tt)
        × (x1 : CommandRecord) × (v1 : VehicleStatus) × (x2 : CommandRecord) × (v2 : VehicleStatus)
        × (x3 : CommandRecord) × (shown_by s'
            ≡ shown_by s
              ++ (accepted_post env (Request.climate_start (some asked_for)) s.asked
                  ∷ Shown.command_shown x1
                  ∷ Shown.status_shown v1
                  ∷ accepted_post env Request.unlock (s.asked + 4)
                  ∷ Shown.command_shown x2
                  ∷ Shown.status_shown v2
                  ∷ accepted_post env Request.climate_stop (s.asked + 8)
                  ∷ Shown.command_shown x3
                  ∷ []))
        × (x1.status ≡ completed)
        × (x2.status ≡ completed)
        × (x3.status ≡ completed)
        × (v1.climate_active ≡ some true)
        × (v1.target_temp_c ≡ some asked_for)
        × (v2.climate_active ≡ some (not bcal.hvac_reset_on_door_unlock))
        × (s'.bench.outside.body.climate_active ≡ false)
        × (s'.bench.outside.body.climate_target_raw
            ≡ clamp_raw bcal (encode_hvac_temp cal asked_for))
  unfolding s02_climate_preconditioning
  s02_shows s h ready =
      ended s h (seen_again s h (seen s h (started cfg cal bcal maps env unknown s h.start ready)))
