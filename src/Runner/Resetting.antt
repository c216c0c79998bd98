-- ===== src/Runner/Resetting.antt =====
-- The reset before each scenario (`reset` of env/scenario-runner/run_scenarios.py, `bench_reset` of
-- env/backend/app/main.py, `handle_reset` of env/ecu-gateway/gateway.py and `ResetState` of
-- env/body-ecu/server.py).
use vehicle_bench_candidate.Base.{ℕ, ◌+◌, ◌≡◌, refl, true, none, some, [], ◌∷◌, ◌++◌}
use vehicle_bench_candidate.Body.{BodyCal, get_body_state, reset_state}
use vehicle_bench_candidate.Body as BodyEcu
use vehicle_bench_candidate.Gateway.Types.{TcuCal}
use vehicle_bench_candidate.Gateway.Sync.{state_report, sync_once, sync_answered}
use vehicle_bench_candidate.Gateway.Worker.{handle_reset}
use vehicle_bench_candidate.Backend.Commands.{
  state_report as backend_state_report, Config, bench_reset,
}
use vehicle_bench_candidate.Bench.{body_poll, body_reset, told_state}
use vehicle_bench_candidate.Runner.{Moment, Shown, Runner, returned, meanwhile, reset}
use vehicle_bench_candidate.Runner.Posting.{IsAnswered}
use vehicle_bench_candidate.Runner.Reading.{key-matches}

module _ (cfg : Config) (cal : TcuCal) (bcal : BodyCal) (env : ℕ → Moment) where
  -- The reset of a bench whose gateway runs, when its request and its forwarding are answered and the
  -- Body ECU is reachable and the gateway's report arrives: it ends and prints 200; the backend has no command and no set point, and
  -- the report of a Body ECU in its initial state, which the Body ECU is in; the gateway's queue is
  -- empty. But an actuation of the doors that is still going on is not stopped.
  pub reset_restores :
      (s : Runner)
      → IsAnswered (env s.asked)
      → (env s.asked).vehicle.reachable ≡ true
      → (env s.asked).vehicle.report_arrives ≡ true
      → (meanwhile cfg cal bcal env s).running ≡ true
      → let (end, s') = reset cfg cal bcal env cfg.api_key s in
        let b = meanwhile cfg cal bcal env s in
        let now = b.outside.clock in
        let fresh = BodyEcu.reset bcal in
        (end ≡ returned tt)
        × (s'.events
            ≡ s.events
              ++ (record { t = s.time + (env s.asked).lasts; shown = Shown.reset_done 200 }) ∷ [])
        × (s'.bench.outside.backend.commands ≡ [])
        × (s'.bench.outside.backend.desired_climate_target ≡ none)
        × (s'.bench.outside.backend.report
            ≡ some (state_report cal now (get_body_state bcal now fresh), now))
        × (s'.bench.outside.body ≡ fresh)
        × (s'.bench.gateway.queue ≡ [])
        × (s'.bench.outside.pending ≡ b.outside.pending)
  unfolding handle_reset body_reset reset_state sync_once body_poll sync_answered
      backend_state_report bench_reset told_state
  reset_restores s answered up told running =
      rw (answered.reached, answered.forwarded, running, key-matches cfg cal bcal env, up, told)
        (refl, refl, refl, refl, refl, refl, refl, refl)
