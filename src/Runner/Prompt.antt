-- ===== src/Runner/Prompt.antt =====
-- A command that is served before the runner's first poll, and the status that is read then (`post`,
-- `wait_terminal` and `status` of env/scenario-runner/run_scenarios.py).
use mathlib.Core.List.{map-append}
use vehicle_bench_candidate.Base.{
  ℕ, ◌+◌, ◌≡◌, ◌∙◌, refl, ap, Bool, true, some, List, [], ◌∷◌, ◌++◌, All, arith, if◌then◌else◌,
}
use vehicle_bench_candidate.Base.Int.{ℤ}
use vehicle_bench_candidate.Base.Dyadic.{Dyadic, halved}
use vehicle_bench_candidate.Body.{BodyCal}
use vehicle_bench_candidate.Gateway.Types.{TcuCal, CommandBody}
use vehicle_bench_candidate.Backend.Store.{CommandRecord, Store, completed, accepted, ok}
use vehicle_bench_candidate.Backend.Commands.{Config, Request, serve}
use vehicle_bench_candidate.Backend.Status.{VehicleStatus, status_of_report, vehicle_status}
use vehicle_bench_candidate.Backend.Lifecycle.{status_at}
use vehicle_bench_candidate.Bench.{Event, Conditions, Bench, answered_in_time, steps}
use vehicle_bench_candidate.Bench.Quiet.{ShowsClimate, IsQuiet, all_quiet-status}
use vehicle_bench_candidate.Bench.Answered.{commanded}
use vehicle_bench_candidate.Bench.Climate.{IsPrompt}
use vehicle_bench_candidate.Runner.{Moment, Shown, Ev, Runner, returned, meanwhile, status}
use vehicle_bench_candidate.Runner.Scenarios.{Client, post_and_wait}
use vehicle_bench_candidate.Runner.Posting.{IsAnswered, posted_state, post-accepted}
use vehicle_bench_candidate.Runner.Reading.{
  shown_by, shown-two, status_at-record, asked_again, key-matches, waited_state,
  wait_terminal-found,
}

-- The environment of a command that is posted as the request `k` and is served before the first
-- poll: but for the worker's round there are only seconds and polls of the gateway.
pub record Serves (cal : TcuCal) (env : ℕ → Moment) (k : ℕ) : Type 0 where
  pub meets : Conditions
  pub later : List Event
  pub prompt : IsPrompt cal meets
  pub answered : IsAnswered (env k)
  pub quiet : All IsQuiet (env k).happens
  pub reached : (env (k + 1)).reached ≡ answered_in_time
  pub served : (env (k + 1)).happens ≡ Event.round meets ∷ later
  pub later_quiet : All IsQuiet later
  pub reached_again : (env (k + 1 + 1)).reached ≡ answered_in_time
  pub quiet_again : All IsQuiet (env (k + 1 + 1)).happens

module _ (cfg : Config) (cal : TcuCal) (bcal : BodyCal) (env : ℕ → Moment) (unknown : ℕ) where
  abbrev pub client : Client
  client = record { key = cfg.api_key; does_not_exist = unknown }

  -- The bench of a served command, up to the last request.
  abbrev pub served_bench : Request → (s : Runner) → Serves cal env s.asked → Bench
  served_bench r s h = steps cfg cal bcal (env (s.asked + 1 + 1)).happens (
      steps cfg cal bcal h.later (
        commanded cfg cal bcal h.meets cfg.api_key (env s.asked).fresh r
          (meanwhile cfg cal bcal env s)))

  pub command_served :
      (r : Request) (s : Runner) (h : Serves cal env s.asked) (body : CommandBody) (store : Store)
      → let b = meanwhile cfg cal bcal env s in
        let id = (env s.asked).fresh in
        b.running ≡ true
        → serve cfg (some cfg.api_key) id b.outside.clock r b.outside.backend ≡ (ok body, store)
        → status_at id (commanded cfg cal bcal h.meets cfg.api_key id r b).outside.backend
          ≡ some completed
        → (x : CommandRecord) × (s' : Runner) × (post_and_wait cfg cal bcal env client r s
            ≡ (returned x, s'))
          × (x.status ≡ completed)
          × (s'.asked ≡ s.asked + 3)
          × (s'.bench ≡ served_bench r s h)
          × (shown_by s'
              ≡ shown_by s
                ++ (Shown.posted r 200 (some id) (some accepted) ∷ Shown.command_shown x ∷ []))
  unfolding post_and_wait steps
  command_served r s h body store running served done =
      let id = (env s.asked).fresh in
      let b = meanwhile cfg cal bcal env s in
      let b1 = commanded cfg cal bcal h.meets cfg.api_key id r b in
      let s1 = posted_state cfg cal bcal env cfg.api_key r s in
      let first : meanwhile cfg cal bcal env s1 ≡ steps cfg cal bcal h.later b1 =
        ap (λ es. steps cfg cal bcal es s1.bench) h.served in
      let again : meanwhile cfg cal bcal env (asked_again cfg cal bcal env s1)
          ≡ served_bench r s h =
        ap (steps cfg cal bcal (env (s.asked + 1 + 1)).happens) first in
      let (x, found, completed_x) =
        status_at-record id (meanwhile cfg cal bcal env s1).outside.backend (
          ap (λ (t : Bench). status_at id t.outside.backend) first
          ∙ all_quiet-status cfg cal bcal id h.later b1 h.later_quiet
          ∙ done) in
      let (y, found', completed_y) =
        status_at-record id
          (meanwhile cfg cal bcal env (asked_again cfg cal bcal env s1)).outside.backend
          (ap (λ (t : Bench). status_at id t.outside.backend) again
            ∙ all_quiet-status cfg cal bcal id (env (s.asked + 1 + 1)).happens
                (steps cfg cal bcal h.later b1) h.quiet_again
            ∙ all_quiet-status cfg cal bcal id h.later b1 h.later_quiet
            ∙ done) in
      let waited =
        wait_terminal-found cfg cal bcal env 6000 id s1 x y (omega arith) h.reached h.reached_again
          found found' completed_x in
      (
        y,
        waited_state cfg cal bcal env y s1,
        rw (post-accepted cfg cal bcal env cfg.api_key r s body store h.answered running served)
            waited,
        completed_y,
        omega arith,
        again,
        shown-two s.events _ _,
      )

  -- The status that is read while the climate is as `ShowsClimate` says.
  pub status_read :
      (active : Bool) (raw : ℤ) (t : Dyadic) (s : Runner)
      → (env s.asked).reached ≡ answered_in_time
      → ShowsClimate active raw (some t) (meanwhile cfg cal bcal env s)
      → (v : VehicleStatus) × (s' : Runner) × (status cfg cal bcal env cfg.api_key s
          ≡ (returned tt, s'))
        × (v.climate_active ≡ some active)
        × (v.target_temp_c ≡ some (if active then t else halved raw))
        × (s'.asked ≡ s.asked + 1)
        × (s'.bench ≡ meanwhile cfg cal bcal env s)
        × (shown_by s' ≡ shown_by s ++ Shown.status_shown v ∷ [])
  unfolding vehicle_status
  status_read active raw t s reached h =
      let (r, at, report, runs, target) = h.shown in
      let b = meanwhile cfg cal bcal env s in
      let now = b.outside.clock in
      let v = status_of_report now (some t) (some (r, at)) in
      let shows : status_of_report now b.outside.backend.desired_climate_target
            b.outside.backend.report
          ≡ v =
        ap (λ d. status_of_report now d b.outside.backend.report) h.desired
        ∙ ap (status_of_report now (some t)) report in
      let answer : (vehicle_status cfg (some cfg.api_key) now b.outside.backend).0 ≡ ok v =
        rw (key-matches cfg cal bcal env) (ap ok shows) in
      let s' = asked_again cfg cal bcal env s in
      (
        v,
        record s' {
          events = s.events ++ (record { t = s'.time; shown = Shown.status_shown v }) ∷ [];
        },
        rw (reached, answer) refl,
        ap some runs,
        ap some (
            ap (λ x. if x then t else r.target_temp_c) runs
            ∙ ap (λ x. if active then t else x) target),
        refl,
        refl,
        map-append (λ (e : Ev). e.shown) s.events _,
      )
