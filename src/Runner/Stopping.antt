-- ===== src/Runner/Stopping.antt =====
-- The end of the charging scenario (`s03_charging_session` of env/scenario-runner/run_scenarios.py)
-- under a calibration with no map entry for `CHARGING_STOP`.
use vehicle_bench_candidate.Base.{
  ℕ, ◌+◌, ◌≡◌, ◌≢◌, ◌≤◌, ◌⊎◌, ◌∙◌, inl, inr, ap, sym, true, none, some, All, All-map, arith,
}
use mathlib.Core.Option
use vehicle_bench_candidate.Base.Dict.{lookup}
use vehicle_bench_candidate.Body.{BodyCal}
use vehicle_bench_candidate.Gateway.Types.{TcuCal}
use vehicle_bench_candidate.Gateway.Commands.{map_command}
use vehicle_bench_candidate.Backend.Store.{Store, CommandRecord, accepted}
use vehicle_bench_candidate.Backend.Commands.{Config, Request, route, dispatch_begin}
use vehicle_bench_candidate.Backend.Access.{serve-key}
use vehicle_bench_candidate.Backend.Lifecycle.{status_at}
use vehicle_bench_candidate.Bench.{Event, Bench, steps}
use vehicle_bench_candidate.Bench.Dropped.{Avoids, charging_stop_stays_accepted}
use vehicle_bench_candidate.Bench.Arrivals.{HasId}
use vehicle_bench_candidate.Runner.{
  Moment, Runner, Fault, Ended, returned, raised, meanwhile, post, wait_terminal,
}
use vehicle_bench_candidate.Runner.Scenarios.{Client, post_and_wait}
use vehicle_bench_candidate.Runner.Waiting.{LeavesId, wait_terminal_ends}
use vehicle_bench_candidate.Runner.Following.{wait_terminal-Follows}
use vehicle_bench_candidate.Runner.Posting.{IsAnswered, posted_state, post-accepted}

status_read :
    (id : ℕ) (r : CommandRecord) (store : Store)
    → lookup id store.commands ≡ some r
    → status_at id store ≡ some accepted
    → r.status ≡ accepted
status_read id r store found e =
    let same : some r.status ≡ some accepted = ap (Option.map (λ y. y.status)) (sym found) ∙ e in cc

module _ (cfg : Config) (cal : TcuCal) (bcal : BodyCal) (env : ℕ → Moment) (client : Client) where
  -- A running gateway that does not map `CHARGING_STOP`, and an id that is new to its queue and to
  -- what happens meanwhile.
  pub record Unmapped (s : Runner) : Type 0 where
    pub key : client.key ≡ cfg.api_key
    pub answered : IsAnswered (env s.asked)
    pub running : (meanwhile cfg cal bcal env s).running ≡ true
    pub unmapped : map_command "CHARGING_STOP" cal.command_map ≡ none
    pub fresh :
        All (λ r. r.request_id ≢ (env s.asked).fresh) (meanwhile cfg cal bcal env s).gateway.queue
    pub own : (k : ℕ) → All (Avoids (env s.asked).fresh) (env k).happens

  stop_posted :
      (s : Runner)
      → Unmapped s
      → post cfg cal bcal env cfg.api_key Request.charging_stop s ≡ (
        returned (some (env s.asked).fresh),
        posted_state cfg cal bcal env cfg.api_key Request.charging_stop s,
      )
  unfolding route dispatch_begin
  stop_posted s h =
      let b = meanwhile cfg cal bcal env s in
      post-accepted cfg cal bcal env cfg.api_key Request.charging_stop s _ _ h.answered h.running
        (serve-key cfg (env s.asked).fresh b.outside.clock Request.charging_stop b.outside.backend)

  abbrev InVain : Runner → ℕ → Ended CommandRecord × Runner → Type 0
  InVain s id x =
      ((e : Fault) × (x.0 ≡ raised e))
      ⊎ ((r : CommandRecord) × (x.0 ≡ returned r)
          × (r.status ≡ accepted)
          × (s.time + 6000 ≤ x.1.time)
          × (status_at id x.1.bench.outside.backend ≡ some accepted))

  Avoids-HasId : (id : ℕ) (e : Event) → Avoids id e → HasId (λ j. j ≢ id) e
  Avoids-HasId id (Event.request link key j r) h = h
  Avoids-HasId id (Event.round c) h = tt
  Avoids-HasId id (Event.poll c) h = tt
  Avoids-HasId id Event.actuator h = tt
  Avoids-HasId id Event.second h = tt

  waited-InVain :
      (s : Runner)
      → Unmapped s
      → let id = (env s.asked).fresh in
        InVain s id (
          wait_terminal cfg cal bcal env 6000 cfg.api_key id
            (posted_state cfg cal bcal env cfg.api_key Request.charging_stop s))
  unfolding steps
  waited-InVain s h =
      let id = (env s.asked).fresh in
      let b = meanwhile cfg cal bcal env s in
      let s1 = posted_state cfg cal bcal env cfg.api_key Request.charging_stop s in
      let store = (wait_terminal cfg cal bcal env 6000 cfg.api_key id s1).1.bench.outside.backend in
      let (es, avoids, follows) =
        wait_terminal-Follows cfg cal bcal env (Avoids id) h.own cfg.api_key id 6000 s1 in
      let stays =
        charging_stop_stays_accepted cfg cal bcal b id es h.running h.unmapped h.fresh avoids in
      let stuck = ap (λ (t : Bench). status_at id t.outside.backend) follows ∙ stays in
      let leaves : LeavesId id env = λ k.
        All-map (Avoids id) (HasId (λ j. j ≢ id)) (env k).happens (Avoids-HasId id) (h.own k) in
      elim (wait_terminal_ends cfg cal bcal env cfg.api_key id s1 6000 leaves).1 [
        | inl (e, end, events) ↦ inl (e, end)
        | inr (r, end, found, events, inl terminal) ↦
            absurd (terminal (status_read id r store found stuck))
        | inr (r, end, found, events, inr late) ↦
            inr (r, end, status_read id r store found stuck, omega arith, stuck)
      ]

  -- The wait after `/charging/stop` with the default of 6 seconds, under a calibration with no map
  -- entry `CHARGING_STOP`, when the post is answered in time, a running gateway takes the command, and
  -- its id is new to the queue and not reused: it ends with an exception, or after the full 6 seconds
  -- with a record that is still ACCEPTED, which is what the backend then holds.
  pub stop_waits_in_vain :
      (s : Runner)
      → Unmapped s
      → let (end, s') = post_and_wait cfg cal bcal env client Request.charging_stop s in
        ((e : Fault) × (end ≡ raised e))
        ⊎ ((r : CommandRecord) × (end ≡ returned r)
            × (r.status ≡ accepted)
            × (s.time + 6000 ≤ s'.time)
            × (status_at (env s.asked).fresh s'.bench.outside.backend ≡ some accepted))
  unfolding post_and_wait
  stop_waits_in_vain s h = rw (h.key, stop_posted s h) (waited-InVain s h)
