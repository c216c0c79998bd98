-- ===== src/Runner/Posting.antt =====
-- A command that the backend accepts and the gateway acknowledges (`post` of
-- env/scenario-runner/run_scenarios.py, `dispatch` of env/backend/app/main.py).
use Prim.Native.String.{String}
use vehicle_bench_candidate.Base.{ℕ, ◌≡◌, refl, true, some, [], ◌∷◌, ◌++◌}
use vehicle_bench_candidate.Body.{BodyCal}
use vehicle_bench_candidate.Gateway.Types.{TcuCal, CommandBody}
use vehicle_bench_candidate.Backend.Store.{Store, ok, accepted}
use vehicle_bench_candidate.Backend.Commands.{Config, Request, serve, dispatch_end}
use vehicle_bench_candidate.Bench.{Event, answered_in_time, step}
use vehicle_bench_candidate.Runner.{Moment, Shown, Runner, returned, meanwhile, post, asked_once}

-- The request and its forwarding are answered in time.
pub record IsAnswered (m : Moment) : Type 0 where
  pub reached : m.reached ≡ answered_in_time
  pub forwarded : m.forwarding ≡ answered_in_time

module _ (cfg : Config) (cal : TcuCal) (bcal : BodyCal) (env : ℕ → Moment) (key : String) where
  -- The state of the runner after such a post.
  abbrev pub posted_state : Request → Runner → Runner
  posted_state r s =
      let m = env s.asked in
      let s' =
        asked_once cfg cal bcal env
          (step cfg cal bcal (Event.request answered_in_time (some key) m.fresh r)
            (meanwhile cfg cal bcal env s))
          s in
      record s' {
        events =
            s.events
            ++ (record { t = s'.time; shown = Shown.posted r 200 (some m.fresh) (some accepted) })
              ∷ [];
      }

  pub post-accepted :
      (r : Request) (s : Runner) (body : CommandBody) (store : Store)
      → IsAnswered (env s.asked)
      → (meanwhile cfg cal bcal env s).running ≡ true
      → let b = meanwhile cfg cal bcal env s in
        serve cfg (some key) (env s.asked).fresh b.outside.clock r b.outside.backend
          ≡ (ok body, store)
        → post cfg cal bcal env key r s ≡ (returned (some (env s.asked).fresh), posted_state r s)
  unfolding dispatch_end
  post-accepted r s body store answered running served =
      rw (answered.reached, answered.forwarded, running, served) refl
