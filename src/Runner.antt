-- ===== src/Runner.antt =====
-- The scenario runner's client (`post`, `status`, `command`, `wait_terminal`, `reset` of
-- env/scenario-runner/run_scenarios.py): a script of HTTP requests to the backend of the bench. The
-- bench goes on by itself between two requests; what it does then, how long a request takes and
-- whether its answer comes back is the environment's choice, one `Moment` for each request. A
-- time is in milliseconds.
pub mod Reads
pub mod Waiting
pub mod Scenarios
pub mod Halting
pub mod Ending
pub mod Selection
pub mod Following
pub mod Posting
pub mod Stopping
pub mod Reading
pub mod Prompt
pub mod Session
pub mod Preconditioning
pub mod Cycles
pub mod Validation
pub mod Resetting
use Prim.Native.String.{String}
use vehicle_bench_candidate.Base.{
  ℕ, zero, suc, ◌+◌, ◌-◌, ◌/◌, Bool, true, false, Option, none, some, List, [], ◌∷◌, ◌++◌, ltb,
  if◌then◌else◌,
}
use vehicle_bench_candidate.Body.{BodyCal}
use vehicle_bench_candidate.Gateway.Types.{TcuCal, CommandBody}
use vehicle_bench_candidate.Gateway.Worker.{handle_command, handle_reset}
use vehicle_bench_candidate.Backend.Store.{
  Store, Response, ok, no_content, unauthorized, not_found, unprocessable, bad_gateway, unavailable,
  CommandStatus, CommandRecord, accepted, empty_store,
}
use vehicle_bench_candidate.Backend.Commands.{
  Config, key_matches, Request, TcuAnswer, answered, http_error, serve, dispatch_end, get_command,
  bench_reset,
}
use vehicle_bench_candidate.Backend.Status.{VehicleStatus, vehicle_status}
use vehicle_bench_candidate.Bench.{
  Event, Conditions, Bench, Link, lost, answered_in_time, answer_lost, forward_response,
  bench_world, step, steps,
}

-- The environment of one request: what happens on the bench before the backend handles it, how the
-- request itself goes, and for a command its forwarding and the id that `uuid.uuid4()` gives it.
pub record Moment : Type 0 where
  pub happens : List Event
  pub lasts : ℕ
  pub reached : Link
  pub forwarding : Link
  pub fresh : ℕ
  pub vehicle : Conditions

-- What `ev` prints and keeps, for each of its calls.
pub data Shown : Type 0 where
  posted : Request → ℕ → Option ℕ → Option CommandStatus → Shown
  lock_without_key get_unknown reset_done : ℕ → Shown
  status_shown : VehicleStatus → Shown
  command_shown : CommandRecord → Shown

pub record Ev : Type 0 where
  pub t : ℕ
  pub shown : Shown

-- `asked` counts the requests so far.
pub record Runner : Type 0 where
  pub bench : Bench
  pub time : ℕ
  pub asked : ℕ
  pub events : List Ev

-- `d["request_id"]` or `r["status"]` on an answer without it, or an exception of `requests`.
pub data Fault : Type 0 where
  key_error request_failed : Fault

-- How a piece of the script ends; `out_of_fuel` is the model's.
pub data Ended {ℓ} (A : Type ℓ) : Type ℓ where
  returned : A → Ended A
  raised : Fault → Ended A
  out_of_fuel : Ended A

abbrev pub Script : Type 0 → Type 0
Script A = Runner → Ended A × Runner

abbrev pub after : {A B : Type 0} → (A → Script B) → Ended A × Runner → Ended B × Runner
after f (returned a, s) = f a s
after f (raised e, s) = (raised e, s)
after f (out_of_fuel, s) = (out_of_fuel, s)

infixl 5 ◌>>=◌ ◌>>◌
abbrev pub ◌>>=◌ : {A B : Type 0} → Script A → (A → Script B) → Script B
(m >>= f) s = after f (m s)

abbrev pub ◌>>◌ : {A B : Type 0} → Script A → Script B → Script B
m >> k = m >>= λ _. k

abbrev pub give : {A : Type 0} → A → Script A
give a s = (returned a, s)

abbrev pub raise : {A : Type 0} → Fault → Script A
raise e s = (raised e, s)

-- `ev`
abbrev pub ev : Shown → Script (Unit {0})
ev shown s =
    (returned tt, record s { events = s.events ++ (record { t = s.time; shown = shown }) ∷ [] })

-- `time.sleep`
abbrev pub sleep : ℕ → Script (Unit {0})
sleep ms s = (returned tt, record s { time = s.time + ms })

abbrev pub http : {A : Type 0} → Response A → ℕ
http (ok a) = 200
http no_content = 204
http unauthorized = 401
http not_found = 404
http unprocessable = 422
http (bad_gateway id) = 502
http (unavailable id) = 503

-- What the client of a command endpoint is answered, given how the forwarding goes.
abbrev pub answer_of : Link → ℕ → Response CommandBody × Store → Bench → Response ℕ
answer_of lost id (ok body, store) b = (dispatch_end id b.outside.clock http_error store).0
answer_of answered_in_time id (ok body, store) b =
    let (answer, g) = handle_command id b.outside.clock body b.gateway in
    (dispatch_end id b.outside.clock (answered 200 answer) store).0
answer_of answer_lost id (ok body, store) b = (dispatch_end id b.outside.clock http_error store).0
answer_of link id (no_content, store) b = no_content
answer_of link id (unauthorized, store) b = unauthorized
answer_of link id (not_found, store) b = not_found
answer_of link id (unprocessable, store) b = unprocessable
answer_of link id (bad_gateway j, store) b = bad_gateway j
answer_of link id (unavailable j, store) b = unavailable j

-- `data.get("request_id")`: the body of an error has it only under `detail`.
abbrev pub id_of : Response ℕ → Option ℕ
id_of (ok id) = some id
id_of _ = none

abbrev pub status_of_answer : Response ℕ → Option CommandStatus
status_of_answer (ok id) = some accepted
status_of_answer _ = none

abbrev pub is_accepted : CommandStatus → Bool
is_accepted accepted = true
is_accepted _ = false

abbrev shown_status : Response VehicleStatus → Script (Unit {0})
shown_status (ok v) = ev (Shown.status_shown v)
shown_status _ = raise Fault.key_error

abbrev pub read_record : Response CommandRecord → Script CommandRecord
read_record (ok r) = give r
read_record _ = raise Fault.key_error

module _ (cfg : Config) (cal : TcuCal) (bcal : BodyCal) (env : ℕ → Moment) where
  -- The bench at the time of the next request.
  abbrev pub meanwhile : Runner → Bench
  meanwhile s = steps cfg cal bcal (env s.asked).happens s.bench

  abbrev pub asked_once : Bench → Runner → Runner
  asked_once b s = record s { bench = b; time = s.time + (env s.asked).lasts; asked = s.asked + 1 }

  abbrev pub delivered : {A : Type 0} → Link → (Bench → A × Bench) → Script A
  delivered lost handler s = (raised Fault.request_failed, asked_once (meanwhile s) s)
  delivered answered_in_time handler s =
      let (a, b) = handler (meanwhile s) in (returned a, asked_once b s)
  delivered answer_lost handler s =
      let (a, b) = handler (meanwhile s) in (raised Fault.request_failed, asked_once b s)

  -- One of the calls of `requests`, by what the backend does with it.
  abbrev pub exchange : {A : Type 0} → (Moment → Bench → A × Bench) → Script A
  exchange handler s = delivered (env s.asked).reached (handler (env s.asked)) s

  -- A command endpoint, with its forwarding.
  abbrev pub post_handler : Option String → Request → Moment → Bench → Response ℕ × Bench
  post_handler key r m b =
      let link = if b.running then m.forwarding else lost in
      let begun = serve cfg key m.fresh b.outside.clock r b.outside.backend in
      (
        answer_of link m.fresh begun b,
        step cfg cal bcal (Event.request m.forwarding key m.fresh r) b,
      )

  abbrev pub status_handler : String → Moment → Bench → Response VehicleStatus × Bench
  status_handler key m b = ((vehicle_status cfg (some key) b.outside.clock b.outside.backend).0, b)

  abbrev pub get_handler : String → ℕ → Moment → Bench → Response CommandRecord × Bench
  get_handler key id m b = ((get_command cfg (some key) id b.outside.backend).0, b)

  -- The request of `bench_reset` to the gateway, which resets the Body ECU and polls it.
  abbrev pub reset_vehicle : Link → Moment → Bench → TcuAnswer × Bench
  reset_vehicle lost m b = (http_error, b)
  reset_vehicle link m b =
      let (done, g, o) = handle_reset cal (bench_world bcal m.vehicle) b.gateway b.outside in
      let answer =
        answered (if done then 200 else 502) (record { request_id = 0; queue_depth = 0 }) in
      (
        elim link [ answered_in_time ↦ answer | _ ↦ http_error ],
        record b { gateway = g; outside = o },
      )

  -- The store is reset before that request.
  abbrev pub reset_handler : String → Moment → Bench → Response (Unit {0}) × Bench
  reset_handler key m b =
      if key_matches cfg (some key)
      then (let (answer, b') =
            reset_vehicle (if b.running then m.forwarding else lost) m
              (record b { outside = record (b.outside) { backend = empty_store } }) in
          ((bench_reset cfg (some key) answer b.outside.backend).0, b'))
      else (unauthorized, b)

  -- `post`: `data.get("request_id")`.
  abbrev pub post : String → Request → Script (Option ℕ)
  post key r = exchange (post_handler (some key) r) >>= λ a.
      ev (Shown.posted r (http a) (id_of a) (status_of_answer a)) >> give (id_of a)

  -- `status`
  abbrev pub status : String → Script (Unit {0})
  status key = exchange (status_handler key) >>= shown_status

  -- The GET of a command, with `r["status"]`.
  abbrev pub read : String → ℕ → Script CommandRecord
  read key id = exchange (get_handler key id) >>= read_record

  -- `command`
  abbrev pub command : String → ℕ → Script CommandRecord
  command key id = read key id >>= λ r. ev (Shown.command_shown r) >> give r

  -- The loop of `wait_terminal`, begun at `t0`.
  unfoldable pub polls : ℕ → String → ℕ → ℕ → ℕ → Script CommandRecord
  polls zero key id t0 timeout s = (out_of_fuel, s)
  polls (suc n) key id t0 timeout s =
      (if ltb (s.time - t0) timeout
          then read key id >>= (λ r.
            if is_accepted r.status then sleep 250 >> polls n key id t0 timeout else command key id)
          else command key id)
        s

  -- `wait_terminal`: a poll and its sleep take 250 ms or more, so that the fuel is enough.
  unfoldable pub wait_terminal : ℕ → String → ℕ → Script CommandRecord
  unfolding polls
  wait_terminal timeout key id s = polls (suc ((timeout + 249) / 250)) key id s.time timeout s

  -- `reset`
  abbrev pub reset : String → Script (Unit {0})
  reset key = exchange (reset_handler key) >>= λ a. ev (Shown.reset_done (http a)) >> sleep 1000
