-- ===== src/Runner/Halting.antt =====
-- Scripts that end, part by part (`post` to `reset` of env/scenario-runner/run_scenarios.py).
use Prim.Native.String.{String}
use mathlib.Core.List.{append_assoc, append-nil}
use vehicle_bench_candidate.Base.{
  ◌++◌, ◌∙◌, ap, sym, refl, ◌≡◌, List, [], if_intro, if◌then◌else◌, ℕ, zero, suc, ◌+◌, ◌-◌, ◌*◌,
  ◌/◌, ◌≤◌, Option, none, some, arith, ltb,
}
use vehicle_bench_candidate.Body.{BodyCal}
use vehicle_bench_candidate.Gateway.Types.{TcuCal}
use vehicle_bench_candidate.Backend.Store.{CommandRecord, Response, ok}
use vehicle_bench_candidate.Backend.Commands.{Config, Request}
use vehicle_bench_candidate.Backend.Status.{VehicleStatus}
use vehicle_bench_candidate.Bench.{Bench, Link, lost, answered_in_time, answer_lost}
use vehicle_bench_candidate.Runner.{
  Fault, Ev, Shown, Moment, Runner, Ended, returned, raised, out_of_fuel, Script, after, ◌>>=◌,
  ◌>>◌, give, raise, ev, http, id_of, status_of_answer, post_handler, status_handler, get_handler,
  reset_handler, sleep, is_accepted, exchange, delivered, post, shown_status, status, read_record,
  read, command, polls, wait_terminal, reset,
}
use vehicle_bench_candidate.Runner.Scenarios.{request_id}

-- Time does not run backwards, and what was printed stays.
abbrev pub Later : Runner → Runner → Type 0
Later s t = (s.time ≤ t.time) × (es : List Ev) × (t.events ≡ s.events ++ es)

-- The script has an end, which is later.
abbrev pub Stops : {A : Type 0} → Runner → Ended A × Runner → Type 0
Stops s (returned a, s') = Later s s'
Stops s (raised e, s') = Later s s'
Stops s (out_of_fuel, s') = ⊥

Later-trans : (s t u : Runner) → Later s t → Later t u → Later s u
Later-trans s t u (le, xs, e) (le', ys, e') =
    (omega arith, xs ++ ys, e' ∙ ap (λ l. l ++ ys) e ∙ append_assoc s.events xs ys)

-- Nothing is printed.
pub same-Later : (s t : Runner) → s.time ≤ t.time → t.events ≡ s.events → Later s t
same-Later s t le e = (le, [], e ∙ sym (append-nil s.events))

pub record Halts {A : Type 0} (m : Script A) : Type 0 where
  pub stops : (s : Runner) → Stops s (m s)

pub Stops-before :
    {A : Type 0} (s t : Runner) (x : Ended A × Runner) → Later s t → Stops t x → Stops s x
Stops-before s t (returned a, u) le h = Later-trans s t u le h
Stops-before s t (raised e, u) le h = Later-trans s t u le h
Stops-before s t (out_of_fuel, u) le h = h

pub after-Stops :
    {A B : Type 0} (f : A → Script B) (s : Runner) (x : Ended A × Runner)
    → Stops s x
    → ((a : A) → Halts (f a))
    → Stops s (after f x)
after-Stops f s (returned a, t) h next = Stops-before s t (f a t) h ((next a).stops t)
after-Stops f s (raised e, t) h next = h
after-Stops f s (out_of_fuel, t) h next = h

pub bind :
    {A B : Type 0} {m : Script A} {f : A → Script B}
    → Halts m
    → ((a : A) → Halts (f a))
    → Halts (m >>= f)
bind {m} {f} h next = record { stops = λ s. after-Stops f s (m s) (h.stops s) next }

infixl 5 ◌then◌
pub ◌then◌ : {A B : Type 0} {m : Script A} {k : Script B} → Halts m → Halts k → Halts (m >> k)
h then h' = bind h (λ _. h')

pub give-Halts : {A : Type 0} (a : A) → Halts (give a)
give-Halts a = record { stops = λ s. same-Later s s (omega arith) refl }

pub raise-Halts : {A : Type 0} (e : Fault) → Halts (raise {A = A} e)
raise-Halts e = record { stops = λ s. same-Later s s (omega arith) refl }

pub ev-Halts : (shown : Shown) → Halts (ev shown)
ev-Halts shown = record { stops = λ s. (omega arith, _, refl) }

pub sleep-Halts : (ms : ℕ) → Halts (sleep ms)
sleep-Halts ms = record {
  stops = λ s. same-Later s (record s { time = s.time + ms }) (omega arith) refl;
}

pub request_id-Halts : (o : Option ℕ) → Halts (request_id o)
request_id-Halts none = raise-Halts Fault.key_error
request_id-Halts (some id) = give-Halts id

shown_status-Halts : (a : Response VehicleStatus) → Halts (shown_status a)
shown_status-Halts (ok v) = ev-Halts (Shown.status_shown v)
shown_status-Halts _ = raise-Halts Fault.key_error

read_record-Halts : (a : Response CommandRecord) → Halts (read_record a)
read_record-Halts (ok r) = give-Halts r
read_record-Halts _ = raise-Halts Fault.key_error

module _ (cfg : Config) (cal : TcuCal) (bcal : BodyCal) (env : ℕ → Moment) where
  delivered-Stops :
      {A : Type 0} (link : Link) (handler : Bench → A × Bench) (s : Runner)
      → Stops s (delivered cfg cal bcal env link handler s)
  delivered-Stops lost handler s = (omega arith, [], sym (append-nil s.events))
  delivered-Stops answered_in_time handler s = (omega arith, [], sym (append-nil s.events))
  delivered-Stops answer_lost handler s = (omega arith, [], sym (append-nil s.events))

  pub exchange-Halts :
      {A : Type 0} (handler : Moment → Bench → A × Bench)
      → Halts (exchange cfg cal bcal env handler)
  exchange-Halts handler = record {
    stops = λ s. delivered-Stops (env s.asked).reached (handler (env s.asked)) s;
  }

  pub post-Halts : (key : String) (r : Request) → Halts (post cfg cal bcal env key r)
  post-Halts key r = bind (exchange-Halts (post_handler cfg cal bcal env (some key) r)) (λ a.
      ev-Halts (Shown.posted r (http a) (id_of a) (status_of_answer a)) then give-Halts (id_of a))

  pub status-Halts : (key : String) → Halts (status cfg cal bcal env key)
  status-Halts key = bind (exchange-Halts (status_handler cfg cal bcal env key)) shown_status-Halts

  read-Halts : (key : String) (id : ℕ) → Halts (read cfg cal bcal env key id)
  read-Halts key id = bind (exchange-Halts (get_handler cfg cal bcal env key id)) read_record-Halts

  command-Halts : (key : String) (id : ℕ) → Halts (command cfg cal bcal env key id)
  command-Halts key id =
      bind (read-Halts key id) (λ r. ev-Halts (Shown.command_shown r) then give-Halts r)

  pub reset-Halts : (key : String) → Halts (reset cfg cal bcal env key)
  reset-Halts key =
      bind (exchange-Halts (reset_handler cfg cal bcal env key))
        (λ a. ev-Halts (Shown.reset_done (http a)) then sleep-Halts 1000)

  looked-Stops :
      (n t0 timeout : ℕ) (key : String) (id : ℕ) (s : Runner) (x : Ended CommandRecord × Runner)
      → ((t : Runner)
          → s.time + 250 ≤ t.time
          → Stops t (polls cfg cal bcal env n key id t0 timeout t))
      → Stops s x
      → Stops s (
          after
            (λ r.
              if is_accepted r.status
              then sleep 250 >> polls cfg cal bcal env n key id t0 timeout
              else command cfg cal bcal env key id)
            x)
  looked-Stops n t0 timeout key id s (raised e, t) next h = h
  looked-Stops n t0 timeout key id s (out_of_fuel, t) next h = h
  looked-Stops n t0 timeout key id s (returned r, t) next h =
      let t' = record t { time = t.time + 250 } in
      if_intro (λ (m : Script CommandRecord). Stops s (m t)) (is_accepted r.status) _ _
        (λ waiting.
          Stops-before s t' (polls cfg cal bcal env n key id t0 timeout t')
            (omega (arith, h.0), h.1, h.2) (next t' (omega arith)))
        (λ done.
          Stops-before s t (command cfg cal bcal env key id t) h ((command-Halts key id).stops t))

  polls-Stops :
      (n t0 timeout : ℕ) (key : String) (id : ℕ) (s : Runner)
      → t0 + timeout ≤ s.time + 250 * n
      → Stops s (polls cfg cal bcal env (suc n) key id t0 timeout s)
  unfolding polls
  polls-Stops zero t0 timeout key id s enough =
      if_intro (λ (m : Script CommandRecord). Stops s (m s)) (ltb (s.time - t0) timeout) _ _
        (λ early. absurd (ground arith)) (λ late. (command-Halts key id).stops s)
  polls-Stops (suc n) t0 timeout key id s enough =
      if_intro (λ (m : Script CommandRecord). Stops s (m s)) (ltb (s.time - t0) timeout) _ _
        (λ early.
          looked-Stops (suc n) t0 timeout key id s (read cfg cal bcal env key id s)
            (λ t slept. polls-Stops n t0 timeout key id t (omega arith))
            ((read-Halts key id).stops s))
        (λ late. (command-Halts key id).stops s)

  pub wait_terminal-Halts :
      (timeout : ℕ) (key : String) (id : ℕ) → Halts (wait_terminal cfg cal bcal env timeout key id)
  unfolding wait_terminal
  wait_terminal-Halts timeout key id = record {
    stops = λ s. polls-Stops ((timeout + 249) / 250) s.time timeout key id s (omega arith);
  }
