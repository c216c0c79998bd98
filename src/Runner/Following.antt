-- ===== src/Runner/Following.antt =====
-- The bench while the runner waits (`wait_terminal` of env/scenario-runner/run_scenarios.py).
use Prim.Native.String.{String}
use vehicle_bench_candidate.Base.{
  if_intro, if◌then◌else◌, ℕ, zero, suc, ◌-◌, ◌/◌, ◌+◌, ◌≡◌, ◌∙◌, refl, ap, sym, List, [], ◌++◌,
  All, All-append, ltb,
}
use vehicle_bench_candidate.Body.{BodyCal}
use vehicle_bench_candidate.Gateway.Types.{TcuCal}
use vehicle_bench_candidate.Backend.Store.{CommandRecord}
use vehicle_bench_candidate.Backend.Commands.{Config}
use vehicle_bench_candidate.Bench.{Event, Bench, steps}
use vehicle_bench_candidate.Bench.Sequences.{steps-append}
use vehicle_bench_candidate.Runner.{
  Shown, Moment, Runner, Ended, returned, raised, out_of_fuel, Script, after, ◌>>◌, give, ev, sleep,
  is_accepted, read, command, polls, wait_terminal,
}
use vehicle_bench_candidate.Runner.Reads.{read-IsRead}

module _ (cfg : Config) (cal : TcuCal) (bcal : BodyCal) (env : ℕ → Moment) (P : Event → Type 0)
    (own : (k : ℕ) → All P (env k).happens) where
  -- From one state of the bench to another by events that satisfy `P`.
  abbrev pub Follows : Bench → Bench → Type 0
  Follows b b' = (es : List Event) × All P es × (b' ≡ steps cfg cal bcal es b)

  Follows-trans : (a b c : Bench) → Follows a b → Follows b c → Follows a c
  Follows-trans a b c (xs, hx, ex) (ys, hy, ey) = (
    xs ++ ys,
    All-append P xs ys hx hy,
    ey ∙ ap (steps cfg cal bcal ys) ex ∙ sym (steps-append cfg cal bcal xs ys a),
  )

  module _ (key : String) (id : ℕ) where
    read-Follows : (s : Runner) → Follows s.bench (read cfg cal bcal env key id s).1.bench
    read-Follows s =
        ((env s.asked).happens, own s.asked, (read-IsRead cfg cal bcal env key id s).bench)

    shown-bench :
        (x : Ended CommandRecord × Runner)
        → (after (λ r. ev (Shown.command_shown r) >> give r) x).1.bench ≡ x.1.bench
    shown-bench (returned r, s) = refl
    shown-bench (raised e, s) = refl
    shown-bench (out_of_fuel, s) = refl

    command-Follows : (s : Runner) → Follows s.bench (command cfg cal bcal env key id s).1.bench
    command-Follows s =
        let (es, h, e) = read-Follows s in (es, h, shown-bench (read cfg cal bcal env key id s) ∙ e)

    looked-Follows :
        (n t0 timeout : ℕ) (b : Bench) (x : Ended CommandRecord × Runner)
        → ((t : Runner) → Follows t.bench (polls cfg cal bcal env n key id t0 timeout t).1.bench)
        → Follows b x.1.bench
        → Follows b
            (after
              (λ r.
                if is_accepted r.status
                then sleep 250 >> polls cfg cal bcal env n key id t0 timeout
                else command cfg cal bcal env key id)
              x).1.bench
    looked-Follows n t0 timeout b (raised e, s) next h = h
    looked-Follows n t0 timeout b (out_of_fuel, s) next h = h
    looked-Follows n t0 timeout b (returned r, s) next h =
        let s' = record s { time = s.time + 250 } in
        if_intro (λ (m : Script CommandRecord). Follows b (m s).1.bench) (is_accepted r.status) _ _
          (λ waiting. Follows-trans b s.bench _ h (next s'))
          (λ done. Follows-trans b s.bench _ h (command-Follows s))

    polls-Follows :
        (n t0 timeout : ℕ) (s : Runner)
        → Follows s.bench (polls cfg cal bcal env n key id t0 timeout s).1.bench
    unfolding polls steps
    polls-Follows zero t0 timeout s = ([], tt, refl)
    polls-Follows (suc n) t0 timeout s =
        if_intro (λ (m : Script CommandRecord). Follows s.bench (m s).1.bench)
          (ltb (s.time - t0) timeout) _ _
          (λ early.
            looked-Follows n t0 timeout s.bench (read cfg cal bcal env key id s)
              (λ t. polls-Follows n t0 timeout t) (read-Follows s))
          (λ late. command-Follows s)

    pub wait_terminal-Follows :
        (timeout : ℕ) (s : Runner)
        → Follows s.bench (wait_terminal cfg cal bcal env timeout key id s).1.bench
    unfolding wait_terminal
    wait_terminal-Follows timeout s = polls-Follows (suc ((timeout + 249) / 250)) s.time timeout s
