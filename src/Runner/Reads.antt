-- ===== src/Runner/Reads.antt =====
-- One request for the record of a command (the GET of `wait_terminal` and `command` of
-- env/scenario-runner/run_scenarios.py).
use Prim.Native.String.{String}
use vehicle_bench_candidate.Base.{if_keeps, ℕ, ◌+◌, ◌≡◌, ◌≤◌, refl, Option, none, some, arith}
use vehicle_bench_candidate.Base.Dict.{lookup}
use vehicle_bench_candidate.Body.{BodyCal}
use vehicle_bench_candidate.Gateway.Types.{TcuCal}
use vehicle_bench_candidate.Backend.Store.{
  CommandRecord, Response, ok, not_found, unauthorized, Store,
}
use vehicle_bench_candidate.Backend.Commands.{Config, get_command, key_matches}
use vehicle_bench_candidate.Bench.{Bench, Link, lost, answered_in_time, answer_lost}
use vehicle_bench_candidate.Runner.{
  after, delivered, read_record, get_handler, meanwhile, asked_once, Moment, Runner, Ended,
  returned, raised, out_of_fuel, read,
}

-- A record that is read is the one in the table.
abbrev pub Reads : ℕ → Ended CommandRecord × Runner → Type 0
Reads id (returned r, s) = lookup id s.bench.outside.backend.commands ≡ some r
Reads id (raised e, s) = Unit
Reads id (out_of_fuel, s) = ⊥

module _ (cfg : Config) (cal : TcuCal) (bcal : BodyCal) (env : ℕ → Moment) (key : String)
    (id : ℕ) where
  -- What one request for the record leaves.
  pub record IsRead (s : Runner) (x : Ended CommandRecord × Runner) : Type 0 where
    pub bench : x.1.bench ≡ meanwhile cfg cal bcal env s
    pub asked : x.1.asked ≡ s.asked + 1
    pub time : s.time ≤ x.1.time
    pub events : x.1.events ≡ s.events
    pub result : Reads id x

  Holds : Response CommandRecord → Bench → Type 0
  Holds (ok r) b = lookup id b.outside.backend.commands ≡ some r
  Holds _ b = Unit

  found-Holds :
      (o : Option CommandRecord) (b : Bench)
      → lookup id b.outside.backend.commands ≡ o
      → Holds (elim o [ none ↦ not_found | some r ↦ ok r ]) b
  unfolding Holds
  found-Holds none b e = tt
  found-Holds (some r) b e = e

  get_handler-Holds : (m : Moment) (b : Bench) → Holds (get_handler cfg cal bcal env key id m b).0 b
  unfolding Holds get_command
  get_handler-Holds m b =
      if_keeps (λ (x : Response CommandRecord × Store). Holds x.0 b) (key_matches cfg (some key)) _
        (unauthorized, b.outside.backend)
        (found-Holds (lookup id b.outside.backend.commands) b refl) tt

  read_record-IsRead :
      (a : Response CommandRecord) (s : Runner)
      → Holds a (meanwhile cfg cal bcal env s)
      → IsRead s (read_record a (asked_once cfg cal bcal env (meanwhile cfg cal bcal env s) s))
  unfolding Holds
  read_record-IsRead (ok r) s h = record {
    bench = refl;
    asked = refl;
    time = omega arith;
    events = refl;
    result = h;
  }
  read_record-IsRead _ s h = record {
    bench = refl;
    asked = refl;
    time = omega arith;
    events = refl;
    result = tt;
  }

  delivered-IsRead :
      (link : Link) (s : Runner)
      → IsRead s (
          after read_record
            (delivered cfg cal bcal env link (get_handler cfg cal bcal env key id (env s.asked)) s))
  delivered-IsRead lost s = record {
    bench = refl;
    asked = refl;
    time = omega arith;
    events = refl;
    result = tt;
  }
  delivered-IsRead answered_in_time s =
      read_record-IsRead _ s (get_handler-Holds (env s.asked) (meanwhile cfg cal bcal env s))
  delivered-IsRead answer_lost s = record {
    bench = refl;
    asked = refl;
    time = omega arith;
    events = refl;
    result = tt;
  }

  pub read-IsRead : (s : Runner) → IsRead s (read cfg cal bcal env key id s)
  read-IsRead s = delivered-IsRead (env s.asked).reached s
