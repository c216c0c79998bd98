-- ===== src/Bench/Sequences.antt =====
-- Sequences of events of the bench.
use vehicle_bench_candidate.Base.{◌≡◌, refl, List, [], ◌∷◌, ◌++◌}
use vehicle_bench_candidate.Body.{BodyCal}
use vehicle_bench_candidate.Gateway.Types.{TcuCal}
use vehicle_bench_candidate.Backend.Commands.{Config}
use vehicle_bench_candidate.Bench.{Event, Bench, step, steps}

pub steps-append :
    (cfg : Config) (cal : TcuCal) (bcal : BodyCal) (xs ys : List Event) (b : Bench)
    → steps cfg cal bcal (xs ++ ys) b ≡ steps cfg cal bcal ys (steps cfg cal bcal xs b)
unfolding steps
steps-append cfg cal bcal [] ys b = refl
steps-append cfg cal bcal (x ∷ xs) ys b = steps-append cfg cal bcal xs ys (step cfg cal bcal x b)
