-- ===== src/Tests/Robot.antt =====
-- The theorems on the checks of the Robot suites (starter/robot/libraries), at concrete inputs.
use vehicle_bench_candidate.Base.{
  ℕ, suc, ◌-◌, ◌*◌, ◌/◌, ◌≡◌, ◌⊎◌, not, List, [], ◌∷◌, ◌==◌, ltb, leb, All, length,
}
use vehicle_bench_candidate.Robot.{Floats, Sample, assert_heartbeat_sequence_timing, ends_with}
use vehicle_bench_candidate.Robot.Heartbeats.{nominal, IsOn, FirstOff, heartbeat_timing_checked}

-- Whole numbers for floats, and times in thousands.
abbrev whole_numbers : Floats ℕ
whole_numbers = record {
  plus_one = λ a. suc a;
  differs = λ a b. not (a == b);
  at_most = λ a b. leb a b;
  exceeds = λ a b. ltb b a;
  minus = λ a b. a - b;
  per_mille = λ a. a / 1000;
  times_1000 = λ a. a * 1000;
  magnitude = λ a. a;
}

-- Two heartbeats, a restart, and two more.
abbrev samples : List (Sample ℕ)
samples =
    record { time = 10; seq = 1; latency = 10 }
    ∷ record { time = 12; seq = 2; latency = 30 }
    ∷ record { time = 1; seq = 1; latency = 10 }
    ∷ record { time = 3; seq = 2; latency = 10 }
    ∷ []

heartbeat_timing_checked_example :
    (All (IsOn whole_numbers 2 0) (nominal whole_numbers samples)
      × (assert_heartbeat_sequence_timing whole_numbers 2 0 samples
          ≡ ends_with whole_numbers (length (nominal whole_numbers samples))))
    ⊎ FirstOff whole_numbers 2 0
        (nominal whole_numbers samples)
        (assert_heartbeat_sequence_timing whole_numbers 2 0 samples)
heartbeat_timing_checked_example = heartbeat_timing_checked whole_numbers 2 0 samples
