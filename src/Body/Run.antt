-- ===== src/Body/Run.antt =====
-- The Body ECU as a server: the calls that reach `BodyControlServicer` and the rounds of
-- `physics_loop`, in the order in which they take `self.m.lock` (env/body-ecu/server.py).
use vehicle_bench_candidate.Base.{ℕ, zero, suc, List, [], ◌∷◌}
use vehicle_bench_candidate.Proto.{DoorLockRequest, ClimateRequest, ChargingRequest}
use vehicle_bench_candidate.Body.{
  BodyCal, BodyModel, physics_tick, actuate_door_lock, set_climate, set_charging, reset_state,
}

pub data Input : Type 0 where
  door : DoorLockRequest → Input
  climate : ClimateRequest → Input
  charging : ChargingRequest → Input
  reset : Input
  second : Input

-- The state after one input; the clock readings in the answers are left out.
unfoldable pub serve : BodyCal → Input → BodyModel → BodyModel
serve cal (door r) m = (actuate_door_lock cal 0 r m).1
serve cal (climate r) m = (set_climate cal 0 r m).1
serve cal (charging r) m = (set_charging 0 r m).1
serve cal reset m = (reset_state cal 0 m).1
serve cal second m = physics_tick cal m

unfoldable pub run : BodyCal → List Input → BodyModel → BodyModel
run cal [] m = m
run cal (i ∷ is) m = run cal is (serve cal i m)

-- `n` rounds of `physics_loop` with no call between them.
unfoldable pub seconds : BodyCal → ℕ → BodyModel → BodyModel
seconds cal zero m = m
seconds cal (suc n) m = physics_tick cal (seconds cal n m)
