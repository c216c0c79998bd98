-- ===== src/Body/Charge.antt =====
-- How a charging session runs (`physics_loop` of env/body-ecu/server.py).
use native.Mathlib.Numerals.{add-one}
use vehicle_bench_candidate.Base.{
  ℕ, zero, suc, ◌+◌, ◌*◌, ◌≤◌, ◌<◌, ◌≡◌, ap, sym, ◌∙◌, refl, false, true, arith,
}
use vehicle_bench_candidate.Base.Int.{ℤ, pos, ◌≤ℤ◌}
use vehicle_bench_candidate.Proto.{ChargingState, charging, complete}
use vehicle_bench_candidate.Body.{BodyCal, BodyModel, charge_tick, cabin_tick, physics_tick}
use vehicle_bench_candidate.Body.Run.{seconds}

-- The charger's part of a state.
record ChargeIs (m : BodyModel) (state : ChargingState) (soc : ℕ) (target : ℤ) (acc : ℕ)
    : Type 0 where
  pub state_is : m.charging_state ≡ state
  pub soc_is : m.soc ≡ soc
  pub target_is : m.target_soc ≡ target
  pub acc_is : m.soc_acc ≡ acc

-- The accumulator after `j` shares.
abbrev pub shares : BodyCal → ℕ → ℕ
shares cal zero = cal.floats.zero_point
shares cal (suc j) = cal.floats.add_share cal.charging_soc_step_period_s (shares cal j)

-- `p + 1` shares of `1.0 / period` are the first to reach 1.0, and nothing is left over. So it is with
-- the calibrated period of 3.0 and `p = 2`, and with the powers of two; at 6.0 or 10.0 no `p` does it.
pub record Fills (cal : BodyCal) (p : ℕ) : Type 0 where
  pub waits : (j : ℕ) → j < p → cal.floats.at_least_one (shares cal (suc j)) ≡ false
  pub full : cal.floats.at_least_one (shares cal (suc p)) ≡ true
  pub empties : cal.floats.minus_one (shares cal (suc p)) ≡ cal.floats.zero_point

module _ (cal : BodyCal) {m : BodyModel} {s : ℕ} {t : ℤ} where
  -- The cabin does not touch the charger.
  ChargeIs-cabin_tick :
      {c : ChargingState} {a : ℕ} → ChargeIs m c s t a → ChargeIs (cabin_tick m) c s t a
  unfolding cabin_tick
  ChargeIs-cabin_tick h = ground arith

  charge_tick_wait :
      {a : ℕ}
      → ChargeIs m charging s t a
      → cal.floats.at_least_one (cal.floats.add_share cal.charging_soc_step_period_s a) ≡ false
      → ChargeIs
          (charge_tick cal m)
          charging
          s
          t
          (cal.floats.add_share cal.charging_soc_step_period_s a)
  unfolding charge_tick
  charge_tick_wait h e = ground (arith, h.acc_is)

  charge_tick_step :
      {p : ℕ}
      → ChargeIs m charging s t (shares cal p)
      → Fills cal p
      → s < 100
      → pos (s + 2) ≤ℤ t
      → ChargeIs (charge_tick cal m) charging (s + 1) t cal.floats.zero_point
  unfolding charge_tick
  charge_tick_step h f lt below = ground (arith, h.acc_is, f.full, f.empties)

  charge_tick_last :
      {p : ℕ}
      → ChargeIs m charging s t (shares cal p)
      → Fills cal p
      → s < 100
      → t ≤ℤ pos (s + 1)
      → ChargeIs (charge_tick cal m) complete (s + 1) t cal.floats.zero_point
  unfolding charge_tick
  charge_tick_last h f lt reached = ground (arith, h.acc_is, f.full, f.empties)

module _ (cal : BodyCal) (m : BodyModel) where
  seconds-suc : (n k : ℕ) → k ≡ n + 1 → seconds cal k m ≡ physics_tick cal (seconds cal n m)
  unfolding seconds
  seconds-suc n k e = rw (e, add-one n) refl

  -- A fact about the charger after one more round.
  ChargeIs-seconds :
      (n k s u a : ℕ) {c : ChargingState} {t : ℤ}
      → k ≡ n + 1
      → u ≡ s
      → ChargeIs (charge_tick cal (seconds cal n m)) c s t a
      → ChargeIs (seconds cal k m) c u t a
  unfolding physics_tick
  ChargeIs-seconds n k s u a e f h = rw (seconds-suc n k e, f) (ChargeIs-cabin_tick cal h)

module _ (cal : BodyCal) (p : ℕ) (fills : Fills cal p) (m : BodyModel) (s : ℕ) (t : ℤ)
    (start : ChargeIs m charging s t cal.floats.zero_point) where
  -- `j` rounds into the `i`-th step of the session.
  abbrev At : ChargingState → ℕ → ℕ → Type 0
  At c i j = ChargeIs (seconds cal (i * suc p + j) m) c (s + i) t (shares cal j)

  At-zero : At charging 0 0
  unfolding seconds
  At-zero = ground arith

  At-wait : (i j : ℕ) → j < suc p → At charging i 0 → At charging i j
  At-wait i zero lt h = h
  At-wait i (suc j) lt h =
      let before : At charging i j = At-wait i j (omega arith) h in
      ChargeIs-seconds cal m (i * suc p + j) (i * suc p + suc j) (s + i) (s + i)
        (shares cal (suc j)) (omega arith) refl
        (charge_tick_wait cal before (fills.waits j (omega arith)))

  At-step :
      (i : ℕ) {c : ChargingState}
      → ChargeIs
          (charge_tick cal (seconds cal (i * suc p + p) m))
          c
          (s + i + 1)
          t
          cal.floats.zero_point
      → At c (suc i) 0
  At-step i h =
      ChargeIs-seconds cal m (i * suc p + p) _ (s + i + 1) (s + suc i) cal.floats.zero_point
        (grind arith) (omega arith) h

  At-charging : (i : ℕ) → s + i ≤ 100 → pos (s + i + 1) ≤ℤ t → At charging i 0
  At-charging zero room below = At-zero
  At-charging (suc i) room below =
      let before : At charging i 0 = At-charging i (omega arith) (omega arith) in
      At-step i (
        charge_tick_step cal {p = p} (At-wait i p (omega arith) before) fills (omega arith)
          (omega arith))

-- When `p + 1` float shares of the step period are the first to reach 1.0 and leave nothing over, a
-- session that starts with the accumulator at 0.0 and the battery `k + 1` below a target of at most
-- 100 gains one percent every `p + 1` seconds, and charges all the while: in second `j` of step
-- `i ≤ k` the state of charge has risen by `i`. After exactly `k + 1` such steps it is complete, at
-- the target.
pub session_completes :
    (cal : BodyCal) (m : BodyModel) (p k i j : ℕ)
    → Fills cal p
    → m.charging_state ≡ charging
    → m.soc_acc ≡ cal.floats.zero_point
    → m.target_soc ≡ pos (m.soc + suc k)
    → m.soc + suc k ≤ 100
    → i ≤ k
    → j ≤ p
    → (let m' = seconds cal (i * suc p + j) m in
        (m'.charging_state ≡ charging) × (m'.soc ≡ m.soc + i))
      × (let m' = seconds cal (suc k * suc p) m in
          (m'.charging_state ≡ complete) × (pos m'.soc ≡ m.target_soc))
session_completes cal m p k i j fills starts fresh goal room hi hj = (
  (let at : At cal p fills m m.soc m.target_soc start charging i j = reached i j hi hj in
      (at.state_is, at.soc_is)),
  (last.state_is, ap pos last.soc_is ∙ sym goal),
)
  where
    start : ChargeIs m charging m.soc m.target_soc cal.floats.zero_point
    start = record { state_is = starts; soc_is = refl; target_is = refl; acc_is = fresh }

    below : (i : ℕ) → i ≤ k → pos (m.soc + i + 1) ≤ℤ m.target_soc
    below i hi = rw goal (omega arith)

    reached : (i j : ℕ) → i ≤ k → j ≤ p → At cal p fills m m.soc m.target_soc start charging i j
    reached i j hi hj =
        At-wait cal p fills m m.soc m.target_soc start i j (omega arith)
          (At-charging cal p fills m m.soc m.target_soc start i (omega arith) (below i hi))

    last :
        ChargeIs
          (seconds cal (suc k * suc p) m)
          complete
          (m.soc + suc k)
          m.target_soc
          cal.floats.zero_point
    last =
        ChargeIs-seconds cal m (k * suc p + p) _ (m.soc + k + 1) _ cal.floats.zero_point
          (grind arith) (omega arith)
          (charge_tick_last cal {p = p} (reached k p (omega arith) (omega arith)) fills
            (omega arith) (rw goal (omega arith)))

module _ (cal : BodyCal) where
  abbrev IsOvercharging : BodyModel → Type 0
  IsOvercharging m = (m.charging_state ≡ charging) × (pos 101 ≤ℤ m.target_soc)

  physics_tick-IsOvercharging :
      (m : BodyModel) → IsOvercharging m → IsOvercharging (physics_tick cal m)
  unfolding physics_tick charge_tick cabin_tick
  physics_tick-IsOvercharging m h = ground arith

  seconds-IsOvercharging :
      (n : ℕ) (m : BodyModel) → IsOvercharging m → IsOvercharging (seconds cal n m)
  unfolding seconds
  seconds-IsOvercharging zero m h = h
  seconds-IsOvercharging (suc n) m h =
      physics_tick-IsOvercharging (seconds cal n m) (seconds-IsOvercharging n m h)

-- A session whose target is above 100 never completes: while only the physics loop runs, the
-- charger stays in the state CHARGING, whatever the time that passes.
pub session_above_100_never_completes :
    (cal : BodyCal) (m : BodyModel) (n : ℕ)
    → m.charging_state ≡ charging
    → pos 101 ≤ℤ m.target_soc
    → (seconds cal n m).charging_state ≡ charging
session_above_100_never_completes cal m n starts above =
    (seconds-IsOvercharging cal n m (starts, above)).0
