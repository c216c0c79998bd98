-- ===== src/Body/Cabin.antt =====
-- How the cabin reaches the set point (`physics_loop` of env/body-ecu/server.py).
use vehicle_bench_candidate.Base.{
  ℕ, zero, suc, ◌+◌, ◌-◌, ◌<◌, ◌≡◌, ◌⊎◌, inl, inr, Bool-cases, leb, refl, true, ◌∙◌, if◌then◌else◌,
  arith,
}
use vehicle_bench_candidate.Base.Int.{
  ℤ, pos, negsuc, pos_part, neg_part, ◌+ℤ◌, ltb_ℤ, ◌==ℤ◌, eq_of_parts,
}
use mathlib.Core.Path.{ap₂}
use vehicle_bench_candidate.Body.{BodyCal, BodyModel, charge_tick, cabin_tick, physics_tick}
use vehicle_bench_candidate.Body.Run.{seconds}

-- The distance between two raw temperatures.
abbrev pub distance : ℤ → ℤ → ℕ
distance a b =
    (pos_part a + neg_part b - (pos_part b + neg_part a))
    + (pos_part b + neg_part a - (pos_part a + neg_part b))

-- One raw step from `a` towards `b`.
abbrev toward : ℤ → ℤ → ℤ
toward a b = if a ==ℤ b then a else a +ℤ (if ltb_ℤ a b then pos 1 else negsuc 0)

distance-toward : (a b : ℤ) → distance (toward a b) b ≡ distance a b - 1
distance-toward (pos a) (pos b) = ground arith
distance-toward (pos a) (negsuc b) = ground arith
distance-toward (negsuc a) (pos b) = ground arith
distance-toward (negsuc a) (negsuc b) = ground arith

eq_of_distance : (a b : ℤ) → distance a b ≡ 0 → a ≡ b
eq_of_distance a b h = eq_of_parts a b (omega arith)

module _ (cal : BodyCal) where
  charge_tick_lem :
      (m : BodyModel)
      → let m' = charge_tick cal m in
        (m'.climate_active ≡ m.climate_active)
        × (m'.climate_target_raw ≡ m.climate_target_raw)
        × (m'.cabin_temp_raw ≡ m.cabin_temp_raw)
  unfolding charge_tick
  charge_tick_lem m = ground arith

  cabin_tick_lem :
      (m : BodyModel)
      → m.climate_active ≡ true
      → let m' = cabin_tick m in
        (m'.climate_active ≡ true)
        × (m'.climate_target_raw ≡ m.climate_target_raw)
        × (m'.cabin_temp_raw ≡ toward m.cabin_temp_raw m.climate_target_raw)
  unfolding cabin_tick
  cabin_tick_lem m h = ground arith

  physics_tick_lem :
      (m : BodyModel)
      → m.climate_active ≡ true
      → let m' = physics_tick cal m in
        (m'.climate_active ≡ true)
        × (m'.climate_target_raw ≡ m.climate_target_raw)
        × (m'.cabin_temp_raw ≡ toward m.cabin_temp_raw m.climate_target_raw)
  unfolding physics_tick
  physics_tick_lem m h =
      let (power, target, cabin) = charge_tick_lem m in
      let (power', target', cabin') = cabin_tick_lem (charge_tick cal m) (power ∙ h) in
      (power', target' ∙ target, cabin' ∙ ap₂ toward cabin target)

  closer :
      (m : BodyModel) (n : ℕ)
      → m.climate_active ≡ true
      → let m' = seconds cal n m in
        (m'.climate_active ≡ true)
        × (m'.climate_target_raw ≡ m.climate_target_raw)
        × (distance m'.cabin_temp_raw m.climate_target_raw
            ≡ distance m.cabin_temp_raw m.climate_target_raw - n)
  unfolding seconds
  closer m zero on = (on, refl, omega arith)
  closer m (suc n) on =
      let (power, target, near) = closer m n on in
      let (power', target', cabin') = physics_tick_lem (seconds cal n m) power in
      (power', target' ∙ target, rw (cabin', target, distance-toward) (omega (arith, near)))

  -- While the air conditioning runs, each second brings the cabin temperature one raw step nearer
  -- to the set point, which stays: after `n` seconds the distance is the old one less `n`, or 0 if
  -- that is less, and unless `n` is below the old distance the cabin is at the set point.
  pub cabin_converges :
      (m : BodyModel) (n : ℕ)
      → m.climate_active ≡ true
      → let m' = seconds cal n m in
        (m'.climate_active ≡ true)
        × (m'.climate_target_raw ≡ m.climate_target_raw)
        × (distance m'.cabin_temp_raw m.climate_target_raw
            ≡ distance m.cabin_temp_raw m.climate_target_raw - n)
        × ((n < distance m.cabin_temp_raw m.climate_target_raw)
            ⊎ (m'.cabin_temp_raw ≡ m.climate_target_raw))
  cabin_converges m n on =
      let (power, target, near) = closer m n on in
      (
        power,
        target,
        near,
        elim (Bool-cases (leb (distance m.cabin_temp_raw m.climate_target_raw) n)) [
          | inl h ↦ inr (eq_of_distance _ _ (ground (arith, near, target)))
          | inr h ↦ inl (ground arith)
        ],
      )
