-- ===== src/Backend/Shown.antt =====
-- What the backend shows of the vehicle (`vehicle_status` of env/backend/app/main.py).
use vehicle_bench_candidate.Base.{
  ℕ, ◌+◌, ◌<◌, ◌≡◌, ◌⊎◌, ◌↔◌, refl, ap, inl, inr, true, false, Bool-cases, Option-cases, Option,
  none, some, arith,
}
use vehicle_bench_candidate.Base.Dyadic.{Dyadic}
use vehicle_bench_candidate.Gateway.Types.{StateReport}
use vehicle_bench_candidate.Backend.Store.{Store, ok}
use vehicle_bench_candidate.Backend.Commands.{Config}
use vehicle_bench_candidate.Backend.Access.{key_matches_self}
use vehicle_bench_candidate.Backend.Status.{VehicleStatus, vehicle_status, status_of_report}

vehicle_status-key :
    (cfg : Config) (now : ℕ) (store : Store) {report : Option (StateReport × ℕ)}
    → store.report ≡ report
    → vehicle_status cfg (some cfg.api_key) now store
      ≡ (ok (status_of_report now store.desired_climate_target report), store)
unfolding vehicle_status
vehicle_status-key cfg now store h =
    rw (key_matches_self cfg)
      (ap (λ x. (ok (status_of_report now store.desired_climate_target x), store)) h)

-- With the right key, the status after a report shows the report's doors, climate power, charger,
-- cabin temperature and sequence number. The Body ECU counts as online exactly if the report says
-- so and came less than 20 s ago. While the climate runs by the report and a set point was asked for,
-- the set point is the one that was asked for, whatever the vehicle reports; otherwise it is the
-- report's.
pub vehicle_status-report :
    (cfg : Config) (now received : ℕ) (store : Store) (r : StateReport)
    → store.report ≡ some (r, received)
    → (v : VehicleStatus) × (vehicle_status cfg (some cfg.api_key) now store ≡ (ok v, store))
      × (v.doors_locked ≡ some r.doors_locked)
      × (v.climate_active ≡ some r.climate_active)
      × (v.cabin_temp_c ≡ some r.cabin_temp_c)
      × (v.charging_state ≡ some r.charging_state)
      × (v.soc_percent ≡ some r.soc_percent)
      × (v.target_soc_percent ≡ some r.target_soc_percent)
      × (v.state_seq ≡ some r.state_seq)
      × ((v.ecu_online ≡ true) ↔ ((r.ecu_online ≡ true) × (now < received + 20000)))
      × (((d : Dyadic) × (r.climate_active ≡ true)
            × (store.desired_climate_target ≡ some d)
            × (v.target_temp_c ≡ some d))
          ⊎ (((r.climate_active ≡ false) ⊎ (store.desired_climate_target ≡ none))
              × (v.target_temp_c ≡ some r.target_temp_c)))
vehicle_status-report cfg now received store r h = (
  status_of_report now store.desired_climate_target (some (r, received)),
  vehicle_status-key cfg now store h,
  refl,
  refl,
  refl,
  refl,
  refl,
  refl,
  refl,
  (ground arith, ground arith),
  elim (Option-cases store.desired_climate_target) [
    | inl unasked ↦ inr (inr unasked, ground arith)
    | inr (d, asked) ↦ elim (Bool-cases r.climate_active) [
      | inl runs ↦ inl (d, runs, asked, ground arith)
      | inr idle ↦ inr (inl idle, ground arith)
    ]
  ],
)

-- While the climate runs after a request for the set point `d`, the status shows `d`, also where
-- the vehicle reports another set point.
pub vehicle_status-shows_desired :
    (cfg : Config) (now received : ℕ) (store : Store) (r : StateReport) (d : Dyadic)
    → store.report ≡ some (r, received)
    → r.climate_active ≡ true
    → store.desired_climate_target ≡ some d
    → (v : VehicleStatus) × (vehicle_status cfg (some cfg.api_key) now store ≡ (ok v, store))
      × (v.target_temp_c ≡ some d)
vehicle_status-shows_desired cfg now received store r d h active desired = (
  status_of_report now store.desired_climate_target (some (r, received)),
  vehicle_status-key cfg now store h,
  ground arith,
)
