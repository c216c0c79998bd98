-- ===== src/Backend/Status.antt =====
-- What the backend shows: the vehicle's status and the list of commands
-- (`vehicle_status` and `list_commands` of env/backend/app/main.py).
use Prim.Native.String.{String}
use vehicle_bench_candidate.Base.{
  ℕ, ◌+◌, ◌-◌, Bool, true, false, ◌&&◌, Option, none, some, List, [], ◌∷◌, leb, length, take,
  if◌then◌else◌,
}
use vehicle_bench_candidate.Base.Int.{ℤ, pos, negsuc, ◌-ℤ◌, ltb_ℤ}
use vehicle_bench_candidate.Base.Dyadic.{Dyadic}
use vehicle_bench_candidate.Proto.{ChargingState}
use vehicle_bench_candidate.Gateway.Types.{StateReport}
use vehicle_bench_candidate.Backend.Store.{CommandRecord, Store, Response, ok}
use vehicle_bench_candidate.Backend.Commands.{Config, with_key}

-- `VehicleStatus`, its nested models flattened; `report_age` is in milliseconds. A state that is
-- not known is `none`, also the charger's `UNKNOWN`.
pub record VehicleStatus : Type 0 where
  pub doors_locked : Option Bool
  pub climate_active : Option Bool
  pub target_temp_c : Option Dyadic
  pub cabin_temp_c : Option Dyadic
  pub charging_state : Option ChargingState
  pub soc_percent : Option ℕ
  pub target_soc_percent : Option ℤ
  pub power_kw : Option ℕ
  pub ecu_online : Bool
  pub last_report_at : Option ℕ
  pub report_age : Option ℤ
  pub state_seq : Option ℕ
  pub has_report : Bool

-- The set point that is shown.
abbrev pub shown_target : Option Dyadic → StateReport → Dyadic
shown_target none r = r.target_temp_c
shown_target (some desired) r = if r.climate_active then desired else r.target_temp_c

abbrev pub status_of_report : ℕ → Option Dyadic → Option (StateReport × ℕ) → VehicleStatus
status_of_report now desired none = record {
  doors_locked = none;
  climate_active = none;
  target_temp_c = none;
  cabin_temp_c = none;
  charging_state = none;
  soc_percent = none;
  target_soc_percent = none;
  power_kw = none;
  ecu_online = false;
  last_report_at = none;
  report_age = none;
  state_seq = none;
  has_report = false;
}
status_of_report now desired (some (r, received)) =
    let age = pos now -ℤ pos received in
    record {
      doors_locked = some r.doors_locked;
      climate_active = some r.climate_active;
      target_temp_c = some (shown_target desired r);
      cabin_temp_c = some r.cabin_temp_c;
      charging_state = some r.charging_state;
      soc_percent = some r.soc_percent;
      target_soc_percent = some r.target_soc_percent;
      power_kw = some r.power_kw;
      ecu_online = r.ecu_online && ltb_ℤ age (pos 20000);
      last_report_at = some r.reported_at;
      report_age = some age;
      state_seq = some r.state_seq;
      has_report = true;
    }

-- `GET /vehicle/status` at `now`, behind the key.
unfoldable pub vehicle_status : Config → Option String → ℕ → Store → Response VehicleStatus × Store
vehicle_status cfg key now store =
    with_key cfg key store
      (ok (status_of_report now store.desired_climate_target store.report), store)

-- Python's `sorted(…, key=…, reverse=True)`, which keeps the order of equal keys.
unfoldable pub insert_newest : CommandRecord → List CommandRecord → List CommandRecord
insert_newest r [] = r ∷ []
insert_newest r (x ∷ xs) =
    if leb x.submitted_at r.submitted_at then r ∷ x ∷ xs else x ∷ insert_newest r xs

unfoldable pub newest_first : List CommandRecord → List CommandRecord
unfolding insert_newest
newest_first [] = []
newest_first (r ∷ rs) = insert_newest r (newest_first rs)

-- Python's `xs[:limit]`: a negative limit counts from the end.
abbrev pub slice_to {ℓ} : {A : Type ℓ} → ℤ → List A → List A
slice_to (pos n) xs = take n xs
slice_to (negsuc n) xs = take (length xs - (n + 1)) xs

abbrev pub values {ℓ κ} : {K : Type ℓ} {V : Type κ} → List (K × V) → List V
values [] = []
values (e ∷ d) = e.1 ∷ values d

-- `GET /vehicle/commands`, behind the key.
unfoldable pub list_commands :
    Config → Option String → ℤ → Store → Response (List CommandRecord) × Store
unfolding newest_first
list_commands cfg key limit store =
    with_key cfg key store (ok (slice_to limit (newest_first (values store.commands))), store)
