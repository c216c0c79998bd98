-- ===== src/Backend/Store.antt =====
-- The backend's data (`CommandRecord`, `Store` and the schemas of env/backend/app/main.py). A
-- request id (a UUID) is a number, and so is a time, in milliseconds; the order of two ISO texts
-- of `now_iso` is that of the times. FastAPI checks a declared key and declared bounds before a
-- handler runs; what it answers then is a case of `Response`.
use Prim.Native.String.{String}
use vehicle_bench_candidate.Base.{ℕ, ◌≡◌, Option, none, some, [], ◌∷◌, ◌==◌, if◌then◌else◌, arith}
use vehicle_bench_candidate.Base.Dict.{Dict, lookup}
use vehicle_bench_candidate.Base.Dyadic.{Dyadic}
use vehicle_bench_candidate.Gateway.Types.{Reason, Params, StateReport}
use vehicle_bench_candidate.Gateway.Worker.{QueuedAnswer}

pub data CommandType : Type 0 where
  lock unlock climate_start climate_stop charging_start charging_stop : CommandType

-- The text of a command, as it is sent to the vehicle.
unfoldable pub command_text : CommandType → String
command_text lock = "LOCK"
command_text unlock = "UNLOCK"
command_text climate_start = "CLIMATE_START"
command_text climate_stop = "CLIMATE_STOP"
command_text charging_start = "CHARGING_START"
command_text charging_stop = "CHARGING_STOP"

pub data CommandStatus : Type 0 where
  accepted completed failed : CommandStatus

pub record CommandRecord : Type 0 where
  pub request_id : ℕ
  pub command : CommandType
  pub params : Params
  pub status : CommandStatus
  pub reason : Option Reason
  pub submitted_at : ℕ
  pub completed_at : Option ℕ
  pub elapsed_ms : Option ℕ
  pub tcu_ack : Option QueuedAnswer

-- `report` has the time of its receipt (`_received_epoch`) beside it.
pub record Store : Type 0 where
  pub report : Option (StateReport × ℕ)
  pub commands : Dict CommandRecord
  pub desired_climate_target : Option Dyadic

-- `Store.reset`; the VIN is a constant.
abbrev pub empty_store : Store
empty_store = record { report = none; commands = []; desired_climate_target = none }

-- What a handler answers: a body with 200, 204, or an `HTTPException` or validation error.
pub data Response {ℓ} (A : Type ℓ) : Type ℓ where
  ok : A → Response A
  no_content unauthorized not_found unprocessable : Response A
  bad_gateway unavailable : ℕ → Response A

-- An assignment to fields of a record that the table may hold: a record that a reset has taken
-- out of the table is changed where nobody sees it.
abbrev pub update_record :
    ℕ → (CommandRecord → CommandRecord) → Dict CommandRecord → Dict CommandRecord
update_record id f [] = []
update_record id f (e ∷ d) = if id == e.0 then (e.0, f e.1) ∷ d else e ∷ update_record id f d

abbrev pub apply_to : (CommandRecord → CommandRecord) → Option CommandRecord → Option CommandRecord
apply_to f none = none
apply_to f (some r) = some (f r)

pub lookup-update_record :
    (j id : ℕ) (f : CommandRecord → CommandRecord) (d : Dict CommandRecord)
    → lookup j (update_record id f d) ≡ (if j == id then apply_to f (lookup j d) else lookup j d)
lookup-update_record j id f [] = ground arith
lookup-update_record j id f (e ∷ d) = ground (arith, lookup-update_record j id f d)
