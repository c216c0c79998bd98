-- ===== src/Backend/Lifecycle.antt =====
-- The life of one command in the backend's table (`dispatch` and `command_result` of
-- env/backend/app/main.py).
use mathlib.Core.Option
use vehicle_bench_candidate.Base.{
  ℕ, ◌≡◌, ◌≢◌, ◌⊎◌, inl, inr, refl, ap, Option, Option-cases, none, some, arith, Bool-cases, ◌==◌,
  if◌then◌else◌,
}
use vehicle_bench_candidate.Base.Dict.{lookup}
use vehicle_bench_candidate.Gateway.Types.{Reason, Verdict, ResultReport}
use vehicle_bench_candidate.Gateway.Worker.{QueuedAnswer}
use vehicle_bench_candidate.Backend.Store.{
  Store, ok, no_content, not_found, unavailable, bad_gateway, CommandStatus, CommandRecord,
  completed, failed, lookup-update_record, apply_to, update_record,
}
use vehicle_bench_candidate.Backend.Commands.{
  TcuAnswer, answered, http_error, dispatch_end, command_result, status_of, with_result,
  failed_with,
}

-- The status of a command in the table.
abbrev pub status_at : ℕ → Store → Option CommandStatus
status_at id store = Option.map (λ r. r.status) (lookup id store.commands)

-- What `dispatch` makes of its command once the gateway has answered, or has not.
abbrev pub settled : ℕ → TcuAnswer → CommandRecord → CommandRecord
settled now http_error = failed_with Reason.vehicle_unreachable now
settled now (answered status body) =
    if status == 200
    then (λ r. record r { tcu_ack = some body })
    else failed_with (Reason.tcu_http status) now

-- The end of a dispatch changes only its own command. If the gateway answered 200, the caller is
-- told the id and the status stays; on any other status the caller gets 502 and the command is
-- FAILED with that status as its reason; if there was no answer the caller gets 503 and the
-- command is FAILED as unreachable. A command that is no longer in the table stays out of it.
pub dispatch_end_lem :
    (id now : ℕ) (answer : TcuAnswer) (store : Store) (j : ℕ)
    → let (response, store') = dispatch_end id now answer store in
      (lookup j store'.commands ≡ (
        if j == id
        then apply_to (settled now answer) (lookup j store.commands)
        else lookup j store.commands))
      × (store'.report ≡ store.report)
      × (store'.desired_climate_target ≡ store.desired_climate_target)
      × (((answer ≡ http_error) × (response ≡ unavailable id))
          ⊎ ((status : ℕ) × (body : QueuedAnswer) × (answer ≡ answered status body)
              × (status ≡ 200)
              × (response ≡ ok id))
          ⊎ ((status : ℕ) × (body : QueuedAnswer) × (answer ≡ answered status body)
              × (status ≢ 200)
              × (response ≡ bad_gateway id)))
unfolding dispatch_end
dispatch_end_lem id now http_error store j =
    (lookup-update_record j id _ store.commands, refl, refl, inl (refl, refl))
dispatch_end_lem id now (answered status body) store j = elim (Bool-cases (status == 200)) [
  | inl e ↦ rw e (
    lookup-update_record j id _ store.commands,
    refl,
    refl,
    inr (inl (status, body, refl, ground arith, refl)),
  )
  | inr e ↦ rw e (
    lookup-update_record j id _ store.commands,
    refl,
    refl,
    inr (inr (status, body, refl, ground arith, refl)),
  )
]

-- A result changes only the command that it names: that command takes over the status, the reason
-- and the elapsed time, whatever its status was before, and gets the time of receipt. A result for
-- a command that is not in the table is answered 404 and changes nothing.
pub command_result_lem :
    (now : ℕ) (result : ResultReport) (store : Store) (j : ℕ)
    → let (response, store') = command_result now result store in
      ((lookup result.request_id store.commands ≡ none) × (response ≡ not_found) × (store' ≡ store))
      ⊎ ((r : CommandRecord) × (lookup result.request_id store.commands ≡ some r)
          × (response ≡ no_content)
          × (lookup j store'.commands ≡ (
              if j == result.request_id
              then some (with_result result now r)
              else lookup j store.commands))
          × (store'.report ≡ store.report)
          × (store'.desired_climate_target ≡ store.desired_climate_target))
unfolding command_result
command_result_lem now result store j =
    elim (Option-cases (lookup result.request_id store.commands)) [
      | inl e ↦ rw (e, command_result) (inl (refl, refl, refl))
      | inr (r, e) ↦ rw (e, command_result) (inr (r, refl, refl, changed r e, refl, refl))
    ]
  where
    changed :
        (r : CommandRecord)
        → lookup result.request_id store.commands ≡ some r
        → lookup j (update_record result.request_id (with_result result now) store.commands) ≡ (
            if j == result.request_id
            then some (with_result result now r)
            else lookup j store.commands)
    changed r e =
        ground
          (arith, lookup-update_record j result.request_id (with_result result now) store.commands)

gave_up_at :
    (id now : ℕ) (store : Store) {r : CommandRecord}
    → lookup id store.commands ≡ some r
    → lookup id (dispatch_end id now http_error store).1.commands
      ≡ some (failed_with Reason.vehicle_unreachable now r)
gave_up_at id now store h = ground (arith, dispatch_end_lem id now http_error store id)

pub reported_at :
    (now : ℕ) (result : ResultReport) (store : Store) {r : CommandRecord}
    → lookup result.request_id store.commands ≡ some r
    → lookup result.request_id (command_result now result store).1.commands
      ≡ some (with_result result now r)
reported_at now result store h =
    ground (arith, command_result_lem now result store result.request_id)

-- The status of a terminal command is not final. A command that was recorded as FAILED because
-- the gateway did not answer in time becomes COMPLETED when its result arrives after all; and one
-- whose result COMPLETED arrived first becomes FAILED when the request to the gateway is given up
-- afterwards. The command must be in the table.
pub terminal_status_changes :
    (now later : ℕ) (result : ResultReport) (store : Store) {r : CommandRecord}
    → result.status ≡ Verdict.completed
    → lookup result.request_id store.commands ≡ some r
    → let id = result.request_id in
      let gave_up = (dispatch_end id now http_error store).1 in
      let reported = (command_result now result store).1 in
      (status_at id gave_up ≡ some failed)
      × (status_at id (command_result later result gave_up).1 ≡ some completed)
      × (status_at id reported ≡ some completed)
      × (status_at id (dispatch_end id later http_error reported).1 ≡ some failed)
terminal_status_changes now later result store done h =
    let up = gave_up_at result.request_id now store h in
    let told = reported_at now result store h in
    (
      rw up refl,
      rw (reported_at later result (dispatch_end result.request_id now http_error store).1 up)
          (ap (λ v. some (status_of v)) done),
      rw told (ap (λ v. some (status_of v)) done),
      rw (gave_up_at result.request_id later (command_result now result store).1 told) refl,
    )
