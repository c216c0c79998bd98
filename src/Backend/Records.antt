-- ===== src/Backend/Records.antt =====
-- What holds of every command in the backend's table, whatever arrives in whatever order
-- (env/backend/app/main.py).
use Prim.Native.String.{String}
use vehicle_bench_candidate.Base.{
  if_keeps, ℕ, ◌≡◌, ◌≢◌, ◌⊎◌, inl, inr, Option, Option-cases, none, List, [], ◌∷◌, arith, All,
}
use vehicle_bench_candidate.Base.Dict.{Dict, lookup, insert}
use vehicle_bench_candidate.Gateway.Types.{StateReport, ResultReport, Params}
use vehicle_bench_candidate.Backend.Store.{
  Store, empty_store, CommandType, CommandRecord, accepted, update_record,
}
use vehicle_bench_candidate.Backend.Commands.{
  Config, Request, TcuAnswer, answered, http_error, accepted_record, dispatch_begin, dispatch_end,
  command_result, serve, route, key_matches, state_report, bench_reset, with_result,
}

-- What reaches the backend: a client's command request with its key, the end of the request to
-- the gateway, the gateway's result or state report, and a bench reset.
pub data Arrival : Type 0 where
  request : Option String → ℕ → ℕ → Request → Arrival
  gateway : ℕ → ℕ → TcuAnswer → Arrival
  result : ℕ → ResultReport → Arrival
  report : ℕ → StateReport → Arrival
  reset : Option String → TcuAnswer → Arrival

unfoldable pub arrive : Config → Arrival → Store → Store
arrive cfg (request key id now r) store = (serve cfg key id now r store).1
arrive cfg (gateway id now answer) store = (dispatch_end id now answer store).1
arrive cfg (result now r) store = (command_result now r store).1
arrive cfg (report now r) store = (state_report now r store).1
arrive cfg (reset key answer) store = (bench_reset cfg key answer store).1

unfoldable pub arrive_all : Config → List Arrival → Store → Store
arrive_all cfg [] store = store
arrive_all cfg (a ∷ rest) store = arrive_all cfg rest (arrive cfg a store)

-- A command stands under its own id; it has a reason and a time of completion if it is terminal,
-- and neither if it is only accepted.
abbrev pub IsConsistent : ℕ × CommandRecord → Type 0
IsConsistent (id, r) =
    (r.request_id ≡ id)
    × (((r.status ≡ accepted) × (r.reason ≡ none) × (r.completed_at ≡ none))
        ⊎ ((r.status ≢ accepted) × (r.reason ≢ none) × (r.completed_at ≢ none)))

abbrev pub AreConsistent : Store → Type 0
AreConsistent store = All IsConsistent store.commands

-- What a handler leaves, its answer aside.
abbrev IsKept : {A : Type 0} → A × Store → Type 0
IsKept x = AreConsistent x.1

insert-IsConsistent :
    (id now : ℕ) (command : CommandType) (params : Params) (d : Dict CommandRecord)
    → All IsConsistent d
    → All IsConsistent (insert id (accepted_record id command params now) d)
insert-IsConsistent id now command params [] h = ground arith
insert-IsConsistent id now command params (e ∷ d) h =
    ground (arith, insert-IsConsistent id now command params d h.1)

update_record-IsConsistent :
    (id : ℕ) (f : CommandRecord → CommandRecord) (d : Dict CommandRecord)
    → ((r : CommandRecord) → IsConsistent (id, r) → IsConsistent (id, f r))
    → All IsConsistent d
    → All IsConsistent (update_record id f d)
update_record-IsConsistent id f [] keep h = h
update_record-IsConsistent id f (e ∷ d) keep h =
    ground (arith, keep e.1, update_record-IsConsistent id f d keep h.1)

dispatch_begin-AreConsistent :
    (id now : ℕ) (command : CommandType) (params : Params) (store : Store)
    → AreConsistent store
    → AreConsistent (dispatch_begin id now command params store).1
unfolding dispatch_begin
dispatch_begin-AreConsistent id now command params store h =
    insert-IsConsistent id now command params store.commands h

route-AreConsistent :
    (cfg : Config) (id now : ℕ) (r : Request) (store : Store)
    → AreConsistent store
    → AreConsistent (route cfg id now r store).1
unfolding route
route-AreConsistent cfg id now Request.lock store h =
    dispatch_begin-AreConsistent id now _ _ store h
route-AreConsistent cfg id now Request.unlock store h =
    dispatch_begin-AreConsistent id now _ _ store h
route-AreConsistent cfg id now Request.climate_stop store h =
    dispatch_begin-AreConsistent id now _ _ _ h
route-AreConsistent cfg id now Request.charging_stop store h =
    dispatch_begin-AreConsistent id now _ _ store h
route-AreConsistent cfg id now (Request.climate_start body) store h =
    if_keeps IsKept _ _ _ (dispatch_begin-AreConsistent id now _ _ _ h) h
route-AreConsistent cfg id now (Request.charging_start body) store h =
    if_keeps IsKept _ _ _ (dispatch_begin-AreConsistent id now _ _ store h) h

dispatch_end-AreConsistent :
    (id now : ℕ) (answer : TcuAnswer) (store : Store)
    → AreConsistent store
    → AreConsistent (dispatch_end id now answer store).1
unfolding dispatch_end
dispatch_end-AreConsistent id now http_error store h =
    update_record-IsConsistent id _ store.commands (λ r c. ground arith) h
dispatch_end-AreConsistent id now (answered status body) store h =
    if_keeps IsKept _ _ _ (update_record-IsConsistent id _ store.commands (λ r c. c) h)
      (update_record-IsConsistent id _ store.commands (λ r c. ground arith) h)

with_result-IsConsistent :
    (r : ResultReport) (now : ℕ) (x : CommandRecord)
    → IsConsistent (r.request_id, x)
    → IsConsistent (r.request_id, with_result r now x)
with_result-IsConsistent r now x h = ground arith

command_result-AreConsistent :
    (now : ℕ) (r : ResultReport) (store : Store)
    → AreConsistent store
    → AreConsistent (command_result now r store).1
unfolding command_result
command_result-AreConsistent now r store h =
    elim (Option-cases (lookup r.request_id store.commands)) [
      | inl e ↦ rw (e, command_result) h
      | inr (x, e) ↦
          rw (e, command_result)
            (update_record-IsConsistent r.request_id (with_result r now) store.commands
              (λ y c. with_result-IsConsistent r now y c) h)
    ]

pub arrive-AreConsistent :
    (cfg : Config) (a : Arrival) (store : Store)
    → AreConsistent store
    → AreConsistent (arrive cfg a store)
unfolding arrive serve state_report bench_reset
arrive-AreConsistent cfg (request key id now r) store h =
    if_keeps IsKept (key_matches cfg key) _ _ (route-AreConsistent cfg id now r store h) h
arrive-AreConsistent cfg (gateway id now answer) store h =
    dispatch_end-AreConsistent id now answer store h
arrive-AreConsistent cfg (result now r) store h = command_result-AreConsistent now r store h
arrive-AreConsistent cfg (report now r) store h = h
arrive-AreConsistent cfg (reset key answer) store h =
    if_keeps IsKept (key_matches cfg key) (_, empty_store) (_, store) tt h

arrive_from-AreConsistent :
    (cfg : Config) (xs : List Arrival) (store : Store)
    → AreConsistent store
    → AreConsistent (arrive_all cfg xs store)
unfolding arrive_all
arrive_from-AreConsistent cfg [] store h = h
arrive_from-AreConsistent cfg (a ∷ rest) store h =
    arrive_from-AreConsistent cfg rest (arrive cfg a store) (arrive-AreConsistent cfg a store h)

-- From the empty store on, whatever requests, answers of the gateway, results, state reports and
-- resets arrive in whatever order, every command in the table stands under its own id, and has a
-- reason and a time of completion exactly if it is terminal.
pub records_consistent :
    (cfg : Config) (arrivals : List Arrival) → AreConsistent (arrive_all cfg arrivals empty_store)
records_consistent cfg arrivals = arrive_from-AreConsistent cfg arrivals empty_store tt
