-- ===== src/Bench/Settled.antt =====
-- A command that the backend shows as terminal, on the running bench (`dispatch` and
-- `command_result` of env/backend/app/main.py, with the gateway and the Body ECU behind them).
use mathlib.Core.Option
use mathlib.Core.Path.{subst}
use vehicle_bench_candidate.Base.{
  [], ◌∷◌, Option-cases, All-map, ap, ◌∙◌, if_keeps, none, ◌==◌, ℕ, ◌≡◌, ◌≢◌, ◌∙◌, inl, inr, refl,
  sym, Option, some, List, All, arith,
}
use vehicle_bench_candidate.Base.Dict.{Dict, lookup}
use vehicle_bench_candidate.Body.{BodyCal}
use vehicle_bench_candidate.Gateway.Types.{TcuCal, ResultReport}
use vehicle_bench_candidate.Backend.Store.{Store, CommandStatus, CommandRecord, accepted, apply_to}
use vehicle_bench_candidate.Backend.Commands.{
  Config, TcuAnswer, answered, http_error, dispatch_end, command_result, status_of, state_report,
}
use vehicle_bench_candidate.Backend.Records.{
  Arrival, arrive, IsConsistent, AreConsistent, arrive-AreConsistent,
}
use vehicle_bench_candidate.Backend.Lifecycle.{settled, dispatch_end_lem, command_result_lem}
use vehicle_bench_candidate.Bench.{Event, Bench, steps}
use vehicle_bench_candidate.Bench.Rounds.{status_of-ne-accepted}
use vehicle_bench_candidate.Bench.Foreign.{serve-Leaves}
use vehicle_bench_candidate.Bench.Arrivals.{IsKeptBy, HasId, steps-keeps}

abbrev pub HasEnded : Option CommandRecord → Type 0
HasEnded o = (s : CommandStatus) × (Option.map (λ r. r.status) o ≡ some s) × (s ≢ accepted)

-- The command is in the table, COMPLETED or FAILED.
abbrev pub IsTerminal : ℕ → Store → Type 0
IsTerminal id store = HasEnded (lookup id store.commands)

settled-terminal :
    (now : ℕ) (answer : TcuAnswer) (r : CommandRecord)
    → r.status ≢ accepted
    → (settled now answer r).status ≢ accepted
settled-terminal now http_error r h = ground arith
settled-terminal now (answered status body) r h = ground arith

apply_to-HasEnded :
    (now : ℕ) (answer : TcuAnswer) (o : Option CommandRecord)
    → HasEnded o
    → HasEnded (apply_to (settled now answer) o)
apply_to-HasEnded now answer none (s, e, ne) = absurd (cc e)
apply_to-HasEnded now answer (some r) (s, e, ne) =
    ((settled now answer r).status, refl, settled-terminal now answer r (λ same. ne cc))

dispatch_end-IsTerminal :
    (id j now : ℕ) (answer : TcuAnswer) (store : Store)
    → IsTerminal id store
    → IsTerminal id (dispatch_end j now answer store).1
dispatch_end-IsTerminal id j now answer store h =
    subst HasEnded (sym (dispatch_end_lem j now answer store id).0) (
      if_keeps HasEnded (id == j) _ _ (apply_to-HasEnded now answer (lookup id store.commands) h) h)

command_result-IsTerminal :
    (id now : ℕ) (r : ResultReport) (store : Store)
    → IsTerminal id store
    → IsTerminal id (command_result now r store).1
command_result-IsTerminal id now r store h = elim (command_result_lem now r store id) [
  | inl (unknown, answer, same) ↦ subst (IsTerminal id) (sym same) h
  | inr (x, known, answer, others, report, desired) ↦ subst HasEnded (sym others) (
      if_keeps HasEnded (id == r.request_id) _ _
        (status_of r.status, refl, status_of-ne-accepted r.status) h)
]

IsTerminal-IsKeptBy : (cfg : Config) (id : ℕ) → IsKeptBy cfg (λ j. j ≢ id) (IsTerminal id)
unfolding state_report
IsTerminal-IsKeptBy cfg id = record {
  served = λ key j now r store other (s, e, ne).
      (s, (serve-Leaves id j now other cfg key r store).0 ∙ e, ne);
  ended = λ j now answer store h. dispatch_end-IsTerminal id j now answer store h;
  told = λ now r store h. command_result-IsTerminal id now r store h;
  reported = λ now r store h. h;
}

AreConsistent-IsKeptBy : (cfg : Config) → IsKeptBy cfg (λ j. Unit) AreConsistent
unfolding arrive
AreConsistent-IsKeptBy cfg = record {
  served =
      λ key id now r store u h. arrive-AreConsistent cfg (Arrival.request key id now r) store h;
  ended = λ id now answer store h. arrive-AreConsistent cfg (Arrival.gateway id now answer) store h;
  told = λ now r store h. arrive-AreConsistent cfg (Arrival.result now r) store h;
  reported = λ now r store h. arrive-AreConsistent cfg (Arrival.report now r) store h;
}

lookup-IsConsistent :
    (id : ℕ) (d : Dict CommandRecord) (r : CommandRecord)
    → All IsConsistent d
    → lookup id d ≡ some r
    → IsConsistent (id, r)
lookup-IsConsistent id [] r h found = ground arith
lookup-IsConsistent id (e ∷ d) r h found = ground (arith, lookup-IsConsistent id d r h.1)

ended_record :
    (id : ℕ) (store : Store)
    → AreConsistent store
    → IsTerminal id store
    → (r : CommandRecord) × (lookup id store.commands ≡ some r)
      × (r.status ≢ accepted)
      × (r.reason ≢ none)
      × (r.completed_at ≢ none)
ended_record id store consistent (s, e, ne) = elim (Option-cases (lookup id store.commands)) [
  | inl missing ↦
      let same : none ≡ some s = ap (Option.map (λ y. y.status)) (sym missing) ∙ e in
      absurd (cc same)
  | inr (r, found) ↦
      let same : some r.status ≡ some s = ap (Option.map (λ y. y.status)) (sym found) ∙ e in
      let status : r.status ≡ s = cc in
      elim (lookup-IsConsistent id store.commands r consistent found).1 [
        | inl (accepted_r, reason, at) ↦ absurd (ne (sym status ∙ accepted_r))
        | inr (terminal, reason, at) ↦ (r, found, terminal, reason, at)
      ]
]

any_id : (id : ℕ) (e : Event) → HasId (λ j. j ≢ id) e → HasId (λ j. Unit) e
any_id id (Event.request link key j r) h = tt
any_id id (Event.round c) h = tt
any_id id (Event.poll c) h = tt
any_id id Event.actuator h = tt
any_id id Event.second h = tt

module _ (cfg : Config) (cal : TcuCal) (bcal : BodyCal) where
  pub IsTerminal-stays :
      (id : ℕ) (es : List Event) (b : Bench)
      → All (HasId (λ j. j ≢ id)) es
      → IsTerminal id b.outside.backend
      → IsTerminal id (steps cfg cal bcal es b).outside.backend
  IsTerminal-stays id es b apart h =
      steps-keeps cfg cal bcal (IsTerminal-IsKeptBy cfg id) es b apart h

  steps-AreConsistent :
      (es : List Event) (b : Bench)
      → All (HasId (λ j. Unit)) es
      → AreConsistent b.outside.backend
      → AreConsistent (steps cfg cal bcal es b).outside.backend
  steps-AreConsistent es b apart h =
      steps-keeps cfg cal bcal (AreConsistent-IsKeptBy cfg) es b apart h

  -- A command that is COMPLETED or FAILED in a table whose commands are consistent, on any bench:
  -- whatever requests under other ids, rounds, polls, failed calls, ends of travels and seconds
  -- follow, it stays in the table, is never ACCEPTED again, and has a reason and a time of completion.
  -- It may change between COMPLETED and FAILED.
  pub settled_stays :
      (id : ℕ) (es : List Event) (b : Bench)
      → All (HasId (λ j. j ≢ id)) es
      → AreConsistent b.outside.backend
      → IsTerminal id b.outside.backend
      → let store = (steps cfg cal bcal es b).outside.backend in
        (r : CommandRecord) × (lookup id store.commands ≡ some r)
        × (r.status ≢ accepted)
        × (r.reason ≢ none)
        × (r.completed_at ≢ none)
  settled_stays id es b apart consistent h =
      ended_record id (steps cfg cal bcal es b).outside.backend
        (steps-AreConsistent es b
          (All-map (HasId (λ j. j ≢ id)) (HasId (λ j. Unit)) es (any_id id) apart) consistent)
        (IsTerminal-stays id es b apart h)
