-- ===== src/Bench/Rounds.antt =====
-- One round of the worker on the bench, from the command to what the cloud knows of it.
use mathlib.Core.Option
use vehicle_bench_candidate.Base.{
  ℕ, ◌≡◌, ◌≢◌, ◌∙◌, inl, inr, refl, ap, true, false, ◌⊎◌, Bool-cases, Option, none, some, List, [],
  ◌∷◌, ◌++◌, arith, ltb,
}
use vehicle_bench_candidate.Base.Dict.{lookup}
use vehicle_bench_candidate.Body.{BodyCal, get_body_state}
use vehicle_bench_candidate.Gateway.Types.{
  TcuCal, Gateway, CommandRecord, Verdict, Reason, ResultReport,
}
use vehicle_bench_candidate.Gateway.Commands.{Method, settle, conclude}
use vehicle_bench_candidate.Gateway.Calls.{call_of}
use vehicle_bench_candidate.Gateway.Sync.{sync_once, state_report, sync_answered}
use vehicle_bench_candidate.Gateway.Worker.{continues, worker_round, finished_record}
use vehicle_bench_candidate.Gateway.Queue.{RunsBy, worker_round-eq, sync_once-keeps}
use vehicle_bench_candidate.Backend.Store.{CommandRecord as BackendRecord, Store, accepted}
use vehicle_bench_candidate.Backend.Commands.{
  state_report as backend_state_report, Config, with_result, status_of,
}
use vehicle_bench_candidate.Backend.Lifecycle.{reported_at}
use vehicle_bench_candidate.Gateway.Task.{Message, Call}
use vehicle_bench_candidate.Bench.{
  Event, Conditions, Outside, Bench, bench_world, body_rpc, body_poll, told_result, told_state,
  served, step, told_result-arrives, told_result-lost, told_state-arrives, told_state-lost,
}

-- The worker polls the Body ECU after each command; this is also the default.
abbrev pub Syncs : TcuCal → Type 0
Syncs cal = Option.get_or cal.sync_after_command true ≡ true

module _ (cal : TcuCal) (bcal : BodyCal) (c : Conditions) where
  -- A poll of a Body ECU that is reachable: the properties, the reported state and the gateway's
  -- view are the Body ECU's.
  pub sync_once-reachable :
      (g : Gateway) (o : Outside)
      → c.reachable ≡ true
      → sync_once cal (bench_world bcal c) g o ≡ (
        sync_answered o.clock (get_body_state bcal o.clock o.body) g,
        told_state c.report_arrives
            (state_report cal o.clock (get_body_state bcal o.clock o.body))
            o,
      )
  unfolding sync_once body_poll
  sync_once-reachable g o up = rw up refl

  -- What a round leaves of a command that it runs by a method: the call's effect, the result at
  -- the backend, and a poll.
  pub round-eq :
      (g : Gateway) (o : Outside) (r : CommandRecord) (rest : List CommandRecord) (m : Method)
      → g.queue ≡ r ∷ rest
      → RunsBy cal r m
      → Syncs cal
      → let (outcome, o') = body_rpc bcal c (call_of m cal r.request_id r.params) o in
        let (verdict, reason) = conclude (settle outcome) in
        let r' = finished_record verdict reason c.elapsed r in
        worker_round cal (bench_world bcal c) g o ≡ (
          let (g', o'') =
            sync_once cal
              (bench_world bcal c)
              (record g { queue = rest; journal = g.journal ++ r' ∷ []; last_result = some r' })
              (told_result c.result_arrives
                (record {
                  request_id = r.request_id;
                  status = verdict;
                  reason = reason;
                  elapsed_ms = c.elapsed;
                })
                o') in
          (continues, g', o''))
  round-eq g o r rest m q runs syncs =
      worker_round-eq cal (bench_world bcal c) g o r rest m q runs ∙ (rw syncs refl)

  -- A poll does not touch the table of commands, whichever way it ends.
  pub sync_once-commands :
      (g : Gateway) (o : Outside)
      → (sync_once cal (bench_world bcal c) g o).1.backend.commands ≡ o.backend.commands
  unfolding sync_once body_poll backend_state_report
  sync_once-commands g o = elim (Bool-cases c.reachable) [
    | inl up ↦ rw up (elim (Bool-cases c.report_arrives) [
      | inl told ↦ ap (λ (t : Outside). t.backend.commands) (told_state-arrives _ o told)
      | inr lost ↦ ap (λ (t : Outside). t.backend.commands) (told_state-lost _ o lost)
    ])
    | inr down ↦ rw down refl
  ]

  served-backend :
      (message : Message) (timeout : ℕ) (o : Outside)
      → (served bcal c message timeout o).1.backend ≡ o.backend
  served-backend (Message.door r) timeout o = elim (Bool-cases (ltb c.travel_ms timeout)) [
    | inl e ↦ rw e refl
    | inr e ↦ rw e refl
  ]
  served-backend (Message.climate r) timeout o = refl
  served-backend (Message.charging r) timeout o = refl

  -- A call does not touch the backend.
  pub body_rpc-backend :
      (call : Call) (o : Outside) → (body_rpc bcal c call o).1.backend ≡ o.backend
  unfolding body_rpc
  body_rpc-backend call o = elim (Bool-cases c.reachable) [
    | inl up ↦ rw up (served-backend call.message call.timeout_ms o)
    | inr down ↦ rw down refl
  ]

pub status_of-ne-accepted : (v : Verdict) → status_of v ≢ accepted
status_of-ne-accepted Verdict.completed = ground arith
status_of-ne-accepted Verdict.failed = ground arith

-- On a running gateway, a command at the head of the queue that the worker runs by a method, and
-- that the backend knows, ends in one round whatever the Body ECU does: the gateway goes on, with a
-- verdict and a reason in its last result. If the post of that result arrives, the backend's record is
-- COMPLETED or FAILED by that verdict, with that reason and a time of completion; if it does not, the
-- backend's record is the one before. The number that the command
-- carries must fit an `int32`, and the gateway must poll after each command.
pub round_reaches_terminal :
    (cfg : Config) (cal : TcuCal) (bcal : BodyCal) (c : Conditions) (b : Bench) (r : CommandRecord)
    (rest : List CommandRecord) (m : Method) {x : BackendRecord}
    → b.running ≡ true
    → b.gateway.queue ≡ r ∷ rest
    → RunsBy cal r m
    → Syncs cal
    → lookup r.request_id b.outside.backend.commands ≡ some x
    → let b' = step cfg cal bcal (Event.round c) b in
      (b'.running ≡ true)
      × (verdict : Verdict) × (reason : Reason) × (y : BackendRecord) × (b'.gateway.last_result
          ≡ some (finished_record verdict reason c.elapsed r))
      × (lookup r.request_id b'.outside.backend.commands ≡ some y)
      × (((c.result_arrives ≡ true)
            × (y.status ≡ status_of verdict)
            × (y.status ≢ accepted)
            × (y.reason ≡ some reason)
            × (y.completed_at ≢ none))
          ⊎ ((c.result_arrives ≡ false) × (y ≡ x)))
unfolding step
round_reaches_terminal cfg cal bcal c b r rest m {x} running q runs syncs known =
    let (outcome, o') = body_rpc bcal c (call_of m cal r.request_id r.params) b.outside in
    let (verdict, reason) = conclude (settle outcome) in
    let report : ResultReport = record {
      request_id = r.request_id;
      status = verdict;
      reason = reason;
      elapsed_ms = c.elapsed;
    } in
    let g' = record (b.gateway) {
      queue = rest;
      journal = b.gateway.journal ++ finished_record verdict reason c.elapsed r ∷ [];
      last_result = some (finished_record verdict reason c.elapsed r);
    } in
    let (_, _, kept, _) =
      sync_once-keeps cal (bench_world bcal c) g' (told_result c.result_arrives report o') in
    let at_backend : Outside → Option BackendRecord = λ t. lookup r.request_id t.backend.commands in
    let same =
      ap (lookup r.request_id)
        (sync_once-commands cal bcal c g' (told_result c.result_arrives report o')) in
    let found =
      ap (λ (t : Store). lookup r.request_id t.commands)
        (body_rpc-backend cal bcal c (call_of m cal r.request_id r.params) b.outside)
      ∙ known in
    rw (running, round-eq cal bcal c b.gateway b.outside r rest m q runs syncs)
      (elim (Bool-cases c.result_arrives) [
        | inl told ↦ (
          refl,
          verdict,
          reason,
          with_result report o'.clock x,
          kept,
          same
              ∙ ap at_backend (told_result-arrives report o' told)
              ∙ reported_at o'.clock report o'.backend found,
          inl (told, refl, status_of-ne-accepted verdict, refl, ground arith),
        )
        | inr lost ↦ (
          refl,
          verdict,
          reason,
          x,
          kept,
          same ∙ ap at_backend (told_result-lost report o' lost) ∙ found,
          inr (lost, refl),
        )
      ])
