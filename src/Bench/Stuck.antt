-- ===== src/Bench/Stuck.antt =====
-- A command that the backend holds as accepted and the gateway will drop, over one round of the worker
-- (`worker` of env/ecu-gateway/gateway.py, `command_result` of env/backend/app/main.py).
use mathlib.Core.Option
use vehicle_bench_candidate.Base.{
  ℕ, ◌≡◌, ◌≢◌, ◌⊎◌, ◌∙◌, inl, inr, refl, ap, true, Bool-cases, Option, none, some, List, [], ◌∷◌,
  arith, All,
}
use vehicle_bench_candidate.Base.Dict.{lookup}
use vehicle_bench_candidate.Body.{BodyCal}
use vehicle_bench_candidate.Gateway.Types.{
  TcuCal, Gateway, CommandRecord, Reason, Verdict, ResultReport,
}
use vehicle_bench_candidate.Gateway.Task.{Task, done, raised, await, complete}
use vehicle_bench_candidate.Gateway.Sync.{sync_once}
use vehicle_bench_candidate.Gateway.Worker.{
  Dispatch, drop, missing_method, start, dispatch_command, conclude_round, process, take_round,
}
use vehicle_bench_candidate.Gateway.Queue.{IsUnmapped, dispatch_command-IsUnmapped, sync_once-keeps}
use vehicle_bench_candidate.Backend.Store.{accepted}
use vehicle_bench_candidate.Backend.Lifecycle.{command_result_lem, status_at}
use vehicle_bench_candidate.Bench.{
  Conditions, Outside, Bench, bench_world, body_rpc, told_result, told_result-arrives,
  told_result-lost,
}
use vehicle_bench_candidate.Bench.Rounds.{sync_once-commands, body_rpc-backend}

-- Only a command with no entry in the map has this id.
abbrev pub IsOther : TcuCal → ℕ → CommandRecord → Type 0
IsOther cal id r = (r.request_id ≢ id) ⊎ IsUnmapped cal r

-- The command is still merely accepted, and what is queued under its id will be dropped.
pub record IsStuck (cal : TcuCal) (id : ℕ) (b : Bench) : Type 0 where
  pub waiting : status_at id b.outside.backend ≡ some accepted
  pub queued : All (IsOther cal id) b.gateway.queue

module _ (cal : TcuCal) (bcal : BodyCal) (c : Conditions) (id : ℕ) where
  complete-backend :
      {A : Type 0} (t : Task A) (o : Outside)
      → (complete (body_rpc bcal c) t o).1.backend ≡ o.backend
  unfolding complete
  complete-backend (done a) o = refl
  complete-backend raised o = refl
  complete-backend (await call k) o =
      complete-backend (k (body_rpc bcal c call o).0) (body_rpc bcal c call o).1
      ∙ body_rpc-backend cal bcal c call o

  told_result-other :
      (result : ResultReport) (o : Outside)
      → result.request_id ≢ id
      → status_at id (told_result c.result_arrives result o).backend ≡ status_at id o.backend
  told_result-other result o ne = elim (Bool-cases c.result_arrives) [
    | inl told ↦
        ap (λ (t : Outside). status_at id t.backend) (told_result-arrives result o told)
        ∙ ap (Option.map (λ y. y.status)) (elim (command_result_lem o.clock result o.backend id) [
          | inl (unknown, answer, same) ↦ ap (λ t. lookup id t.commands) same
          | inr (r, known, answer, others, report, desired) ↦ ground (arith, others)
        ])
    | inr lost ↦ ap (λ (t : Outside). status_at id t.backend) (told_result-lost result o lost)
  ]

  pub sync_once-status :
      (g : Gateway) (o : Outside)
      → status_at id (sync_once cal (bench_world bcal c) g o).1.backend ≡ status_at id o.backend
  sync_once-status g o =
      ap (λ d. Option.map (λ y. y.status) (lookup id d)) (sync_once-commands cal bcal c g o)

  conclude_round-status :
      (r : CommandRecord) (result : Option (Verdict × Reason)) (g : Gateway) (o : Outside)
      → r.request_id ≢ id
      → let (end, g', o') = conclude_round cal (bench_world bcal c) r result g o in
        (status_at id o'.backend ≡ status_at id o.backend) × (g'.queue ≡ g.queue)
  conclude_round-status r none g o ne = (refl, refl)
  conclude_round-status r (some (verdict, reason)) g o ne =
      elim (Bool-cases (Option.get_or cal.sync_after_command true)) [
        | inl synced ↦ rw synced (
          sync_once-status _ _ ∙ told_result-other _ o ne,
          (sync_once-keeps cal (bench_world bcal c) _ _).0,
        )
        | inr skipped ↦ rw skipped (told_result-other _ o ne, refl)
      ]

  process-status :
      (r : CommandRecord) (d : Dispatch) (g : Gateway) (o : Outside)
      → (r.request_id ≢ id) ⊎ (d ≡ drop)
      → let (end, g', o') = process cal (bench_world bcal c) r d g o in
        (status_at id o'.backend ≡ status_at id o.backend) × (g'.queue ≡ g.queue)
  process-status r drop g o h = (refl, refl)
  process-status r missing_method g o h = (refl, refl)
  process-status r (start task) g o (inr e) = absurd (cc e)
  process-status r (start task) g o (inl ne) =
      let (status, queue) =
        conclude_round-status r (complete (body_rpc bcal c) task o).0 g
          (complete (body_rpc bcal c) task o).1 ne in
      (status ∙ ap (status_at id) (complete-backend task o), queue)

  dispatch_command-IsOther :
      (r : CommandRecord) → IsOther cal id r → (r.request_id ≢ id) ⊎ (dispatch_command cal r ≡ drop)
  dispatch_command-IsOther r (inl ne) = inl ne
  dispatch_command-IsOther r (inr unmapped) = inr (dispatch_command-IsUnmapped cal r unmapped)

  pub take_round-status :
      (q : List CommandRecord) (g : Gateway) (o : Outside)
      → g.queue ≡ q
      → All (IsOther cal id) q
      → let (end, g', o') = take_round cal (bench_world bcal c) q g o in
        (status_at id o'.backend ≡ status_at id o.backend) × All (IsOther cal id) g'.queue
  take_round-status [] g o e h = (refl, rw e tt)
  take_round-status (r ∷ rest) g o e h =
      let (status, queue) =
        process-status r (dispatch_command cal r) (record g { queue = rest }) o
          (dispatch_command-IsOther r h.0) in
      (status, rw queue h.1)
