-- ===== src/Gateway/Worlds.antt =====
-- What the gateway may do to the world that it meets (env/ecu-gateway/gateway.py): a predicate that
-- every operation of a `World` keeps, over `_grpc`, `sync_once` and `worker`.
use mathlib.Core.Option
use vehicle_bench_candidate.Base.{if_keeps, Option, none, some, List, [], ◌∷◌, true}
use vehicle_bench_candidate.Gateway.Types.{
  TcuCal, Outcome, reply, rpc_error, CommandRecord, Reason, Verdict, Gateway, StateReport,
  ResultReport,
}
use vehicle_bench_candidate.Proto.{BodyState}
use vehicle_bench_candidate.Gateway.Task.{Task, Call, done, raised, await, complete}
use vehicle_bench_candidate.Gateway.Sync.{World, sync_once}
use vehicle_bench_candidate.Gateway.Worker.{
  Dispatch, RoundEnd, drop, missing_method, start, dispatch_command, conclude_round, process,
  take_round, worker_round,
}

-- Every operation that changes the world's state keeps the predicate.
pub record Keeps {S : Type 0} (w : World S) (P : S → Type 0) : Type 0 where
  pub rpc : (call : Call) (s : S) → P s → P (w.rpc call s).1
  pub polled : (s : S) → P s → P (w.get_body_state s).1
  pub result : (r : ResultReport) (s : S) → P s → P (w.post_result r s)
  pub state : (r : StateReport) (s : S) → P s → P (w.post_state r s)

module _ {S : Type 0} (cal : TcuCal) (w : World S) (P : S → Type 0) (keeps : Keeps w P) where
  complete-keeps : {A : Type 0} (t : Task A) (s : S) → P s → P (complete w.rpc t s).1
  unfolding complete
  complete-keeps (done a) s h = h
  complete-keeps raised s h = h
  complete-keeps (await call k) s h =
      complete-keeps (k (w.rpc call s).0) (w.rpc call s).1 (keeps.rpc call s h)

  answered-keeps :
      (answer : Outcome BodyState) (g : Gateway) (s : S)
      → P s
      → P (sync_once cal (record w { get_body_state = λ t. (answer, t) }) g s).1
  unfolding sync_once
  answered-keeps (rpc_error code) g s h = h
  answered-keeps (reply state) g s h = keeps.state _ s h

  pub sync_once-keeps_world : (g : Gateway) (s : S) → P s → P (sync_once cal w g s).1
  unfolding sync_once
  sync_once-keeps_world g s h =
      answered-keeps (w.get_body_state s).0 g (w.get_body_state s).1 (keeps.polled s h)

  conclude_round-keeps :
      (r : CommandRecord) (result : Option (Verdict × Reason)) (g : Gateway) (s : S)
      → P s
      → P (conclude_round cal w r result g s).2
  conclude_round-keeps r none g s h = h
  conclude_round-keeps r (some (verdict, reason)) g s h =
      if_keeps (λ (x : RoundEnd × Gateway × S). P x.2) (Option.get_or cal.sync_after_command true) _
        _ (sync_once-keeps_world _ _ (keeps.result _ s h)) (keeps.result _ s h)

  process-keeps :
      (r : CommandRecord) (d : Dispatch) (g : Gateway) (s : S) → P s → P (process cal w r d g s).2
  process-keeps r drop g s h = h
  process-keeps r missing_method g s h = h
  process-keeps r (start task) g s h =
      conclude_round-keeps r (complete w.rpc task s).0 g (complete w.rpc task s).1
        (complete-keeps task s h)

  take_round-keeps :
      (q : List CommandRecord) (g : Gateway) (s : S) → P s → P (take_round cal w q g s).2
  take_round-keeps [] g s h = h
  take_round-keeps (r ∷ rest) g s h =
      process-keeps r (dispatch_command cal r) (record g { queue = rest }) s h

  pub worker_round-keeps : (g : Gateway) (s : S) → P s → P (worker_round cal w g s).2
  unfolding worker_round
  worker_round-keeps g s h = take_round-keeps g.queue g s h
