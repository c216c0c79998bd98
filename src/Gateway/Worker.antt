-- ===== src/Gateway/Worker.antt =====
-- The command queue of the gateway: `handle_command` puts a command on it, a round of `worker`
-- takes one off, and `handle_reset` empties it (env/ecu-gateway/gateway.py). A round is run
-- to its end against a `World`; what may happen while it waits is modelled in Gateway/Flight.antt.
use mathlib.Core.Option
use vehicle_bench_candidate.Base.{
  ℕ, zero, suc, Bool, true, false, Option, none, some, List, [], ◌∷◌, ◌++◌, length, if◌then◌else◌,
}
use vehicle_bench_candidate.Gateway.Types.{
  TcuCal, reply, rpc_error, Reason, Verdict, CommandBody, queued, dropped, finished, CommandRecord,
  Gateway,
}
use vehicle_bench_candidate.Gateway.Task.{Task, complete}
use vehicle_bench_candidate.Gateway.Commands.{method_named, run_method, map_command}
use vehicle_bench_candidate.Gateway.Sync.{World, sync_once}

-- `journal`: one more line of the file.
abbrev pub log_record : CommandRecord → Gateway → Gateway
log_record r g = record g { journal = g.journal ++ r ∷ [] }

-- The JSON answer to a command.
pub record QueuedAnswer : Type 0 where
  pub request_id : ℕ
  pub queue_depth : ℕ

abbrev pub new_record : ℕ → ℕ → CommandBody → CommandRecord
new_record fresh now body = record {
  request_id = Option.get_or body.request_id fresh;
  command = body.command;
  params = body.params;
  received_at = now;
  state = queued;
  reason = none;
  elapsed_ms = none;
}

-- `fresh` is the id that `uuid.uuid4()` would give.
unfoldable pub handle_command : ℕ → ℕ → CommandBody → Gateway → QueuedAnswer × Gateway
handle_command fresh now body g =
    let r = new_record fresh now body in
    let queue = g.queue ++ r ∷ [] in
    (
      record { request_id = r.request_id; queue_depth = length queue },
      record (log_record r g) { commands_seen = suc g.commands_seen; queue = queue },
    )

-- What `worker` does with a command: no entry in the map, no method of that name (which raises),
-- or a coroutine to await.
pub data Dispatch : Type 0 where
  drop missing_method : Dispatch
  start : Task (Verdict × Reason) → Dispatch

unfoldable pub dispatch_command : TcuCal → CommandRecord → Dispatch
dispatch_command cal r = elim (map_command r.command cal.command_map) [
  | none ↦ drop
  | some name ↦ elim (method_named name) [
    | none ↦ missing_method
    | some method ↦ start (run_method method cal r.request_id r.params)
  ]
]

abbrev pub finished_record : Verdict → Reason → ℕ → CommandRecord → CommandRecord
finished_record verdict reason elapsed r = record r {
  state = finished verdict;
  reason = some reason;
  elapsed_ms = some elapsed;
}

-- What `worker` does with the result of the handler before it reports it.
abbrev pub finish_command : Verdict → Reason → ℕ → CommandRecord → Gateway → Gateway
finish_command verdict reason elapsed r g =
    let r' = finished_record verdict reason elapsed r in
    record (log_record r' g) { last_result = some r' }

-- How a round of the worker ends: it waits on an empty queue, goes on to the next command, or
-- raises, which ends the program.
pub data RoundEnd : Type 0 where
  waits continues crashes : RoundEnd

module _ {S : Type 0} (cal : TcuCal) (w : World S) where
  -- A round from the end of the handler on.
  abbrev pub conclude_round :
      CommandRecord → Option (Verdict × Reason) → Gateway → S → RoundEnd × Gateway × S
  conclude_round r none g s = (crashes, g, s)
  conclude_round r (some (verdict, reason)) g s =
      let elapsed = w.elapsed_ms s in
      let g' = finish_command verdict reason elapsed r g in
      let s' =
        w.post_result
          (record {
            request_id = r.request_id;
            status = verdict;
            reason = reason;
            elapsed_ms = elapsed;
          })
          s in
      if Option.get_or cal.sync_after_command true
      then (let (g'', s'') = sync_once cal w g' s' in (continues, g'', s''))
      else (continues, g', s')

  abbrev pub process : CommandRecord → Dispatch → Gateway → S → RoundEnd × Gateway × S
  process r drop g s = (continues, log_record (record r { state = dropped }) g, s)
  process r missing_method g s = (crashes, g, s)
  process r (start task) g s =
      let (result, s') = complete w.rpc task s in conclude_round r result g s'

  -- A round of `worker` that finds the queue as it is.
  abbrev pub take_round : List CommandRecord → Gateway → S → RoundEnd × Gateway × S
  take_round [] g s = (waits, g, s)
  take_round (r ∷ rest) g s = process r (dispatch_command cal r) (record g { queue = rest }) s

  unfoldable pub worker_round : Gateway → S → RoundEnd × Gateway × S
  worker_round g s = take_round g.queue g s

  -- Whether `handle_reset` answers OK, and what it leaves.
  unfoldable pub handle_reset : Gateway → S → Bool × Gateway × S
  handle_reset g s =
      let (answer, s') = w.reset_state s in
      elim answer [
        | rpc_error code ↦ (false, g, s')
        | reply ack ↦
            let (g', s'') = sync_once cal w (record g { queue = [] }) s' in (true, g', s'')
      ]

  -- `n` rounds of the loop of `worker`, fewer if one of them waits or raises.
  unfoldable pub rounds : ℕ → Gateway → S → RoundEnd × Gateway × S
  rounds zero g s = (continues, g, s)
  rounds (suc n) g s =
      let (end, g', s') = worker_round g s in
      elim end [ continues ↦ rounds n g' s' | other ↦ (other, g', s') ]
