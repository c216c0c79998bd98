-- ===== src/Gateway/Queue.antt =====
-- The command queue of the gateway from end to end (`handle_command` and `worker` of
-- env/ecu-gateway/gateway.py).
use Prim.Native.String.{String}
use mathlib.Core.Option
use vehicle_bench_candidate.Base.{
  ℕ, suc, ◌≡◌, ◌⊎◌, ◌∙◌, inl, inr, refl, ap, sym, true, Bool-cases, none, some, List, [], ◌∷◌, ◌++◌,
  map, length, All, arith,
}
use mathlib.Core.List.{append_assoc, append-nil, map-append}
use vehicle_bench_candidate.Gateway.Types.{TcuCal, CommandRecord, dropped, Verdict, Reason, Gateway}
use vehicle_bench_candidate.Gateway.Commands.{
  Method, run_method, method_named, map_command, settle, conclude,
}
use vehicle_bench_candidate.Gateway.Calls.{Fits, call_of, run_method-one_call}
use vehicle_bench_candidate.Gateway.Sync.{World, sync_once}
use vehicle_bench_candidate.Gateway.Worker.{
  conclude_round, drop, start, dispatch_command, RoundEnd, waits, continues, finished_record,
  worker_round, rounds,
}

-- A command that the worker runs by the method `m`, and whose number, if any, fits an `int32`.
abbrev pub RunsBy : TcuCal → CommandRecord → Method → Type 0
RunsBy cal r m =
    (name : String) × (map_command r.command cal.command_map ≡ some name)
    × (method_named name ≡ some m)
    × Fits cal r.params m

abbrev pub IsUnmapped : TcuCal → CommandRecord → Type 0
IsUnmapped cal r = map_command r.command cal.command_map ≡ none

dispatch_command-RunsBy :
    (cal : TcuCal) (r : CommandRecord) (m : Method)
    → RunsBy cal r m
    → dispatch_command cal r ≡ start (run_method m cal r.request_id r.params)
unfolding dispatch_command
dispatch_command-RunsBy cal r m (name, mapped, named, fits) =
    rw (mapped, dispatch_command) (rw named)

pub dispatch_command-IsUnmapped :
    (cal : TcuCal) (r : CommandRecord) → IsUnmapped cal r → dispatch_command cal r ≡ drop
unfolding dispatch_command
dispatch_command-IsUnmapped cal r h = rw (h, dispatch_command)

module _ {S : Type 0} (cal : TcuCal) (w : World S) where
  -- The part of the gateway that `sync_once` does not touch.
  pub sync_once-keeps :
      (g : Gateway) (s : S)
      → let g' = (sync_once cal w g s).0 in
        (g'.queue ≡ g.queue)
        × (g'.journal ≡ g.journal)
        × (g'.last_result ≡ g.last_result)
        × (g'.commands_seen ≡ g.commands_seen)
  unfolding sync_once
  sync_once-keeps g s = ground arith

  pub worker_round-drops :
      (g : Gateway) (s : S) (r : CommandRecord) (rest : List CommandRecord)
      → g.queue ≡ r ∷ rest
      → IsUnmapped cal r
      → worker_round cal w g s ≡ (
        continues,
        record g { queue = rest; journal = g.journal ++ record r { state = dropped } ∷ [] },
        s,
      )
  unfolding worker_round
  worker_round-drops g s r rest q h = rw (q, dispatch_command-IsUnmapped cal r h) refl

  -- A round after the handler's verdict.
  conclude_round_lem :
      (r : CommandRecord) (verdict : Verdict) (reason : Reason) (g : Gateway) (s : S)
      → let r' = finished_record verdict reason (w.elapsed_ms s) r in
        let (end, g', s'') = conclude_round cal w r (some (verdict, reason)) g s in
        (end ≡ continues)
        × (g'.queue ≡ g.queue)
        × (g'.journal ≡ g.journal ++ r' ∷ [])
        × (g'.last_result ≡ some r')
  conclude_round_lem r verdict reason g s =
      elim (Bool-cases (Option.get_or cal.sync_after_command true)) [
        | inl synced ↦
            rw synced
              (let (queue, journal, last, _) = sync_once-keeps _ _ in (refl, queue, journal, last))
        | inr skipped ↦ rw skipped (refl, refl, refl, refl)
      ]

  -- A round that runs the method `m`, up to what follows its verdict.
  pub worker_round-eq :
      (g : Gateway) (s : S) (r : CommandRecord) (rest : List CommandRecord) (m : Method)
      → g.queue ≡ r ∷ rest
      → RunsBy cal r m
      → let (o, s') = w.rpc (call_of m cal r.request_id r.params) s in
        worker_round cal w g s
        ≡ conclude_round cal w r (some (conclude (settle o))) (record g { queue = rest }) s'
  unfolding worker_round
  worker_round-eq g s r rest m q h =
      rw
        (
          q,
          dispatch_command-RunsBy cal r m h,
          (run_method-one_call w.rpc m cal r.request_id r.params s h.3).1,
        )
        refl

  pub worker_round-runs :
      (g : Gateway) (s : S) (r : CommandRecord) (rest : List CommandRecord) (m : Method)
      → g.queue ≡ r ∷ rest
      → RunsBy cal r m
      → let (o, s') = w.rpc (call_of m cal r.request_id r.params) s in
        let (verdict, reason) = conclude (settle o) in
        let r' = finished_record verdict reason (w.elapsed_ms s') r in
        let (end, g', s'') = worker_round cal w g s in
        (end ≡ continues)
        × (g'.queue ≡ rest)
        × (g'.journal ≡ g.journal ++ r' ∷ [])
        × (g'.last_result ≡ some r')
  unfolding worker_round
  worker_round-runs g s r rest m q h =
      rw (worker_round-eq g s r rest m q h) (conclude_round_lem r _ _ (record g { queue = rest }) _)

  -- A command that does not make the worker raise: it has no entry in the map, or a method whose
  -- number fits.
  abbrev pub IsServable : CommandRecord → Type 0
  IsServable r = IsUnmapped cal r ⊎ ((m : Method) × RunsBy cal r m)

  -- A round that has taken `r` off the queue: one more journal line, about the same command.
  abbrev Served : Gateway → CommandRecord → List CommandRecord → RoundEnd × Gateway × S → Type 0
  Served g r rest (end, g', s') =
      (end ≡ continues)
      × (g'.queue ≡ rest)
      × (map (λ x. x.request_id) g'.journal
          ≡ map (λ x. x.request_id) g.journal ++ r.request_id ∷ [])

  abbrev pub ids : List CommandRecord → List ℕ
  ids rs = map (λ x. x.request_id) rs

  worker_round-Served :
      (g : Gateway) (s : S) (r : CommandRecord) (rest : List CommandRecord)
      → g.queue ≡ r ∷ rest
      → IsServable r
      → Served g r rest (worker_round cal w g s)
  worker_round-Served g s r rest q (inl unmapped) =
      rw (worker_round-drops g s r rest q unmapped)
        (refl, refl, map-append (λ x. x.request_id) g.journal _)
  worker_round-Served g s r rest q (inr (m, runs)) =
      let (end, queue, journal, _) = worker_round-runs g s r rest m q runs in
      (end, queue, ap ids journal ∙ map-append (λ x. x.request_id) g.journal _)

  rounds-continues :
      (n : ℕ) (g : Gateway) (s : S)
      → (worker_round cal w g s).0 ≡ continues
      → rounds cal w (suc n) g s
        ≡ rounds cal w n (worker_round cal w g s).1 (worker_round cal w g s).2
  unfolding rounds
  rounds-continues n g s e = rw (e, rounds)

  drain :
      (xs : List CommandRecord) (g : Gateway) (s : S)
      → g.queue ≡ xs
      → All IsServable xs
      → let (end, g', s') = rounds cal w (length xs) g s in
        (end ≡ continues) × (g'.queue ≡ []) × (ids g'.journal ≡ ids g.journal ++ ids xs)
  unfolding rounds
  drain [] g s q h = (refl, q, sym (append-nil _))
  drain (r ∷ rest) g s q h =
      let (end, queue, journal) = worker_round-Served g s r rest q h.0 in
      let (end', queue', journal') =
        drain rest (worker_round cal w g s).1 (worker_round cal w g s).2 queue h.1 in
      rw (rounds-continues (length rest) g s end) (
        end',
        queue',
        journal'
            ∙ ap (λ x. x ++ ids rest) journal
            ∙ append_assoc (ids g.journal) (r.request_id ∷ []) (ids rest),
      )

  -- If every queued command has no entry in the command map, or has a method whose number fits an
  -- `int32`, then as many rounds as commands are queued empty the queue without raising, and the
  -- journal gains exactly one line for each command, in the order of the queue; the next round
  -- waits.
  pub worker_drains :
      (g : Gateway) (s : S)
      → All IsServable g.queue
      → let (end, g', s') = rounds cal w (length g.queue) g s in
        (end ≡ continues)
        × (g'.queue ≡ [])
        × (map (λ x. x.request_id) g'.journal
            ≡ map (λ x. x.request_id) g.journal ++ map (λ x. x.request_id) g.queue)
        × ((worker_round cal w g' s').0 ≡ waits)
  worker_drains g s h =
      let (end, queue, journal) = drain g.queue g s refl h in
      (end, queue, journal, waiting _ _ queue)
    where
      waiting : (g : Gateway) (s : S) → g.queue ≡ [] → (worker_round cal w g s).0 ≡ waits
      waiting g s q = unfold worker_round in rw q refl
