-- ===== src/Gateway/Refinement.antt =====
-- The command queue of the gateway, seen as a queue of request ids, whatever runs between two commands
-- (`handle_command`, `worker`, `handle_reset`, `sync_once` and `heartbeat_loop` of
-- env/ecu-gateway/gateway.py).
use mathlib.Core.Path.{subst}
use mathlib.Core.List.{append-nil, map-append}
use vehicle_bench_candidate.Base.{
  ℕ, ◌≡◌, ◌∙◌, inl, inr, refl, ap, sym, Bool, true, false, List, [], ◌∷◌, ◌++◌, map, All, arith,
  All-snoc, if◌then◌else◌,
}
use vehicle_bench_candidate.Proto.{CommandAck}
use vehicle_bench_candidate.Gateway.Types.{
  TcuCal, CommandRecord, RecordState, dropped, queued, finished, Gateway, Outcome-cases, reply,
  rpc_error, GrpcCode, start as start_gateway,
}
use vehicle_bench_candidate.Gateway.Sync.{World, sync_once, heartbeat_round}
use vehicle_bench_candidate.Gateway.Worker.{
  waits, take_round, new_record, handle_command, worker_round, handle_reset,
}
use vehicle_bench_candidate.Gateway.Queue.{
  IsServable, ids, sync_once-keeps, worker_round-drops, worker_round-runs,
}
use vehicle_bench_candidate.Gateway.Mirror.{
  Move, receive, round, poll, reset, heartbeat, move, moves,
}
use vehicle_bench_candidate.Gateway.Fifo.{
  Fifo, enqueue, serve, serve_from, Step, Trace, receives, serves, polls, empties, refuses, beats,
  stop, next,
}

abbrev is_final : RecordState → Bool
is_final queued = false
is_final dropped = true
is_final (finished verdict) = true

-- The ids of the journal lines that the worker wrote.
abbrev pub finals : List CommandRecord → List ℕ
finals [] = []
finals (r ∷ rs) = if is_final r.state then r.request_id ∷ finals rs else finals rs

abbrev pub view : Gateway → Fifo
view g = record { waiting = map (λ r. r.request_id) g.queue; served = finals g.journal }

pub finals-append : (xs ys : List CommandRecord) → finals (xs ++ ys) ≡ finals xs ++ finals ys
finals-append [] ys = refl
finals-append (r ∷ xs) ys = ground (arith, finals-append xs ys)

Fifo-ext : (f g : Fifo) → f.waiting ≡ g.waiting → f.served ≡ g.served → f ≡ g
Fifo-ext f g p q = λ i. record { waiting = p i; served = q i }

module _ {S : Type 0} (cal : TcuCal) (w : World S) where
  abbrev pub IsServableMove : Move → Type 0
  IsServableMove (receive fresh now body) = IsServable cal w (new_record fresh now body)
  IsServableMove _ = Unit

  -- A round writes one line that is final, about the first command.
  worker_round-final :
      (g : Gateway) (s : S) (r : CommandRecord) (rest : List CommandRecord)
      → g.queue ≡ r ∷ rest
      → IsServable cal w r
      → let (end, g', s') = worker_round cal w g s in
        (g'.queue ≡ rest) × (finals g'.journal ≡ finals g.journal ++ r.request_id ∷ [])
  worker_round-final g s r rest q (inl unmapped) =
      rw (worker_round-drops cal w g s r rest q unmapped) (refl, finals-append g.journal _)
  worker_round-final g s r rest q (inr (m, runs)) =
      let (end, queue, journal, _) = worker_round-runs cal w g s r rest m q runs in
      (queue, ap finals journal ∙ finals-append g.journal _)

  abbrev Refined : Move → Gateway → S → Type 0
  Refined m g s =
      let g' = (move cal w m (g, s)).0 in
      Step m (view g) (view g') × All (IsServable cal w) g'.queue

  to_view :
      (m : Move) (f g h : Fifo)
      → Step m f g
      → g.waiting ≡ h.waiting
      → g.served ≡ h.served
      → Step m f h
  to_view m f g h step p q = subst (Step m f) (Fifo-ext g h p q) step

  round-Refined :
      (q : List CommandRecord) (g : Gateway) (s : S)
      → g.queue ≡ q
      → All (IsServable cal w) q
      → Refined round g s
  round-Refined [] g s e h =
      let same : worker_round cal w g s ≡ (waits, g, s) =
        unfold worker_round in ap (λ q. take_round cal w q g s) e in
      let served = ap (λ q. serve_from (ids cal w q) (finals g.journal)) e in
      (
        to_view round (view g) (serve (view g)) _ (serves (view g))
            (ap (λ f. f.waiting) served
              ∙ sym (ap (ids cal w) e)
              ∙ sym (ap (λ r. ids cal w r.1.queue) same))
            (ap (λ f. f.served) served ∙ sym (ap (λ r. finals r.1.journal) same)),
        subst (All (IsServable cal w)) (sym (ap (λ r. r.1.queue) same ∙ e)) tt,
      )
  round-Refined (r ∷ rest) g s e h =
      let (queue, journal) = worker_round-final g s r rest e h.0 in
      let served = ap (λ q. serve_from (ids cal w q) (finals g.journal)) e in
      (
        to_view round (view g) (serve (view g)) _ (serves (view g))
            (ap (λ f. f.waiting) served ∙ sym (ap (ids cal w) queue))
            (ap (λ f. f.served) served ∙ sym journal),
        subst (All (IsServable cal w)) (sym queue) h.1,
      )

  -- A poll, and what else leaves queue and journal as they are.
  idle-Refined :
      (m : Move) (g g0 : Gateway) (s s0 : S)
      → Step m (view g) (view g0)
      → All (IsServable cal w) g0.queue
      → move cal w m (g, s) ≡ sync_once cal w g0 s0
      → Refined m g s
  idle-Refined m g g0 s s0 step h same =
      let (queue, journal, _, _) = sync_once-keeps cal w g0 s0 in
      let queue' = ap (λ r. r.0.queue) same ∙ queue in
      (
        to_view m (view g) (view g0) _ step (sym (ap (ids cal w) queue'))
            (sym (ap (λ r. finals r.0.journal) same ∙ ap finals journal)),
        subst (All (IsServable cal w)) (sym queue') h,
      )

  handle_reset-reply :
      (g : Gateway) (s : S) (ack : CommandAck)
      → (w.reset_state s).0 ≡ reply ack
      → handle_reset cal w g s ≡ (
          let (g', s') = sync_once cal w (record g { queue = [] }) (w.reset_state s).1 in
          (true, g', s'))
  unfolding handle_reset
  handle_reset-reply g s ack e = rw (e, handle_reset) refl

  handle_reset-refused :
      (g : Gateway) (s : S) (code : GrpcCode)
      → (w.reset_state s).0 ≡ rpc_error code
      → handle_reset cal w g s ≡ (false, g, (w.reset_state s).1)
  unfolding handle_reset
  handle_reset-refused g s code e = rw (e, handle_reset) refl

  move-Refined :
      (m : Move) (g : Gateway) (s : S)
      → IsServableMove m
      → All (IsServable cal w) g.queue
      → Refined m g s
  unfolding handle_command heartbeat_round
  move-Refined (receive fresh now body) g s ok h =
      let r = new_record fresh now body in
      (
        to_view _ (view g) (enqueue r.request_id (view g)) _ (receives fresh now body (view g))
            (sym (map-append (λ x. x.request_id) g.queue (r ∷ [])))
            (sym (finals-append g.journal (r ∷ []) ∙ append-nil (finals g.journal))),
        All-snoc (IsServable cal w) g.queue r h ok,
      )
  move-Refined round g s ok h = round-Refined g.queue g s refl h
  move-Refined poll g s ok h = idle-Refined poll g g s s (polls (view g)) h refl
  move-Refined reset g s ok h = elim (Outcome-cases (w.reset_state s).0) [
    | inl (ack, e) ↦
        idle-Refined reset g (record g { queue = [] }) s (w.reset_state s).1 (empties (view g)) tt
          (ap (λ r. (r.1, r.2)) (handle_reset-reply g s ack e))
    | inr (code, e) ↦
        let same = ap (λ r. r.1) (handle_reset-refused g s code e) in
        (
          subst (λ g'. Step reset (view g) (view g')) (sym same) (refuses (view g)),
          subst (λ g'. All (IsServable cal w) g'.queue) (sym same) h,
        )
  ]
  move-Refined (heartbeat (reply response) latency) g s ok h = (beats _ latency (view g), h)
  move-Refined (heartbeat (rpc_error code) latency) g s ok h = (beats _ latency (view g), h)

  moves-Trace :
      (ms : List Move) (g : Gateway) (s : S)
      → All IsServableMove ms
      → All (IsServable cal w) g.queue
      → Trace ms (view g) (view (moves cal w ms (g, s)).0)
  unfolding moves
  moves-Trace [] g s ok h = stop (view g)
  moves-Trace (m ∷ ms) g s ok h =
      let (step, h') = move-Refined m g s ok.0 h in
      let x = move cal w m (g, s) in next m ms _ (view x.0) _ step (moves-Trace ms x.0 x.1 ok.1 h')

-- From a start of the gateway on, if each command that arrives has no entry in the command map, or
-- a method whose number fits an `int32`: whatever worker rounds, polls, resets and heartbeats run
-- between the commands, and whatever the world answers, the queue with the lines that the worker
-- journals is a first-in first-out queue of request ids: a command goes to its end, a round of the
-- worker serves its first, a reset empties it or is refused, and nothing else touches it.
pub gateway_refines_fifo :
    {S : Type 0} (cal : TcuCal) (w : World S) (journal : List CommandRecord) (ms : List Move)
    (s : S)
    → All (IsServableMove cal w) ms
    → Trace ms (view (start_gateway journal)) (view (moves cal w ms (start_gateway journal, s)).0)
unfolding start_gateway
gateway_refines_fifo cal w journal ms s ok = moves-Trace cal w ms (start_gateway journal) s ok tt
