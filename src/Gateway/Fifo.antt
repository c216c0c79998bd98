-- ===== src/Gateway/Fifo.antt =====
-- A first-in first-out queue of request ids, as a specification of the command queue of the gateway
-- (env/ecu-gateway/gateway.py).
use mathlib.Core.Option
use vehicle_bench_candidate.Base.{ℕ, List, [], ◌∷◌, ◌++◌}
use vehicle_bench_candidate.Proto.{HeartbeatResponse}
use vehicle_bench_candidate.Gateway.Types.{CommandBody, Outcome}
use vehicle_bench_candidate.Gateway.Mirror.{Move, receive, round, poll, reset, heartbeat}

-- The ids that wait, and those that were served, oldest first.
pub record Fifo : Type 0 where
  pub waiting : List ℕ
  pub served : List ℕ

abbrev pub enqueue : ℕ → Fifo → Fifo
enqueue id f = record { waiting = f.waiting ++ id ∷ []; served = f.served }

abbrev pub serve_from : List ℕ → List ℕ → Fifo
serve_from [] served = record { waiting = []; served = served }
serve_from (id ∷ waiting) served = record { waiting = waiting; served = served ++ id ∷ [] }

abbrev pub serve : Fifo → Fifo
serve f = serve_from f.waiting f.served

abbrev pub empty : Fifo → Fifo
empty f = record { waiting = []; served = f.served }

abbrev pub id_of : ℕ → CommandBody → ℕ
id_of fresh body = Option.get_or body.request_id fresh

-- What a move of the gateway may do to a queue: a command goes to the end, a round of the worker
-- serves the first, a reset empties the queue or is refused, and nothing else touches it.
pub data Step : Move → Fifo → Fifo → Type 0 where
  receives :
      (fresh now : ℕ) (body : CommandBody) (f : Fifo)
      → Step (receive fresh now body) f (enqueue (id_of fresh body) f)
  serves : (f : Fifo) → Step round f (serve f)
  polls : (f : Fifo) → Step poll f f
  empties : (f : Fifo) → Step reset f (empty f)
  refuses : (f : Fifo) → Step reset f f
  beats :
      (outcome : Outcome HeartbeatResponse) (latency : ℕ) (f : Fifo)
      → Step (heartbeat outcome latency) f f

pub data Trace : List Move → Fifo → Fifo → Type 0 where
  stop : (f : Fifo) → Trace [] f f
  next : (m : Move) (ms : List Move) (f g h : Fifo) → Step m f g → Trace ms g h → Trace (m ∷ ms) f h
