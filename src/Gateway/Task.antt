-- ===== src/Gateway/Task.antt =====
-- A coroutine that awaits gRPC calls (env/ecu-gateway/gateway.py): it is done, it has raised, or it
-- waits on a call and goes on with the outcome. What else runs meanwhile is its caller's.
use vehicle_bench_candidate.Base.{ℕ, Option, none, some}
use vehicle_bench_candidate.Proto.{DoorLockRequest, ClimateRequest, ChargingRequest, CommandAck}
use vehicle_bench_candidate.Gateway.Types.{Outcome}

pub data Message : Type 0 where
  door : DoorLockRequest → Message
  climate : ClimateRequest → Message
  charging : ChargingRequest → Message

-- A message with its deadline.
pub record Call : Type 0 where
  pub message : Message
  pub timeout_ms : ℕ

pub data Task (A : Type 0) : Type 0 where
  done : A → Task A
  raised : Task A
  await : Call → (Outcome CommandAck → Task A) → Task A

infixl 5 ◌>>=◌
abbrev pub ◌>>=◌ : {A B : Type 0} → Task A → (A → Task B) → Task B
done a >>= f = f a
raised >>= f = raised
await c k >>= f = await c (λ o. k o >>= f)

-- A task run to its end against a server with a state of its own; no result means that it raised.
unfoldable pub complete :
    {A S : Type 0} → (Call → S → Outcome CommandAck × S) → Task A → S → Option A × S
complete server (done a) s = (some a, s)
complete server raised s = (none, s)
complete server (await c k) s = let (o, s') = server c s in complete server (k o) s'
