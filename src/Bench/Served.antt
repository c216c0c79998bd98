-- ===== src/Bench/Served.antt =====
-- A bench between two commands (`worker` of env/ecu-gateway/gateway.py waits on its queue).
use vehicle_bench_candidate.Base.{◌≡◌, true, []}
use vehicle_bench_candidate.Bench.{Bench}

-- The gateway runs and has no command to serve.
pub record IsReady (b : Bench) : Type 0 where
  pub running : b.running ≡ true
  pub idle : b.gateway.queue ≡ []
