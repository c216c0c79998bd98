-- ===== src/Tests/Adb.antt =====
-- The theorems on the ADB server's packets (env/ecu-gateway/adbd.py), at concrete inputs.
use vehicle_bench_candidate.Base.{ℕ, ◌≡◌, some, List, [], ◌∷◌, ◌++◌, refl, arith}
use vehicle_bench_candidate.Adb.{
  Packet, Stop, disconnected, pack, send_all, header, put_u32, checksum, run,
}
use vehicle_bench_candidate.Adb.Framing.{run-send_all}
use vehicle_bench_candidate.Adb.Ending.{run_ends}

-- `OKAY` without a payload, and `WRTE` with two bytes.
abbrev okay_packet : Packet
okay_packet = record { cmd = 1497451343; arg0 = 1; arg1 = 7; payload = [] }

abbrev write_packet : Packet
write_packet = record { cmd = 1163154007; arg0 = 1; arg1 = 7; payload = 104 ∷ 105 ∷ [] }

abbrev wire : List ℕ
wire = header 1497451343 1 7 [] ++ (header 1163154007 1 7 (104 ∷ 105 ∷ []) ++ 104 ∷ 105 ∷ [])

wire-sent : send_all (okay_packet ∷ write_packet ∷ []) ≡ some wire
unfolding send_all pack header put_u32 checksum
wire-sent = refl

run-send_all_example : run 3 wire ≡ some (okay_packet ∷ write_packet ∷ [], disconnected)
run-send_all_example = run-send_all (okay_packet ∷ write_packet ∷ []) wire wire-sent

run_ends_example : (ps : List Packet) × (stop : Stop) × (run 4 (1 ∷ 2 ∷ 3 ∷ []) ≡ some (ps, stop))
run_ends_example = run_ends 4 (1 ∷ 2 ∷ 3 ∷ []) (omega arith)
