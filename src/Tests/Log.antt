-- ===== src/Tests/Log.antt =====
-- The theorems on the logger (env/common/dltlog.py), at concrete inputs.
use vehicle_bench_candidate.Base.{
  ℕ, ◌+◌, ◌%◌, ◌≤◌, ◌≡◌, refl, Bool, true, none, some, List, [], ◌∷◌, ◌==◌, arith,
}
use vehicle_bench_candidate.Log.{
  Level, Logger, Line, Call, Action, numbers, writes, logger, level_text, text, act_all,
}
use vehicle_bench_candidate.Log.Counters.{accepted, with_number, pending_with, issued, numbers_once}
use vehicle_bench_candidate.Log.Lines.{IsRegular, read_line, read_line-text}

-- `DltLogger("TCU1", "TCU", path)`, for the level INFO.
abbrev tcu_logger : Logger
tcu_logger = logger (b'T' ∷ b'C' ∷ b'U' ∷ b'1' ∷ []) (b'T' ∷ b'C' ∷ b'U' ∷ []) true Level.info true

abbrev heartbeat_ok : Call
heartbeat_ok = record {
  ctx = b'H' ∷ b'B' ∷ [];
  level = Level.info;
  msg = b'o' ∷ b'k' ∷ [];
  fields = (b's' ∷ [], some (b'5' ∷ [])) ∷ (b'r' ∷ [], none) ∷ [];
}

-- Two threads take their numbers, and write in the other order; a call below the level takes none.
abbrev crossed : List Action
crossed =
    numbers 1 heartbeat_ok (b'a' ∷ []) (b'0' ∷ [])
    ∷ numbers 3 (record heartbeat_ok { level = Level.debug }) (b'b' ∷ []) (b'0' ∷ [])
    ∷ numbers 2 heartbeat_ok (b'c' ∷ []) (b'1' ∷ [])
    ∷ writes 2
    ∷ writes 1
    ∷ []

abbrev blank : ℕ → Bool
blank c = c == b' '

numbers_once_example :
    let n = accepted tcu_logger crossed 0 in
    let logs =
      act_all blank tcu_logger crossed
        (record { counter = 65535; pending = []; file = []; stdout = [] }) in
    (logs.counter ≡ (65535 + n) % 65536)
    × (with_number 0 logs.file + pending_with 0 logs.pending ≡ issued 0 65535 n)
    × (with_number 0 logs.file ≤ 1)
numbers_once_example =
    numbers_once blank tcu_logger crossed 65535 0 refl (omega arith) (omega arith)

-- A line of the gateway.
abbrev line : Line
line = record {
  now = b'T' ∷ b'Z' ∷ [];
  uptime = b'1' ∷ b'.' ∷ b'5' ∷ [];
  ecu = b'T' ∷ b'C' ∷ b'U' ∷ b'1' ∷ [];
  app = b'T' ∷ b'C' ∷ b'U' ∷ b' ' ∷ [];
  ctx = b'H' ∷ b'B' ∷ b' ' ∷ b' ' ∷ [];
  level = Level.warn;
  counter = 66;
  payload = b'o' ∷ b'k' ∷ b' ' ∷ b's' ∷ b'=' ∷ b'5' ∷ [];
}

line-IsRegular : IsRegular line
line-IsRegular = record {
  now_word = (ground arith, (ground arith, tt));
  uptime_word = (ground arith, (ground arith, (ground arith, tt)));
  ecu_four = refl;
  app_four = refl;
  ctx_four = refl;
  number_small = omega arith;
}

read_line-text_example :
    read_line (text line)
    ≡ (line.now, line.uptime, line.ecu, line.app, line.ctx, level_text Level.warn, 66, line.payload)
read_line-text_example = read_line-text line line-IsRegular
