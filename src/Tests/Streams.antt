-- ===== src/Tests/Streams.antt =====
-- The theorems on the streams of the ADB server (env/ecu-gateway/adbd.py), at concrete inputs.
use vehicle_bench_candidate.Base.{
  ℕ, ◌+◌, ◌≤◌, ◌<◌, ◌≡◌, ◌≢◌, ◌⊎◌, true, none, some, List, [], ◌∷◌, ◌++◌, refl, arith,
}
use vehicle_bench_candidate.Base.Dict.{lookup}
use vehicle_bench_candidate.Adb.Connection.{
  Stream, Connection, Event, arrived, write, resume, opens, okay, connect, packet_of, new_stream,
  put, step, steps, dispatch, receive_okay,
}
use vehicle_bench_candidate.Adb.WellFormed.{IsWellFormed, connection-IsWellFormed}
use vehicle_bench_candidate.Adb.Flow.{writes, okays, one_write_for_one_okay}
use vehicle_bench_candidate.Adb.Sending.{payloads}
use vehicle_bench_candidate.Adb.Delivery.{write_delivers}
use vehicle_bench_candidate.Adb.Sync.{read_inbox, got, ended}
use vehicle_bench_candidate.Adb.Reads.{join, inbox_of, read_inbox-chunks}

-- A client opens a stream, the service writes three bytes and sends them, and the client
-- acknowledges them.
abbrev busy : List Event
busy =
    arrived (packet_of opens 7 0 (b'x' ∷ 0 ∷ []))
    ∷ write 1 (1 ∷ 2 ∷ 3 ∷ [])
    ∷ resume 1
    ∷ arrived (packet_of okay 7 1 [])
    ∷ []

connection-IsWellFormed_example :
    IsWellFormed (steps busy (connect []))
    × (lookup (steps busy (connect [])).next_id (steps busy (connect [])).objects ≡ none)
connection-IsWellFormed_example = connection-IsWellFormed [] busy

one_write_for_one_okay_example : writes 1 (steps busy (connect [])).sent ≤ okays 1 busy + 1
one_write_for_one_okay_example = one_write_for_one_okay [] busy 1

-- One stream, which does not write, and a client that takes two bytes at a time.
abbrev stream : Stream
stream = new_stream 1 7 (b'x' ∷ [])

abbrev two_bytes : Connection
two_bytes = put 1 stream (record (connect []) { next_id = 2; max_payload = 2 })

abbrev answered : List Event
answered = resume 1 ∷ arrived (packet_of okay 7 1 []) ∷ resume 1 ∷ []

two_bytes-IsWellFormed : IsWellFormed two_bytes
two_bytes-IsWellFormed = record {
  keyed = ((refl, omega arith), tt);
  payload_pos = omega arith;
  payload_max = omega arith;
}

write_delivers_example :
    let conn = steps (write 1 (1 ∷ 2 ∷ 3 ∷ []) ∷ answered) two_bytes in
    (s : Stream) × (sent rest : List ℕ) × (lookup 1 conn.objects ≡ some s)
    × (payloads 1 conn.sent ≡ payloads 1 two_bytes.sent ++ sent)
    × (sent ++ rest ≡ 1 ∷ 2 ∷ 3 ∷ [])
    × ((s.closed ≡ true) ⊎ (s.writer ≢ none) ⊎ (sent ≡ 1 ∷ 2 ∷ 3 ∷ []))
write_delivers_example =
    write_delivers 1 (1 ∷ 2 ∷ 3 ∷ []) stream two_bytes answered two_bytes-IsWellFormed refl refl
      refl (tt, (ground arith, (tt, tt)))

-- Both packets of the write are out.
write_delivers-sent :
    payloads 1 (steps (write 1 (1 ∷ 2 ∷ 3 ∷ []) ∷ answered) two_bytes).sent ≡ 1 ∷ 2 ∷ 3 ∷ []
unfolding steps step dispatch receive_okay
write_delivers-sent = refl

read_inbox-chunks_example :
    ((3 ≤ 4)
      × (buf : List ℕ) × (chunks : List (List ℕ)) × (read_inbox 3
            (1 ∷ [])
            (inbox_of ((2 ∷ []) ∷ (3 ∷ 4 ∷ []) ∷ []))
          ≡ got (1 ∷ 2 ∷ 3 ∷ []) buf (inbox_of chunks))
      × (buf ++ join chunks ≡ 4 ∷ []))
    ⊎ ((4 < 3) × (read_inbox 3 (1 ∷ []) (inbox_of ((2 ∷ []) ∷ (3 ∷ 4 ∷ []) ∷ [])) ≡ ended))
read_inbox-chunks_example = read_inbox-chunks 3 (1 ∷ []) ((2 ∷ []) ∷ (3 ∷ 4 ∷ []) ∷ [])
