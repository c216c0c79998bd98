-- ===== src/Adb/WellFormed.antt =====
-- What holds of a connection whatever arrives and whatever the services do, in any order
-- (env/ecu-gateway/adbd.py).
use vehicle_bench_candidate.Base.{
  ℕ, ◌+◌, ◌≤◌, ◌<◌, ◌≡◌, inl, inr, refl, Option-cases, Option, none, some, List, [], ◌∷◌, ◌==◌,
  if_keeps, All, All-map, arith,
}
use vehicle_bench_candidate.Base.Dict.{Dict, lookup, All-insert, All-lookup, All-map_values}
use vehicle_bench_candidate.Adb.{Packet}
use vehicle_bench_candidate.Adb.Connection.{
  cnxn, opens, okay, clse, wrte, largest_payload, agreed_payload, Writer, Stream, Connection,
  connect, send, put, accept_host, open_stream, receive_write, receive_okay, receive_close,
  with_listed, dispatch, resume_writer, begin_writer, close_stream, orphan, Event, arrived, write,
  resume, close, disconnect, with_object, step, steps,
}

abbrev pub IsKeyed : ℕ → ℕ × Stream → Type 0
IsKeyed n (id, s) = (s.local_id ≡ id) × (id < n)

-- Every stream stands under its own id, the next id is above all of them, and the agreed size of a
-- payload is between 1 and the server's own.
pub record IsWellFormed (conn : Connection) : Type 0 where
  pub keyed : All (IsKeyed conn.next_id) conn.objects
  pub payload_pos : 0 < conn.max_payload
  pub payload_max : conn.max_payload ≤ largest_payload

agreed_payload_bounds : (n : ℕ) → (0 < agreed_payload n) × (agreed_payload n ≤ largest_payload)
agreed_payload_bounds n = ground arith

-- A change of a stream that keeps its id, and a send.
put-IsWellFormed :
    (id : ℕ) (s : Stream) (conn : Connection)
    → IsKeyed conn.next_id (id, s)
    → IsWellFormed conn
    → IsWellFormed (put id s conn)
put-IsWellFormed id s conn k h = record {
  keyed = All-insert (IsKeyed conn.next_id) id s conn.objects h.keyed k;
  payload_pos = h.payload_pos;
  payload_max = h.payload_max;
}

send-IsWellFormed :
    (p : Packet) (conn : Connection) → IsWellFormed conn → IsWellFormed (send p conn)
send-IsWellFormed p conn h = record {
  keyed = h.keyed;
  payload_pos = h.payload_pos;
  payload_max = h.payload_max;
}

open_stream-IsWellFormed :
    (p : Packet) (conn : Connection) → IsWellFormed conn → IsWellFormed (open_stream p conn)
unfolding open_stream
open_stream-IsWellFormed p conn h = record {
  keyed =
      All-insert (IsKeyed (conn.next_id + 1)) conn.next_id _ conn.objects
        (All-map (IsKeyed conn.next_id) (IsKeyed (conn.next_id + 1)) conn.objects
          (λ e k. (k.0, omega (arith, k.1))) h.keyed)
        (refl, omega arith);
  payload_pos = h.payload_pos;
  payload_max = h.payload_max;
}

with_listed-IsWellFormed :
    (id : ℕ) (f : Stream → Connection → Connection) (conn : Connection)
    → ((s : Stream) → IsKeyed conn.next_id (id, s) → IsWellFormed (f s conn))
    → IsWellFormed conn
    → IsWellFormed (with_listed (lookup id conn.objects) f conn)
with_listed-IsWellFormed id f conn keep h = elim (Option-cases (lookup id conn.objects)) [
  | inl e ↦ rw e h
  | inr (s, e) ↦ rw e (
      if_keeps IsWellFormed s.listed _ conn
        (keep s (All-lookup (IsKeyed conn.next_id) id conn.objects h.keyed e)) h)
]

with_object-IsWellFormed :
    (id : ℕ) (f : Stream → Connection → Connection) (conn : Connection)
    → ((s : Stream) → IsKeyed conn.next_id (id, s) → IsWellFormed (f s conn))
    → IsWellFormed conn
    → IsWellFormed (with_object (lookup id conn.objects) f conn)
with_object-IsWellFormed id f conn keep h = elim (Option-cases (lookup id conn.objects)) [
  | inl e ↦ rw e h
  | inr (s, e) ↦ rw e (keep s (All-lookup (IsKeyed conn.next_id) id conn.objects h.keyed e))
]

dispatch-IsWellFormed :
    (p : Packet) (conn : Connection) → IsWellFormed conn → IsWellFormed (dispatch p conn)
unfolding dispatch accept_host receive_write receive_okay receive_close
dispatch-IsWellFormed p conn h =
    if_keeps IsWellFormed (p.cmd == cnxn) _ _
      (record {
        keyed = h.keyed;
        payload_pos = (agreed_payload_bounds p.arg1).0;
        payload_max = (agreed_payload_bounds p.arg1).1;
      })
      (if_keeps IsWellFormed (p.cmd == opens) _ _ (open_stream-IsWellFormed p conn h) (
        if_keeps IsWellFormed (p.cmd == wrte) _ _
          (with_listed-IsWellFormed p.arg1 (receive_write p.arg1 p.payload) conn
            (λ s k. changed s k) h)
          (if_keeps IsWellFormed (p.cmd == okay) _ _
            (with_listed-IsWellFormed p.arg1 (receive_okay p.arg1) conn (λ s k. acked s k) h)
            (if_keeps IsWellFormed (p.cmd == clse) _ _
              (with_listed-IsWellFormed p.arg1 (receive_close p.arg1) conn (λ s k. ended s k) h)
              h))))
  where
    changed :
        (s : Stream)
        → IsKeyed conn.next_id (p.arg1, s)
        → IsWellFormed (receive_write p.arg1 p.payload s conn)
    changed s k = send-IsWellFormed _ _ (put-IsWellFormed p.arg1 _ conn k h)

    acked :
        (s : Stream) → IsKeyed conn.next_id (p.arg1, s) → IsWellFormed (receive_okay p.arg1 s conn)
    acked s k = put-IsWellFormed p.arg1 _ conn k h

    ended :
        (s : Stream) → IsKeyed conn.next_id (p.arg1, s) → IsWellFormed (receive_close p.arg1 s conn)
    ended s k = send-IsWellFormed _ _ (put-IsWellFormed p.arg1 _ conn k h)

module _ (conn : Connection) (h : IsWellFormed conn) (id : ℕ) (s : Stream)
    (k : IsKeyed conn.next_id (id, s)) where
  resume_writer-IsWellFormed : (w : Option Writer) → IsWellFormed (resume_writer id s w conn)
  resume_writer-IsWellFormed none = h
  resume_writer-IsWellFormed (some w) =
      if_keeps IsWellFormed s.ack _ conn
        (if_keeps IsWellFormed s.closed _ _ (put-IsWellFormed id _ conn k h)
          (send-IsWellFormed _ _ (put-IsWellFormed id _ conn k h)))
        h

  begin_writer-IsWellFormed :
      (bytes : List ℕ) (w : Option Writer) → IsWellFormed (begin_writer id bytes s w conn)
  begin_writer-IsWellFormed bytes (some w) = h
  begin_writer-IsWellFormed bytes none = put-IsWellFormed id _ conn k h

  close_stream-IsWellFormed : IsWellFormed (close_stream id s conn)
  unfolding close_stream
  close_stream-IsWellFormed =
      if_keeps IsWellFormed s.closed conn _ h
        (send-IsWellFormed _ _ (put-IsWellFormed id _ conn k h))

orphan-IsKeyed : (n id : ℕ) (s : Stream) → IsKeyed n (id, s) → IsKeyed n (id, orphan s)
orphan-IsKeyed n id s k = ground arith

pub step-IsWellFormed :
    (e : Event) (conn : Connection) → IsWellFormed conn → IsWellFormed (step e conn)
unfolding step
step-IsWellFormed (arrived p) conn h = dispatch-IsWellFormed p conn h
step-IsWellFormed (write id bytes) conn h =
    with_object-IsWellFormed id (λ s. begin_writer id bytes s s.writer) conn
      (λ s k. begin_writer-IsWellFormed conn h id s k bytes s.writer) h
step-IsWellFormed (resume id) conn h =
    with_object-IsWellFormed id (λ s. resume_writer id s s.writer) conn
      (λ s k. resume_writer-IsWellFormed conn h id s k s.writer) h
step-IsWellFormed (close id) conn h =
    with_object-IsWellFormed id (close_stream id) conn
      (λ s k. close_stream-IsWellFormed conn h id s k) h
step-IsWellFormed disconnect conn h = record {
  keyed =
      All-map_values (IsKeyed conn.next_id) orphan conn.objects
        (λ id s k. orphan-IsKeyed conn.next_id id s k) h.keyed;
  payload_pos = h.payload_pos;
  payload_max = h.payload_max;
}

pub steps-IsWellFormed :
    (es : List Event) (conn : Connection) → IsWellFormed conn → IsWellFormed (steps es conn)
unfolding steps
steps-IsWellFormed [] conn h = h
steps-IsWellFormed (e ∷ es) conn h =
    steps-IsWellFormed es (step e conn) (step-IsWellFormed e conn h)

pub connect-IsWellFormed : (banner : List ℕ) → IsWellFormed (connect banner)
connect-IsWellFormed banner = record {
  keyed = tt;
  payload_pos = omega arith;
  payload_max = omega arith;
}

-- Nobody stands under an id that is not given out yet.
pub unused : (n : ℕ) (d : Dict Stream) → All (IsKeyed n) d → lookup n d ≡ none
unused n [] h = refl
unused n (e ∷ d) h = ground (arith, unused n d h.1)

-- From a new connection on, whatever packets arrive and whatever the services write and close, in
-- any order: every stream stands under its own id, which is below the next one, so the next OPEN
-- takes an id that no stream ever had; and the agreed payload is between 1 and 1024 * 1024 bytes,
-- whatever size the client offered.
pub connection-IsWellFormed :
    (banner : List ℕ) (es : List Event)
    → let conn = steps es (connect banner) in
      IsWellFormed conn × (lookup conn.next_id conn.objects ≡ none)
connection-IsWellFormed banner es =
    let h = steps-IsWellFormed es (connect banner) (connect-IsWellFormed banner) in
    (h, unused _ _ h.keyed)
