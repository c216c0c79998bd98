-- ===== src/Adb/Flow.antt =====
-- The flow control of a stream, by `WRTE` and `OKAY` (`Stream.write` and `dispatch` of
-- env/ecu-gateway/adbd.py).
use mathlib.Core.Option
use vehicle_bench_candidate.Base.{
  ℕ, ◌+◌, ◌≤◌, ◌≡◌, inl, inr, refl, ap, true, not, Option-cases, ◌&&◌, Option, none, some, List, [],
  ◌∷◌, ◌++◌, ◌==◌, if◌then◌else◌, arith, if_intro,
}
use vehicle_bench_candidate.Base.Dict.{lookup, lookup-insert, lookup-map_values, All-lookup}
use vehicle_bench_candidate.Adb.{Packet}
use vehicle_bench_candidate.Adb.Connection.{
  cnxn, agreed_payload, opens, okay, clse, wrte, Writer, Stream, Connection, connect, send, put,
  new_stream, packet_of, rstrip_nul, accept_host, open_stream, receive_write, receive_okay,
  receive_close, with_listed, dispatch, resume_writer, begin_writer, close_stream, orphan, Event,
  arrived, write, resume, close, disconnect, with_object, step, steps,
}
use vehicle_bench_candidate.Adb.WellFormed.{
  IsKeyed, IsWellFormed, step-IsWellFormed, connect-IsWellFormed, unused,
}

-- The `WRTE` packets that went out on a stream.
abbrev writes_of : ℕ → Packet → ℕ
writes_of id p = if p.cmd == wrte && p.arg0 == id then 1 else 0

abbrev pub writes : ℕ → List Packet → ℕ
writes id [] = 0
writes id (p ∷ ps) = writes_of id p + writes id ps

-- The `OKAY` packets that came in for it.
abbrev okays_of : ℕ → Event → ℕ
okays_of id (arrived p) = if p.cmd == okay && p.arg1 == id then 1 else 0
okays_of id _ = 0

abbrev pub okays : ℕ → List Event → ℕ
okays id [] = 0
okays id (e ∷ es) = okays_of id e + okays id es

writes-snoc :
    (id : ℕ) (ps : List Packet) (p : Packet)
    → writes id (ps ++ p ∷ []) ≡ writes id ps + writes_of id p
writes-snoc id [] p = omega arith
writes-snoc id (q ∷ ps) p = omega (arith, writes-snoc id ps p)

-- A stream may send one more packet; so may one that is not open yet.
abbrev credit : Option Stream → ℕ
credit none = 1
credit (some s) = if s.ack && not s.closed then 1 else 0

abbrev Flows : ℕ → ℕ → Connection → Type 0
Flows id n conn = writes id conn.sent + credit (lookup id conn.objects) ≤ n + 1

more-Flows : (id n m : ℕ) (conn : Connection) → Flows id n conn → Flows id (n + m) conn
more-Flows id n m conn h = omega arith

-- A packet that belongs to no stream.
send-Flows :
    (id n : ℕ) (p : Packet) (conn : Connection)
    → writes_of id p ≡ 0
    → Flows id n conn
    → Flows id n (send p conn)
send-Flows id n p conn h f = omega (arith, writes-snoc id conn.sent p)

-- A stream changes, with `k` acknowledgements for it.
put-Flows :
    (id j n k : ℕ) (s s' : Stream) (conn : Connection)
    → lookup j conn.objects ≡ some s
    → credit (some s') ≤ credit (some s) + k
    → Flows id n conn
    → Flows id (n + (if j == id then k else 0)) (put j s' conn)
put-Flows id j n k s s' conn found h f = ground (arith, lookup-insert id j s' conn.objects)

-- A stream changes without gaining credit.
keep-Flows :
    (id j n : ℕ) (s s' : Stream) (conn : Connection)
    → lookup j conn.objects ≡ some s
    → credit (some s') ≤ credit (some s)
    → Flows id n conn
    → Flows id n (put j s' conn)
keep-Flows id j n s s' conn found h f = ground (arith, lookup-insert id j s' conn.objects)

-- The same with a packet that is no `WRTE`.
answer-Flows :
    (id j n : ℕ) (s s' : Stream) (p : Packet) (conn : Connection)
    → lookup j conn.objects ≡ some s
    → writes_of id p ≡ 0
    → credit (some s') ≤ credit (some s)
    → Flows id n conn
    → Flows id n (send p (put j s' conn))
answer-Flows id j n s s' p conn found quiet h f =
    send-Flows id n p (put j s' conn) quiet (keep-Flows id j n s s' conn found h f)

-- A stream spends its credit on a packet of its own.
spend-Flows :
    (id j n : ℕ) (s s' : Stream) (p : Packet) (conn : Connection)
    → lookup j conn.objects ≡ some s
    → p.arg0 ≡ j
    → credit (some s) ≡ 1
    → credit (some s') ≡ 0
    → Flows id n conn
    → Flows id n (send p (put j s' conn))
spend-Flows id j n s s' p conn found own had left f =
    ground (arith, lookup-insert id j s' conn.objects, writes-snoc id conn.sent p)

with_listed-Flows :
    (id n j : ℕ) (f : Stream → Connection → Connection) (conn : Connection)
    → ((s : Stream) → lookup j conn.objects ≡ some s → Flows id n (f s conn))
    → Flows id n conn
    → Flows id n (with_listed (lookup j conn.objects) f conn)
with_listed-Flows id n j f conn keep h = elim (Option-cases (lookup j conn.objects)) [
  | inl e ↦ rw e h
  | inr (s, e) ↦ rw e (if_intro (Flows id n) s.listed _ conn (λ _. keep s e) (λ _. h))
]

with_object-Flows :
    (id n j : ℕ) (f : Stream → Connection → Connection) (conn : Connection)
    → ((s : Stream) → lookup j conn.objects ≡ some s → Flows id n (f s conn))
    → Flows id n conn
    → Flows id n (with_object (lookup j conn.objects) f conn)
with_object-Flows id n j f conn keep h = elim (Option-cases (lookup j conn.objects)) [
  | inl e ↦ rw e h
  | inr (s, e) ↦ rw e (keep s e)
]

open_stream-Flows :
    (id n : ℕ) (p : Packet) (conn : Connection)
    → lookup conn.next_id conn.objects ≡ none
    → Flows id n conn
    → Flows id n (open_stream p conn)
unfolding open_stream
open_stream-Flows id n p conn fresh f =
    let s = new_stream conn.next_id p.arg0 (rstrip_nul p.payload) in
    ground (
      arith,
      lookup-insert id conn.next_id s conn.objects,
      writes-snoc id conn.sent (packet_of okay conn.next_id p.arg0 []),
    )

module _ (id n : ℕ) (conn : Connection) (f : Flows id n conn) where
  dispatch-Flows :
      (p : Packet)
      → lookup conn.next_id conn.objects ≡ none
      → Flows id (n + okays_of id (arrived p)) (dispatch p conn)
  unfolding dispatch accept_host receive_write receive_okay receive_close
  dispatch-Flows p fresh =
      let m = n + okays_of id (arrived p) in
      let f' = more-Flows id n (okays_of id (arrived p)) conn f in
      if_intro (Flows id m) (p.cmd == cnxn) _ _
        (λ _. send-Flows id m _ (record conn { max_payload = agreed_payload p.arg1 }) refl f')
        (λ _.
          if_intro (Flows id m) (p.cmd == opens) _ _ (λ _. open_stream-Flows id m p conn fresh f')
            (λ _.
              if_intro (Flows id m) (p.cmd == wrte) _ _
                (λ _.
                  with_listed-Flows id m p.arg1 (receive_write p.arg1 p.payload) conn
                    (λ s e. answer-Flows id p.arg1 m s _ _ conn e refl (omega arith) f') f')
                (λ _.
                  if_intro (Flows id m) (p.cmd == okay) _ _
                    (λ c.
                      with_listed-Flows id m p.arg1 (receive_okay p.arg1) conn
                        (λ s e. rw c (
                          put-Flows id p.arg1 n 1 s (record s { ack = true }) conn e (ground arith)
                            f))
                        f')
                    (λ _.
                      if_intro (Flows id m) (p.cmd == clse) _ _
                        (λ _.
                          with_listed-Flows id m p.arg1 (receive_close p.arg1) conn
                            (λ s e. answer-Flows id p.arg1 m s _ _ conn e refl (omega arith) f') f')
                        (λ _. f')))))

  resume_writer-Flows :
      (j : ℕ) (s : Stream) (w : Option Writer)
      → lookup j conn.objects ≡ some s
      → s.local_id ≡ j
      → Flows id n (resume_writer j s w conn)
  resume_writer-Flows j s none found own = f
  resume_writer-Flows j s (some w) found own =
      if_intro (Flows id n) s.ack _ conn
        (λ a.
          if_intro (Flows id n) s.closed _ _ (λ c. keep-Flows id j n s _ conn found (omega arith) f)
            (λ c. spend-Flows id j n s _ _ conn found own (rw (a, c) refl) refl f))
        (λ _. f)

  begin_writer-Flows :
      (j : ℕ) (bytes : List ℕ) (s : Stream) (w : Option Writer)
      → lookup j conn.objects ≡ some s
      → Flows id n (begin_writer j bytes s w conn)
  begin_writer-Flows j bytes s (some w) found = f
  begin_writer-Flows j bytes s none found = keep-Flows id j n s _ conn found (omega arith) f

  close_stream-Flows :
      (j : ℕ) (s : Stream) → lookup j conn.objects ≡ some s → Flows id n (close_stream j s conn)
  unfolding close_stream
  close_stream-Flows j s found =
      if_intro (Flows id n) s.closed conn _ (λ _. f)
        (λ _. answer-Flows id j n s _ _ conn found refl (omega arith) f)

credit-orphan : (o : Option Stream) → credit (Option.map orphan o) ≤ credit o
credit-orphan none = omega arith
credit-orphan (some s) = ground arith

step-Flows :
    (id n : ℕ) (e : Event) (conn : Connection)
    → IsWellFormed conn
    → Flows id n conn
    → Flows id (n + okays_of id e) (step e conn)
unfolding step
step-Flows id n (arrived p) conn h f = dispatch-Flows id n conn f p (unused _ _ h.keyed)
step-Flows id n (write j bytes) conn h f = omega (
  arith,
  with_object-Flows id n j (λ s. begin_writer j bytes s s.writer) conn
      (λ s e. begin_writer-Flows id n conn f j bytes s s.writer e) f,
)
step-Flows id n (resume j) conn h f = omega (
  arith,
  with_object-Flows id n j (λ s. resume_writer j s s.writer) conn
      (λ s e.
        resume_writer-Flows id n conn f j s s.writer e
          (All-lookup (IsKeyed conn.next_id) j conn.objects h.keyed e).0)
      f,
)
step-Flows id n (close j) conn h f = omega (
  arith,
  with_object-Flows id n j (close_stream j) conn (λ s e. close_stream-Flows id n conn f j s e) f,
)
step-Flows id n disconnect conn h f = omega (
  arith,
  credit-orphan (lookup id conn.objects),
  ap credit (lookup-map_values id orphan conn.objects),
)

steps-Flows :
    (id n : ℕ) (es : List Event) (conn : Connection)
    → IsWellFormed conn
    → Flows id n conn
    → Flows id (n + okays id es) (steps es conn)
unfolding steps
steps-Flows id n [] conn h f = more-Flows id n 0 conn f
steps-Flows id n (e ∷ es) conn h f = omega (
  arith,
  steps-Flows id (n + okays_of id e) es (step e conn) (step-IsWellFormed e conn h)
      (step-Flows id n e conn h f),
)

-- From a new connection on, whatever packets arrive, whatever the services write and close and
-- however their writes are interleaved: at every moment a stream has sent at most one `WRTE`
-- packet more than it has received `OKAY` packets.
pub one_write_for_one_okay :
    (banner : List ℕ) (es : List Event) (id : ℕ)
    → writes id (steps es (connect banner)).sent ≤ okays id es + 1
one_write_for_one_okay banner es id =
    omega (arith, steps-Flows id 0 es (connect banner) (connect-IsWellFormed banner) (omega arith))
