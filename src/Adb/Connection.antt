-- ===== src/Adb/Connection.antt =====
-- The streams of one connection of the ADB server (`Stream` and `AdbConnection.dispatch` of
-- env/ecu-gateway/adbd.py). A `Stream` object outlives its place in `conn.streams`: `objects` holds
-- every object, and `listed` says whether `streams` still has it. A `write` that is under way is a
-- `Writer`; between two events no task runs, so what `send` awaits is no event of its own.
use vehicle_bench_candidate.Base.{
  ℕ, ◌+◌, ◌*◌, Bool, true, false, Option, none, some, List, [], ◌∷◌, ◌++◌, ◌==◌, ltb, if◌then◌else◌,
  take, drop,
}
use vehicle_bench_candidate.Base.Dict.{Dict, lookup, insert, map_values}
use vehicle_bench_candidate.Adb.{Packet}

abbrev pub cnxn : ℕ
cnxn = 0x4E584E43

abbrev pub opens : ℕ
opens = 0x4E45504F

abbrev pub okay : ℕ
okay = 0x59414B4F

abbrev pub clse : ℕ
clse = 0x45534C43

abbrev pub wrte : ℕ
wrte = 0x45545257

abbrev pub version : ℕ
version = 0x01000001

abbrev pub largest_payload : ℕ
largest_payload = 1024 * 1024

-- The loop of `Stream.write`: `rest` is `data[i:]`, `stride` the step of the `range`, and `chunk`
-- the slice that waits for the acknowledgement of the one before.
pub record Writer : Type 0 where
  pub rest : List ℕ
  pub stride : ℕ
  pub chunk : List ℕ

-- `inbox` holds `None` as `none`.
pub record Stream : Type 0 where
  pub local_id : ℕ
  pub remote_id : ℕ
  pub service : List ℕ
  pub inbox : List (Option (List ℕ))
  pub ack : Bool
  pub closed : Bool
  pub listed : Bool
  pub writer : Option Writer

-- `sent` is what was written to the socket, oldest first.
pub record Connection : Type 0 where
  pub banner : List ℕ
  pub objects : Dict Stream
  pub next_id : ℕ
  pub max_payload : ℕ
  pub sent : List Packet

abbrev pub connect : List ℕ → Connection
connect banner = record {
  banner = banner;
  objects = [];
  next_id = 1;
  max_payload = largest_payload;
  sent = [];
}

abbrev pub packet_of : ℕ → ℕ → ℕ → List ℕ → Packet
packet_of cmd arg0 arg1 payload = record { cmd = cmd; arg0 = arg0; arg1 = arg1; payload = payload }

abbrev pub send : Packet → Connection → Connection
send p conn = record conn { sent = conn.sent ++ p ∷ [] }

abbrev pub put : ℕ → Stream → Connection → Connection
put id s conn = record conn { objects = insert id s conn.objects }

-- `data.rstrip(b"\0")`
abbrev pub rstrip_nul : List ℕ → List ℕ
rstrip_nul [] = []
rstrip_nul (b ∷ bs) = elim (rstrip_nul bs) [
  | [] ↦ if b == 0 then [] else b ∷ []
  | c ∷ cs ↦ b ∷ c ∷ cs
]

abbrev pub new_stream : ℕ → ℕ → List ℕ → Stream
new_stream local_id remote_id service = record {
  local_id = local_id;
  remote_id = remote_id;
  service = service;
  inbox = [];
  ack = true;
  closed = false;
  listed = true;
  writer = none;
}

-- `min(MAX_PAYLOAD, arg1) if arg1 else MAX_PAYLOAD`
abbrev pub agreed_payload : ℕ → ℕ
agreed_payload offered =
    if offered == 0
    then largest_payload
    else if ltb offered largest_payload
    then offered
    else largest_payload

unfoldable pub accept_host : Packet → Connection → Connection
accept_host p conn =
    send (packet_of cnxn version largest_payload (conn.banner ++ 0 ∷ []))
      (record conn { max_payload = agreed_payload p.arg1 })

unfoldable pub open_stream : Packet → Connection → Connection
open_stream p conn = send (packet_of okay conn.next_id p.arg0 []) (
    put conn.next_id (new_stream conn.next_id p.arg0 (rstrip_nul p.payload))
      (record conn { next_id = conn.next_id + 1 }))

-- The three packets that name a stream of `conn.streams` by `arg1`.
unfoldable pub receive_write : ℕ → List ℕ → Stream → Connection → Connection
receive_write id payload s conn =
    send (packet_of okay s.local_id s.remote_id [])
      (put id (record s { inbox = s.inbox ++ some payload ∷ [] }) conn)

unfoldable pub receive_okay : ℕ → Stream → Connection → Connection
receive_okay id s conn = put id (record s { ack = true }) conn

unfoldable pub receive_close : ℕ → Stream → Connection → Connection
receive_close id s conn = send (packet_of clse s.local_id s.remote_id []) (
    put id (record s { closed = true; ack = true; inbox = s.inbox ++ none ∷ []; listed = false })
      conn)

-- `self.streams.get(id)`, and what is done if there is one.
abbrev pub with_listed :
    Option Stream → (Stream → Connection → Connection) → Connection → Connection
with_listed none f conn = conn
with_listed (some s) f conn = if s.listed then f s conn else conn

-- `AdbConnection.dispatch`; what is only logged leaves the state as it is.
unfoldable pub dispatch : Packet → Connection → Connection
dispatch p conn =
    let found = lookup p.arg1 conn.objects in
    if p.cmd == cnxn
    then accept_host p conn
    else if p.cmd == opens
    then open_stream p conn
    else if p.cmd == wrte
    then with_listed found (receive_write p.arg1 p.payload) conn
    else if p.cmd == okay
    then with_listed found (receive_okay p.arg1) conn
    else if p.cmd == clse
    then with_listed found (receive_close p.arg1) conn
    else conn

-- The next round of the loop of `write`, or its end.
abbrev pub advance : ℕ → ℕ → List ℕ → Option Writer
advance max stride [] = none
advance max stride (b ∷ bs) =
    some (record { rest = b ∷ bs; stride = stride; chunk = take max (b ∷ bs) })

abbrev pub resume_writer : ℕ → Stream → Option Writer → Connection → Connection
resume_writer id s none conn = conn
resume_writer id s (some w) conn =
    if s.ack
    then (if s.closed
        then put id (record s { writer = none }) conn
        else send (packet_of wrte s.local_id s.remote_id w.chunk) (
            put id
              (record s {
                ack = false;
                writer = advance conn.max_payload w.stride (drop w.stride w.rest);
              })
              conn))
    else conn

-- A task calls `write` once its last call is over.
abbrev pub begin_writer : ℕ → List ℕ → Stream → Option Writer → Connection → Connection
begin_writer id bytes s (some w) conn = conn
begin_writer id bytes s none conn =
    put id (record s { writer = advance conn.max_payload conn.max_payload bytes }) conn

-- `Stream.close`
unfoldable pub close_stream : ℕ → Stream → Connection → Connection
close_stream id s conn =
    if s.closed
    then conn
    else send (packet_of clse s.local_id s.remote_id [])
        (put id (record s { closed = true; ack = true; listed = false }) conn)

-- The end of `run`, for one object.
abbrev pub orphan : Stream → Stream
orphan s =
    if s.listed
    then record s { closed = true; ack = true; inbox = s.inbox ++ none ∷ []; listed = false }
    else s

-- What happens on a connection: a packet arrives, a service starts to write, a `write` that waits
-- goes on, a service closes its stream, the client is gone.
pub data Event : Type 0 where
  arrived : Packet → Event
  write : ℕ → List ℕ → Event
  resume close : ℕ → Event
  disconnect : Event

abbrev pub with_object :
    Option Stream → (Stream → Connection → Connection) → Connection → Connection
with_object none f conn = conn
with_object (some s) f conn = f s conn

unfoldable pub step : Event → Connection → Connection
step (arrived p) conn = dispatch p conn
step (write id bytes) conn =
    with_object (lookup id conn.objects) (λ s. begin_writer id bytes s s.writer) conn
step (resume id) conn = with_object (lookup id conn.objects) (λ s. resume_writer id s s.writer) conn
step (close id) conn = with_object (lookup id conn.objects) (close_stream id) conn
step disconnect conn = record conn { objects = map_values orphan conn.objects }

unfoldable pub steps : List Event → Connection → Connection
steps [] conn = conn
steps (e ∷ es) conn = steps es (step e conn)
