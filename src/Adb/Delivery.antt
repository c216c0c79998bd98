-- ===== src/Adb/Delivery.antt =====
-- What one call of `Stream.write` brings to the client (env/ecu-gateway/adbd.py).
use mathlib.Core.Option
use mathlib.Core.Path.{subst}
use mathlib.Core.Option.{some-injective}
use mathlib.Core.List.{append-nil}
use vehicle_bench_candidate.Base.{
  ℕ, ◌≡◌, ◌≢◌, ◌∙◌, ◌⊎◌, inl, inr, refl, sym, ap, true, false, Option-cases, Option, none, some,
  List, [], ◌∷◌, ◌++◌, ◌==◌, All, arith, if_intro,
}
use vehicle_bench_candidate.Base.Dict.{lookup, lookup-insert, lookup-map_values, All-lookup}
use vehicle_bench_candidate.Adb.{Packet}
use vehicle_bench_candidate.Adb.Connection.{
  cnxn, opens, okay, clse, wrte, Writer, Stream, Connection, send, put, advance, new_stream,
  packet_of, rstrip_nul, open_stream, receive_write, receive_okay, receive_close, with_listed,
  dispatch, resume_writer, begin_writer, close_stream, orphan, Event, arrived, write, resume, close,
  disconnect, with_object, step, steps,
}
use vehicle_bench_candidate.Adb.WellFormed.{IsKeyed, IsWellFormed, step-IsWellFormed, unused}
use vehicle_bench_candidate.Adb.Sending.{
  payload_of, payloads, payloads-snoc, Remaining, Progress, Progress-closed, Sending, send-Sending,
  put_other-Sending, put-Sending, advance-Remaining, resume_writer-Sending,
}

-- Neither a new handshake nor another write on the stream.
abbrev pub IsApart : ℕ → Event → Type 0
IsApart id (arrived p) = p.cmd ≢ cnxn
IsApart id (write j bytes) = j ≢ id
IsApart id _ = Unit

module _ (id : ℕ) (base : List ℕ) (max : ℕ) (bytes : List ℕ) (conn : Connection)
    (h : Sending id base max bytes conn) where
  with_listed-Sending :
      (j : ℕ) (f : Stream → Connection → Connection)
      → ((s : Stream) → lookup j conn.objects ≡ some s → Sending id base max bytes (f s conn))
      → Sending id base max bytes (with_listed (lookup j conn.objects) f conn)
  with_listed-Sending j f keep = elim (Option-cases (lookup j conn.objects)) [
    | inl e ↦ rw e h
    | inr (s, e) ↦
        rw e (if_intro (Sending id base max bytes) s.listed _ conn (λ _. keep s e) (λ _. h))
  ]

  with_object-Sending :
      (j : ℕ) (f : Stream → Connection → Connection)
      → ((s : Stream) → lookup j conn.objects ≡ some s → Sending id base max bytes (f s conn))
      → Sending id base max bytes (with_object (lookup j conn.objects) f conn)
  with_object-Sending j f keep = elim (Option-cases (lookup j conn.objects)) [
    | inl e ↦ rw e h
    | inr (s, e) ↦ rw e (keep s e)
  ]

  open_stream-Sending :
      (p : Packet)
      → lookup conn.next_id conn.objects ≡ none
      → Sending id base max bytes (open_stream p conn)
  unfolding open_stream
  open_stream-Sending p fresh =
      let (m, s, done, found, out, progress) = h in
      (
        m,
        s,
        done,
        ground (
          arith,
          lookup-insert id conn.next_id (new_stream conn.next_id p.arg0 (rstrip_nul p.payload))
              conn.objects,
        ),
        payloads-snoc id conn.sent (packet_of okay conn.next_id p.arg0 []) ∙ append-nil _ ∙ out,
        progress,
      )

  -- A stream that stays open and keeps its writer, and a packet of no bytes.
  answer-Sending :
      (j : ℕ) (s s' : Stream) (p : Packet)
      → lookup j conn.objects ≡ some s
      → ((done : List ℕ) → Progress max bytes done s → Progress max bytes done s')
      → payload_of id p ≡ []
      → Sending id base max bytes (send p (put j s' conn))
  answer-Sending j s s' p at keep quiet =
      send-Sending id base max bytes p (put j s' conn) quiet
        (put-Sending id base max bytes j s s' conn at keep h)

  dispatch-Sending :
      (p : Packet)
      → p.cmd ≢ cnxn
      → lookup conn.next_id conn.objects ≡ none
      → Sending id base max bytes (dispatch p conn)
  unfolding dispatch receive_write receive_okay receive_close
  dispatch-Sending p apart fresh =
      let P = Sending id base max bytes in
      if_intro P (p.cmd == cnxn) _ _ (λ e. absurd (ground arith))
        (λ _.
          if_intro P (p.cmd == opens) _ _ (λ _. open_stream-Sending p fresh)
            (λ _.
              if_intro P (p.cmd == wrte) _ _
                (λ _.
                  with_listed-Sending p.arg1 (receive_write p.arg1 p.payload)
                    (λ s e. answer-Sending p.arg1 s _ _ e (λ done x. x) refl))
                (λ _.
                  if_intro P (p.cmd == okay) _ _
                    (λ _.
                      with_listed-Sending p.arg1 (receive_okay p.arg1)
                        (λ s e. put-Sending id base max bytes p.arg1 s _ conn e (λ done x. x) h))
                    (λ _.
                      if_intro P (p.cmd == clse) _ _
                        (λ _. with_listed-Sending p.arg1 (receive_close p.arg1) (λ s e.
                          answer-Sending p.arg1 s _ _ e
                            (λ done x.
                              Progress-closed max bytes done s
                                (record s {
                                  closed = true;
                                  ack = true;
                                  inbox = s.inbox ++ none ∷ [];
                                  listed = false;
                                })
                                refl x)
                            refl))
                        (λ _. h)))))

  begin_writer-Sending :
      (j : ℕ) (b : List ℕ) (s : Stream) (w : Option Writer)
      → j ≢ id
      → Sending id base max bytes (begin_writer j b s w conn)
  begin_writer-Sending j b s (some w) ne = h
  begin_writer-Sending j b s none ne = put_other-Sending id base max bytes j _ conn (ground arith) h

  close_stream-Sending :
      (j : ℕ) (s : Stream)
      → lookup j conn.objects ≡ some s
      → Sending id base max bytes (close_stream j s conn)
  unfolding close_stream
  close_stream-Sending j s e =
      if_intro (Sending id base max bytes) s.closed conn _ (λ _. h)
        (λ _.
          answer-Sending j s _ _ e
            (λ done x.
              Progress-closed max bytes done s
                (record s { closed = true; ack = true; listed = false }) refl x)
            refl)

  orphan-Progress :
      (done : List ℕ) (s : Stream) → Progress max bytes done s → Progress max bytes done (orphan s)
  orphan-Progress done s p =
      if_intro (Progress max bytes done) s.listed _ s
        (λ _.
          Progress-closed max bytes done s
            (record s { closed = true; ack = true; inbox = s.inbox ++ none ∷ []; listed = false })
            refl p)
        (λ _. p)

  step-Sending :
      (e : Event) → IsWellFormed conn → IsApart id e → Sending id base max bytes (step e conn)
  unfolding step
  step-Sending (arrived p) v apart = dispatch-Sending p apart (unused _ _ v.keyed)
  step-Sending (write j b) v apart =
      with_object-Sending j (λ s. begin_writer j b s s.writer)
        (λ s e. begin_writer-Sending j b s s.writer apart)
  step-Sending (resume j) v apart =
      with_object-Sending j (λ s. resume_writer j s s.writer)
        (λ s e.
          resume_writer-Sending id base max bytes j s s.writer conn e
            (All-lookup (IsKeyed conn.next_id) j conn.objects v.keyed e).0 refl h)
  step-Sending (close j) v apart =
      with_object-Sending j (close_stream j) (λ s e. close_stream-Sending j s e)
  step-Sending disconnect v apart =
      let (m, s, done, found, out, progress) = h in
      (
        m,
        orphan s,
        done,
        lookup-map_values id orphan conn.objects ∙ ap (Option.map orphan) found,
        out,
        orphan-Progress done s progress,
      )

steps-Sending :
    (id : ℕ) (base : List ℕ) (max : ℕ) (bytes : List ℕ) (es : List Event) (conn : Connection)
    → IsWellFormed conn
    → All (IsApart id) es
    → Sending id base max bytes conn
    → Sending id base max bytes (steps es conn)
unfolding steps
steps-Sending id base max bytes [] conn v apart h = h
steps-Sending id base max bytes (e ∷ es) conn v apart h =
    steps-Sending id base max bytes es (step e conn) (step-IsWellFormed e conn v) apart.1
      (step-Sending id base max bytes conn h e v apart.0)

-- A service writes `bytes` on an open stream that is not writing, in any state of a connection that
-- can come about, and anything follows but a new handshake and another write on that stream: other
-- streams may write, and packets, closes and the end of the connection may come at any moment. Then
-- what went out on the stream since is the beginning of `bytes`, in order and without a gap; and
-- if the stream is still open and the write is over, it is all of `bytes`.
pub write_delivers :
    (id : ℕ) (bytes : List ℕ) (s : Stream) (conn : Connection) (es : List Event)
    → IsWellFormed conn
    → lookup id conn.objects ≡ some s
    → s.writer ≡ none
    → s.closed ≡ false
    → All (IsApart id) es
    → let conn' = steps (write id bytes ∷ es) conn in
      (s' : Stream) × (done rest : List ℕ) × (lookup id conn'.objects ≡ some s')
      × (payloads id conn'.sent ≡ payloads id conn.sent ++ done)
      × (done ++ rest ≡ bytes)
      × ((s'.closed ≡ true) ⊎ (s'.writer ≢ none) ⊎ (done ≡ bytes))
unfolding steps step
write_delivers id bytes s conn es v found idle live apart =
    let (m, s', done, at, out, progress) = after in
    let (rest, split, end) = outcome done s' s'.writer refl progress in
    (s', done, rest, at, out, split, end)
  where
    begun : Stream
    begun = record s { writer = advance conn.max_payload conn.max_payload bytes }

    start : Sending id (payloads id conn.sent) conn.max_payload bytes (put id begun conn)
    start = (
      refl,
      begun,
      [],
      ground (arith, lookup-insert id id begun conn.objects),
      sym (append-nil _),
      inr (live, advance-Remaining id [] conn.max_payload bytes [] bytes refl),
    )

    begins : step (write id bytes) conn ≡ put id begun conn
    begins =
        ap (λ o. with_object o (λ t. begin_writer id bytes t t.writer) conn) found
        ∙ ap (λ w. begin_writer id bytes s w conn) idle

    after :
        Sending id
          (payloads id conn.sent)
          conn.max_payload
          bytes
          (steps es (step (write id bytes) conn))
    after =
        steps-Sending id (payloads id conn.sent) conn.max_payload bytes es
          (step (write id bytes) conn) (step-IsWellFormed (write id bytes) conn v) apart
          (rw begins start)

    outcome :
        (done : List ℕ) (t : Stream) (w : Option Writer)
        → t.writer ≡ w
        → Progress conn.max_payload bytes done t
        → (rest : List ℕ) × (done ++ rest ≡ bytes)
          × ((t.closed ≡ true) ⊎ (t.writer ≢ none) ⊎ (done ≡ bytes))
    outcome done t w is (inl (shut, rest, split)) = (rest, split, inl shut)
    outcome done t none is (inr (_, left)) =
        let e = subst (Remaining conn.max_payload bytes done) is left in
        ([], append-nil done ∙ e, inr (inr e))
    outcome done t (some w) is (inr (_, left)) =
        let (split, _, _) = subst (Remaining conn.max_payload bytes done) is left in
        (w.rest, split, inr (inl (λ e. cc)))
