-- ===== src/Adb/Sending.antt =====
-- A `Stream.write` under way, over one change of the connection (env/ecu-gateway/adbd.py).
use mathlib.Core.Path.{subst}
use mathlib.Core.Option.{some-injective}
use mathlib.Core.List.{append_assoc, append-nil}
use vehicle_bench_candidate.Base.{
  ℕ, ◌≡◌, ◌∙◌, ◌⊎◌, inl, inr, refl, sym, ap, true, false, Bool-cases, ◌&&◌, Option, none, some,
  List, [], ◌∷◌, ◌++◌, ◌==◌, if◌then◌else◌, arith, take, drop, take-append-drop, if_intro,
}
use vehicle_bench_candidate.Base.Dict.{lookup, lookup-insert}
use vehicle_bench_candidate.Adb.{Packet}
use vehicle_bench_candidate.Adb.Connection.{
  wrte, Writer, Stream, Connection, send, put, advance, packet_of, resume_writer,
}

-- The bytes that went out on a stream.
abbrev pub payload_of : ℕ → Packet → List ℕ
payload_of id p = if p.cmd == wrte && p.arg0 == id then p.payload else []

abbrev pub payloads : ℕ → List Packet → List ℕ
payloads id [] = []
payloads id (p ∷ ps) = payload_of id p ++ payloads id ps

pub payloads-snoc :
    (id : ℕ) (ps : List Packet) (p : Packet)
    → payloads id (ps ++ p ∷ []) ≡ payloads id ps ++ payload_of id p
payloads-snoc id [] p = append-nil _
payloads-snoc id (q ∷ ps) p =
    ap (λ t. payload_of id q ++ t) (payloads-snoc id ps p)
    ∙ sym (append_assoc (payload_of id q) (payloads id ps) (payload_of id p))

-- What is left of a write of `bytes` after `done` went out: a writer with the rest, or nothing.
abbrev pub Remaining : ℕ → List ℕ → List ℕ → Option Writer → Type 0
Remaining max bytes done none = done ≡ bytes
Remaining max bytes done (some w) =
    (done ++ w.rest ≡ bytes) × (w.stride ≡ max) × (w.chunk ≡ take max w.rest)

-- On an open stream all but what is left went out; a stream that was closed may have lost the rest.
abbrev pub Progress : ℕ → List ℕ → List ℕ → Stream → Type 0
Progress max bytes done s =
    ((s.closed ≡ true) × (rest : List ℕ) × (done ++ rest ≡ bytes))
    ⊎ ((s.closed ≡ false) × Remaining max bytes done s.writer)

-- The stream `id`, which had sent `base`, since a write of `bytes`.
abbrev pub Sending : ℕ → List ℕ → ℕ → List ℕ → Connection → Type 0
Sending id base max bytes conn =
    (conn.max_payload ≡ max)
    × (s : Stream) × (done : List ℕ) × (lookup id conn.objects ≡ some s)
    × (payloads id conn.sent ≡ base ++ done)
    × Progress max bytes done s

Remaining-lost :
    (max : ℕ) (bytes done : List ℕ) (w : Option Writer)
    → Remaining max bytes done w
    → (rest : List ℕ) × (done ++ rest ≡ bytes)
Remaining-lost max bytes done none h = ([], append-nil done ∙ h)
Remaining-lost max bytes done (some w) h = (w.rest, h.0)

-- A stream that is closed in the middle.
pub Progress-closed :
    (max : ℕ) (bytes done : List ℕ) (s s' : Stream)
    → s'.closed ≡ true
    → Progress max bytes done s
    → Progress max bytes done s'
Progress-closed max bytes done s s' c (inl (_, rest, lost)) = inl (c, rest, lost)
Progress-closed max bytes done s s' c (inr (_, left)) =
    let (rest, lost) = Remaining-lost max bytes done s.writer left in inl (c, rest, lost)

module _ (id : ℕ) (base : List ℕ) (max : ℕ) (bytes : List ℕ) where
  pub send-Sending :
      (p : Packet) (conn : Connection)
      → payload_of id p ≡ []
      → Sending id base max bytes conn
      → Sending id base max bytes (send p conn)
  send-Sending p conn quiet (m, s, done, found, out, progress) = (
    m,
    s,
    done,
    found,
    payloads-snoc id conn.sent p ∙ ap (λ t. payloads id conn.sent ++ t) quiet ∙ append-nil _ ∙ out,
    progress,
  )

  pub put_other-Sending :
      (j : ℕ) (s' : Stream) (conn : Connection)
      → id == j ≡ false
      → Sending id base max bytes conn
      → Sending id base max bytes (put j s' conn)
  put_other-Sending j s' conn other (m, t, done, found, out, progress) =
      (m, t, done, lookup-insert id j s' conn.objects ∙ rw other found, out, progress)

  -- What is known of the stream that stands under `j`, if that is `id`.
  Progress-found :
      (j : ℕ) (s : Stream) (conn : Connection)
      → id == j ≡ true
      → lookup j conn.objects ≡ some s
      → Sending id base max bytes conn
      → (done : List ℕ) × (payloads id conn.sent ≡ base ++ done) × Progress max bytes done s
  Progress-found j s conn same at (m, t, done, found, out, progress) =
      let e : id ≡ j = ground arith in
      let q : t ≡ s = some-injective _ _ (sym found ∙ ap (λ k. lookup k conn.objects) e ∙ at) in
      (done, out, subst (Progress max bytes done) q progress)

  pub put-Sending :
      (j : ℕ) (s s' : Stream) (conn : Connection)
      → lookup j conn.objects ≡ some s
      → ((done : List ℕ) → Progress max bytes done s → Progress max bytes done s')
      → Sending id base max bytes conn
      → Sending id base max bytes (put j s' conn)
  put-Sending j s s' conn at keep h = elim (Bool-cases (id == j)) [
    | inl same ↦
        let (done, out, progress) = Progress-found j s conn same at h in
        (h.0, s', done, lookup-insert id j s' conn.objects ∙ rw same refl, out, keep done progress)
    | inr other ↦ put_other-Sending j s' conn other h
  ]

  pub advance-Remaining :
      (done xs : List ℕ) → done ++ xs ≡ bytes → Remaining max bytes done (advance max max xs)
  advance-Remaining done [] h = sym (append-nil done) ∙ h
  advance-Remaining done (b ∷ bs) h = (h, refl, refl)

  next-Remaining :
      (m stride : ℕ) (chunk done rest : List ℕ)
      → m ≡ max
      → stride ≡ max
      → chunk ≡ take max rest
      → done ++ rest ≡ bytes
      → Remaining max bytes (done ++ chunk) (advance m stride (drop stride rest))
  next-Remaining m stride chunk done rest e f g h =
      rw (e, f, g)
        (advance-Remaining (done ++ take max rest) (drop max rest) (
          append_assoc done (take max rest) (drop max rest)
          ∙ ap (λ t. done ++ t) (take-append-drop max rest)
          ∙ h))

  live-Remaining :
      (done : List ℕ) (s : Stream) (w : Option Writer)
      → s.closed ≡ false
      → s.writer ≡ w
      → Progress max bytes done s
      → Remaining max bytes done w
  live-Remaining done s w live is (inl (shut, _, _)) = absurd (cc)
  live-Remaining done s w live is (inr (_, left)) = subst (Remaining max bytes done) is left

  pub resume_writer-Sending :
      (j : ℕ) (s : Stream) (w : Option Writer) (conn : Connection)
      → lookup j conn.objects ≡ some s
      → s.local_id ≡ j
      → s.writer ≡ w
      → Sending id base max bytes conn
      → Sending id base max bytes (resume_writer j s w conn)
  resume_writer-Sending j s none conn at own is h = h
  resume_writer-Sending j s (some w) conn at own is h =
      if_intro (Sending id base max bytes) s.ack _ conn
        (λ _.
          if_intro (Sending id base max bytes) s.closed _ _
            (λ shut.
              put-Sending j s (record s { writer = none }) conn at
                (λ done p. Progress-closed max bytes done s (record s { writer = none }) shut p) h)
            (λ live. sends live))
        (λ _. h)
    where
      after : Stream
      after = record s {
        ack = false;
        writer = advance conn.max_payload w.stride (drop w.stride w.rest);
      }

      sent : Packet
      sent = packet_of wrte s.local_id s.remote_id w.chunk

      sends : s.closed ≡ false → Sending id base max bytes (send sent (put j after conn))
      sends live = elim (Bool-cases (id == j)) [
        | inr other ↦
            send-Sending sent (put j after conn) (ground (arith, own))
              (put_other-Sending j after conn other h)
        | inl same ↦
            let (done, out, progress) = Progress-found j s conn same at h in
            let (split, stride, chunk) = live-Remaining done s (some w) live is progress in
            (
              h.0,
              after,
              done ++ w.chunk,
              lookup-insert id j after conn.objects ∙ rw same refl,
              payloads-snoc id conn.sent sent
                  ∙ ap (λ t. payloads id conn.sent ++ t) (ground (arith, own))
                  ∙ ap (λ t. t ++ w.chunk) out
                  ∙ append_assoc base done w.chunk,
              inr (
                live,
                next-Remaining conn.max_payload w.stride w.chunk done w.rest h.0 stride chunk split,
              ),
            )
      ]
