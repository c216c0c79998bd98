-- ===== src/Adb/Framing.antt =====
-- Packets that are packed and read again (env/ecu-gateway/adbd.py).
use vehicle_bench_candidate.Base.{
  ℕ, suc, ◌<◌, ◌≡◌, ◌∙◌, inl, inr, refl, sym, ap, Option-cases, some, List, [], ◌∷◌, ◌++◌, length,
  take, drop, arith, length-append,
}
use mathlib.Core.Option.{some-injective}
use vehicle_bench_candidate.Adb.{
  Packet, packet, disconnected, put_u32, get_u32, magic_of, checksum, header, pack, read_payload,
  read_packet, run, send_all,
}

-- The bytes of a `u32` are read back as it.
pub get-put_u32 :
    (n : ℕ) (rest : List ℕ) → n < 4294967296 → get_u32 (put_u32 n ++ rest) ≡ some (n, rest)
unfolding get_u32 put_u32
get-put_u32 n rest h = ap (λ x. some (x, rest)) (omega arith)

pub take-length : (xs ys : List ℕ) → take (length xs) (xs ++ ys) ≡ xs
take-length [] ys = refl
take-length (x ∷ xs) ys = ap (λ t. x ∷ t) (take-length xs ys)

pub drop-length : (xs ys : List ℕ) → drop (length xs) (xs ++ ys) ≡ ys
drop-length [] ys = refl
drop-length (x ∷ xs) ys = drop-length xs ys

header-append :
    (cmd arg0 arg1 : ℕ) (payload rest : List ℕ)
    → (header cmd arg0 arg1 payload ++ payload) ++ rest
      ≡ put_u32 cmd
        ++ (put_u32 arg0
            ++ (put_u32 arg1
                ++ (put_u32 (length payload)
                    ++ (put_u32 (checksum payload)
                        ++ (put_u32 (magic_of cmd) ++ (payload ++ rest))))))
unfolding header put_u32
header-append cmd arg0 arg1 payload rest = refl

checksum_bound : (payload : List ℕ) → checksum payload < 4294967296
unfolding checksum
checksum_bound payload = omega arith

read_payload-append :
    (p : Packet) (rest : List ℕ)
    → read_payload p.cmd p.arg0 p.arg1 (length p.payload) (magic_of p.cmd) (p.payload ++ rest)
      ≡ packet p rest
read_payload-append p rest =
    ground
      (arith, take-length p.payload rest, drop-length p.payload rest, length-append p.payload rest)

-- What `struct` can pack.
abbrev Fits : Packet → Type 0
Fits p =
    (p.cmd < 4294967296)
    × (p.arg0 < 4294967296)
    × (p.arg1 < 4294967296)
    × (length p.payload < 4294967296)

pack-some :
    (p : Packet) (bytes : List ℕ)
    → pack p ≡ some bytes
    → Fits p × (bytes ≡ header p.cmd p.arg0 p.arg1 p.payload ++ p.payload)
unfolding pack
pack-some p bytes h = ground arith

read_packet-header :
    (p : Packet) (rest : List ℕ)
    → Fits p
    → read_packet ((header p.cmd p.arg0 p.arg1 p.payload ++ p.payload) ++ rest) ≡ packet p rest
unfolding read_packet
read_packet-header p rest (c, a, b, l) =
    rw
      (
        header-append p.cmd p.arg0 p.arg1 p.payload rest,
        get-put_u32 p.cmd _ c,
        get-put_u32 p.arg0 _ a,
        get-put_u32 p.arg1 _ b,
        get-put_u32 (length p.payload) _ l,
        get-put_u32 (checksum p.payload) _ (checksum_bound p.payload),
        get-put_u32 (magic_of p.cmd) _ (omega arith),
      )
      (read_payload-append p rest)

read_packet-pack :
    (p : Packet) (bytes rest : List ℕ)
    → pack p ≡ some bytes
    → read_packet (bytes ++ rest) ≡ packet p rest
read_packet-pack p bytes rest h =
    let (fits, e) = pack-some p bytes h in rw e (read_packet-header p rest fits)

-- What a client sends by packets that `struct` can pack, one after the other, is what the loop
-- dispatches: the same packets with the same payloads in the same order, and nothing else before
-- the client disconnects. One round more than there are packets is enough.
pub run-send_all :
    (ps : List Packet) (bytes : List ℕ)
    → send_all ps ≡ some bytes
    → run (suc (length ps)) bytes ≡ some (ps, disconnected)
unfolding send_all run
run-send_all [] bytes h =
    rw (sym (some-injective _ _ h)) (unfold read_packet in unfold get_u32 in refl)
run-send_all (p ∷ ps) bytes h = elim (Option-cases (pack p)) [
  | inl e ↦ absurd (ground (arith, h, e))
  | inr (first, e) ↦ elim (Option-cases (send_all ps)) [
    | inl e' ↦ absurd (ground (arith, h, e, e'))
    | inr (more, e') ↦
        let split : bytes ≡ first ++ more = some-injective _ _ (sym h ∙ sent e e') in
        rw (split, read_packet-pack p first more e, run) (rw (run-send_all ps more e') refl)
  ]
]
  where
    sent :
        {first more : List ℕ}
        → pack p ≡ some first
        → send_all ps ≡ some more
        → send_all (p ∷ ps) ≡ some (first ++ more)
    sent e e' = rw (e, send_all) (rw e' refl)
