-- ===== src/Adb/Ending.antt =====
-- How long the loop runs that reads packets (`AdbConnection.run` of env/ecu-gateway/adbd.py).
use vehicle_bench_candidate.Base.{
  length-drop, ℕ, zero, suc, ◌+◌, ◌<◌, ◌≤◌, ◌≡◌, ◌∙◌, ◌⊎◌, inl, inr, refl, sym, ap, Option-cases,
  some, List, [], ◌∷◌, length, arith,
}
use vehicle_bench_candidate.Adb.{
  Packet, Read, packet, bad_magic, incomplete, Stop, dropped, disconnected, get_u32, read_payload,
  get_then, read_packet, run,
}

length-get_u32 : (xs ys : List ℕ) (n : ℕ) → get_u32 xs ≡ some (n, ys) → length xs ≡ length ys + 4
unfolding get_u32
length-get_u32 (a ∷ b ∷ c ∷ d ∷ rest) ys n h = ground arith
length-get_u32 (a ∷ b ∷ c ∷ []) ys n h = absurd (cc h)
length-get_u32 (a ∷ b ∷ []) ys n h = absurd (cc h)
length-get_u32 (a ∷ []) ys n h = absurd (cc h)
length-get_u32 [] ys n h = absurd (cc h)

-- A number was read, and four bytes of it.
get_then-packet :
    (xs : List ℕ) (f : ℕ → List ℕ → Read) (p : Packet) (rest : List ℕ)
    → get_then (get_u32 xs) f ≡ packet p rest
    → (n : ℕ) × (ys : List ℕ) × (length xs ≡ length ys + 4) × (f n ys ≡ packet p rest)
get_then-packet xs f p rest h = elim (Option-cases (get_u32 xs)) [
  | inl e ↦ absurd (ground (arith, h, e))
  | inr ((n, ys), e) ↦ (n, ys, length-get_u32 xs ys n e, sym (ap (λ o. get_then o f) e) ∙ h)
]

length-read_payload :
    (cmd arg0 arg1 size magic : ℕ) (xs : List ℕ) (p : Packet) (rest : List ℕ)
    → read_payload cmd arg0 arg1 size magic xs ≡ packet p rest
    → length rest ≤ length xs
length-read_payload cmd arg0 arg1 size magic xs p rest h = ground (arith, length-drop size xs)

-- A packet takes at least its header.
length-read_packet :
    (xs : List ℕ) (p : Packet) (rest : List ℕ)
    → read_packet xs ≡ packet p rest
    → length rest + 24 ≤ length xs
unfolding read_packet
length-read_packet xs p rest h =
    let (cmd, ys1, l1, h1) = get_then-packet xs _ p rest h in
    let (arg0, ys2, l2, h2) = get_then-packet ys1 _ p rest h1 in
    let (arg1, ys3, l3, h3) = get_then-packet ys2 _ p rest h2 in
    let (size, ys4, l4, h4) = get_then-packet ys3 _ p rest h3 in
    let (crc, ys5, l5, h5) = get_then-packet ys4 _ p rest h4 in
    let (magic, ys6, l6, h6) = get_then-packet ys5 _ p rest h5 in
    omega
      (arith, l1, l2, l3, l4, l5, l6, length-read_payload cmd arg0 arg1 size magic ys6 p rest h6)

Read-cases :
    (r : Read)
    → (r ≡ bad_magic) ⊎ (r ≡ incomplete) ⊎ ((p : Packet) × (rest : List ℕ) × (r ≡ packet p rest))
Read-cases bad_magic = inl refl
Read-cases incomplete = inr (inl refl)
Read-cases (packet p rest) = inr (inr (p, rest, refl))

-- On any bytes at all, more rounds than there are bytes are enough for the loop to end: it has
-- dispatched some packets, and has dropped the connection or was disconnected.
pub run_ends :
    (fuel : ℕ) (xs : List ℕ)
    → length xs < fuel
    → (ps : List Packet) × (stop : Stop) × (run fuel xs ≡ some (ps, stop))
unfolding run
run_ends zero xs h = absurd (omega (arith, h))
run_ends (suc fuel) xs h = elim (Read-cases (read_packet xs)) [
  | inl e ↦ ([], dropped, rw (e, run) refl)
  | inr (inl e) ↦ ([], disconnected, rw (e, run) refl)
  | inr (inr (p, rest, e)) ↦
      let (ps, stop, same) = run_ends fuel rest (omega (arith, length-read_packet xs p rest e)) in
      (p ∷ ps, stop, rw (e, run) (rw same refl))
]
