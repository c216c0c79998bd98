-- ===== src/Adb/Reads.antt =====
-- What the reads of the file service give (`Stream.read_exact` of env/ecu-gateway/adbd.py).
use mathlib.Core.List.{append_assoc, append-nil}
use vehicle_bench_candidate.Base.{
  ℕ, zero, suc, ◌≤◌, ◌<◌, ◌≡◌, ◌∙◌, ◌⊎◌, inl, inr, refl, sym, ap, Bool-cases, Option, none, some,
  List, [], ◌∷◌, ◌++◌, leb, arith, take, drop, length, length-append,
}
use vehicle_bench_candidate.Adb.{put_u32, get_u32}
use vehicle_bench_candidate.Adb.Framing.{take-length, drop-length, get-put_u32}
use vehicle_bench_candidate.Adb.Sync.{
  Session, Service, done, ◌>>=◌, then_do, pure, read_exact, read_u32, number_of, frame, got, ended,
  read_inbox,
}

abbrev pub join : List (List ℕ) → List ℕ
join [] = []
join (c ∷ cs) = c ++ join cs

-- The client's packets in the inbox, and the end of the stream.
abbrev pub inbox_of : List (List ℕ) → List (Option (List ℕ))
inbox_of [] = none ∷ []
inbox_of (c ∷ cs) = some c ∷ inbox_of cs

take-append : (n : ℕ) (xs ys : List ℕ) → n ≤ length xs → take n (xs ++ ys) ≡ take n xs
take-append zero xs ys h = refl
take-append (suc n) [] ys h = absurd (omega arith)
take-append (suc n) (x ∷ xs) ys h = ap (λ t. x ∷ t) (take-append n xs ys (omega arith))

drop-append : (n : ℕ) (xs ys : List ℕ) → n ≤ length xs → drop n (xs ++ ys) ≡ drop n xs ++ ys
drop-append zero xs ys h = refl
drop-append (suc n) [] ys h = absurd (omega arith)
drop-append (suc n) (x ∷ xs) ys h = drop-append n xs ys (omega arith)

-- However the client's bytes are cut into packets, a read of `n` bytes over the buffer and the
-- inbox is a read of one text, the buffer with all the packets behind it: it gives the first `n`
-- bytes and leaves all the others, in order, if there are as many; if there are fewer, it is the
-- end of the stream.
pub read_inbox-chunks :
    (n : ℕ) (buf : List ℕ) (chunks : List (List ℕ))
    → let text = buf ++ join chunks in
      ((n ≤ length text)
        × (buf' : List ℕ) × (chunks' : List (List ℕ)) × (read_inbox n buf (inbox_of chunks)
            ≡ got (take n text) buf' (inbox_of chunks'))
        × (buf' ++ join chunks' ≡ drop n text))
      ⊎ ((length text < n) × (read_inbox n buf (inbox_of chunks) ≡ ended))
unfolding read_inbox
read_inbox-chunks n buf [] = elim (Bool-cases (leb n (length buf))) [
  | inl e ↦
      rw (append-nil buf) (inl (ground arith, drop n buf, [], rw e refl, append-nil (drop n buf)))
  | inr e ↦ rw (append-nil buf) (inr (ground arith, rw e refl))
]
read_inbox-chunks n buf (c ∷ cs) = elim (Bool-cases (leb n (length buf))) [
  | inl e ↦
      let fits : n ≤ length buf = ground arith in
      inl (
        omega (arith, length-append buf (c ++ join cs)),
        drop n buf,
        c ∷ cs,
        rw (e, take-append n buf (c ++ join cs) fits) refl,
        sym (drop-append n buf (c ++ join cs) fits),
      )
  | inr e ↦ rw (e, ← append_assoc buf c (join cs)) (read_inbox-chunks n (buf ++ c) cs)
]

module _ {S : Type 0} where
  abbrev pub with_input : List ℕ → Session S → Session S
  with_input xs s = record s { input = xs }

  pub read_exact-append :
      (xs rest : List ℕ) (s : Session S)
      → read_exact (length xs) (with_input (xs ++ rest) s) ≡ (done xs, with_input rest s)
  unfolding read_exact
  read_exact-append xs rest s =
      ground (arith, take-length xs rest, drop-length xs rest, length-append xs rest)

  pub read_u32-put :
      (n : ℕ) (rest : List ℕ) (s : Session S)
      → n < 4294967296
      → read_u32 (with_input (put_u32 n ++ rest) s) ≡ (done n, with_input rest s)
  unfolding read_u32 put_u32
  read_u32-put n rest s h =
      ap (then_do (λ bytes. pure (number_of (get_u32 bytes))))
        (read_exact-append (put_u32 n) rest s)
      ∙ ap (λ o. pure (number_of o) (with_input rest s)) (get-put_u32 n [] h)

  -- An id and a number are read back, whatever goes on with them.
  pub read_header :
      {A : Type 0} (id : List ℕ) (n : ℕ) (rest : List ℕ) (f : List ℕ → ℕ → Service S A)
      (s : Session S)
      → length id ≡ 4
      → n < 4294967296
      → (read_exact 4 >>= λ id. read_u32 >>= λ n. f id n) (with_input (id ++ (put_u32 n ++ rest)) s)
        ≡ f id n (with_input rest s)
  read_header id n rest f s four small =
      ap
        (λ k.
          (read_exact k >>= λ id. read_u32 >>= λ n. f id n)
            (with_input (id ++ (put_u32 n ++ rest)) s))
        (sym four)
      ∙ ap (then_do (λ id. read_u32 >>= λ n. f id n)) (read_exact-append id (put_u32 n ++ rest) s)
      ∙ ap (then_do (λ n. f id n)) (read_u32-put n rest s small)

  -- The same for an id, a length and as many bytes.
  pub read_frame :
      {A : Type 0} (id bytes rest : List ℕ) (f : List ℕ → ℕ → Service S A) (s : Session S)
      → length id ≡ 4
      → length bytes < 4294967296
      → (read_exact 4 >>= λ id. read_u32 >>= λ n. f id n) (with_input (frame id bytes ++ rest) s)
        ≡ f id (length bytes) (with_input (bytes ++ rest) s)
  read_frame id bytes rest f s four small =
      let header = put_u32 (length bytes) in
      ap (λ t. (read_exact 4 >>= λ id. read_u32 >>= λ n. f id n) (with_input t s))
        (append_assoc id (header ++ bytes) rest
          ∙ ap (λ t. id ++ t) (append_assoc header bytes rest))
      ∙ read_header id (length bytes) (bytes ++ rest) f s four small
