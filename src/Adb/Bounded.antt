-- ===== src/Adb/Bounded.antt =====
-- How far the loops of the file service read (`serve_sync` of env/ecu-gateway/adbd.py).
use vehicle_bench_candidate.Base.{
  ℕ, zero, suc, ◌+◌, ◌≤◌, ◌<◌, List, arith, length, length-drop, if_intro,
}
use vehicle_bench_candidate.Adb.Sync.{
  Os, Session, Service, Ended, done, eof, crashed, stuck, ◌>>=◌, then_do, read_exact, read_u32,
  same_bytes, data_id, done_id,
}
use vehicle_bench_candidate.Adb.Files.{drain, receive_file}

-- A part of a session that does not run out of fuel, and that has read `k` bytes of `b` at least if
-- it gets to its end.
abbrev pub Safe : {S A : Type 0} → ℕ → ℕ → Ended A × Session S → Type 0
Safe b k (done a, s) = length s.input + k ≤ b
Safe b k (eof, s) = Unit
Safe b k (crashed, s) = Unit
Safe b k (stuck, s) = ⊥

module _ {S A : Type 0} where
  pub then_do-Safe :
      {B : Type 0} (b k j : ℕ) (f : A → Service S B) (r : Ended A × Session S)
      → Safe b k r
      → ((a : A) (s : Session S) → length s.input + k ≤ b → Safe b j (f a s))
      → Safe b j (then_do f r)
  then_do-Safe b k j f (done a, s) h keep = keep a s h
  then_do-Safe b k j f (eof, s) h keep = tt
  then_do-Safe b k j f (crashed, s) h keep = tt
  then_do-Safe b k j f (stuck, s) h keep = absurd h

  pub Safe-le :
      (b k b' k' : ℕ) (r : Ended A × Session S) → b + k' ≤ b' + k → Safe b k r → Safe b' k' r
  Safe-le b k b' k' (done a, s) h safe = omega arith
  Safe-le b k b' k' (eof, s) h safe = tt
  Safe-le b k b' k' (crashed, s) h safe = tt
  Safe-le b k b' k' (stuck, s) h safe = absurd safe

module _ {S : Type 0} where
  pub read_exact-Safe : (n : ℕ) (s : Session S) → Safe (length s.input) n (read_exact n s)
  unfolding read_exact
  read_exact-Safe n s = ground (arith, length-drop n s.input)

  read_u32-Safe : (s : Session S) → Safe (length s.input) 4 (read_u32 s)
  unfolding read_u32
  read_u32-Safe s = then_do-Safe _ 4 4 _ (read_exact 4 s) (read_exact-Safe 4 s) (λ a s' h. h)

  -- Both loops, and each request, begin by reading an id and a number.
  pub header-Safe :
      {A : Type 0} (b j : ℕ) (f : List ℕ → ℕ → Service S A) (s : Session S)
      → length s.input ≤ b
      → ((id : List ℕ) (n : ℕ) (s : Session S) → length s.input + 8 ≤ b → Safe b j (f id n s))
      → Safe b j ((read_exact 4 >>= λ id. read_u32 >>= λ n. f id n) s)
  header-Safe b j f s h keep =
      then_do-Safe b 4 j _ (read_exact 4 s) (Safe-le _ 4 b 4 _ (omega arith) (read_exact-Safe 4 s))
        (λ id s1 h1.
          then_do-Safe b 8 j (f id) (read_u32 s1)
            (Safe-le _ 4 b 8 _ (omega (arith, h1)) (read_u32-Safe s1)) (λ n s2 h2. keep id n s2 h2))

module _ {S : Type 0} (os : Os S) where
  pub drain-Safe :
      (fuel : ℕ) (s : Session S) → length s.input < fuel → Safe (length s.input) 0 (drain os fuel s)
  unfolding drain
  drain-Safe zero s h = absurd (omega arith)
  drain-Safe (suc fuel) s h = header-Safe (length s.input) 0 _ s (omega arith) (λ id n s1 h1.
      if_intro (λ (m : Service S (Unit {0})). Safe (length s.input) 0 (m s1))
        (same_bytes id done_id) _ _ (λ _. omega (arith, h1))
        (λ _.
          then_do-Safe (length s.input) 8 0 _ (read_exact n s1)
            (Safe-le _ n (length s.input) 8 _ (omega (arith, h1)) (read_exact-Safe n s1))
            (λ bytes s2 h2.
              Safe-le _ 0 (length s.input) 0 _ (omega (arith, h2))
                (drain-Safe fuel s2 (omega (arith, h, h2))))))

  pub receive_file-Safe :
      (fuel : ℕ) (path : List ℕ) (s : Session S)
      → length s.input < fuel
      → Safe (length s.input) 0 (receive_file os fuel path s)
  unfolding receive_file
  receive_file-Safe zero path s h = absurd (omega arith)
  receive_file-Safe (suc fuel) path s h =
      let b = length s.input in
      header-Safe b 0 _ s (omega arith) (λ id n s1 h1.
        let P = λ (m : Service S (Unit {0})). Safe b 0 (m s1) in
        if_intro P (same_bytes id done_id) _ _ (λ _. omega (arith, h1))
          (λ _.
            if_intro P (same_bytes id data_id) _ _
              (λ _.
                then_do-Safe b 8 0 _ (read_exact n s1)
                  (Safe-le _ n b 8 _ (omega (arith, h1)) (read_exact-Safe n s1))
                  (λ bytes s2 h2. Safe-le _ 0 b 0 _ (omega (arith, h2)) (
                    receive_file-Safe fuel path (record s2 { disk = os.append path bytes s2.disk })
                      (omega (arith, h, h2)))))
              (λ _. omega (arith, h1))))
