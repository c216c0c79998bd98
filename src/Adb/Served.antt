-- ===== src/Adb/Served.antt =====
-- How long requests and sessions of the file service run (`serve_sync` of env/ecu-gateway/adbd.py).
use vehicle_bench_candidate.Base.{
  ℕ, zero, suc, ◌≤◌, ◌<◌, ◌≢◌, inl, inr, Bool, Option, none, some, ◌⊎◌, List, [], ◌∷◌, arith,
  length, if_intro,
}
use vehicle_bench_candidate.Base.Int.{ℤ}
use vehicle_bench_candidate.Adb.Sync.{
  Os, Stat, Session, Service, Ended, done, eof, crashed, stuck, read_exact, same_bytes, quit_id,
  stat_id, list_id, recv_id, send_id,
}
use vehicle_bench_candidate.Adb.Files.{
  pack_stat, drain, receive_file, opened, made, set_mode, write_stat, write_entries, write_names,
  write_pieces, pieces, read_size, rpartition_comma, directory_of, write_entry, write_packed,
  write_status, finish_file, handle_stat, handle_list, handle_recv, handle_send, handle_request,
  serve_sync,
}
use vehicle_bench_candidate.Adb.Bounded.{
  Safe, then_do-Safe, Safe-le, read_exact-Safe, header-Safe, drain-Safe, receive_file-Safe,
}

module _ {S : Type 0} (os : Os S) where
  write_packed-Safe :
      (b : ℕ) (name : List ℕ) (packed : Option (List ℕ)) (rest : Service S (Unit {0}))
      (s : Session S)
      → length s.input ≤ b
      → ((s : Session S) → length s.input ≤ b → Safe b 0 (rest s))
      → Safe b 0 (write_packed os name packed rest s)
  write_packed-Safe b name none rest s h keep = tt
  write_packed-Safe b name (some bytes) rest s h keep = keep _ h

  write_entry-Safe :
      (b : ℕ) (name : List ℕ) (st : Option Stat) (rest : Service S (Unit {0})) (s : Session S)
      → length s.input ≤ b
      → ((s : Session S) → length s.input ≤ b → Safe b 0 (rest s))
      → Safe b 0 (write_entry os name st rest s)
  write_entry-Safe b name none rest s h keep = omega (arith, h)
  write_entry-Safe b name (some st) rest s h keep =
      write_packed-Safe b name (pack_stat st) rest s h keep

  write_entries-Safe :
      (b : ℕ) (path : List ℕ) (names : List (List ℕ)) (s : Session S)
      → length s.input ≤ b
      → Safe b 0 (write_entries os path names s)
  write_entries-Safe b path [] s h = omega arith
  write_entries-Safe b path (name ∷ names) s h =
      write_entry-Safe b name (os.lstat path name s.disk) _ s h
        (λ s' h'. write_entries-Safe b path names s' h')

  write_names-Safe :
      (b : ℕ) (path : List ℕ) (names : Option (List (List ℕ))) (s : Session S)
      → length s.input ≤ b
      → Safe b 0 (write_names os path names s)
  write_names-Safe b path none s h = omega arith
  write_names-Safe b path (some names) s h = write_entries-Safe b path names s h

  write_stat-Safe :
      (b : ℕ) (st : Option Stat) (s : Session S)
      → length s.input ≤ b
      → Safe b 0 (write_stat os st s)
  write_stat-Safe b none s h = omega arith
  write_stat-Safe b (some st) s h = packed (pack_stat st)
    where
      packed : (bytes : Option (List ℕ)) → Safe b 0 (write_status os bytes s)
      packed none = tt
      packed (some bytes) = omega arith

  write_pieces-Safe :
      (b : ℕ) (chunks : List (List ℕ)) (s : Session S)
      → length s.input ≤ b
      → Safe b 0 (write_pieces os chunks s)
  write_pieces-Safe b [] s h = omega arith
  write_pieces-Safe b (chunk ∷ chunks) s h = write_pieces-Safe b chunks _ h

  finish_file-Safe :
      (b : ℕ) (error : Option (List ℕ)) (s : Session S)
      → length s.input ≤ b
      → Safe b 0 (finish_file os error s)
  finish_file-Safe b none s h = omega arith
  finish_file-Safe b (some message) s h = omega arith

  set_mode-Safe :
      (b : ℕ) (path : List ℕ) (mode : Option ℤ) (s : Session S)
      → length s.input ≤ b
      → Safe b 0 (set_mode os path mode s)
  set_mode-Safe b path none s h = omega arith
  set_mode-Safe b path (some mode) s h = omega arith

  opened-Safe :
      (b : ℕ) (path mode : List ℕ) (file : S ⊎ List ℕ) (s : Session S)
      → length s.input ≤ b
      → Safe b 0 (opened os path mode file s)
  opened-Safe b path mode (inl disk) s h =
      let s0 = record s { disk = disk } in
      then_do-Safe b 0 0 _ (receive_file os (suc (length s.input)) path s0)
        (Safe-le (length s.input) 0 b 0 _ (omega arith)
          (receive_file-Safe os (suc (length s.input)) path s0 (omega arith)))
        (λ _ s1 h1.
          then_do-Safe b 0 0 _ (set_mode os path (os.int_of mode) s1)
            (set_mode-Safe b path (os.int_of mode) s1 (omega (arith, h1))) (λ _ s2 h2. h2))
  opened-Safe b path mode (inr message) s h =
      then_do-Safe b 0 0 _ (drain os (suc (length s.input)) s)
        (Safe-le (length s.input) 0 b 0 _ (omega arith)
          (drain-Safe os (suc (length s.input)) s (omega arith)))
        (λ _ s1 h1. h1)

  made-Safe :
      (b : ℕ) (path mode : List ℕ) (disk : Option S) (s : Session S)
      → length s.input ≤ b
      → Safe b 0 (made os path mode disk s)
  made-Safe b path mode none s h = tt
  made-Safe b path mode (some disk) s h = opened-Safe b path mode (os.open_write path disk) _ h

  handle_recv-Safe :
      (b : ℕ) (path : List ℕ) (s : Session S)
      → length s.input ≤ b
      → Safe b 0 (handle_recv os path s)
  unfolding handle_recv
  handle_recv-Safe b path s h =
      let (content, error) = os.read_file path s.disk in
      let chunks = pieces (length content) read_size content in
      then_do-Safe b 0 0 _ (write_pieces os chunks s) (write_pieces-Safe b chunks s h)
        (λ _ s1 h1. finish_file-Safe b error s1 (omega (arith, h1)))

  handle_list-Safe :
      (b : ℕ) (path : List ℕ) (s : Session S)
      → length s.input ≤ b
      → Safe b 0 (handle_list os path s)
  unfolding handle_list
  handle_list-Safe b path s h =
      let names = os.sorted_names path s.disk in
      then_do-Safe b 0 0 _ (write_names os path names s) (write_names-Safe b path names s h)
        (λ _ s1 h1. h1)

  -- A request runs to its end, whatever the disk does.
  handle_request-Safe :
      (b : ℕ) (id path : List ℕ) (s : Session S)
      → length s.input ≤ b
      → Safe b 0 (handle_request os id path s)
  unfolding handle_stat handle_send
  handle_request-Safe b id path s h =
      let P = λ (m : Service S Bool). Safe b 0 (m s) in
      if_intro P (same_bytes id quit_id) _ _ (λ _. omega (arith, h))
        (λ _.
          if_intro P (same_bytes id stat_id) _ _
            (λ _.
              then_do-Safe b 0 0 _ (write_stat os (os.stat path s.disk) s)
                (write_stat-Safe b (os.stat path s.disk) s h) (λ _ s1 h1. h1))
            (λ _.
              if_intro P (same_bytes id list_id) _ _
                (λ _.
                  then_do-Safe b 0 0 _ (handle_list os path s) (handle_list-Safe b path s h)
                    (λ _ s1 h1. h1))
                (λ _.
                  if_intro P (same_bytes id recv_id) _ _ (λ _. handle_recv-Safe b path s h)
                    (λ _.
                      if_intro P (same_bytes id send_id) _ _
                        (λ _.
                          made-Safe b _ _
                            (os.make_dirs (directory_of os (rpartition_comma path).0) s.disk) s h)
                        (λ _. omega (arith, h))))))

  session-Safe :
      (fuel : ℕ) (s : Session S)
      → length s.input < fuel
      → Safe (length s.input) 0 (serve_sync os fuel s)
  unfolding serve_sync
  session-Safe zero s h = absurd (omega arith)
  session-Safe (suc fuel) s h =
      let b = length s.input in
      header-Safe b 0 _ s (omega arith) (λ id n s1 h1.
        then_do-Safe b 8 0 _ (read_exact n s1)
          (Safe-le _ n b 8 _ (omega (arith, h1)) (read_exact-Safe n s1))
          (λ path s2 h2.
            then_do-Safe b 8 0 _ (handle_request os id path s2)
              (Safe-le (length s2.input) 0 b 8 _ (omega (arith, h2))
                (handle_request-Safe (length s2.input) id path s2 (omega arith)))
              (λ more s3 h3.
                if_intro (λ (m : Service S (Unit {0})). Safe b 0 (m s3)) more _ _
                  (λ _.
                    Safe-le _ 0 b 0 _ (omega (arith, h3))
                      (session-Safe fuel s3 (omega (arith, h, h3))))
                  (λ _. omega (arith, h3)))))

Safe-ends : {S A : Type 0} (b k : ℕ) (r : Ended A × Session S) → Safe b k r → r.0 ≢ stuck
Safe-ends b k (stuck, s) safe e = absurd safe
Safe-ends b k (done a, s) safe e = absurd (cc e)
Safe-ends b k (eof, s) safe e = absurd (cc e)
Safe-ends b k (crashed, s) safe e = absurd (cc e)

-- On whatever bytes a client sends, and whatever the disk does, a session of the file service ends,
-- within one request more than there are bytes: by QUIT or a refusal, at the end of the stream, or by an
-- exception.
pub sync_ends :
    {S : Type 0} (os : Os S) (fuel : ℕ) (s : Session S)
    → length s.input < fuel
    → (serve_sync os fuel s).0 ≢ stuck
sync_ends os fuel s h = Safe-ends _ 0 (serve_sync os fuel s) (session-Safe os fuel s h)
