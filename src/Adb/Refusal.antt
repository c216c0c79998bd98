-- ===== src/Adb/Refusal.antt =====
-- A push that the operating system refuses (`serve_sync` of env/ecu-gateway/adbd.py).
use vehicle_bench_candidate.Base.{
  ℕ, zero, suc, ◌<◌, ◌≡◌, ◌∙◌, inr, refl, ap, false, none, some, List, [], ◌∷◌, ◌++◌, arith, length,
  if◌then◌else◌,
}
use vehicle_bench_candidate.Adb.Sync.{
  Os, Session, done, crashed, ◌>>◌, then_do, pure, write, frame, data_id, done_id, send_id, fail_id,
}
use vehicle_bench_candidate.Adb.Files.{
  has_comma, drain, opened, made, directory_of, handle_send, serve_sync,
}
use vehicle_bench_candidate.Adb.Reads.{with_input, read_exact-append, read_header, read_frame}
use vehicle_bench_candidate.Adb.Transfer.{
  file_bytes, AreSmall, rpartition_comma-append, length-file_bytes, serve_sync-request,
}

-- A push that is not wanted is read to its end.
module _ {S : Type 0} (os : Os S) where
  drain-file :
      (chunks : List (List ℕ)) (fuel time : ℕ) (rest : List ℕ) (s : Session S)
      → length chunks < fuel
      → AreSmall chunks
      → time < 4294967296
      → drain os fuel (with_input (file_bytes chunks time rest) s) ≡ (done tt, with_input rest s)
  unfolding drain
  drain-file chunks zero time rest s lt small now = absurd (omega arith)
  drain-file [] (suc fuel) time rest s lt small now = read_header done_id time rest _ s refl now
  drain-file (c ∷ cs) (suc fuel) time rest s lt small now =
      read_frame data_id c (file_bytes cs time rest) _ s refl small.0
      ∙ ap (then_do (λ bytes. drain os fuel)) (read_exact-append c (file_bytes cs time rest) s)
      ∙ drain-file cs fuel time rest s (omega arith) small.1 now

-- A push to a path that cannot be opened, with any chunks and anything behind it: all of the push
-- is read, the answer is FAIL with the text of the error, nothing is written to a file, and the
-- session ends in good order, with what stands behind the push unread.
pub push_refused :
    {S : Type 0} (os : Os S) (path mode rest message : List ℕ) (chunks : List (List ℕ))
    (time fuel : ℕ) (s : Session S) {d : S}
    → has_comma mode ≡ false
    → AreSmall ((path ++ b',' ∷ mode) ∷ chunks)
    → time < 4294967296
    → os.make_dirs (directory_of os path) s.disk ≡ some d
    → os.open_write path d ≡ inr message
    → let sent = frame send_id (path ++ b',' ∷ mode) ++ file_bytes chunks time rest in
      serve_sync os (suc fuel) (record s { input = sent }) ≡ (
        done tt,
        record { input = rest; output = s.output ++ frame fail_id message ∷ []; disk = d },
      )
unfolding handle_send
push_refused {S} os path mode rest message chunks time fuel s {d} plain small now dirs refused =
    serve_sync-request os fuel send_id (path ++ b',' ∷ mode) (file_bytes chunks time rest) s refl
      small.0
    ∙ ap (then_do (λ more. if more then serve_sync os fuel else pure tt)) handled
  where
    start : Session S
    start = with_input (file_bytes chunks time rest) s

    handled : handle_send os (path ++ b',' ∷ mode) start ≡ (
      done false,
      record { input = rest; output = s.output ++ frame fail_id message ∷ []; disk = d },
    )
    handled =
        ap (λ parts. made os parts.0 parts.1 (os.make_dirs (directory_of os parts.0) s.disk) start)
          (rpartition_comma-append path mode plain)
        ∙ ap (λ o. made os path mode o start) dirs
        ∙ ap (λ o. opened os path mode o (record start { disk = d })) refused
        ∙ ap (then_do (λ _. write (frame fail_id message) >> pure false)) (
            drain-file os chunks (suc (length (file_bytes chunks time rest))) time rest
              (record s { disk = d }) (omega (arith, length-file_bytes os chunks time rest)) small.1
              now)

-- A push to a path whose directory cannot be made ends the session by an exception: nothing is
-- answered, not even FAIL, and nothing of the file is read.
pub push_crashes :
    {S : Type 0} (os : Os S) (path mode rest : List ℕ) (fuel : ℕ) (s : Session S)
    → has_comma mode ≡ false
    → length (path ++ b',' ∷ mode) < 4294967296
    → os.make_dirs (directory_of os path) s.disk ≡ none
    → serve_sync os (suc fuel) (record s { input = frame send_id (path ++ b',' ∷ mode) ++ rest })
      ≡ (crashed, record s { input = rest })
unfolding handle_send
push_crashes {S} os path mode rest fuel s plain small dirs =
    serve_sync-request os fuel send_id (path ++ b',' ∷ mode) rest s refl small
    ∙ ap (then_do (λ more. if more then serve_sync os fuel else pure tt)) handled
  where
    start : Session S
    start = with_input rest s

    handled : handle_send os (path ++ b',' ∷ mode) start ≡ (crashed, start)
    handled =
        ap (λ parts. made os parts.0 parts.1 (os.make_dirs (directory_of os parts.0) s.disk) start)
          (rpartition_comma-append path mode plain)
        ∙ ap (λ o. made os path mode o start) dirs
