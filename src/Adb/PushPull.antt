-- ===== src/Adb/PushPull.antt =====
-- A push and a pull of one file, end to end (`serve_sync` of env/ecu-gateway/adbd.py).
use vehicle_bench_candidate.Base.{
  ℕ, zero, suc, ◌≤◌, ◌<◌, ◌≡◌, ◌∙◌, inl, refl, ap, Bool, false, none, some, List, [], ◌∷◌, ◌++◌,
  if◌then◌else◌, arith, length,
}
use vehicle_bench_candidate.Adb.Sync.{
  Os, Session, Ended, done, then_do, pure, frame, send_id, recv_id, quit_id,
}
use vehicle_bench_candidate.Adb.Files.{has_comma, pieces, read_size, directory_of, serve_sync}
use vehicle_bench_candidate.Adb.Reads.{join}
use vehicle_bench_candidate.Adb.Transfer.{
  file_bytes, AreSmall, KeepsFile, okay, file_answer, with_mode, appended, read-appended,
  read-with_mode, join-pieces, handle_send-file, handle_recv-file, serve_sync-request,
}

-- A client pushes a file in any chunks to a path that can be opened, with any mode that has no
-- comma, then pulls it and quits: the session ends in good order; it answers the push by OKAY and
-- the pull by the content of the file, which is the chunks one after the other, in DATA frames of
-- at most 64 KiB, and DONE. The operating system must keep files, and lengths must fit a `u32`.
pub push_pull :
    {S : Type 0} (os : Os S) (path mode : List ℕ) (chunks : List (List ℕ)) (time fuel : ℕ)
    (s : Session S) {d1 d2 : S}
    → KeepsFile os path
    → has_comma mode ≡ false
    → AreSmall ((path ++ b',' ∷ mode) ∷ path ∷ chunks)
    → time < 4294967296
    → os.make_dirs (directory_of os path) s.disk ≡ some d1
    → os.open_write path d1 ≡ inl d2
    → 3 ≤ fuel
    → let asked = frame recv_id path ++ (frame quit_id [] ++ []) in
      let sent = frame send_id (path ++ b',' ∷ mode) ++ file_bytes chunks time asked in
      let content = join chunks in
      (disk : S) × (serve_sync os fuel (record s { input = sent }) ≡ (
        done tt,
        record {
          input = [];
          output = (s.output ++ okay os ∷ []) ++ file_answer os content;
          disk = disk;
        },
      ))
      × (os.read_file path disk ≡ (content, none))
      × (join (pieces (length content) read_size content) ≡ content)
push_pull {S} os path mode chunks time (suc (suc (suc fuel))) s {d1} {d2} keeps plain small now dirs
      opens enough =
    (disk, session, reads, join-pieces _ read_size _ (omega arith) (omega arith))
  where
    disk : S
    disk = with_mode os path (os.int_of mode) (appended os path chunks d2)

    asked : List ℕ
    asked = frame recv_id path ++ (frame quit_id [] ++ [])

    pushed : Session S
    pushed = record { input = []; output = s.output ++ okay os ∷ []; disk = disk }

    answered : Session S
    answered = record pushed { output = pushed.output ++ file_answer os (join chunks) }

    next : ℕ → Ended Bool × Session S → Ended (Unit {0}) × Session S
    next n = then_do (λ more. if more then serve_sync os n else pure tt)

    reads : os.read_file path disk ≡ (join chunks, none)
    reads =
        read-with_mode os path keeps (os.int_of mode) _
        ∙ read-appended os path keeps chunks [] d2 (keeps.created d1 d2 opens)

    session :
        serve_sync os
          (suc (suc (suc fuel)))
          (record s { input = frame send_id (path ++ b',' ∷ mode) ++ file_bytes chunks time asked })
        ≡ (done tt, answered)
    session =
        serve_sync-request os (suc (suc fuel)) send_id (path ++ b',' ∷ mode)
          (file_bytes chunks time asked) s refl small.0
        ∙ ap (next (suc (suc fuel)))
            (handle_send-file os path mode chunks time asked s plain small.1.1 now dirs opens)
        ∙ serve_sync-request os (suc fuel) recv_id path (frame quit_id [] ++ []) pushed refl
            small.1.0
        ∙ ap (next (suc fuel)) (
            handle_recv-file os path (join chunks)
              (record pushed { input = frame quit_id [] ++ [] }) reads)
        ∙ serve_sync-request os fuel quit_id [] [] answered refl (omega arith)
push_pull os path mode chunks time zero s keeps plain small now dirs opens enough =
    absurd (omega arith)
push_pull os path mode chunks time (suc zero) s keeps plain small now dirs opens enough =
    absurd (omega arith)
push_pull os path mode chunks time (suc (suc zero)) s keeps plain small now dirs opens enough =
    absurd (omega arith)
