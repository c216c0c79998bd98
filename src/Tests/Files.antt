-- ===== src/Tests/Files.antt =====
-- The theorems on the file service (`serve_sync` of env/ecu-gateway/adbd.py), on disks with one file.
use vehicle_bench_candidate.Base.{
  ℕ, ◌≡◌, ◌≢◌, inl, inr, refl, ap, none, some, List, [], ◌∷◌, ◌++◌, arith, length,
}
use vehicle_bench_candidate.Base.Int.{pos}
use vehicle_bench_candidate.Adb.Sync.{
  Os, Session, done, crashed, stuck, frame, recv_id, send_id, quit_id, fail_id,
}
use vehicle_bench_candidate.Adb.Files.{pieces, read_size, serve_sync}
use vehicle_bench_candidate.Adb.Reads.{join}
use vehicle_bench_candidate.Adb.Transfer.{file_bytes, KeepsFile, okay, file_answer}
use vehicle_bench_candidate.Adb.PushPull.{push_pull}
use vehicle_bench_candidate.Adb.Refusal.{push_refused, push_crashes}
use vehicle_bench_candidate.Adb.Served.{sync_ends}

-- A disk that is one file, whatever the path.
abbrev one_file : Os (List ℕ)
one_file = record {
  stat = λ path d. some (record { mode = 33188; size = length d; mtime = pos 0 });
  sorted_names = λ path d. none;
  lstat = λ path name d. none;
  read_file = λ path d. (d, none);
  make_dirs = λ path d. some d;
  open_write = λ path d. inl [];
  append = λ path bytes d. d ++ bytes;
  chmod = λ path m d. d;
  parent = λ path. [];
  int_of = λ mode. some (pos 420);
}

abbrev message : List ℕ
message = b'n' ∷ b'o' ∷ []

-- Disks that cannot be written to, and where no directory can be made.
abbrev read_only : Os (List ℕ)
read_only = record one_file { open_write = λ path d. inr message }

abbrev no_directory : Os (List ℕ)
no_directory = record one_file { make_dirs = λ path d. none }

abbrev path : List ℕ
path = b'/' ∷ b'f' ∷ []

abbrev mode : List ℕ
mode = b'4' ∷ b'2' ∷ b'0' ∷ []

abbrev chunks : List (List ℕ)
chunks = (1 ∷ 2 ∷ []) ∷ (3 ∷ []) ∷ []

abbrev fresh : Session (List ℕ)
fresh = record { input = []; output = []; disk = [] }

one_file-KeepsFile : KeepsFile one_file path
one_file-KeepsFile = record {
  created = λ d d' h. ground (arith, h);
  extended = λ content bytes d h. ap (λ r. (r.0 ++ bytes, r.1)) h;
  unchanged = λ m d. refl;
}

push_pull_example :
    (disk : List ℕ) × (serve_sync one_file 3 (record fresh {
      input =
          frame send_id (path ++ b',' ∷ mode)
          ++ file_bytes chunks 5 (frame recv_id path ++ (frame quit_id [] ++ []));
    })
      ≡ (
        done tt,
        record {
          input = [];
          output = ([] ++ okay one_file ∷ []) ++ file_answer one_file (1 ∷ 2 ∷ 3 ∷ []);
          disk = disk;
        },
      ))
    × (one_file.read_file path disk ≡ (1 ∷ 2 ∷ 3 ∷ [], none))
    × (join (pieces 3 read_size (1 ∷ 2 ∷ 3 ∷ [])) ≡ 1 ∷ 2 ∷ 3 ∷ [])
push_pull_example =
    push_pull one_file path mode chunks 5 3 fresh one_file-KeepsFile refl
      (omega arith, (omega arith, (omega arith, (omega arith, tt)))) (omega arith) refl refl
      (omega arith)

push_refused_example :
    serve_sync read_only 1
      (record fresh { input = frame send_id (path ++ b',' ∷ mode) ++ file_bytes chunks 5 (9 ∷ []) })
    ≡ (done tt, record { input = 9 ∷ []; output = [] ++ frame fail_id message ∷ []; disk = [] })
push_refused_example =
    push_refused read_only path mode (9 ∷ []) message chunks 5 0 fresh refl
      (omega arith, (omega arith, (omega arith, tt))) (omega arith) refl refl

push_crashes_example :
    serve_sync no_directory 1
      (record fresh { input = frame send_id (path ++ b',' ∷ mode) ++ 9 ∷ [] })
    ≡ (crashed, record fresh { input = 9 ∷ [] })
push_crashes_example = push_crashes no_directory path mode (9 ∷ []) 0 fresh refl (omega arith) refl

sync_ends_example : (serve_sync one_file 4 (record fresh { input = 1 ∷ 2 ∷ 3 ∷ [] })).0 ≢ stuck
sync_ends_example = sync_ends one_file 4 (record fresh { input = 1 ∷ 2 ∷ 3 ∷ [] }) (omega arith)
