-- ===== src/Adb/Transfer.antt =====
-- A file that is pushed and pulled again (`serve_sync` of env/ecu-gateway/adbd.py).
use mathlib.Core.List.{append_assoc, append-nil}
use vehicle_bench_candidate.Base.{
  ℕ, zero, suc, ◌≤◌, ◌<◌, ◌≡◌, ◌∙◌, inl, refl, sym, ap, true, false, Option, none, some, List, [],
  ◌∷◌, ◌++◌, map, if◌then◌else◌, All, arith, take, drop, length, length-append, take-append-drop,
  length-drop,
}
use vehicle_bench_candidate.Base.Int.{ℤ}
use vehicle_bench_candidate.Adb.{put_u32}
use vehicle_bench_candidate.Adb.Sync.{
  Os, Session, done, ◌>>=◌, ◌>>◌, then_do, pure, write, on_disk, frame, data_id, done_id, okay_id,
}
use vehicle_bench_candidate.Adb.Files.{
  rpartition_comma, has_comma, permissions, pieces, read_size, receive_file, opened, made, set_mode,
  write_pieces, finish_file, directory_of, handle_recv, handle_send, handle_request, serve_sync,
}
use vehicle_bench_candidate.Adb.Reads.{join, with_input, read_exact-append, read_header, read_frame}

-- What a client sends of a file, with what it sends next.
abbrev pub file_bytes : List (List ℕ) → ℕ → List ℕ → List ℕ
file_bytes [] time rest = done_id ++ (put_u32 time ++ rest)
file_bytes (c ∷ cs) time rest = frame data_id c ++ file_bytes cs time rest

abbrev pub AreSmall : List (List ℕ) → Type 0
AreSmall = All (λ c. length c < 4294967296)

pub rpartition_comma-append :
    (path mode : List ℕ)
    → has_comma mode ≡ false
    → rpartition_comma (path ++ b',' ∷ mode) ≡ (path, mode)
unfolding rpartition_comma
rpartition_comma-append [] mode h = rw h refl
rpartition_comma-append (b ∷ path) mode h = rw (last path, rpartition_comma-append path mode h) refl
  where
    last : (path : List ℕ) → has_comma (path ++ b',' ∷ mode) ≡ true
    last [] = refl
    last (b ∷ path) = ground (arith, last path)

-- What is read of a file in pieces is the file.
pub join-pieces :
    (fuel n : ℕ) (xs : List ℕ) → 0 < n → length xs ≤ fuel → join (pieces fuel n xs) ≡ xs
unfolding pieces
join-pieces zero n [] pos h = refl
join-pieces zero n (x ∷ xs) pos h = absurd (omega arith)
join-pieces (suc fuel) n [] pos h = refl
join-pieces (suc fuel) zero (x ∷ xs) pos h = absurd (omega arith)
join-pieces (suc fuel) (suc n) (x ∷ xs) pos h =
    ap (λ t. take (suc n) (x ∷ xs) ++ t)
      (join-pieces fuel (suc n) (drop n xs) pos (omega (arith, length-drop n xs)))
    ∙ take-append-drop (suc n) (x ∷ xs)

module _ {S : Type 0} (os : Os S) where
  -- The disk after the appends of a file.
  abbrev pub appended : List ℕ → List (List ℕ) → S → S
  appended path [] d = d
  appended path (c ∷ cs) d = appended path cs (os.append path c d)

  receive_file-file :
      (chunks : List (List ℕ)) (fuel : ℕ) (path : List ℕ) (time : ℕ) (rest : List ℕ) (s : Session S)
      → length chunks < fuel
      → AreSmall chunks
      → time < 4294967296
      → receive_file os fuel path (with_input (file_bytes chunks time rest) s)
        ≡ (done tt, record s { input = rest; disk = appended path chunks s.disk })
  unfolding receive_file
  receive_file-file chunks zero path time rest s lt small now = absurd (omega arith)
  receive_file-file [] (suc fuel) path time rest s lt small now =
      read_header done_id time rest _ s refl now
  receive_file-file (c ∷ cs) (suc fuel) path time rest s lt small now =
      read_frame data_id c (file_bytes cs time rest) _ s refl small.0
      ∙ ap (then_do (λ bytes. on_disk (os.append path bytes) >> receive_file os fuel path))
          (read_exact-append c (file_bytes cs time rest) s)
      ∙ receive_file-file cs fuel path time rest (record s { disk = os.append path c s.disk })
          (omega arith) small.1 now

  -- A request is read whole and handled.
  pub serve_sync-request :
      (fuel : ℕ) (id path rest : List ℕ) (s : Session S)
      → length id ≡ 4
      → length path < 4294967296
      → serve_sync os (suc fuel) (with_input (frame id path ++ rest) s)
        ≡ (handle_request os id path >>= λ more. if more then serve_sync os fuel else pure tt)
            (with_input rest s)
  unfolding serve_sync
  serve_sync-request fuel id path rest s four small =
      read_frame id path rest _ s four small
      ∙ ap
          (then_do (λ path.
            handle_request os id path >>= λ more. if more then serve_sync os fuel else pure tt))
          (read_exact-append path rest s)

  pub length-file_bytes :
      (chunks : List (List ℕ)) (time : ℕ) (rest : List ℕ)
      → length chunks ≤ length (file_bytes chunks time rest)
  length-file_bytes [] time rest = omega arith
  length-file_bytes (c ∷ cs) time rest = omega (
    arith,
    length-append (put_u32 (length c) ++ c) (file_bytes cs time rest),
    length-file_bytes cs time rest,
  )

  -- The disk after the mode of the file is set, if it is a number.
  abbrev pub with_mode : List ℕ → Option ℤ → S → S
  with_mode path none d = d
  with_mode path (some mode) d = os.chmod path (permissions mode) d

  abbrev pub okay : List ℕ
  okay = okay_id ++ put_u32 0

  pub opened-file :
      (path mode : List ℕ) (chunks : List (List ℕ)) (time : ℕ) (rest : List ℕ) (s : Session S)
      (d : S)
      → AreSmall chunks
      → time < 4294967296
      → opened os path mode (inl d) (with_input (file_bytes chunks time rest) s) ≡ (
        done true,
        record {
          input = rest;
          output = s.output ++ okay ∷ [];
          disk = with_mode path (os.int_of mode) (appended path chunks d);
        },
      )
  opened-file path mode chunks time rest s d small now =
      ap (then_do (λ _. set_mode os path (os.int_of mode) >> (write okay >> pure true))) (
        receive_file-file chunks _ path time rest (record s { disk = d })
          (omega (arith, length-file_bytes chunks time rest)) small now)
      ∙ finish (os.int_of mode) (record s { input = rest; disk = appended path chunks d })
    where
      finish :
          (o : Option ℤ) (s : Session S)
          → (set_mode os path o >> (write okay >> pure true)) s ≡ (
            done true,
            record s { output = s.output ++ okay ∷ []; disk = with_mode path o s.disk },
          )
      finish none s = refl
      finish (some m) s = refl

  pub handle_send-file :
      (path mode : List ℕ) (chunks : List (List ℕ)) (time : ℕ) (rest : List ℕ) (s : Session S)
      {d1 d2 : S}
      → has_comma mode ≡ false
      → AreSmall chunks
      → time < 4294967296
      → os.make_dirs (directory_of os path) s.disk ≡ some d1
      → os.open_write path d1 ≡ inl d2
      → handle_send os (path ++ b',' ∷ mode) (with_input (file_bytes chunks time rest) s) ≡ (
        done true,
        record {
          input = rest;
          output = s.output ++ okay ∷ [];
          disk = with_mode path (os.int_of mode) (appended path chunks d2);
        },
      )
  unfolding handle_send
  handle_send-file path mode chunks time rest s {d1} {d2} plain small now dirs opens =
      let s' = with_input (file_bytes chunks time rest) s in
      ap (λ parts. made os parts.0 parts.1 (os.make_dirs (directory_of os parts.0) s.disk) s')
        (rpartition_comma-append path mode plain)
      ∙ ap (λ o. made os path mode o s') dirs
      ∙ ap (λ o. opened os path mode o (record s' { disk = d1 })) opens
      ∙ opened-file path mode chunks time rest (record s { disk = d1 }) d2 small now

  write_pieces-all :
      (cs : List (List ℕ)) (s : Session S)
      → write_pieces os cs s ≡ (done tt, record s { output = s.output ++ map (frame data_id) cs })
  write_pieces-all [] s = ap (λ o. (done tt, record s { output = o })) (sym (append-nil s.output))
  write_pieces-all (c ∷ cs) s =
      write_pieces-all cs (record s { output = s.output ++ frame data_id c ∷ [] })
      ∙ ap (λ o. (done tt, record s { output = o }))
          (append_assoc s.output (frame data_id c ∷ []) (map (frame data_id) cs))

  -- The answer to a request for a file of this content.
  abbrev pub file_answer : List ℕ → List (List ℕ)
  file_answer content =
      map (frame data_id) (pieces (length content) read_size content) ++ (done_id ++ put_u32 0) ∷ []

  pub handle_recv-file :
      (path content : List ℕ) (s : Session S)
      → os.read_file path s.disk ≡ (content, none)
      → handle_recv os path s ≡ (done true, record s { output = s.output ++ file_answer content })
  unfolding handle_recv
  handle_recv-file path content s reads =
      ap (λ f. (write_pieces os (pieces (length f.0) read_size f.0) >> finish_file os f.1) s) reads
      ∙ ap (then_do (λ _. finish_file os none))
          (write_pieces-all (pieces (length content) read_size content) s)
      ∙ ap (λ o. (done true, record s { output = o })) (append_assoc s.output _ _)

-- What the operating system promises of a file: it is empty once it was opened for writing, a
-- write to it stands at its end, and its mode does not matter to a reader that runs as root.
pub record KeepsFile {S : Type 0} (os : Os S) (path : List ℕ) : Type 0 where
  pub created : (d d' : S) → os.open_write path d ≡ inl d' → os.read_file path d' ≡ ([], none)
  pub extended :
      (content bytes : List ℕ) (d : S)
      → os.read_file path d ≡ (content, none)
      → os.read_file path (os.append path bytes d) ≡ (content ++ bytes, none)
  pub unchanged : (m : ℕ) (d : S) → os.read_file path (os.chmod path m d) ≡ os.read_file path d

module _ {S : Type 0} (os : Os S) (path : List ℕ) (keeps : KeepsFile os path) where
  pub read-appended :
      (chunks : List (List ℕ)) (content : List ℕ) (d : S)
      → os.read_file path d ≡ (content, none)
      → os.read_file path (appended os path chunks d) ≡ (content ++ join chunks, none)
  read-appended [] content d h = h ∙ ap (λ t. (t, none)) (sym (append-nil content))
  read-appended (c ∷ cs) content d h =
      read-appended cs (content ++ c) (os.append path c d) (keeps.extended content c d h)
      ∙ ap (λ t. (t, none)) (append_assoc content c (join cs))

  pub read-with_mode :
      (o : Option ℤ) (d : S) → os.read_file path (with_mode os path o d) ≡ os.read_file path d
  read-with_mode none d = refl
  read-with_mode (some m) d = keeps.unchanged (permissions m) d
