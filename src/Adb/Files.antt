-- ===== src/Adb/Files.antt =====
-- The requests of the file service (`serve_sync` of env/ecu-gateway/adbd.py).
use vehicle_bench_candidate.Base.{
  ℕ, zero, suc, ◌-◌, ◌*◌, ◌%◌, Bool, true, false, ◌&&◌, Option, none, some, ◌⊎◌, inl, inr, List, [],
  ◌∷◌, ◌++◌, ◌==◌, if◌then◌else◌, length, take, drop,
}
use vehicle_bench_candidate.Base.Int.{ℤ, pos, negsuc}
use vehicle_bench_candidate.Adb.{put_u32, is_u32}
use vehicle_bench_candidate.Adb.Sync.{
  Stat, Os, Service, done, ◌>>=◌, ◌>>◌, pure, crash, out_of_fuel, read_exact, read_u32, write,
  on_disk, same_bytes, quit_id, stat_id, list_id, recv_id, send_id, data_id, done_id, dent_id,
  okay_id, fail_id, frame, unknown_command,
}

abbrev pub has_comma : List ℕ → Bool
has_comma [] = false
has_comma (b ∷ bs) = if b == b',' then true else has_comma bs

-- `path.rpartition(",")`: what stands before and behind the last comma.
unfoldable pub rpartition_comma : List ℕ → List ℕ × List ℕ
rpartition_comma [] = ([], [])
rpartition_comma (b ∷ bs) =
    let parts = rpartition_comma bs in
    if has_comma bs then (b ∷ parts.0, parts.1) else if b == b',' then ([], bs) else ([], b ∷ bs)

-- `struct.pack` of `st_mode`, `st_size & 0xFFFFFFFF` and `int(st_mtime)`, which raises on a number
-- that is no `u32`.
abbrev pub pack_stat : Stat → Option (List ℕ)
pack_stat st = elim st.mtime [
  | negsuc n ↦ none
  | pos n ↦
      if is_u32 st.mode && is_u32 n
      then some (put_u32 st.mode ++ put_u32 (st.size % 4294967296) ++ put_u32 n)
      else none
]

-- `int(mode) & 0o777 or 0o644`
abbrev pub low_9_bits : ℤ → ℕ
low_9_bits (pos n) = n % 512
low_9_bits (negsuc n) = 511 - n % 512

abbrev pub permissions : ℤ → ℕ
permissions mode = if low_9_bits mode == 0 then 420 else low_9_bits mode

-- What `fh.read(n)` returns, read after read, up to the end.
unfoldable pub pieces : ℕ → ℕ → List ℕ → List (List ℕ)
pieces zero n xs = []
pieces (suc fuel) n [] = []
pieces (suc fuel) n (x ∷ xs) = take n (x ∷ xs) ∷ pieces fuel n (drop n (x ∷ xs))

abbrev pub read_size : ℕ
read_size = 64 * 1024

module _ {S : Type 0} (os : Os S) where
  abbrev pub write_status : Option (List ℕ) → Service S (Unit {0})
  write_status none = crash
  write_status (some bytes) = write (stat_id ++ bytes)

  abbrev pub write_stat : Option Stat → Service S (Unit {0})
  write_stat none = write (stat_id ++ put_u32 0 ++ put_u32 0 ++ put_u32 0)
  write_stat (some st) = write_status (pack_stat st)

  unfoldable pub handle_stat : List ℕ → Service S (Unit {0})
  handle_stat path s = write_stat (os.stat path s.disk) s

  abbrev pub write_packed : List ℕ → Option (List ℕ) → Service S (Unit {0}) → Service S (Unit {0})
  write_packed name none rest = crash
  write_packed name (some bytes) rest =
      write (dent_id ++ bytes ++ put_u32 (length name) ++ name) >> rest

  abbrev pub write_entry : List ℕ → Option Stat → Service S (Unit {0}) → Service S (Unit {0})
  write_entry name none rest = pure tt
  write_entry name (some st) rest = write_packed name (pack_stat st) rest

  -- The loop over the names, which an `OSError` ends.
  abbrev pub write_entries : List ℕ → List (List ℕ) → Service S (Unit {0})
  write_entries path [] s = (done tt, s)
  write_entries path (name ∷ names) s =
      let rest = write_entries path names in write_entry name (os.lstat path name s.disk) rest s

  abbrev pub write_names : List ℕ → Option (List (List ℕ)) → Service S (Unit {0})
  write_names path none = pure tt
  write_names path (some names) = write_entries path names

  unfoldable pub handle_list : List ℕ → Service S (Unit {0})
  handle_list path s =
      (write_names path (os.sorted_names path s.disk)
          >> write (done_id ++ put_u32 0 ++ put_u32 0 ++ put_u32 0 ++ put_u32 0))
        s

  abbrev pub write_pieces : List (List ℕ) → Service S (Unit {0})
  write_pieces [] = pure tt
  write_pieces (chunk ∷ chunks) = write (frame data_id chunk) >> write_pieces chunks

  -- Whether the session goes on.
  abbrev pub finish_file : Option (List ℕ) → Service S Bool
  finish_file none = do write (done_id ++ put_u32 0); pure true
  finish_file (some message) = do write (frame fail_id message); pure false

  unfoldable pub handle_recv : List ℕ → Service S Bool
  unfolding pieces
  handle_recv path s =
      let (content, error) = os.read_file path s.disk in
      (write_pieces (pieces (length content) read_size content) >> finish_file error) s

  -- The rest of a file that cannot be opened is read and dropped.
  unfoldable pub drain : ℕ → Service S (Unit {0})
  drain zero = out_of_fuel
  drain (suc fuel) = do
    id ← read_exact 4
    n ← read_u32
    if same_bytes id done_id then pure tt else (read_exact n >>= λ _. drain fuel)

  unfoldable pub receive_file : ℕ → List ℕ → Service S (Unit {0})
  receive_file zero path = out_of_fuel
  receive_file (suc fuel) path = do
    id ← read_exact 4
    n ← read_u32
    if same_bytes id done_id
        then pure tt
        else if same_bytes id data_id
        then (read_exact n >>= λ bytes. on_disk (os.append path bytes) >> receive_file fuel path)
        else pure tt

  abbrev pub set_mode : List ℕ → Option ℤ → Service S (Unit {0})
  set_mode path none = pure tt
  set_mode path (some mode) = on_disk (os.chmod path (permissions mode))

  -- After `open`. A round of either loop reads at least eight bytes, so there is fuel enough.
  abbrev pub opened : List ℕ → List ℕ → S ⊎ List ℕ → Service S Bool
  opened path mode (inr message) s =
      (do drain (suc (length s.input)); write (frame fail_id message); pure false) s
  opened path mode (inl disk) s =
      (do
        receive_file (suc (length s.input)) path
        set_mode path (os.int_of mode)
        write (okay_id ++ put_u32 0)
        pure true)
        (record s { disk = disk })

  abbrev pub made : List ℕ → List ℕ → Option S → Service S Bool
  made path mode none = crash
  made path mode (some disk) =
      λ s. opened path mode (os.open_write path disk) (record s { disk = disk })

  -- `os.path.dirname(target) or "/"`
  abbrev pub directory_of : List ℕ → List ℕ
  directory_of path = elim (os.parent path) [ [] ↦ b'/' ∷ [] | b ∷ bs ↦ b ∷ bs ]

  unfoldable pub handle_send : List ℕ → Service S Bool
  unfolding drain receive_file rpartition_comma
  handle_send spec s =
      let parts = rpartition_comma spec in
      made parts.0 parts.1 (os.make_dirs (directory_of parts.0) s.disk) s

  abbrev pub handle_request : List ℕ → List ℕ → Service S Bool
  handle_request id path =
      if same_bytes id quit_id
      then pure false
      else if same_bytes id stat_id
      then (do handle_stat path; pure true)
      else if same_bytes id list_id
      then (do handle_list path; pure true)
      else if same_bytes id recv_id
      then handle_recv path
      else if same_bytes id send_id
      then handle_send path
      else (do write (frame fail_id unknown_command); pure false)

  -- `serve_sync`, in at most `fuel` requests.
  unfoldable pub serve_sync : ℕ → Service S (Unit {0})
  unfolding handle_stat handle_list handle_recv handle_send
  serve_sync zero = out_of_fuel
  serve_sync (suc fuel) = do
    id ← read_exact 4
    n ← read_u32
    path ← read_exact n
    more ← handle_request id path
    if more then serve_sync fuel else pure tt
