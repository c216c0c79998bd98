-- ===== src/Adb/Sync.antt =====
-- The file service of the ADB server (`Stream.read_exact` and `serve_sync` of
-- env/ecu-gateway/adbd.py). A session reads what the client sends on the stream until it closes it;
-- what the operating system does is a parameter. Paths and messages are the bytes of their texts.
use vehicle_bench_candidate.Base.{
  ℕ, Bool, true, false, ◌&&◌, Option, none, some, ◌⊎◌, List, [], ◌∷◌, ◌++◌, ◌==◌, leb,
  if◌then◌else◌, length, take, drop,
}
use vehicle_bench_candidate.Base.Int.{ℤ}
use vehicle_bench_candidate.Adb.{put_u32, get_u32}

pub record Stat : Type 0 where
  pub mode : ℕ
  pub size : ℕ
  pub mtime : ℤ

-- The calls of the operating system, on a state of its own; an `OSError` is `none`, or its text.
-- `read_file` gives what can be read, and the error that ended it, also that of `open`;
-- `sorted_names` is `sorted(os.listdir(path))`, `parent` is `os.path.dirname`, and `int_of` is `int`,
-- where `none` is a `ValueError`. A path has no NUL, and a write to an open file does not fail.
pub record Os (S : Type 0) : Type 0 where
  pub stat : List ℕ → S → Option Stat
  pub sorted_names : List ℕ → S → Option (List (List ℕ))
  pub lstat : List ℕ → List ℕ → S → Option Stat
  pub read_file : List ℕ → S → List ℕ × Option (List ℕ)
  pub make_dirs : List ℕ → S → Option S
  pub open_write : List ℕ → S → S ⊎ List ℕ
  pub append : List ℕ → List ℕ → S → S
  pub chmod : List ℕ → ℕ → S → S
  pub parent : List ℕ → List ℕ
  pub int_of : List ℕ → Option ℤ

-- `Stream.read_exact` over the buffer and the inbox: the bytes with what is left of both, the end of
-- the stream, or a wait for more.
pub data Reading : Type 0 where
  got : List ℕ → List ℕ → List (Option (List ℕ)) → Reading
  ended waiting : Reading

unfoldable pub read_inbox : ℕ → List ℕ → List (Option (List ℕ)) → Reading
read_inbox n buf [] = if leb n (length buf) then got (take n buf) (drop n buf) [] else waiting
read_inbox n buf (none ∷ inbox) =
    if leb n (length buf) then got (take n buf) (drop n buf) (none ∷ inbox) else ended
read_inbox n buf (some chunk ∷ inbox) =
    let more = read_inbox n (buf ++ chunk) inbox in
    if leb n (length buf) then got (take n buf) (drop n buf) (some chunk ∷ inbox) else more

-- A session: what the client still sends, what was written to the stream, and the disk.
pub record Session (S : Type 0) : Type 0 where
  pub input : List ℕ
  pub output : List (List ℕ)
  pub disk : S

-- How a part of a session ends: with a value, by `EOFError`, by another exception, or, in the model
-- only, without fuel.
pub data Ended (A : Type 0) : Type 0 where
  done : A → Ended A
  eof crashed stuck : Ended A

abbrev pub Service : Type 0 → Type 0 → Type 0
Service S A = Session S → Ended A × Session S

abbrev pub then_do :
    {S A B : Type 0} → (A → Service S B) → Ended A × Session S → Ended B × Session S
then_do f (done a, s) = f a s
then_do f (eof, s) = (eof, s)
then_do f (crashed, s) = (crashed, s)
then_do f (stuck, s) = (stuck, s)

infixl 5 ◌>>=◌ ◌>>◌
abbrev pub ◌>>=◌ : {S A B : Type 0} → Service S A → (A → Service S B) → Service S B
◌>>=◌ m f s = then_do f (m s)

abbrev pub ◌>>◌ : {S B : Type 0} → Service S (Unit {0}) → Service S B → Service S B
m >> k = m >>= λ _. k

abbrev pub pure : {S A : Type 0} → A → Service S A
pure a s = (done a, s)

abbrev pub crash : {S A : Type 0} → Service S A
crash s = (crashed, s)

abbrev pub out_of_fuel : {S A : Type 0} → Service S A
out_of_fuel s = (stuck, s)

unfoldable pub read_exact : {S : Type 0} → ℕ → Service S (List ℕ)
read_exact n s =
    if leb n (length s.input)
    then (done (take n s.input), record s { input = drop n s.input })
    else (eof, s)

abbrev pub write : {S : Type 0} → List ℕ → Service S (Unit {0})
write bytes s = (done tt, record s { output = s.output ++ bytes ∷ [] })

abbrev pub on_disk : {S : Type 0} → (S → S) → Service S (Unit {0})
on_disk f s = (done tt, record s { disk = f s.disk })

abbrev pub number_of : Option (ℕ × List ℕ) → ℕ
number_of none = 0
number_of (some (n, _)) = n

-- `struct.unpack("<I", await s.read_exact(4))`
unfoldable pub read_u32 : {S : Type 0} → Service S ℕ
unfolding read_exact get_u32
read_u32 = do bytes ← read_exact 4; pure (number_of (get_u32 bytes))

abbrev pub same_bytes : List ℕ → List ℕ → Bool
same_bytes [] [] = true
same_bytes (a ∷ xs) (b ∷ ys) = a == b && same_bytes xs ys
same_bytes _ _ = false

abbrev pub quit_id : List ℕ
quit_id = b'Q' ∷ b'U' ∷ b'I' ∷ b'T' ∷ []

abbrev pub stat_id : List ℕ
stat_id = b'S' ∷ b'T' ∷ b'A' ∷ b'T' ∷ []

abbrev pub list_id : List ℕ
list_id = b'L' ∷ b'I' ∷ b'S' ∷ b'T' ∷ []

abbrev pub recv_id : List ℕ
recv_id = b'R' ∷ b'E' ∷ b'C' ∷ b'V' ∷ []

abbrev pub send_id : List ℕ
send_id = b'S' ∷ b'E' ∷ b'N' ∷ b'D' ∷ []

abbrev pub data_id : List ℕ
data_id = b'D' ∷ b'A' ∷ b'T' ∷ b'A' ∷ []

abbrev pub done_id : List ℕ
done_id = b'D' ∷ b'O' ∷ b'N' ∷ b'E' ∷ []

abbrev pub dent_id : List ℕ
dent_id = b'D' ∷ b'E' ∷ b'N' ∷ b'T' ∷ []

abbrev pub okay_id : List ℕ
okay_id = b'O' ∷ b'K' ∷ b'A' ∷ b'Y' ∷ []

abbrev pub fail_id : List ℕ
fail_id = b'F' ∷ b'A' ∷ b'I' ∷ b'L' ∷ []

-- An id, a length and as many bytes.
abbrev pub frame : List ℕ → List ℕ → List ℕ
frame id bytes = id ++ (put_u32 (length bytes) ++ bytes)

abbrev pub unknown_command : List ℕ
unknown_command =
    b'u' ∷ b'n' ∷ b'k' ∷ b'n' ∷ b'o' ∷ b'w' ∷ b'n' ∷ b' ' ∷ b's' ∷ b'y' ∷ b'n' ∷ b'c' ∷ b' ' ∷ b'c'
    ∷ b'o' ∷ b'm' ∷ b'm' ∷ b'a' ∷ b'n' ∷ b'd' ∷ []
