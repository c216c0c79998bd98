-- ===== src/Adb.antt =====
-- The wire format of the ADB server and the loop that reads it (`pack` and `AdbConnection.run` of
-- env/ecu-gateway/adbd.py). Bytes are numbers below 256. `HEADER` is six `u32` in little-endian
-- order; `struct` raises on a number that does not fit, which is `none` here.
pub mod Framing
pub mod Ending
pub mod Connection
pub mod Services
pub mod Choice
pub mod Banner
pub mod Sync
pub mod Files
pub mod Reads
pub mod Transfer
pub mod PushPull
pub mod Refusal
pub mod Bounded
pub mod Served
pub mod WellFormed
pub mod Flow
pub mod Sending
pub mod Delivery
use vehicle_bench_candidate.Base.{
  ℕ, zero, suc, ◌+◌, ◌-◌, ◌*◌, ◌/◌, ◌%◌, Bool, ◌&&◌, Option, none, some, List, [], ◌∷◌, ◌++◌, ltb,
  leb, ◌==◌, if◌then◌else◌, length, take, drop,
}

abbrev pub sum : List ℕ → ℕ
sum [] = 0
sum (b ∷ bs) = b + sum bs

-- `sum(data) & 0xFFFFFFFF`
unfoldable pub checksum : List ℕ → ℕ
checksum payload = sum payload % 4294967296

unfoldable pub put_u32 : ℕ → List ℕ
put_u32 n = n % 256 ∷ n / 256 % 256 ∷ n / 65536 % 256 ∷ n / 16777216 % 256 ∷ []

unfoldable pub get_u32 : List ℕ → Option (ℕ × List ℕ)
get_u32 (a ∷ b ∷ c ∷ d ∷ rest) = some (a + b * 256 + c * 65536 + d * 16777216, rest)
get_u32 _ = none

abbrev pub is_u32 : ℕ → Bool
is_u32 n = ltb n 4294967296

-- `cmd ^ 0xFFFFFFFF` of a number of 32 bits.
abbrev pub magic_of : ℕ → ℕ
magic_of cmd = 4294967295 - cmd

unfoldable pub header : ℕ → ℕ → ℕ → List ℕ → List ℕ
header cmd arg0 arg1 payload =
    put_u32 cmd
    ++ put_u32 arg0
    ++ put_u32 arg1
    ++ put_u32 (length payload)
    ++ put_u32 (checksum payload)
    ++ put_u32 (magic_of cmd)

pub record Packet : Type 0 where
  pub cmd : ℕ
  pub arg0 : ℕ
  pub arg1 : ℕ
  pub payload : List ℕ

unfoldable pub pack : Packet → Option (List ℕ)
pack p =
    if is_u32 p.cmd && is_u32 p.arg0 && is_u32 p.arg1 && is_u32 (length p.payload)
    then some (header p.cmd p.arg0 p.arg1 p.payload ++ p.payload)
    else none

-- The bytes of several sends in a row; it raises if one of them does.
unfoldable pub send_all : List Packet → Option (List ℕ)
send_all [] = some []
send_all (p ∷ ps) = elim (pack p) [
  | none ↦ none
  | some bytes ↦ elim (send_all ps) [ none ↦ none | some more ↦ some (bytes ++ more) ]
]

-- What a round of the loop reads: a packet and the bytes behind it, a header whose magic is wrong,
-- or too few bytes before the end of the connection.
pub data Read : Type 0 where
  packet : Packet → List ℕ → Read
  bad_magic incomplete : Read

-- The payload of a header that was read; the checksum is not looked at.
abbrev pub read_payload : ℕ → ℕ → ℕ → ℕ → ℕ → List ℕ → Read
read_payload cmd arg0 arg1 size magic rest =
    if magic == magic_of cmd
    then (if leb size (length rest)
        then packet (record { cmd = cmd; arg0 = arg0; arg1 = arg1; payload = take size rest })
            (drop size rest)
        else incomplete)
    else bad_magic

abbrev pub get_then : Option (ℕ × List ℕ) → (ℕ → List ℕ → Read) → Read
get_then none f = incomplete
get_then (some (n, rest)) f = f n rest

unfoldable pub read_packet : List ℕ → Read
read_packet xs = get_then (get_u32 xs) (λ cmd xs. get_then (get_u32 xs) (λ arg0 xs.
    get_then (get_u32 xs) (λ arg1 xs. get_then (get_u32 xs) (λ size xs.
      get_then (get_u32 xs)
        (λ crc xs. get_then (get_u32 xs) (λ magic xs. read_payload cmd arg0 arg1 size magic xs))))))

-- How the loop ends.
pub data Stop : Type 0 where
  dropped disconnected : Stop

-- The packets that `run` dispatches, over all that the client sends, in at most `fuel` rounds.
unfoldable pub run : ℕ → List ℕ → Option (List Packet × Stop)
run zero xs = none
run (suc fuel) xs = elim (read_packet xs) [
  | bad_magic ↦ some ([], dropped)
  | incomplete ↦ some ([], disconnected)
  | packet p rest ↦ elim (run fuel rest) [ none ↦ none | some (ps, stop) ↦ some (p ∷ ps, stop) ]
]
