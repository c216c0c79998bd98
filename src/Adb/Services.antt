-- ===== src/Adb/Services.antt =====
-- Which service a stream asks for (`AdbConnection.serve` of env/ecu-gateway/adbd.py). A service text is
-- the list of its characters.
use vehicle_bench_candidate.Base.{
  ℕ, Bool, false, ◌||◌, List, [], ◌∷◌, ◌==◌, if◌then◌else◌, length, drop,
}
use vehicle_bench_candidate.Base.Texts.{starts_with, occurs_in}
use vehicle_bench_candidate.Adb.Sync.{same_bytes}

abbrev pub shell_v2 : List ℕ
shell_v2 = b's' ∷ b'h' ∷ b'e' ∷ b'l' ∷ b'l' ∷ b',' ∷ []

abbrev pub shell_v1 : List ℕ
shell_v1 = b's' ∷ b'h' ∷ b'e' ∷ b'l' ∷ b'l' ∷ b':' ∷ []

abbrev pub exec_prefix : List ℕ
exec_prefix = b'e' ∷ b'x' ∷ b'e' ∷ b'c' ∷ b':' ∷ []

abbrev pub sync_name : List ℕ
sync_name = b's' ∷ b'y' ∷ b'n' ∷ b'c' ∷ b':' ∷ []

abbrev pub root_prefix : List ℕ
root_prefix = b'r' ∷ b'o' ∷ b'o' ∷ b't' ∷ b':' ∷ []

abbrev pub remount_prefix : List ℕ
remount_prefix = b'r' ∷ b'e' ∷ b'm' ∷ b'o' ∷ b'u' ∷ b'n' ∷ b't' ∷ b':' ∷ []

abbrev pub reboot_prefix : List ℕ
reboot_prefix = b'r' ∷ b'e' ∷ b'b' ∷ b'o' ∷ b'o' ∷ b't' ∷ b':' ∷ []

abbrev pub tcpip_prefix : List ℕ
tcpip_prefix = b't' ∷ b'c' ∷ b'p' ∷ b'i' ∷ b'p' ∷ b':' ∷ []

abbrev pub usb_prefix : List ℕ
usb_prefix = b'u' ∷ b's' ∷ b'b' ∷ b':' ∷ []

abbrev pub pty : List ℕ
pty = b'p' ∷ b't' ∷ b'y' ∷ []

abbrev pub root_answer : List ℕ
root_answer =
    b'a' ∷ b'd' ∷ b'b' ∷ b'd' ∷ b' ' ∷ b'i' ∷ b's' ∷ b' ' ∷ b'a' ∷ b'l' ∷ b'r' ∷ b'e' ∷ b'a' ∷ b'd'
    ∷ b'y' ∷ b' ' ∷ b'r' ∷ b'u' ∷ b'n' ∷ b'n' ∷ b'i' ∷ b'n' ∷ b'g' ∷ b' ' ∷ b'a' ∷ b's' ∷ b' '
    ∷ b'r' ∷ b'o' ∷ b'o' ∷ b't' ∷ b'\n' ∷ []

abbrev pub remount_answer : List ℕ
remount_answer =
    b'r' ∷ b'e' ∷ b'm' ∷ b'o' ∷ b'u' ∷ b'n' ∷ b't' ∷ b' ' ∷ b's' ∷ b'u' ∷ b'c' ∷ b'c' ∷ b'e' ∷ b'e'
    ∷ b'd' ∷ b'e' ∷ b'd' ∷ b'\n' ∷ []

abbrev pub restart_answer : List ℕ
restart_answer =
    b'r' ∷ b'e' ∷ b's' ∷ b't' ∷ b'a' ∷ b'r' ∷ b't' ∷ b'i' ∷ b'n' ∷ b'g' ∷ b' ' ∷ b'i' ∷ b'n' ∷ b' '
    ∷ b'T' ∷ b'C' ∷ b'P' ∷ b' ' ∷ b'm' ∷ b'o' ∷ b'd' ∷ b'e' ∷ b' ' ∷ b'p' ∷ b'o' ∷ b'r' ∷ b't'
    ∷ b':' ∷ b' ' ∷ b'5' ∷ b'5' ∷ b'5' ∷ b'5' ∷ b'\n' ∷ []

-- `text.split(":")[0]`
abbrev pub before_colon : List ℕ → List ℕ
before_colon [] = []
before_colon (x ∷ xs) = if x == b':' then [] else x ∷ before_colon xs

-- The last part of `text.partition(":")`.
abbrev pub after_colon : List ℕ → List ℕ
after_colon [] = []
after_colon (x ∷ xs) = if x == b':' then xs else after_colon xs

-- What `serve` does: a shell with its command and whether it gets a terminal, the file service, an
-- answer, or nothing but a line of the log.
pub data Choice : Type 0 where
  shell : List ℕ → Bool → Choice
  sync : Choice
  answers : List ℕ → Choice
  ignores : Choice

unfoldable pub choose : List ℕ → Choice
choose svc =
    if starts_with shell_v2 svc
    then shell (after_colon svc) (occurs_in pty (before_colon svc))
    else if starts_with shell_v1 svc
    then shell (drop (length shell_v1) svc) (same_bytes svc shell_v1)
    else if starts_with exec_prefix svc
    then shell (drop (length exec_prefix) svc) false
    else if same_bytes svc sync_name
    then sync
    else if starts_with root_prefix svc
    then answers root_answer
    else if starts_with remount_prefix svc
    then answers remount_answer
    else if starts_with reboot_prefix svc
    then ignores
    else if starts_with tcpip_prefix svc || starts_with usb_prefix svc
    then answers restart_answer
    else ignores

abbrev pub shell_path : List ℕ
shell_path = b'/' ∷ b'b' ∷ b'i' ∷ b'n' ∷ b'/' ∷ b's' ∷ b'h' ∷ []

-- `argv` of `serve_shell`
abbrev pub shell_arguments : List ℕ → List (List ℕ)
shell_arguments [] = shell_path ∷ (b'-' ∷ b'i' ∷ []) ∷ []
shell_arguments (c ∷ cs) = shell_path ∷ (b'-' ∷ b'c' ∷ []) ∷ (c ∷ cs) ∷ []
