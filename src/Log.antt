-- ===== src/Log.antt =====
-- The structured logger of the programs (env/common/dltlog.py). Texts are lists of code points. What
-- `strftime`, the format of the uptime and `str.isspace` give are parameters.
use vehicle_bench_candidate.Base.{
  ℕ, zero, suc, ◌+◌, ◌-◌, ◌/◌, ◌%◌, Bool, true, false, Option, none, some, List, [], ◌∷◌, ◌++◌,
  ◌==◌, ltb, if◌then◌else◌, length, take,
}
pub mod Counters
pub mod Lines

pub data Level : Type 0 where
  fatal error warn info debug verbose : Level

-- `LEVELS`
abbrev pub rank : Level → ℕ
rank fatal = 0
rank error = 1
rank warn = 2
rank info = 3
rank debug = 4
rank verbose = 5

abbrev pub level_text : Level → List ℕ
level_text fatal = b'F' ∷ b'A' ∷ b'T' ∷ b'A' ∷ b'L' ∷ []
level_text error = b'E' ∷ b'R' ∷ b'R' ∷ b'O' ∷ b'R' ∷ []
level_text warn = b'W' ∷ b'A' ∷ b'R' ∷ b'N' ∷ []
level_text info = b'I' ∷ b'N' ∷ b'F' ∷ b'O' ∷ []
level_text debug = b'D' ∷ b'E' ∷ b'B' ∷ b'U' ∷ b'G' ∷ []
level_text verbose = b'V' ∷ b'E' ∷ b'R' ∷ b'B' ∷ b'O' ∷ b'S' ∷ b'E' ∷ []

abbrev pub spaces : ℕ → List ℕ
spaces zero = []
spaces (suc n) = b' ' ∷ spaces n

-- `str.ljust`
abbrev pub ljust : ℕ → List ℕ → List ℕ
ljust n xs = xs ++ spaces (n - length xs)

-- The fields of `DltLogger`; `to_file` is whether a path was given.
pub record Logger : Type 0 where
  pub ecu : List ℕ
  pub app : List ℕ
  pub to_file : Bool
  pub min_level : Level
  pub also_stdout : Bool

abbrev pub logger : List ℕ → List ℕ → Bool → Level → Bool → Logger
logger ecu app to_file min_level also_stdout = record {
  ecu = ljust 4 (take 4 ecu);
  app = ljust 4 (take 4 app);
  to_file = to_file;
  min_level = min_level;
  also_stdout = also_stdout;
}

-- The fields that have a value, as `k=v`.
abbrev pub field_texts : List (List ℕ × Option (List ℕ)) → List (List ℕ)
field_texts [] = []
field_texts ((k, none) ∷ fields) = field_texts fields
field_texts ((k, some v) ∷ fields) = (k ++ (b'=' ∷ v)) ∷ field_texts fields

-- `" ".join`
abbrev pub join_spaces : List (List ℕ) → List ℕ
join_spaces [] = []
join_spaces (x ∷ []) = x
join_spaces (x ∷ y ∷ xs) = x ++ (b' ' ∷ join_spaces (y ∷ xs))

abbrev pub lstrip : (ℕ → Bool) → List ℕ → List ℕ
lstrip is_space [] = []
lstrip is_space (c ∷ cs) = if is_space c then lstrip is_space cs else c ∷ cs

abbrev pub rstrip : (ℕ → Bool) → List ℕ → List ℕ
rstrip is_space [] = []
rstrip is_space (c ∷ cs) = elim (rstrip is_space cs) [
  | [] ↦ if is_space c then [] else c ∷ []
  | d ∷ ds ↦ c ∷ d ∷ ds
]

-- A call of a log method: its context, level, message and fields.
pub record Call : Type 0 where
  pub ctx : List ℕ
  pub level : Level
  pub msg : List ℕ
  pub fields : List (List ℕ × Option (List ℕ))

abbrev pub payload_of : (ℕ → Bool) → Call → List ℕ
payload_of is_space c =
    rstrip is_space (lstrip is_space (c.msg ++ (b' ' ∷ join_spaces (field_texts c.fields))))

-- What a line of the log is made of.
pub record Line : Type 0 where
  pub now : List ℕ
  pub uptime : List ℕ
  pub ecu : List ℕ
  pub app : List ℕ
  pub ctx : List ℕ
  pub level : Level
  pub counter : ℕ
  pub payload : List ℕ

abbrev pub hex_digit : ℕ → ℕ
hex_digit d = if ltb d 10 then b'0' + d else b'A' + (d - 10)

-- `{counter:04X}` of a number of 16 bits.
abbrev pub hex4 : ℕ → List ℕ
hex4 n =
    hex_digit (n / 4096)
    ∷ hex_digit (n / 256 % 16)
    ∷ hex_digit (n / 16 % 16)
    ∷ hex_digit (n % 16)
    ∷ []

-- The text of a line.
unfoldable pub text : Line → List ℕ
text l = join_spaces (
    l.now
    ∷ l.uptime
    ∷ l.ecu
    ∷ l.app
    ∷ l.ctx
    ∷ ljust 5 (level_text l.level)
    ∷ (b'0' ∷ b'x' ∷ hex4 l.counter)
    ∷ (l.payload ++ b'\n' ∷ [])
    ∷ [])

-- `_counter`, the lines of the tasks that have their number and have not written yet, and what was
-- written to the file and to the standard output.
pub record Logs : Type 0 where
  pub counter : ℕ
  pub pending : List (ℕ × Line)
  pub file : List Line
  pub stdout : List Line

abbrev pub line_of : (ℕ → Bool) → Logger → Call → List ℕ → List ℕ → ℕ → Line
line_of is_space lg c now uptime counter = record {
  now = now;
  uptime = uptime;
  ecu = lg.ecu;
  app = lg.app;
  ctx = ljust 4 (take 4 c.ctx);
  level = c.level;
  counter = counter;
  payload = payload_of is_space c;
}

-- `_emit` up to the end of the lock, by the thread `id`.
unfoldable pub take_number : (ℕ → Bool) → Logger → ℕ → Call → List ℕ → List ℕ → Logs → Logs
take_number is_space lg id c now uptime logs =
    let counter = (logs.counter + 1) % 65536 in
    if ltb (rank lg.min_level) (rank c.level) then logs else record logs {
      counter = counter;
      pending = logs.pending ++ (id, line_of is_space lg c now uptime counter) ∷ [];
    }

abbrev pub written : Logger → Line → Logs → Logs
written lg l logs = record logs {
  file = if lg.to_file then logs.file ++ l ∷ [] else logs.file;
  stdout = if lg.also_stdout then logs.stdout ++ l ∷ [] else logs.stdout;
}

abbrev pub behind : ℕ × Line → Option (Line × List (ℕ × Line)) → Option (Line × List (ℕ × Line))
behind e none = none
behind e (some (l, rest)) = some (l, e ∷ rest)

-- The line of a thread, and the others.
abbrev pub line_by : ℕ → List (ℕ × Line) → Option (Line × List (ℕ × Line))
line_by id [] = none
line_by id (e ∷ es) =
    let found = line_by id es in if id == e.0 then some (e.1, es) else behind e found

abbrev pub write_found : Logger → Option (Line × List (ℕ × Line)) → Logs → Logs
write_found lg none logs = logs
write_found lg (some (l, rest)) logs = written lg l (record logs { pending = rest })

-- The rest of `_emit`.
unfoldable pub write_line : Logger → ℕ → Logs → Logs
write_line lg id logs = write_found lg (line_by id logs.pending) logs

-- What threads do: a call takes its number, a call writes its line.
pub data Action : Type 0 where
  numbers : ℕ → Call → List ℕ → List ℕ → Action
  writes : ℕ → Action

abbrev pub act : (ℕ → Bool) → Logger → Action → Logs → Logs
act is_space lg (numbers id c now uptime) logs = take_number is_space lg id c now uptime logs
act is_space lg (writes id) logs = write_line lg id logs

unfoldable pub act_all : (ℕ → Bool) → Logger → List Action → Logs → Logs
act_all is_space lg [] logs = logs
act_all is_space lg (a ∷ rest) logs = act_all is_space lg rest (act is_space lg a logs)
