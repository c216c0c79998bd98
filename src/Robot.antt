-- ===== src/Robot.antt =====
-- The checks on the gateway's log that the Robot suites run (starter/robot/libraries/gateway_log.py and
-- starter/robot/libraries/log_validation.py). Texts are lists of code points. What Python's floats,
-- regular expressions and `str.splitlines` do is a parameter.
use vehicle_bench_candidate.Base.{
  ℕ, zero, suc, ◌-◌, Bool, true, false, ◌&&◌, ◌||◌, not, Option, none, some, List, [], ◌∷◌, ◌++◌,
  ◌==◌, if◌then◌else◌, length, drop,
}
use vehicle_bench_candidate.Base.Texts.{starts_with, occurs_in}
pub mod Heartbeats
pub mod Errors

-- The arithmetic of floats that the checks use: `seq + 1`, `a != b`, `a <= b`, `a > b`, `a - b`,
-- `a / 1000`, `a * 1000.0` and `abs`.
pub record Floats (F : Type 0) : Type 0 where
  pub plus_one : F → F
  pub differs : F → F → Bool
  pub at_most : F → F → Bool
  pub exceeds : F → F → Bool
  pub minus : F → F → F
  pub per_mille : F → F
  pub times_1000 : F → F
  pub magnitude : F → F

-- How a check ends: with its result, or by an `AssertionError` about a pair of numbers, about too few
-- records, or about a record that is not found.
pub data Checked (A F : Type 0) : Type 0 where
  passes : A → Checked A F
  off_period : F → F → Checked A F
  no_samples : Checked A F
  not_found too_late : Checked A F

-- A heartbeat in the log: when it was answered, its number, and its latency.
pub record Sample (F : Type 0) : Type 0 where
  pub time : F
  pub seq : F
  pub latency : F

module _ {F : Type 0} (fl : Floats F) where
  -- `seq1 != seq0 + 1 or t1 <= t0`
  abbrev pub skipped : Sample F → Sample F → Bool
  skipped a b = fl.differs b.seq (fl.plus_one a.seq) || fl.at_most b.time a.time

  abbrev pub sent_at : Sample F → F
  sent_at s = fl.minus s.time (fl.per_mille s.latency)

  abbrev pub off : F → F → Sample F → Sample F → Bool
  off period tolerance a b =
      fl.exceeds (fl.magnitude (fl.minus (fl.minus (sent_at b) (sent_at a)) period)) tolerance

  abbrev pub ends_with : ℕ → Checked ℕ F
  ends_with zero = no_samples
  ends_with (suc n) = passes (suc n)

  -- The loop over `zip(samples, samples[1:])`, with `checked` so far, and what follows it.
  unfoldable pub check_from : F → F → ℕ → Sample F → List (Sample F) → Checked ℕ F
  check_from period tolerance checked previous [] = ends_with checked
  check_from period tolerance checked previous (current ∷ rest) =
      let on = check_from period tolerance checked current rest in
      let counted = check_from period tolerance (suc checked) current rest in
      if skipped previous current
      then on
      else if off period tolerance previous current
      then off_period previous.seq current.seq
      else counted

  -- `assert_heartbeat_sequence_timing`, on what `re.findall` found.
  unfoldable pub assert_heartbeat_sequence_timing : F → F → List (Sample F) → Checked ℕ F
  unfolding check_from
  assert_heartbeat_sequence_timing period tolerance [] = no_samples
  assert_heartbeat_sequence_timing period tolerance (s ∷ samples) =
      check_from period tolerance 0 s samples

  abbrev pub within : F → Option F → Option F → Checked F F
  within max_ms none forwarded = not_found
  within max_ms (some queued) none = not_found
  within max_ms (some queued) (some forwarded) =
      let elapsed_ms = fl.times_1000 (fl.minus forwarded queued) in
      if fl.exceeds elapsed_ms max_ms then too_late else passes elapsed_ms

  -- `assert_command_forwarded_within`, given what `_find_timestamp` finds: the receipt and the forwarding
  -- of the command.
  abbrev pub assert_command_forwarded_within : F → Option F → Option F → Checked F F
  assert_command_forwarded_within max_ms queued forwarded = within max_ms queued forwarded

abbrev pub error_mark : List ℕ
error_mark = b' ' ∷ b'E' ∷ b'R' ∷ b'R' ∷ b'O' ∷ b'R' ∷ b' ' ∷ []

abbrev pub errors_in : List (List ℕ) → List (List ℕ)
errors_in [] = []
errors_in (line ∷ lines) =
    if occurs_in error_mark line then line ∷ errors_in lines else errors_in lines

-- What the log has behind `before`; a log that was rotated is new as a whole.
unfoldable pub new_content : List ℕ → List ℕ → List ℕ
new_content before after = if starts_with before after then drop (length before) after else after

abbrev pub raised : List (List ℕ) → Option (List (List ℕ))
raised [] = none
raised (line ∷ lines) = some (line ∷ lines)

-- `assert_no_new_gateway_errors`: the lines that its `AssertionError` lists, if there are any.
unfoldable pub assert_no_new_gateway_errors :
    (List ℕ → List (List ℕ)) → List ℕ → List ℕ → Option (List (List ℕ))
unfolding new_content
assert_no_new_gateway_errors splitlines before after =
    raised (errors_in (splitlines (new_content before after)))
