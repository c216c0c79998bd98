-- ===== src/Runner/Waiting.antt =====
-- How waiting for a command ends (`wait_terminal` of env/scenario-runner/run_scenarios.py), whatever
-- the bench does between the polls.
use Prim.Native.String.{String}
use mathlib.Core.Path.{subst}
use vehicle_bench_candidate.Base.{
  if_intro, if◌then◌else◌, false, sym, ap, List, ℕ, zero, suc, ◌+◌, ◌-◌, ◌*◌, ◌/◌, ◌≡◌, ◌≢◌, ◌≤◌,
  ◌∙◌, ◌⊎◌, inl, inr, refl, some, [], ◌∷◌, ◌++◌, All, arith, ltb,
}
use vehicle_bench_candidate.Base.Dict.{lookup}
use vehicle_bench_candidate.Body.{BodyCal}
use vehicle_bench_candidate.Gateway.Types.{TcuCal}
use vehicle_bench_candidate.Backend.Store.{CommandRecord, accepted, Store}
use vehicle_bench_candidate.Backend.Commands.{Config}
use vehicle_bench_candidate.Bench.{Bench}
use vehicle_bench_candidate.Bench.Arrivals.{HasId}
use vehicle_bench_candidate.Bench.Settled.{HasEnded, IsTerminal, IsTerminal-stays}
use vehicle_bench_candidate.Runner.{
  after, sleep, give, ◌>>◌, Moment, Shown, Ev, Runner, Fault, Ended, returned, raised, out_of_fuel,
  Script, is_accepted, ev, read, command, polls, wait_terminal,
}
use vehicle_bench_candidate.Runner.Reads.{IsRead, read-IsRead}

-- The bench's own requests do not reuse the id.
abbrev pub LeavesId : ℕ → (ℕ → Moment) → Type 0
LeavesId id env = (k : ℕ) → All (HasId (λ j. j ≢ id)) (env k).happens

-- How waiting ends: with the record that the table then has, printed as the only event, and either
-- terminal or read when the time was over; or with an exception, and nothing printed. So many
-- requests were made at most.
abbrev pub HasWaited : ℕ → ℕ → ℕ → List Ev → Ended CommandRecord × Runner → Type 0
HasWaited id over most events (returned r, s) =
    (lookup id s.bench.outside.backend.commands ≡ some r)
    × (s.events ≡ events ++ (record { t = s.time; shown = Shown.command_shown r }) ∷ [])
    × ((r.status ≢ accepted) ⊎ (over ≤ s.time))
    × (s.asked ≤ most)
HasWaited id over most events (raised e, s) = (s.events ≡ events) × (s.asked ≤ most)
HasWaited id over most events (out_of_fuel, s) = ⊥

module _ (cfg : Config) (cal : TcuCal) (bcal : BodyCal) (env : ℕ → Moment) (key : String)
    (id : ℕ) where
  terminal_read :
      (r : CommandRecord) (store : Store)
      → lookup id store.commands ≡ some r
      → IsTerminal id store
      → r.status ≢ accepted
  terminal_read r store found terminal same =
      let (s, e, ne) = subst HasEnded found terminal in ne cc

  not_accepted : (r : CommandRecord) → is_accepted r.status ≡ false → r.status ≢ accepted
  not_accepted r e same = cc (ap is_accepted same)

  read-IsTerminal :
      (r : CommandRecord) (store : Store)
      → lookup id store.commands ≡ some r
      → is_accepted r.status ≡ false
      → IsTerminal id store
  read-IsTerminal r store found e = subst HasEnded (sym found) (r.status, refl, not_accepted r e)

  module _ (leaves : LeavesId id env) (over most : ℕ) (events : List Ev) where
    command_after-HasWaited :
        (s : Runner) (x : Ended CommandRecord × Runner)
        → s.events ≡ events
        → s.asked + 1 ≤ most
        → IsTerminal id s.bench.outside.backend ⊎ (over ≤ s.time)
        → IsRead cfg cal bcal env key id s x
        → HasWaited id over most events (after (λ r. ev (Shown.command_shown r) >> give r) x)
    command_after-HasWaited s (raised e, s') same few h read = (read.events ∙ same, omega arith)
    command_after-HasWaited s (out_of_fuel, s') same few h read = read.result
    command_after-HasWaited s (returned r, s') same few h read = (
      read.result,
      ap (λ es. es ++ (record { t = s'.time; shown = Shown.command_shown r }) ∷ [])
          (read.events ∙ same),
      elim h [
        | inr late ↦ inr (omega arith)
        | inl terminal ↦ inl (
            terminal_read r s'.bench.outside.backend read.result (
              subst (λ (b : Bench). IsTerminal id b.outside.backend) (sym read.bench)
                (IsTerminal-stays cfg cal bcal id (env s.asked).happens s.bench (leaves s.asked)
                  terminal)))
      ],
      omega arith,
    )

    command-HasWaited :
        (s : Runner)
        → s.events ≡ events
        → s.asked + 1 ≤ most
        → IsTerminal id s.bench.outside.backend ⊎ (over ≤ s.time)
        → HasWaited id over most events (command cfg cal bcal env key id s)
    command-HasWaited s same few h =
        command_after-HasWaited s (read cfg cal bcal env key id s) same few h
          (read-IsRead cfg cal bcal env key id s)

    module _ (t0 timeout : ℕ) (total : over ≡ t0 + timeout) where
      -- What the loop does with a record.
      look : ℕ → CommandRecord → Script CommandRecord
      look n r =
          if is_accepted r.status
          then sleep 250 >> polls cfg cal bcal env n key id t0 timeout
          else command cfg cal bcal env key id

      looked-HasWaited :
          (n : ℕ) (s : Runner) (x : Ended CommandRecord × Runner)
          → s.events ≡ events
          → s.asked + 1 + n ≤ most
          → 1 ≤ n
          → ((s' : Runner)
              → s.time + 250 ≤ s'.time
              → s'.events ≡ events
              → s'.asked + n ≤ most
              → HasWaited id over most events (polls cfg cal bcal env n key id t0 timeout s'))
          → IsRead cfg cal bcal env key id s x
          → HasWaited id over most events (after (look n) x)
      unfolding look
      looked-HasWaited n s (raised e, s') same few some_left next read =
          (read.events ∙ same, omega arith)
      looked-HasWaited n s (out_of_fuel, s') same few some_left next read = read.result
      looked-HasWaited n s (returned r, s') same few some_left next read =
          if_intro (λ (m : Script CommandRecord). HasWaited id over most events (m s'))
            (is_accepted r.status) _ _
            (λ waiting.
              next (record s' { time = s'.time + 250 }) (omega arith) (read.events ∙ same)
                (omega arith))
            (λ done.
              command-HasWaited s' (read.events ∙ same) (omega arith)
                (inl (read-IsTerminal r s'.bench.outside.backend read.result done)))

      polls-HasWaited :
          (n : ℕ) (s : Runner)
          → s.events ≡ events
          → s.asked + 1 + n ≤ most
          → t0 ≤ s.time
          → over ≤ s.time + 250 * n
          → HasWaited id over most events (polls cfg cal bcal env (suc n) key id t0 timeout s)
      unfolding polls look
      polls-HasWaited zero s same few begun enough =
          if_intro (λ (m : Script CommandRecord). HasWaited id over most events (m s))
            (ltb (s.time - t0) timeout) _ _ (λ early. absurd (ground arith))
            (λ late. command-HasWaited s same (omega arith) (inr (omega arith)))
      polls-HasWaited (suc n) s same few begun enough =
          if_intro (λ (m : Script CommandRecord). HasWaited id over most events (m s))
            (ltb (s.time - t0) timeout) _ _
            (λ early.
              looked-HasWaited (suc n) s (read cfg cal bcal env key id s) same (omega arith)
                (omega arith)
                (λ s' slept same' few'.
                  polls-HasWaited n s' same' (omega arith) (omega arith) (omega arith))
                (read-IsRead cfg cal bcal env key id s))
            (λ late. command-HasWaited s same (omega arith) (inr (ground arith)))

  spelled :
      (over most : ℕ) (events : List Ev) (x : Ended CommandRecord × Runner)
      → HasWaited id over most events x
      → (x.1.asked ≤ most)
        × (((e : Fault) × (x.0 ≡ raised e) × (x.1.events ≡ events))
            ⊎ ((r : CommandRecord) × (x.0 ≡ returned r)
                × (lookup id x.1.bench.outside.backend.commands ≡ some r)
                × (x.1.events
                    ≡ events ++ (record { t = x.1.time; shown = Shown.command_shown r }) ∷ [])
                × ((r.status ≢ accepted) ⊎ (over ≤ x.1.time))))
  spelled over most events (raised e, s) (same, few) = (few, inl (e, refl, same))
  spelled over most events (out_of_fuel, s) h = elim h [ ]
  spelled over most events (returned r, s) (found, shown, h, few) =
      (few, inr (r, refl, found, shown, h))

  -- Waiting for a command always ends, whatever the bench does between the requests, as long as its
  -- own requests do not reuse the id: after one request for each 250 ms of the time allowed, rounded
  -- up, and one more at most. It ends with an exception of a request or of an answer without a status,
  -- and nothing printed; or with the record that the backend then has, printed as the only event, and
  -- this record is COMPLETED or FAILED, or the time allowed has passed.
  pub wait_terminal_ends :
      (s : Runner) (timeout : ℕ)
      → LeavesId id env
      → let (end, s') = wait_terminal cfg cal bcal env timeout key id s in
        (s'.asked ≤ s.asked + 1 + (timeout + 249) / 250)
        × (((e : Fault) × (end ≡ raised e) × (s'.events ≡ s.events))
            ⊎ ((r : CommandRecord) × (end ≡ returned r)
                × (lookup id s'.bench.outside.backend.commands ≡ some r)
                × (s'.events
                    ≡ s.events ++ (record { t = s'.time; shown = Shown.command_shown r }) ∷ [])
                × ((r.status ≢ accepted) ⊎ (s.time + timeout ≤ s'.time))))
  unfolding wait_terminal
  wait_terminal_ends s timeout leaves =
      let most = s.asked + 1 + (timeout + 249) / 250 in
      spelled (s.time + timeout) most s.events _ (
        polls-HasWaited leaves (s.time + timeout) most s.events s.time timeout refl
          ((timeout + 249) / 250) s refl (omega arith) (omega arith) (omega arith))
