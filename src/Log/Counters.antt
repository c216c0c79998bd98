-- ===== src/Log/Counters.antt =====
-- The message counter of the logger (`_emit` of env/common/dltlog.py).
use vehicle_bench_candidate.Base.{
  ℕ, zero, suc, ◌+◌, ◌%◌, ◌≤◌, ◌<◌, ◌≡◌, ◌≢◌, inl, inr, refl, Bool, true, Bool-cases, Option, none,
  some, List, [], ◌∷◌, ◌++◌, ◌==◌, ltb, if◌then◌else◌, if_intro, arith,
}
use vehicle_bench_candidate.Log.{
  Logger, Line, Logs, Call, rank, Action, numbers, writes, act_all, take_number, write_line,
  write_found, line_by, behind, line_of,
}

abbrev pub one_if : ℕ → ℕ → ℕ
one_if k j = if k == j then 1 else 0

-- How many lines have the number `k`.
abbrev pub with_number : ℕ → List Line → ℕ
with_number k [] = 0
with_number k (l ∷ ls) = one_if k l.counter + with_number k ls

abbrev pub pending_with : ℕ → List (ℕ × Line) → ℕ
pending_with k [] = 0
pending_with k (e ∷ es) = one_if k e.1.counter + pending_with k es

-- How often `k` is among the `n` numbers after `c`.
abbrev pub issued : ℕ → ℕ → ℕ → ℕ
issued k c zero = 0
issued k c (suc n) = one_if k ((c + suc n) % 65536) + issued k c n

-- The number of calls that the level lets through, on top of `n`.
abbrev pub accepted : Logger → List Action → ℕ → ℕ
accepted lg [] n = n
accepted lg (numbers id c now uptime ∷ rest) n =
    accepted lg rest (if ltb (rank lg.min_level) (rank c.level) then n else suc n)
accepted lg (writes id ∷ rest) n = accepted lg rest n

with_number-append :
    (k : ℕ) (xs ys : List Line) → with_number k (xs ++ ys) ≡ with_number k xs + with_number k ys
with_number-append k [] ys = omega arith
with_number-append k (x ∷ xs) ys = omega (arith, with_number-append k xs ys)

pending_with-append :
    (k : ℕ) (xs ys : List (ℕ × Line))
    → pending_with k (xs ++ ys) ≡ pending_with k xs + pending_with k ys
pending_with-append k [] ys = omega arith
pending_with-append k (x ∷ xs) ys = omega (arith, pending_with-append k xs ys)

-- From `n` numbers given out after `c` on.
abbrev Numbered : ℕ → ℕ → ℕ → Logs → Type 0
Numbered k c n logs =
    (logs.counter ≡ (c + n) % 65536)
    × (with_number k logs.file + pending_with k logs.pending ≡ issued k c n)

module _ (is_space : ℕ → Bool) (lg : Logger) (k c : ℕ) where
  take_number-Numbered :
      (n id : ℕ) (call : Call) (now uptime : List ℕ) (logs : Logs)
      → Numbered k c n logs
      → Numbered k c
          (if ltb (rank lg.min_level) (rank call.level) then n else suc n)
          (take_number is_space lg id call now uptime logs)
  unfolding take_number
  take_number-Numbered n id call now uptime logs h =
      elim (Bool-cases (ltb (rank lg.min_level) (rank call.level))) [
        | inl above ↦ rw above h
        | inr below ↦
            let counter = (logs.counter + 1) % 65536 in
            let l = line_of is_space lg call now uptime counter in
            rw below (omega (arith, h.0), more l (omega (arith, h.0)))
      ]
    where
      same_number :
          (counter : ℕ)
          → counter ≡ (c + suc n) % 65536
          → one_if k counter ≡ one_if k ((c + suc n) % 65536)
      same_number counter e = rw e refl

      more :
          (l : Line)
          → l.counter ≡ (c + suc n) % 65536
          → with_number k logs.file + pending_with k (logs.pending ++ (id, l) ∷ [])
            ≡ issued k c (suc n)
      more l e =
          omega
            (arith, h.1, pending_with-append k logs.pending ((id, l) ∷ []), same_number l.counter e)

  abbrev Found : List (ℕ × Line) → Option (Line × List (ℕ × Line)) → Type 0
  Found es none = Unit
  Found es (some (l, rest)) = pending_with k es ≡ one_if k l.counter + pending_with k rest

  behind-Found :
      (e : ℕ × Line) (es : List (ℕ × Line)) (o : Option (Line × List (ℕ × Line)))
      → Found es o
      → Found (e ∷ es) (behind e o)
  behind-Found e es none h = tt
  behind-Found e es (some (l, rest)) h = omega (arith, h)

  line_by-Found : (id : ℕ) (es : List (ℕ × Line)) → Found es (line_by id es)
  line_by-Found id [] = tt
  line_by-Found id (e ∷ es) =
      if_intro (Found (e ∷ es)) (id == e.0) (some (e.1, es)) (behind e (line_by id es)) (λ _. refl)
        (λ _. behind-Found e es (line_by id es) (line_by-Found id es))

  write_found-Numbered :
      (n : ℕ) (o : Option (Line × List (ℕ × Line))) (logs : Logs)
      → lg.to_file ≡ true
      → Found logs.pending o
      → Numbered k c n logs
      → Numbered k c n (write_found lg o logs)
  write_found-Numbered n none logs on found h = h
  write_found-Numbered n (some (l, rest)) logs on found h =
      (h.0, rw on (omega (arith, h.1, found, with_number-append k logs.file (l ∷ []))))

  act_all-Numbered :
      (acts : List Action) (n : ℕ) (logs : Logs)
      → lg.to_file ≡ true
      → Numbered k c n logs
      → Numbered k c (accepted lg acts n) (act_all is_space lg acts logs)
  unfolding act_all write_line
  act_all-Numbered [] n logs on h = h
  act_all-Numbered (numbers id call now uptime ∷ rest) n logs on h =
      act_all-Numbered rest _ (take_number is_space lg id call now uptime logs) on
        (take_number-Numbered n id call now uptime logs h)
  act_all-Numbered (writes id ∷ rest) n logs on h =
      act_all-Numbered rest n (write_found lg (line_by id logs.pending) logs) on
        (write_found-Numbered n (line_by id logs.pending) logs on (line_by-Found id logs.pending) h)

-- No number comes back within 65536.
issued_none : (k c n j : ℕ) → k ≡ (c + n) % 65536 → j < n → n ≤ 65536 → issued k c j ≡ 0
issued_none k c n zero e lt near = refl
issued_none k c n (suc j) e lt near =
    let differs : k ≢ (c + suc j) % 65536 = λ q. absurd (omega (arith, q, e)) in
    let before = issued_none k c n j e (omega arith) near in ground (arith, differs, before)

issued_once : (k c n : ℕ) → n ≤ 65536 → issued k c n ≤ 1
issued_once k c zero h = omega arith
issued_once k c (suc n) h = elim (Bool-cases (k == (c + suc n) % 65536)) [
  | inl same ↦
      let none_before = issued_none k c (suc n) n (ground (arith, same)) (omega arith) h in
      rw same (omega (arith, none_before))
  | inr other ↦ rw other (omega (arith, issued_once k c n (omega arith)))
]

-- Threads log through a logger that writes to a file, in any order of their two steps, at most 65536
-- of their calls pass its level, and nothing was pending or written before. Then the counter has
-- moved on by as many, and in the file no number stands on two lines: each line there or pending has
-- one of the numbers given out, and each of these is on exactly as many lines.
pub numbers_once :
    (is_space : ℕ → Bool) (lg : Logger) (acts : List Action) (c k : ℕ)
    → lg.to_file ≡ true
    → accepted lg acts 0 ≤ 65536
    → c < 65536
    → let n = accepted lg acts 0 in
      let logs =
        act_all is_space lg acts (record { counter = c; pending = []; file = []; stdout = [] }) in
      (logs.counter ≡ (c + n) % 65536)
      × (with_number k logs.file + pending_with k logs.pending ≡ issued k c n)
      × (with_number k logs.file ≤ 1)
numbers_once is_space lg acts c k on few small =
    let n = accepted lg acts 0 in
    let (count, all) =
      act_all-Numbered is_space lg k c acts 0
        (record { counter = c; pending = []; file = []; stdout = [] }) on (omega arith, refl) in
    (count, all, omega (arith, all, issued_once k c n few))
