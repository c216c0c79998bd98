-- ===== src/Adb/Choice.antt =====
-- What a client gets for the services it may ask for (`AdbConnection.serve` of
-- env/ecu-gateway/adbd.py).
use vehicle_bench_candidate.Base.{ℕ, ◌≡◌, ◌≢◌, refl, false, List, [], ◌∷◌, ◌++◌, All, arith}
use vehicle_bench_candidate.Base.Texts.{occurs_in}
use vehicle_bench_candidate.Adb.Sync.{same_bytes}
use vehicle_bench_candidate.Adb.Services.{
  shell_v2, shell_v1, exec_prefix, pty, before_colon, after_colon, shell, choose,
}

before_colon-append :
    (xs ys : List ℕ) → All (λ c. c ≢ b':') xs → before_colon (xs ++ b':' ∷ ys) ≡ xs
before_colon-append [] ys h = refl
before_colon-append (x ∷ xs) ys h = ground (arith, h.0, before_colon-append xs ys h.1)

after_colon-append : (xs ys : List ℕ) → All (λ c. c ≢ b':') xs → after_colon (xs ++ b':' ∷ ys) ≡ ys
after_colon-append [] ys h = refl
after_colon-append (x ∷ xs) ys h = ground (arith, h.0, after_colon-append xs ys h.1)

-- The three ways to ask for a shell. `shell,<features>:<command>`, with features that have no colon,
-- runs the command as it stands, colons included, with a terminal exactly if the features name
-- `pty`; `shell:<command>` has a terminal exactly if there is no command, and `exec:<command>` none.
pub choose-shell :
    (features command : List ℕ)
    → All (λ c. c ≢ b':') features
    → (choose (shell_v2 ++ (features ++ b':' ∷ command))
        ≡ shell command (occurs_in pty (shell_v2 ++ features)))
      × (choose (shell_v1 ++ command) ≡ shell command (same_bytes command []))
      × (choose (exec_prefix ++ command) ≡ shell command false)
unfolding choose
choose-shell features command plain = (
  λ i.
      shell (after_colon-append features command plain i)
        (occurs_in pty (before_colon-append features command plain i)),
  old_shell command,
  refl,
)
  where
    old_shell :
        (command : List ℕ) → choose (shell_v1 ++ command) ≡ shell command (same_bytes command [])
    old_shell [] = refl
    old_shell (c ∷ cs) = refl
