-- ===== src/Base/Texts.antt =====
-- Python's `startswith` and `in` on texts, as lists of numbers.
use Prim.Native.Nat.{ℕ}
use mathlib.Core.Bool.{Bool, true, false, ◌&&◌, ◌||◌}
use mathlib.Core.List.{List, [], ◌∷◌}
use vehicle_bench_candidate.Base.Tests.{◌==◌}

abbrev pub starts_with : List ℕ → List ℕ → Bool
starts_with [] xs = true
starts_with (p ∷ ps) [] = false
starts_with (p ∷ ps) (x ∷ xs) = p == x && starts_with ps xs

abbrev pub occurs_in : List ℕ → List ℕ → Bool
occurs_in part [] = starts_with part []
occurs_in part (x ∷ xs) = starts_with part (x ∷ xs) || occurs_in part xs
