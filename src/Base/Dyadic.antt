-- ===== src/Base/Dyadic.antt =====
-- Finite Python floats: every finite double is `num / 2 ^ shift`. Infinities and NaN are left out.
-- Scaling is exact, as it is in the program for a scale that is a power of two (2 is calibrated).
use Prim.Native.Nat.{ℕ, ◌+◌, ◌*◌, ◌/◌, ◌%◌, ◌^◌}
use mathlib.Core.Path.{◌≡◌}
use mathlib.Core.Bool.{Bool}
use vehicle_bench_candidate.Base.Tests.{ltb, if◌then◌else◌}
use vehicle_bench_candidate.Base.Int.{ℤ, pos, ◌*ℤ◌, leb_ℤ, on_magnitude}

pub record Dyadic : Type 0 where
  pub num : ℤ
  pub shift : ℕ

-- `a == b` on floats: the same value.
infix 50 ◌≈◌
abbrev pub ◌≈◌ : Dyadic → Dyadic → Type 0
a ≈ b = a.num *ℤ pos (2 ^ b.shift) ≡ b.num *ℤ pos (2 ^ a.shift)

abbrev pub whole : ℤ → Dyadic
whole n = record { num = n; shift = 0 }

-- `raw / 2.0`
abbrev pub halved : ℤ → Dyadic
halved raw = record { num = raw; shift = 1 }

-- `k <= d` and `d <= k` for a whole `k`.
abbrev pub at_least : Dyadic → ℕ → Bool
at_least d k = leb_ℤ (pos (k * 2 ^ d.shift)) d.num

abbrev pub at_most : Dyadic → ℕ → Bool
at_most d k = leb_ℤ d.num (pos (k * 2 ^ d.shift))

abbrev pub scaled : Dyadic → ℤ → Dyadic
scaled d k = record { num = d.num *ℤ k; shift = d.shift }

-- `int(d)`: towards zero.
unfoldable pub trunc : Dyadic → ℤ
trunc d = on_magnitude (λ n. n / 2 ^ d.shift) d.num

-- `n / w` to the nearest whole number, a tie to the even one.
unfoldable pub nearest : ℕ → ℕ → ℕ
nearest w n =
    let q = n / w in
    let r = 2 * (n % w) in if ltb r w then q else if ltb w r then q + 1 else q + q % 2

-- `round(d)`
unfoldable pub round : Dyadic → ℤ
unfolding nearest
round d = on_magnitude (nearest (2 ^ d.shift)) d.num
