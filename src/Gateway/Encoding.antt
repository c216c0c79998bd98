-- ===== src/Gateway/Encoding.antt =====
-- How far the raw set point is from the temperature that was asked for (`encode_hvac_temp` of
-- env/ecu-gateway/gateway.py).
use text.Mathlib.TextEquality.{eq_iff}
use mathlib.Core.Option
use native.Mathlib.Nat.{div-add-mod, mod-lt, pow-suc}
use vehicle_bench_candidate.Base.{
  ℕ, zero, suc, ◌+◌, ◌-◌, ◌*◌, ◌/◌, ◌%◌, ◌^◌, ◌≤◌, ◌<◌, ◌≡◌, ◌≢◌, ◌⊎◌, inl, inr, arith,
}
use vehicle_bench_candidate.Base.Int.{ℤ, pos, negsuc}
use vehicle_bench_candidate.Base.Dyadic.{halved, trunc, round, nearest}
use vehicle_bench_candidate.Gateway.Types.{TcuCal}
use vehicle_bench_candidate.Gateway.Commands.{encode_hvac_temp}

-- The calibrated scale, which is also the default.
abbrev pub HasScaleTwo : TcuCal → Type 0
HasScaleTwo cal = Option.get_or cal.hvac_temp_scale (pos 2) ≡ pos 2

abbrev pub RoundsToHalf : TcuCal → Type 0
RoundsToHalf cal = Option.get_or cal.hvac_temp_quantize "floor_integer" ≡ "round_half"

abbrev pub Floors : TcuCal → Type 0
Floors cal = Option.get_or cal.hvac_temp_quantize "floor_integer" ≢ "round_half"

nearest-double : (n : ℕ) → nearest 2 (n * 2) ≡ n
unfolding nearest
nearest-double n = ground arith

-- With scale 2 and the mode `round_half`, every temperature that is a multiple of half a degree
-- is encoded exactly: its raw value is its number of half degrees, so `temp_raw_to_c` gives it
-- back.
pub encode_round_half :
    (cal : TcuCal) (h : ℤ)
    → HasScaleTwo cal
    → RoundsToHalf cal
    → encode_hvac_temp cal (halved h) ≡ h
unfolding encode_hvac_temp trunc round
encode_round_half cal (pos n) scale mode = rw (scale, mode) (ground (arith, nearest-double n))
encode_round_half cal (negsuc n) scale mode =
    rw (scale, mode) (ground (arith, nearest-double (suc n)))

-- With scale 2 and any other mode, also the default, a multiple `n` of half a degree, not
-- negative, is encoded as the even number at or below it: a half degree is lost exactly when `n`
-- is odd.
pub encode_floor :
    (cal : TcuCal) (n : ℕ)
    → HasScaleTwo cal
    → Floors cal
    → encode_hvac_temp cal (halved (pos n)) ≡ pos (n - n % 2)
unfolding encode_hvac_temp trunc round
encode_floor cal n scale mode =
    rw scale
      (ground (arith, eq_iff (Option.get_or cal.hvac_temp_quantize "floor_integer") "round_half"))

-- What `nearest` adds to the quotient is 0 or 1, as the remainder says.
nearest-cases :
    (w n : ℕ)
    → ((nearest w n ≡ n / w) × (2 * (n % w) ≤ w)) ⊎ ((nearest w n ≡ n / w + 1) × (w ≤ 2 * (n % w)))
unfolding nearest
nearest-cases w n = ground arith

nearest_bounds :
    (w n : ℕ) → 0 < w → (2 * n ≤ 2 * (nearest w n * w) + w) × (2 * (nearest w n * w) ≤ 2 * n + w)
nearest_bounds w n h = elim (nearest-cases w n) [
  | inl (e, r) ↦ rw e (omega (arith, div-add-mod n w))
  | inr (e, r) ↦ rw e (omega (arith, div-add-mod n w))
]

two-pow_pos : (s : ℕ) → 0 < 2 ^ s
two-pow_pos zero = omega arith
two-pow_pos (suc s) = rw (pow-suc 2 s) (omega (arith, two-pow_pos s))

-- With scale 2 and the mode `round_half`, a temperature `n / 2 ^ s` that is not negative is encoded
-- as a raw value that is not negative, at most half a raw unit, a quarter of a degree, away from it.
pub encode_round_half_bounds :
    (cal : TcuCal) (n s : ℕ)
    → HasScaleTwo cal
    → RoundsToHalf cal
    → (raw : ℕ) × (encode_hvac_temp cal (record { num = pos n; shift = s }) ≡ pos raw)
      × (2 * (n * 2) ≤ 2 * (raw * 2 ^ s) + 2 ^ s)
      × (2 * (raw * 2 ^ s) ≤ 2 * (n * 2) + 2 ^ s)
unfolding encode_hvac_temp round
encode_round_half_bounds cal n s scale mode =
    let (up, down) = nearest_bounds (2 ^ s) (n * 2) (two-pow_pos s) in
    (nearest (2 ^ s) (n * 2), rw (scale, mode) (ground arith), up, down)

-- With scale 2 and any other mode, a temperature `n / 2 ^ s` that is not negative is encoded as
-- twice its whole degrees: an even raw value, at most the temperature, and less than a degree
-- below it.
pub encode_floor_bounds :
    (cal : TcuCal) (n s : ℕ)
    → HasScaleTwo cal
    → Floors cal
    → (degrees : ℕ) × (encode_hvac_temp cal (record { num = pos n; shift = s }) ≡ pos (degrees * 2))
      × (degrees * 2 ^ s ≤ n)
      × (n < degrees * 2 ^ s + 2 ^ s)
unfolding encode_hvac_temp trunc
encode_floor_bounds cal n s scale mode = (
  n / 2 ^ s,
  rw scale
      (ground (arith, eq_iff (Option.get_or cal.hvac_temp_quantize "floor_integer") "round_half")),
  omega (arith, div-add-mod n (2 ^ s)),
  omega (arith, div-add-mod n (2 ^ s), mod-lt n (two-pow_pos s)),
)
