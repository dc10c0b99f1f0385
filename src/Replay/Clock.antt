-- ===== src/Replay/Clock.antt =====
-- `_datetime_to_microseconds` of src/systeme_local_gateway/auth.py: `int(value.timestamp() *
-- 1_000_000)`, whose two operations round to a binary float of 53 bits. Times are microseconds since
-- 1970.
pub mod Examples
use Prim.Native.Nat.{◌/◌, ◌%◌, ◌^◌}
use systeme_local.Prelude.{ℕ, zero, suc, ◌+◌, ◌*◌, ltb, leb, if◌then◌else◌}

-- The value of a float.
record Fraction : Type 0 where
  numerator : ℕ
  denominator : ℕ

-- the nearest whole number to n / d, and of two the even one
round_half_even : ℕ → ℕ → ℕ
round_half_even n d =
    let q = n / d in
    let twice = 2 * (n % d) in if ltb twice d then q else if ltb d twice then q + 1 else q + q % 2

-- The least power of 2, from p on, by which n / d has 53 bits before the point. The fuel of 80
-- doublings is enough for a value from 2 ^ -28 on, and 0 is 0 with any denominator.
scale_up : ℕ → ℕ → ℕ → ℕ → ℕ
scale_up zero p n d = p
scale_up (suc fuel) p n d =
    let rest = scale_up fuel (2 * p) n d in if leb (2 ^ 52 * d) (n * p) then p else rest

-- The least power of 2, from p on, by which n is divided to have at most 53 bits before the point.
scale_down : ℕ → ℕ → ℕ → ℕ → ℕ
scale_down zero p n d = p
scale_down (suc fuel) p n d =
    let rest = scale_down fuel (2 * p) n d in if ltb n (2 ^ 53 * (d * p)) then p else rest

-- the float nearest to n / d
to_float : ℕ → ℕ → Fraction
unfolding round_half_even scale_up scale_down
to_float n d =
    if ltb n (2 ^ 53 * d)
    then (let p = scale_up 80 1 n d in
        record { numerator = round_half_even (n * p) d; denominator = p })
    else (let p = scale_down 80 1 n d in
        record { numerator = round_half_even n (d * p) * p; denominator = 1 })

-- `value.timestamp()`: the microseconds divided by a million
timestamp : ℕ → Fraction
unfolding to_float
timestamp value = to_float value 1_000_000

pub datetime_to_microseconds : ℕ → ℕ
unfolding timestamp to_float
datetime_to_microseconds value =
    let seconds = timestamp value in
    let product = to_float (seconds.numerator * 1_000_000) seconds.denominator in
    product.numerator / product.denominator
