-- ===== src/Replay/Clock/Examples.antt =====
-- The conversion of times at concrete microseconds.
use systeme_local.Prelude.{◌≡◌, refl}
use systeme_local.Replay.Clock.{
  datetime_to_microseconds, timestamp, to_float, round_half_even, scale_up, scale_down,
}

-- Microseconds in 2026 are kept, and two of them in 2039 become one.
kept : datetime_to_microseconds 1_774_000_000_123_457 ≡ 1_774_000_000_123_457
unfolding datetime_to_microseconds timestamp to_float round_half_even scale_up scale_down
kept = refl

collapsed :
    datetime_to_microseconds 2_177_452_800_000_002 ≡ datetime_to_microseconds 2_177_452_800_000_003
unfolding datetime_to_microseconds timestamp to_float round_half_even scale_up scale_down
collapsed = refl

pub ten : datetime_to_microseconds 10 ≡ 10
unfolding datetime_to_microseconds timestamp to_float round_half_even scale_up scale_down
ten = refl
