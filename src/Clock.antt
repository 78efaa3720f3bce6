-- ===== src/Clock.antt =====
-- Go's `time.Time`, `time.Duration` and `int` as the program uses them. An instant is the number
-- of nanoseconds since the zero value of `time.Time`. A duration and an `int` are 64-bit words in
-- two's complement, kept as the number below 2^64 with the same bits.
use Prim.Native.Nat.{min}
use jobx.Prelude.{ℕ, ◌+◌, ◌-◌, ◌*◌, ◌%◌, ◌^◌, Bool, ltb, leb, ◌==◌, if◌then◌else◌}

abbrev pub Time : Type 0
Time = ℕ

abbrev pub Word : Type 0
Word = ℕ

abbrev pub Duration : Type 0
Duration = Word

-- `d < 0`.
abbrev pub is_negative : Word → Bool
is_negative d = leb (2 ^ 63) d

-- `t.IsZero()`.
abbrev pub is_zero : Time → Bool
is_zero t = t == 0

-- `t.After(u)` and `t.Before(u)`.
abbrev pub is_after : Time → Time → Bool
is_after t u = ltb u t

abbrev pub is_before : Time → Time → Bool
is_before t u = ltb t u

-- `t.Add(d)`; instants before the zero value are not represented.
unfoldable pub add_duration : Time → Duration → Time
add_duration t d = if is_negative d then t + d - 2 ^ 64 else t + d

-- `d << k` on an int64.
unfoldable pub shift_left : Duration → ℕ → Duration
shift_left d k = (d * 2 ^ k) % 2 ^ 64

-- `t.Sub(u)`, which saturates.
unfoldable pub sub_time : Time → Time → Duration
sub_time t u = if ltb t u then 2 ^ 64 - min (u - t) (2 ^ 63) else min (t - u) (2 ^ 63 - 1)
