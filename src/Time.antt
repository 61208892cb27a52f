-- ===== src/Time.antt =====
-- src/utilities/utils_time.c: times since the start in the PSAS format, six bytes of nanoseconds.
use av3_fc.Base.Int.{ℤ, pos, negsuc, ◌-ℤ◌}
use av3_fc.Base.{
  ℕ, ◌+◌, ◌-◌, ◌*◌, ◌/◌, ◌%◌, ◌^◌, ◌≤◌, ◌<◌, [], ◌∷◌, ◌≡◌, refl, arith, get_or, length,
}
use av3_fc.Base.Bytes.{Bytes}

-- `struct timespec`
pub record Timespec : Type 0 where
  pub tv_sec : ℤ
  pub tv_nsec : ℤ

-- The conversion of a signed number to `uint64_t`.
abbrev pub to_u64 : ℤ → ℕ
to_u64 (pos n) = n % 2 ^ 64
to_u64 (negsuc n) = 2 ^ 64 - 1 - n % 2 ^ 64

-- `now` of `to_psas_time`, in 64-bit arithmetic.
elapsed : Timespec → Timespec → ℕ
unfolding ◌-ℤ◌
elapsed starttime ts =
    (to_u64 (ts.tv_nsec -ℤ starttime.tv_nsec)
      + to_u64 (ts.tv_sec -ℤ starttime.tv_sec) * 1_000_000_000)
    % 2 ^ 64

-- The six bytes of a `uint64_t`, the highest two left out.
abbrev time_bytes : ℕ → Bytes
time_bytes now =
    (now / 2 ^ 40 % 256)
    ∷ (now / 2 ^ 32 % 256)
    ∷ (now / 2 ^ 24 % 256)
    ∷ (now / 2 ^ 16 % 256)
    ∷ (now / 2 ^ 8 % 256)
    ∷ (now % 256)
    ∷ []

-- `to_psas_time`; `starttime` is the global that `utils_time_init` sets.
unfoldable pub to_psas_time : Timespec → Timespec → Bytes
unfolding elapsed
to_psas_time starttime ts = time_bytes (elapsed starttime ts)

pub length-to_psas_time : (start ts : Timespec) → length (to_psas_time start ts) ≡ 6
unfolding to_psas_time
length-to_psas_time start ts = refl

-- With what `clock_gettime` gives: `starttime`, and the time in the PSAS format.
unfoldable pub utils_time_init : Timespec → Timespec
utils_time_init now = now

unfoldable pub get_psas_time : Timespec → Timespec → Bytes
unfolding to_psas_time
get_psas_time starttime now = to_psas_time starttime now

-- One round `(time << 8) | b`.
abbrev shift_in : ℕ → ℕ → ℕ
shift_in time b = (time * 2 ^ 8 + b) % 2 ^ 64

unfoldable pub from_psas_time : Bytes → ℕ
from_psas_time b =
    shift_in
      (shift_in
        (shift_in (shift_in (shift_in (get_or b 0 0) (get_or b 1 0)) (get_or b 2 0)) (get_or b 3 0))
        (get_or b 4 0))
      (get_or b 5 0)

-- Nanoseconds of a time with both fields counted from 0.
abbrev pub total_ns : ℕ → ℕ → ℕ
total_ns sec nsec = sec * 1_000_000_000 + nsec

from_psas_time-time_bytes : (now : ℕ) → from_psas_time (time_bytes now) ≡ now % 2 ^ 48
unfolding from_psas_time
from_psas_time-time_bytes now = omega arith

-- `elapsed` at times counted from 0, the later one second.
abbrev pub at : ℕ → ℕ → Timespec
at sec nsec = record { tv_sec = pos sec; tv_nsec = pos nsec }

elapsed_lem :
    (s0 n0 s n : ℕ)
    → n0 < 1_000_000_000
    → n < 1_000_000_000
    → total_ns s0 n0 ≤ total_ns s n
    → elapsed (at s0 n0) (at s n) ≡ (total_ns s n - total_ns s0 n0) % 2 ^ 64
unfolding elapsed
elapsed_lem s0 n0 s n h0 h le = ground arith

-- For a time that is not before the start, both with fewer than 10^9 in the nanosecond field, the
-- six bytes read back as the nanoseconds between the two, modulo 2^48, also where the nanosecond
-- field is the smaller one and the difference of the fields is negative.
pub from_psas_time-to_psas_time :
    (s0 n0 s n : ℕ)
    → n0 < 1_000_000_000
    → n < 1_000_000_000
    → total_ns s0 n0 ≤ total_ns s n
    → from_psas_time (to_psas_time (at s0 n0) (at s n)) ≡ (total_ns s n - total_ns s0 n0) % 2 ^ 48
unfolding to_psas_time
from_psas_time-to_psas_time s0 n0 s n h0 h le =
    omega (
      arith,
      from_psas_time-time_bytes (elapsed (at s0 n0) (at s n)),
      elapsed_lem s0 n0 s n h0 h le,
    )

-- The clock is read at the start and later: the time is what went by in between.
pub get_psas_time-utils_time_init :
    (s0 n0 s n : ℕ)
    → n0 < 1_000_000_000
    → n < 1_000_000_000
    → total_ns s0 n0 ≤ total_ns s n
    → from_psas_time (get_psas_time (utils_time_init (at s0 n0)) (at s n))
      ≡ (total_ns s n - total_ns s0 n0) % 2 ^ 48
unfolding get_psas_time utils_time_init
get_psas_time-utils_time_init = from_psas_time-to_psas_time
