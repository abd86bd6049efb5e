-- ===== src/Time.antt =====
-- src/psl_time_utils.c: arithmetic on `struct timespec`.
-- The functions assert that both fields are non-negative, so a field is a natural number here. The
-- rest of each assertion, that the nanoseconds are below a second, is kept: `none` is its failure.
pub mod Laws
mod Tests
use libpalmsocket.Base.{
  ℕ, ◌+◌, ◌-◌, ◌*◌, ◌/◌, ◌<◌, Bool, true, false, ◌&&◌, ◌||◌, Option, none, some, ℤ, pos, negsuc,
  int32, ltb, ◌==◌, if◌then◌else◌, ◌>>=◌, ◌>>◌, psl_assert, ◌+ℤ◌, pos_part, neg_part,
}

abbrev pub nanosec_per_sec : ℕ
nanosec_per_sec = 1000000000

abbrev pub millisec_per_sec : ℕ
millisec_per_sec = 1000

abbrev pub nanosec_per_millisec : ℕ
nanosec_per_millisec = 1000000

pub record Timespec : Type 0 where
  pub tv_sec : ℕ
  pub tv_nsec : ℕ

-- `PSL_TIME_EC_VALIDATE_TIMESPEC_NORMALIZED_NON_NEGATIVE`
abbrev pub validate : Timespec → Option (Unit {0})
validate t = psl_assert (ltb t.tv_nsec nanosec_per_sec)

-- `psl_time_normalize_timespec`; the product is at most `tv_nsec`, so the subtraction is exact.
unfoldable pub normalize : Timespec → Timespec
normalize t =
    let add_sec = t.tv_nsec / nanosec_per_sec in
    if ltb 0 add_sec
    then record { tv_sec = t.tv_sec + add_sec; tv_nsec = t.tv_nsec - add_sec * nanosec_per_sec }
    else t

-- `psl_time_get_current_mono_time`: the argument is what `clock_gettime` gave, `none` for a failure.
unfoldable pub get_current_mono_time : Option Timespec → Option Timespec
get_current_mono_time none = none
get_current_mono_time (some t) = some (normalize t)

unfoldable pub add_timespec : Timespec → Timespec → Option Timespec
unfolding normalize
add_timespec x y = do
  validate x
  validate y
  some (normalize (record { tv_sec = x.tv_sec + y.tv_sec; tv_nsec = x.tv_nsec + y.tv_nsec }))

-- `x < y`, the test that subtraction and comparison share
abbrev pub is_earlier : Timespec → Timespec → Bool
is_earlier x y = ltb x.tv_sec y.tv_sec || (x.tv_sec == y.tv_sec && ltb x.tv_nsec y.tv_nsec)

-- One branch of the subtraction, `a - b` for `b <= a`: the borrow makes the nanoseconds non-negative
-- before they are stored, and takes one of the seconds.
abbrev pub minus : Timespec → Timespec → Timespec
minus a b =
    if ltb a.tv_nsec b.tv_nsec
    then record {
      tv_sec = a.tv_sec - b.tv_sec - 1;
      tv_nsec = a.tv_nsec + nanosec_per_sec - b.tv_nsec;
    }
    else record { tv_sec = a.tv_sec - b.tv_sec; tv_nsec = a.tv_nsec - b.tv_nsec }

-- `psl_time_subtract_timespec_abs`: the absolute difference, and whether it would underflow
unfoldable pub subtract_timespec_abs : Timespec → Timespec → Option (Timespec × Bool)
subtract_timespec_abs x y = do
  validate x
  validate y
  some (if is_earlier x y then (minus y x, true) else (minus x y, false))

-- `psl_time_compare_timespecs`
unfoldable pub compare_timespecs : Timespec → Timespec → Option ℤ
compare_timespecs x y = do
  validate x
  validate y
  some (
      if is_earlier x y
      then negsuc 0
      else if x.tv_sec == y.tv_sec && (x.tv_nsec == y.tv_nsec)
      then pos 0
      else pos 1)

-- `psl_time_convert_timespec_to_millisec`: the product goes into an `int`, as does the sum after it.
unfoldable pub convert_timespec_to_millisec : Timespec → Option ℤ
convert_timespec_to_millisec x = do
  validate x
  let temp = (x.tv_nsec + nanosec_per_millisec - 1) / nanosec_per_millisec
  some (int32 (x.tv_sec * millisec_per_sec + temp))

-- `psl_time_add_millisec_to_timespec`; the assertion on the sign of the count is its type here.
unfoldable pub add_millisec_to_timespec : Timespec → ℕ → Option Timespec
unfolding normalize
add_millisec_to_timespec x num = do
  validate x
  let add_sec = num / millisec_per_sec
  let rem = num - add_sec * millisec_per_sec
  some (
      normalize
        (record { tv_sec = x.tv_sec + add_sec; tv_nsec = x.tv_nsec + rem * nanosec_per_millisec }))
