-- ===== src/Time/Laws.antt =====
-- src/psl_time_utils.c against plain arithmetic on nanoseconds.
use libpalmsocket.Base.{
  ℕ, ◌+◌, ◌-◌, ◌*◌, ◌/◌, ◌^◌, ◌≤◌, ◌<◌, ◌≡◌, some, ◌⊎◌, pos, negsuc, arith, ltb, if◌then◌else◌,
}
use libpalmsocket.Time.{
  Timespec, nanosec_per_sec, nanosec_per_millisec, normalize, add_timespec, is_earlier, minus,
  subtract_timespec_abs, compare_timespecs, convert_timespec_to_millisec, add_millisec_to_timespec,
}

-- The point in time, in nanoseconds.
abbrev pub nanosec : Timespec → ℕ
nanosec t = t.tv_sec * nanosec_per_sec + t.tv_nsec

abbrev pub IsNormal : Timespec → Type 0
IsNormal t = t.tv_nsec < nanosec_per_sec

pub normalize-IsNormal :
    (t : Timespec) → IsNormal (normalize t) × (nanosec (normalize t) ≡ nanosec t)
unfolding normalize
normalize-IsNormal t = ground arith

-- On normal times addition never fails an assertion, and adds up exactly to a normal time.
pub add_timespec-nanosec :
    (x y : Timespec)
    → IsNormal x
    → IsNormal y
    → (z : Timespec) × (add_timespec x y ≡ some z)
      × IsNormal z
      × (nanosec z ≡ nanosec x + nanosec y)
unfolding add_timespec
add_timespec-nanosec x y hx hy = (
  normalize (record { tv_sec = x.tv_sec + y.tv_sec; tv_nsec = x.tv_nsec + y.tv_nsec }),
  ground arith,
  ground arith,
  ground arith,
)

is_earlier-ltb :
    (x y : Timespec) → IsNormal x → IsNormal y → is_earlier x y ≡ ltb (nanosec x) (nanosec y)
is_earlier-ltb x y hx hy = ground arith

-- On normal times the subtraction is the distance of the two, normal again, and reports an underflow
-- exactly if the first is earlier.
pub subtract_timespec_abs-nanosec :
    (x y : Timespec)
    → IsNormal x
    → IsNormal y
    → (z : Timespec) × (subtract_timespec_abs x y ≡ some (z, ltb (nanosec x) (nanosec y)))
      × IsNormal z
      × (nanosec z ≡ (nanosec x - nanosec y) + (nanosec y - nanosec x))
unfolding subtract_timespec_abs
subtract_timespec_abs-nanosec x y hx hy = (
  if is_earlier x y then minus y x else minus x y,
  ground (arith, is_earlier-ltb x y hx hy),
  ground arith,
  ground arith,
)

-- On normal times the comparison gives the sign of the difference.
pub compare_timespecs-nanosec :
    (x y : Timespec)
    → IsNormal x
    → IsNormal y
    → ((compare_timespecs x y ≡ some (negsuc 0)) × (nanosec x < nanosec y))
      ⊎ ((compare_timespecs x y ≡ some (pos 0)) × (nanosec x ≡ nanosec y))
      ⊎ ((compare_timespecs x y ≡ some (pos 1)) × (nanosec y < nanosec x))
unfolding compare_timespecs
compare_timespecs-nanosec x y hx hy = ground arith

-- Within the range of an `int`, a normal time is converted to milliseconds rounded up, so a time that
-- is not zero never becomes zero.
pub convert_timespec_to_millisec-nanosec :
    (x : Timespec)
    → IsNormal x
    → nanosec x ≤ (2 ^ 31 - 1) * nanosec_per_millisec
    → convert_timespec_to_millisec x
      ≡ some (pos ((nanosec x + (nanosec_per_millisec - 1)) / nanosec_per_millisec))
unfolding convert_timespec_to_millisec
convert_timespec_to_millisec-nanosec x hx h = ground arith

-- Adding milliseconds to a normal time adds them exactly and leaves a normal time.
pub add_millisec_to_timespec-nanosec :
    (x : Timespec) (n : ℕ)
    → IsNormal x
    → (z : Timespec) × (add_millisec_to_timespec x n ≡ some z)
      × IsNormal z
      × (nanosec z ≡ nanosec x + n * nanosec_per_millisec)
unfolding add_millisec_to_timespec
add_millisec_to_timespec-nanosec x n hx = (
  normalize (record {
    tv_sec = x.tv_sec + n / 1000;
    tv_nsec = x.tv_nsec + (n - n / 1000 * 1000) * nanosec_per_millisec;
  }),
  ground arith,
  ground arith,
  ground arith,
)
