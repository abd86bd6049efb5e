-- ===== src/Time/Tests.antt =====
-- Runs of the calculations of src/psl_time_utils.c.
use libpalmsocket.Base.{◌≡◌, some, pos, arith}
use libpalmsocket.Time.{Timespec, convert_timespec_to_millisec}
use libpalmsocket.Time.Laws.{convert_timespec_to_millisec-nanosec}

abbrev early : Timespec
early = record { tv_sec = 3; tv_nsec = 900000001 }

abbrev late : Timespec
late = record { tv_sec = 5; tv_nsec = 100000000 }

convert_timespec_to_millisec-nanosec_example : convert_timespec_to_millisec early ≡ some (pos 3901)
convert_timespec_to_millisec-nanosec_example =
    convert_timespec_to_millisec-nanosec early (omega arith) (omega arith)
