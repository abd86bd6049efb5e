-- ===== src/Errors/Laws.antt =====
-- What the error maps of src/psl_error_utils.c promise their callers.
use mathlib.Core.Option
use libpalmsocket.Base.{◌≡◌, ◌≢◌, ◌⊎◌, some, arith, true}
use libpalmsocket.Errors.{
  PslError, failed, wouldblock, inval, io, overflow, pipe, is_error, Errno, success,
  pslerror_from_errno, pslerror_from_connect_errno, giochanerror_from_pslerror,
  pslerror_from_giochanerror, pslgerror_from_pslerror, pslerror_from_gerror,
  giochangerror_from_pslerror,
}

-- An `errno` other than 0 never becomes PSL_ERR_NONE, provided the caller's default is an error.
pub pslerror_from_errno-is_error :
    (e : Errno) (d : PslError)
    → e ≢ success
    → is_error d ≡ true
    → is_error (pslerror_from_errno e d) ≡ true
unfolding pslerror_from_errno
pslerror_from_errno-is_error e d h k = ground arith

-- Every `errno` of `connect` other than 0 becomes an error, and none becomes PSL_ERR_WOULDBLOCK.
pub pslerror_from_connect_errno_lem :
    (e : Errno)
    → ((e ≡ success) ⊎ (is_error (pslerror_from_connect_errno e) ≡ true))
      × (pslerror_from_connect_errno e ≢ wouldblock)
unfolding pslerror_from_connect_errno
pslerror_from_connect_errno_lem e = ground arith

-- The four codes that glib has too; all others are PSL_ERR_FAILED there.
abbrev pub shared : PslError → PslError
shared inval = inval
shared io = io
shared overflow = overflow
shared pipe = pipe
shared _ = failed

-- A code put into a `GError` and read back: in libpalmsocket's own domain every error survives; in
-- glib's domain the four shared codes do and all others become PSL_ERR_FAILED, and putting such a
-- result through glib's codes once more changes nothing.
pub gerror_round_trip :
    (e : PslError)
    → is_error e ≡ true
    → (Option.map pslerror_from_gerror (pslgerror_from_pslerror e) ≡ some e)
      × (Option.map pslerror_from_gerror (giochangerror_from_pslerror e) ≡ some (shared e))
      × (Option.map pslerror_from_giochanerror (giochanerror_from_pslerror (shared e))
          ≡ some (shared e))
unfolding pslerror_from_gerror pslgerror_from_pslerror giochangerror_from_pslerror
    giochanerror_from_pslerror pslerror_from_giochanerror
gerror_round_trip e h = ground arith
