-- ===== src/Fsm/Io.antt =====
-- Reading, writing and shutting down a plaintext socket: src/psl_channel_fsm_plain.c.
-- The system calls are a parameter: `reads` and `writes` are the results of the successive calls.
use libpalmsocket.Base.{
  ℕ, ◌||◌, Option, none, some, List, [], ◌∷◌, ℤ, ltb, ◌==◌, if◌then◌else◌, ◌>>=◌, ◌^◌, ◌-◌, min,
}
use libpalmsocket.Errors.{PslError, failed, is_error, Errno, eintr, eagain, pslerror_from_errno}
use libpalmsocket.Inet.{Outcome, ok, err}
use libpalmsocket.Fsm.Types.{
  Status, success, error, GioStatus, gio_status_error, gio_status_normal, gio_status_eof,
  gio_status_again, shut_down, Fsm,
}
use libpalmsocket.Fsm.Transitions.{log, set_last_errno, set_last_error, goto_plain_shut}

abbrev pub ssize_max : ℕ
ssize_max = 2 ^ 63 - 1

-- The `do ... while (size < 0 && EINTR == errno)` loop over the results of the calls; `none` if the
-- calls that are given were all interrupted.
unfoldable pub until_not_interrupted : List (Outcome ℕ) → Option (Outcome ℕ)
until_not_interrupted [] = none
until_not_interrupted (err eintr ∷ rs) = until_not_interrupted rs
until_not_interrupted (r ∷ rs) = some r

abbrev pub replied : GioStatus → ℕ → Fsm → Fsm
replied s n f = record f { reply = record (f.reply) { gio_status = s; num = n } }

-- `switch (savederrno)`
abbrev pub io_failed : Errno → Fsm → Option (Fsm × Status)
io_failed eagain f = some (replied gio_status_again 0 f, success)
io_failed e f = set_last_errno e f >>= λ g. some (replied gio_status_error 0 g, error)

abbrev pub read_done : ℕ → Outcome ℕ → Fsm → Option (Fsm × Status)
read_done cnt (err e) f = io_failed e f
read_done cnt (ok size) f = some (
  replied (if ltb 0 size || (cnt == 0) then gio_status_normal else gio_status_eof) size f,
  success,
)

abbrev pub write_done : Outcome ℕ → Fsm → Option (Fsm × Status)
write_done (err e) f = io_failed e f
write_done (ok size) f = some (replied gio_status_normal size f, success)

-- `plain_handle_READ`: the results are those of `read` for at most `min cnt ssize_max` bytes.
unfoldable pub handle_read : (ℕ → List (Outcome ℕ)) → ℕ → Fsm → Option (Fsm × Status)
unfolding until_not_interrupted set_last_errno
handle_read reads cnt f =
    until_not_interrupted (reads (min cnt ssize_max)) >>= λ r. read_done cnt r f

-- `plain_handle_WRITE`
unfoldable pub handle_write : (ℕ → List (Outcome ℕ)) → ℕ → Fsm → Option (Fsm × Status)
unfolding until_not_interrupted set_last_errno
handle_write writes cnt f =
    until_not_interrupted (writes (min cnt ssize_max)) >>= λ r. write_done r f

-- `plain_shut_sock`: `shutdown` gives `success` where it returns 0.
unfoldable pub shut_sock : (ℤ → ℕ → Errno) → ℕ → Fsm → Fsm × PslError
unfolding pslerror_from_errno
shut_sock shutdown how f = (log (shut_down f.fd) f, pslerror_from_errno (shutdown f.fd how) failed)

-- `psl_chan_fsm_plain_shut_sock_and_goto_shut_on_success`
unfoldable pub shut_sock_and_goto_shut : (ℤ → ℕ → Errno) → ℕ → Fsm → Option (Fsm × Status)
unfolding shut_sock goto_plain_shut set_last_error
shut_sock_and_goto_shut shutdown how f =
    let (g, e) = shut_sock shutdown how f in
    if is_error e
    then (set_last_error e g >>= λ h. some (h, error))
    else (goto_plain_shut g >>= λ h. some (h, success))
