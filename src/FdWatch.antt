-- ===== src/FdWatch.antt =====
-- src/psl_multi_fd_watch.c: the GSource that watches several descriptors and a timeout.
-- glib is represented by what the source asks of it: `polls` are the descriptors whose poll records
-- are with `g_source_add_poll`; the hash table is an association list. The clock is an argument.
pub mod Conditions
pub mod Table
pub mod Invariant
pub mod Timer
pub mod Ready
mod Tests
use Conditions.{Condition, is_set, indicated, nothing}
use Table.{Desc, PollRec, lookup, add_or_update, remove, erase}
use libpalmsocket.Base.{
  ℕ, zero, suc, ◌≡◌, Bool, true, false, not, ◌&&◌, Option, none, some, List, [], ◌∷◌, ℤ, pos,
  negsuc, is_nonneg, leb_ℤ, eq_ℤ, leb, if◌then◌else◌, ◌>>=◌, ◌>>◌, psl_assert, length, ltb,
}
use libpalmsocket.Errors.{PslError, no_error, inval}
use libpalmsocket.Time.{
  Timespec, get_current_mono_time, add_millisec_to_timespec, subtract_timespec_abs,
  convert_timespec_to_millisec, compare_timespecs,
}

-- `PslMultiFdWatchSourceInfo_`; a timeout of `none` is MULTI_FD_WATCH_INFINITE_MSEC.
pub record Watch : Type 0 where
  pub restart_timer : Bool
  pub timeout_millisec : Option ℕ
  pub expiry : Timespec
  pub desc_table : List Desc
  pub cached_ready : List PollRec
  pub polls : List ℤ

-- `psl_multi_fd_watch_new`
unfoldable pub new : Watch
new = record {
  restart_timer = true;
  timeout_millisec = none;
  expiry = record { tv_sec = 0; tv_nsec = 0 };
  desc_table = [];
  cached_ready = [];
  polls = [];
}

-- `psl_multi_fd_watch_set_poll_timeout`
unfoldable pub set_poll_timeout : Watch → ℤ → Watch × PslError
set_poll_timeout w (pos n) =
    (record w { restart_timer = true; timeout_millisec = some n }, no_error)
set_poll_timeout w (negsuc zero) =
    (record w { restart_timer = true; timeout_millisec = none }, no_error)
set_poll_timeout w (negsuc (suc n)) = (w, inval)

-- `psl_multi_fd_watch_add_or_update_fd`; `g_new0` does not return NULL.
unfoldable pub add_or_update_fd : Watch → ℤ → Condition → Watch
add_or_update_fd w fd c = record w { desc_table = add_or_update fd c w.desc_table }

-- `psl_multi_fd_watch_get_fd_count`
unfoldable pub get_fd_count : Watch → ℕ
get_fd_count w = length w.desc_table

-- `g_source_remove_poll` of a record that was added
abbrev remove_poll : Desc → List ℤ → List ℤ
remove_poll d polls = if d.poll_added then erase d.fd polls else polls

abbrev remove_found : Watch → Option Desc → Watch × PslError
remove_found w none = (w, inval)
remove_found w (some d) =
    (record w { polls = remove_poll d w.polls; desc_table = remove d.fd w.desc_table }, no_error)

-- `psl_multi_fd_watch_remove_fd`
unfoldable pub remove_fd : Watch → ℤ → Watch × PslError
remove_fd w fd = remove_found w (lookup fd w.desc_table)

-- the loop of `psl_multi_fd_watch_reset` over the table, which it empties
pub remove_polls : List Desc → List ℤ → List ℤ
remove_polls [] polls = polls
remove_polls (d ∷ ds) polls = remove_polls ds (remove_poll d polls)

-- `psl_multi_fd_watch_reset`
unfoldable pub reset : Watch → Watch
unfolding remove_polls
reset w = record w {
  restart_timer = true;
  timeout_millisec = none;
  polls = remove_polls w.desc_table w.polls;
  desc_table = [];
}

-- The loop body of `multi_fd_watch_prepare` on one descriptor.
abbrev pub prepare_desc : Desc → Desc
prepare_desc d = record d { revents = nothing; poll_added = is_set d.events }

abbrev pub prepare_poll : Desc → List ℤ → List ℤ
prepare_poll d polls =
    if is_set d.events then if d.poll_added then polls else d.fd ∷ polls else remove_poll d polls

pub prepare_loop : List Desc → List ℤ → List Desc × List ℤ
prepare_loop [] polls = ([], polls)
prepare_loop (d ∷ ds) polls =
    let (ds', polls') = prepare_loop ds (prepare_poll d polls) in (prepare_desc d ∷ ds', polls')

-- What is left of the time until `expiry`, from its distance to now.
abbrev remaining : Timespec × Bool → Option ℤ
remaining (distance, true) = convert_timespec_to_millisec distance
remaining (distance, false) = some (pos 0)

-- The part of `multi_fd_watch_update_expiry_time` for a timeout that is not infinite. A clock that
-- fails leaves `expiry` as it was when the timer restarts, and is read uninitialised otherwise.
abbrev update_expiry : Watch → ℕ → Bool → Option Timespec → Option (Watch × ℤ)
update_expiry w t true now = do
  let base : Timespec = elim (get_current_mono_time now) [ none ↦ w.expiry | some n ↦ n ]
  e ← add_millisec_to_timespec base t
  some (record w { restart_timer = false; expiry = e }, pos t)
update_expiry w t false now = do
  n ← get_current_mono_time now
  d ← subtract_timespec_abs n w.expiry
  r ← remaining d
  some (w, r)

-- `multi_fd_watch_update_expiry_time`: the milliseconds left, -1 for ever
abbrev update_expiry_time : Watch → Option ℕ → Option Timespec → Option (Watch × ℤ)
update_expiry_time w none now = some (record w { restart_timer = false }, negsuc 0)
update_expiry_time w (some t) now = update_expiry w t w.restart_timer now

-- `multi_fd_watch_prepare`: the new state, the timeout for the poll, and whether it is ready at once
unfoldable pub prepare : Watch → Option Timespec → Option (Watch × ℤ × Bool)
unfolding prepare_loop
prepare w now = do
  let (table, polls) = prepare_loop w.desc_table w.polls
  let cleared : Watch = record w { desc_table = table; polls = polls }
  r ← update_expiry_time cleared cleared.timeout_millisec now
  some (r.0, r.1, eq_ℤ r.1 (pos 0))

-- `multi_fd_watch_is_timer_expired` on a timer that is not waiting to be restarted
abbrev timer_expired : Option ℕ → Timespec → Option Timespec → Option Bool
timer_expired none _ _ = some false
timer_expired (some _) expiry none = some false
timer_expired (some _) expiry (some n) = do c ← compare_timespecs n expiry; some (is_nonneg c)

unfoldable pub is_timer_expired : Watch → Option Timespec → Option Bool
is_timer_expired w now =
    psl_assert (not w.restart_timer)
    >> timer_expired w.timeout_millisec w.expiry (get_current_mono_time now)

-- the search of `multi_fd_watch_check` for a ready descriptor
pub any_ready : List Desc → Bool
any_ready [] = false
any_ready (d ∷ ds) = if is_set (indicated d.revents d.events) then true else any_ready ds

-- `multi_fd_watch_check`
unfoldable pub check : Watch → Option Timespec → Option Bool
unfolding is_timer_expired any_ready
check w now = is_timer_expired w now >>= λ e. some (if e then true else any_ready w.desc_table)

-- the loop of `multi_fd_watch_dispatch` that collects the ready descriptors
pub ready_recs : List Desc → List PollRec
ready_recs [] = []
ready_recs (d ∷ ds) =
    let rest = ready_recs ds in
    if is_set (indicated d.revents d.events)
    then record { fd = d.fd; req_events = d.events; ind_events = indicated d.revents d.events }
      ∷ rest
    else rest

-- `multi_fd_watch_dispatch` up to the user's callback: the records that it is called with, or `none`
-- where there is no callback and the source asks to be removed.
unfoldable pub dispatch : Watch → Bool → Watch × Option (List PollRec)
unfolding ready_recs
dispatch w false = (record w { restart_timer = true }, none)
dispatch w true = (
  record w { restart_timer = true; cached_ready = ready_recs w.desc_table },
  some (ready_recs w.desc_table),
)
