-- ===== src/FdWatch/Tests.antt =====
-- Runs of the file-descriptor watch of src/psl_multi_fd_watch.c.
use libpalmsocket.Base.{
  ◌≡◌, ◌≢◌, ◌⊎◌, refl, true, false, none, some, [], ◌∷◌, ℤ, pos, negsuc, ◌>>=◌, arith,
}
use libpalmsocket.Time.{Timespec, get_current_mono_time, normalize, compare_timespecs}
use libpalmsocket.FdWatch.{Watch, new, add_or_update_fd, prepare, is_timer_expired, check, dispatch}
use libpalmsocket.FdWatch.Conditions.{nothing, only_out}
use libpalmsocket.FdWatch.Table.{has, lookup, count, add_or_update}
use libpalmsocket.FdWatch.Invariant.{
  IsValid, wanted, new-IsValid, add_or_update_fd-IsValid, prepare-IsValid,
}
use libpalmsocket.FdWatch.Timer.{IsRunning, prepare-IsRunning}
use libpalmsocket.FdWatch.Ready.{recs_of, dispatch_lem, check-dispatch}

-- a watch on the descriptors 3 and 5
abbrev two_fds : Watch
two_fds = add_or_update_fd (add_or_update_fd new (pos 3) only_out) (pos 5) nothing

two_fds-IsValid : IsValid two_fds
two_fds-IsValid =
    add_or_update_fd-IsValid (pos 5) nothing (add_or_update_fd-IsValid (pos 3) only_out new-IsValid)

abbrev noon : Timespec
noon = record { tv_sec = 100; tv_nsec = 500000000 }

-- the same after `prepare`
abbrev prepared : Watch
prepared = record {
  restart_timer = false;
  timeout_millisec = none;
  expiry = record { tv_sec = 0; tv_nsec = 0 };
  desc_table =
      record { fd = pos 3; events = only_out; revents = nothing; poll_added = true }
      ∷ record { fd = pos 5; events = nothing; revents = nothing; poll_added = false }
      ∷ [];
  cached_ready = [];
  polls = pos 3 ∷ [];
}

two_fds_run : prepare two_fds (some noon) ≡ some (prepared, negsuc 0, false)
unfolding prepare add_or_update_fd add_or_update new
two_fds_run = refl

prepare-IsValid_example :
    IsValid prepared × ((k : ℤ) → count k prepared.polls ≡ wanted k two_fds.desc_table)
prepare-IsValid_example = prepare-IsValid (some noon) two_fds-IsValid two_fds_run

prepared-IsValid_run : IsValid prepared
prepared-IsValid_run = (prepare-IsValid (some noon) two_fds-IsValid two_fds_run).0

-- a timeout of 250 ms that has not started yet
abbrev starting : Watch
starting = record prepared { restart_timer = true; timeout_millisec = some 250 }

-- the same under way, until 250 ms past noon
abbrev running : Watch
running = record prepared {
  timeout_millisec = some 250;
  expiry = record { tv_sec = 100; tv_nsec = 750000000 };
}

running-IsRunning : IsRunning running 250
running-IsRunning = record { started = refl; timeout = refl; normal = omega arith }

prepare-IsRunning_example :
    (w' : Watch) × (prepare running (some noon) ≡ some (w', pos 250, false))
    × IsRunning w' 250
    × (w'.expiry ≡ running.expiry)
prepare-IsRunning_example = prepare-IsRunning running-IsRunning noon (omega arith)

-- the descriptor 3 has become writeable
abbrev fired : Watch
fired = record running {
  desc_table =
      record { fd = pos 3; events = only_out; revents = only_out; poll_added = true }
      ∷ record { fd = pos 5; events = nothing; revents = nothing; poll_added = false }
      ∷ [];
}

dispatch_lem_example :
    ((dispatch fired true).1 >>= λ recs. some (recs_of (pos 3) recs))
    ≡ some (record { fd = pos 3; req_events = only_out; ind_events = only_out } ∷ [])
unfolding has lookup
dispatch_lem_example = dispatch_lem fired (pos 3) (refl, (refl, tt))

fired-check : check fired (some noon) ≡ some true
unfolding check get_current_mono_time compare_timespecs normalize
fired-check = refl

fired_timer : is_timer_expired fired (some noon) ≡ some false
unfolding is_timer_expired get_current_mono_time compare_timespecs normalize
fired_timer = refl

check-dispatch_example :
    ((true ≡ true) × ((false ≡ true) ⊎ ((dispatch fired true).1 ≢ some [])))
    ⊎ ((true ≡ false) × (false ≡ false) × ((dispatch fired true).1 ≡ some []))
check-dispatch_example = check-dispatch fired (some noon) fired-check fired_timer
