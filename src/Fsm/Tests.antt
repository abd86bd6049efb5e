-- ===== src/Fsm/Tests.antt =====
-- Runs of the channel's state machine: setting up, connecting, transfers and closing.
mod Dispatch
use libpalmsocket.Base.{
  eq_ℤ, if◌then◌else◌, ℕ, ◌<◌, ◌+◌, ◌≡◌, ◌≢◌, ◌⊎◌, inl, inr, refl, Bool, true, false, Option, some,
  none, List, [], ◌∷◌, ℤ, pos, negsuc, ltb, arith,
}
use libpalmsocket.Errors.{
  PslError, no_error, is_error, Errno, failed, pslerror_from_errno, pslerror_from_connect_errno,
}
use libpalmsocket.FdWatch.{new, reset, add_or_update_fd}
use libpalmsocket.FdWatch.Conditions.{only_out, has_failure}
use libpalmsocket.FdWatch.Table.{PollRec}
use libpalmsocket.Inet.{Outcome, ok, err, make_fd_non_blocking, connect_sock, make_sock_addr}
use libpalmsocket.Fsm.Types.{
  Status, success, error, not_handled, StateId, init, plain_conn, plain_tcp, plain_shut,
  hint_not_ready, BeginArg, plain_conn_arg, Event, begin, enter_scope, user, UserEvent, fd_watch,
  check_io, set_conn_fd, connect, Fsm, closed_fd_value, CompletionCb, no_cb, completion_cb, Call,
  user_callback, opened, closed_fd, shut_down,
}
use libpalmsocket.Fsm.Transitions.{begin_transition}
use libpalmsocket.Fsm.Sme.{
  Run, RawEvent, raw_begin, Engine, Handlers, default_state_evt_handler, dispatch_event,
  system_done, state_index,
}
use libpalmsocket.Fsm.Main.{init_handler, closed_handler, final_handler, alive_handler}
use libpalmsocket.Fsm.Io.{handle_read, handle_write, shut_sock_and_goto_shut}
use libpalmsocket.Fsm.Conn.{plain_conn_handler, connect_error}
use libpalmsocket.Fsm.Callbacks.{fd_watch_cb}
use libpalmsocket.Fsm.Ready.{IsReady}
use libpalmsocket.Fsm.Setup.{
  IsSetup, NoTarget, FdTarget, ServerTarget, init_connect_lem, init_handler-IsSetup,
}
use libpalmsocket.Fsm.Descriptors.{
  opens, closes, IsBalanced, plain_conn_handler-IsBalanced, closed_handler-released,
  init_handler-IsBalanced,
}
use libpalmsocket.Fsm.Configured.{IsConfigured}
use libpalmsocket.Fsm.Delivery.{default_state_evt_handler-begin_transition}
use libpalmsocket.Fsm.Closing.{fd_watch_cb_lem, final_handler-closed_handler}
use libpalmsocket.Fsm.Transfer.{
  handle_read_lem, handle_write_lem, shut_sock_and_goto_shut_lem, ReadAnswer, WriteAnswer,
}
use libpalmsocket.Fsm.Connecting.{
  fd_watch_lem, connect_error_lem, IsWatching, FailedWith, Established, status_of,
}
use libpalmsocket.Fsm.Fixtures.{sys, plain_args, some_addr, fresh, connecting, writeable}

fresh-IsReady : IsReady fresh
fresh-IsReady = record { dispatching = refl; no_request = refl }

-- Connecting

connecting-IsWatching : IsWatching connecting
connecting-IsWatching = record {
  in_cb = refl;
  none_due = refl;
  ready = record { dispatching = refl; no_request = refl };
}

fd_watch_lem_example :
    (g : Fsm) × (s : Status) × (plain_conn_handler sys (user (fd_watch (writeable ∷ []))) connecting
      ≡ some (g, s))
    × (((s ≡ error) × FailedWith (status_of sys (writeable ∷ []) connecting) plain_args g)
        ⊎ ((s ≡ success)
            × (status_of sys (writeable ∷ []) connecting ≡ no_error)
            × Established plain_args connecting g))
fd_watch_lem_example =
    fd_watch_lem sys (writeable ∷ []) connecting new refl connecting-IsWatching
      (inr (writeable, refl, refl))

connect_error_lem_example :
    ((connect_error sys writeable connecting ≡ no_error)
      × (sys.get_so_error (pos 7) ≡ ok Errno.success)
      × (true ≡ true)
      × (has_failure only_out ≡ false))
    ⊎ ((is_error (connect_error sys writeable connecting) ≡ true)
        × ((sys.get_so_error (pos 7) ≢ ok Errno.success)
            ⊎ ((true ≡ false) ⊎ (has_failure only_out ≡ true))))
connect_error_lem_example = connect_error_lem sys writeable connecting refl

-- Descriptors

-- no descriptor of the user's
abbrev nothing_given : ℤ → ℕ
nothing_given d = 0

fresh-IsBalanced : IsBalanced nothing_given fresh
unfolding opens closes
fresh-IsBalanced = record { balance = λ d. ground arith; kept_by_user = inl refl }

connecting-IsBalanced : IsBalanced nothing_given connecting
unfolding opens closes
connecting-IsBalanced = record { balance = λ d. ground arith; kept_by_user = inl refl }

-- CONN has begun: a socket is made, and awaited.
abbrev awaiting : Fsm
awaiting = record fresh {
  fd = pos 7;
  conn_args = plain_args;
  conn_addr = some_addr;
  watch = some (add_or_update_fd (reset new) (pos 7) only_out);
  calls = opened (pos 7) ∷ [];
}

begun_run :
    plain_conn_handler sys (begin (some (plain_conn_arg plain_args some_addr))) fresh
    ≡ some (awaiting, success)
unfolding plain_conn_handler make_fd_non_blocking connect_sock make_sock_addr
begun_run = refl

plain_conn_handler-IsBalanced_example :
    IsBalanced nothing_given awaiting × IsConfigured sys fresh awaiting
plain_conn_handler-IsBalanced_example =
    plain_conn_handler-IsBalanced sys (begin (some (plain_conn_arg plain_args some_addr)))
      nothing_given fresh (inl refl) fresh-IsBalanced begun_run

abbrev closed_now : Fsm
closed_now = record connecting {
  fd = closed_fd_value;
  fsm_closed = true;
  calls = closed_fd (pos 7) ∷ shut_down (pos 7) ∷ opened (pos 7) ∷ [];
}

closed_run : closed_handler enter_scope connecting ≡ some (closed_now, success)
unfolding closed_handler
closed_run = refl

closed_handler-released_example :
    ((d : ℤ) → closes d closed_now.calls ≡ opens d closed_now.calls + 0)
    × (closed_now.fd ≡ closed_fd_value)
    × IsBalanced nothing_given closed_now
closed_handler-released_example =
    closed_handler-released nothing_given connecting connecting-IsBalanced closed_run

final_handler-closed_handler_example :
    (h : Fsm) × (final_handler enter_scope closed_now ≡ some (h, success))
    × (h.fsm_finalized ≡ true)
    × (h.fd ≡ closed_fd_value)
    × (h.watch ≡ none)
    × (h.holds_thread_ctx ≡ false)
final_handler-closed_handler_example = final_handler-closed_handler connecting closed_run

-- Setting up

abbrev given : Fsm
given = record fresh {
  fd = pos 9;
  settings = record (fresh.settings) { fd_is_user_provided = true };
}

given_run : init_handler (user (set_conn_fd (pos 9) false)) fresh ≡ some (given, success)
unfolding init_handler
given_run = refl

init_handler-IsBalanced_example : IsBalanced (λ d. 0 + (if eq_ℤ (pos 9) d then 1 else 0)) given
init_handler-IsBalanced_example =
    init_handler-IsBalanced (user (set_conn_fd (pos 9) false)) nothing_given fresh fresh-IsBalanced
      given_run

fresh-IsSetup : IsSetup fresh
fresh-IsSetup = record { exclusive = inl refl; provided = refl }

init_handler-IsSetup_example : IsSetup given
init_handler-IsSetup_example =
    init_handler-IsSetup (user (set_conn_fd (pos 9) false)) fresh fresh-IsSetup given_run

given-IsReady : IsReady given
given-IsReady = record { dispatching = refl; no_request = refl }

init_connect_lem_example :
    (g : Fsm) × (s : Status) × (init_handler (user (connect plain_args)) given ≡ some (g, s))
    × (NoTarget given g s ⊎ (FdTarget plain_args given g s ⊎ ServerTarget plain_args given g s))
init_connect_lem_example = init_connect_lem plain_args given given-IsReady

-- Reading, writing and shutting down

handle_read_lem_example :
    (g : Fsm) × (s : Status) × (handle_read (sys.reads (pos 7)) 10 connecting ≡ some (g, s))
    × ReadAnswer 10 (ok 4) g s
handle_read_lem_example =
    handle_read_lem (sys.reads (pos 7)) 10 connecting (err Errno.eintr ∷ []) (ok 4) [] refl
      (refl, tt) refl (ground arith)

handle_write_lem_example :
    (g : Fsm) × (s : Status) × (handle_write (sys.writes (pos 7)) 10 connecting ≡ some (g, s))
    × WriteAnswer (ok 10) g s
handle_write_lem_example =
    handle_write_lem (sys.writes (pos 7)) 10 connecting [] (ok 10) [] refl tt refl (ground arith)

shut_sock_and_goto_shut_lem_example :
    (g : Fsm) × (s : Status) × (shut_sock_and_goto_shut sys.shutdown 2 connecting ≡ some (g, s))
    × (g.calls ≡ shut_down (pos 7) ∷ opened (pos 7) ∷ [])
    × (((sys.shutdown (pos 7) 2 ≡ Errno.success) × (s ≡ success) × (g.target ≡ some plain_shut))
        ⊎ ((s ≡ error)
            × (g.target ≡ none)
            × (g.last_error ≡ pslerror_from_errno Errno.success failed)
            × (is_error g.last_error ≡ true)))
shut_sock_and_goto_shut_lem_example =
    shut_sock_and_goto_shut_lem sys.shutdown 2 connecting
      (record { dispatching = refl; no_request = refl })
