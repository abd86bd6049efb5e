-- ===== src/Fsm/Conn.antt =====
-- The CONN state of src/psl_channel_fsm_plain.c.
-- `none` is a failed assertion, or a NULL pointer that is followed.
use libpalmsocket.Base.{
  not, ◌||◌, Option, none, some, List, [], ◌∷◌, pos, eq_ℤ, if◌then◌else◌, ◌>>=◌, ◌>>◌, psl_assert,
}
use libpalmsocket.Errors.{
  PslError, no_error, tcp_connect, is_error, Errno, econnaborted, pslerror_from_connect_errno,
}
use libpalmsocket.Inet.{Outcome, ok, err, make_fd_non_blocking, connect_sock}
use libpalmsocket.FdWatch.{add_or_update_fd, set_poll_timeout}
use libpalmsocket.FdWatch.Conditions.{only_out, has_failure}
use libpalmsocket.FdWatch.Table.{PollRec}
use libpalmsocket.Fsm.Types.{
  Status, success, not_handled, is_plain_conn_kind, is_crypto_conn_kind, BeginArg, plain_conn_arg,
  UserEvent, Event, enter_scope, exit_scope, begin, user, Fsm,
}
use libpalmsocket.Fsm.Transitions.{
  unref_ctx, goto_plain_fail, goto_plain_tcp, goto_crypto_conn, set_last_error, reset_watch,
  sched_completion,
}
use libpalmsocket.Fsm.Main.{answer, failing}
use libpalmsocket.Fsm.System.{Sys}
use libpalmsocket.Fsm.Sockets.{make_and_config_sock}

module _ (sys : Sys) where
  open sys use {inet, get_so_error}

  -- CONN, kFsmEventBegin: a descriptor of the user is only made non-blocking, otherwise a socket is made
  -- and its connection started.
  abbrev pub start_connect : Fsm → Fsm
  start_connect f =
      if f.settings.fd_is_user_provided
      then record f { conn_error = make_fd_non_blocking inet f.fd }
      else (let (g, e) = make_and_config_sock sys f.conn_addr.family f in
          record g {
            conn_error =
                (if is_error e
                  then e
                  else connect_sock inet g.fd g.conn_addr.family (some g.conn_addr.addr)
                      g.settings.server_addr.port);
          })

  -- A failure is reported by a timer of 0 ms, progress by the watch on the descriptor.
  abbrev pub await_connect : Fsm → Option Fsm
  await_connect f = do
    w ← f.watch
    some (record f {
      watch = some (
          if is_error f.conn_error
          then (set_poll_timeout w (pos 0)).0
          else add_or_update_fd w f.fd only_out);
    })

  abbrev pub begin_conn : Option BeginArg → Fsm → Option (Fsm × Status)
  begin_conn (some (plain_conn_arg a text)) f = do
    g ← reset_watch (record f { conn_args = a; conn_addr = text })
    answer success (await_connect (start_connect g))
  begin_conn _ f = none

  -- the status of the connection, from SO_ERROR and from the poll
  abbrev pub so_error : Outcome Errno → Errno
  so_error (ok e) = e
  so_error (err Errno.success) = econnaborted
  so_error (err e) = e

  abbrev pub poll_error : PollRec → PslError
  poll_error r =
      if not r.ind_events.io_out || has_failure r.ind_events then tcp_connect else no_error

  abbrev pub connect_error : PollRec → Fsm → PslError
  connect_error r f =
      let e =
        if f.settings.fd_is_user_provided
        then no_error
        else pslerror_from_connect_errno (so_error (get_so_error f.fd)) in
      if is_error e then e else poll_error r

  abbrev pub check_connect : List PollRec → Fsm → Option Fsm
  check_connect (r ∷ []) f =
      psl_assert (eq_ℤ r.fd f.fd) >> some (record f { conn_error = connect_error r f })
  check_connect _ f = none

  abbrev pub check_unless_failed : List PollRec → Fsm → Option Fsm
  check_unless_failed recs f = if is_error f.conn_error then some f else check_connect recs f

  -- The completion callback is due on failure, and where plaintext was the goal.
  abbrev pub sched_if_due : Fsm → Option Fsm
  sched_if_due f =
      if is_error f.conn_error || is_plain_conn_kind f.conn_args.conn_kind
      then sched_completion f.conn_args.cb f.conn_error (is_crypto_conn_kind f.conn_args.conn_kind)
          f
      else some f

  abbrev pub leave_conn : Fsm → Option (Fsm × Status)
  leave_conn f =
      if is_error f.conn_error
      then failing f.conn_error f
      else answer success (
          if is_plain_conn_kind f.conn_args.conn_kind
          then goto_plain_tcp f
          else goto_crypto_conn f.conn_args f)

  abbrev pub conn_user : UserEvent → Fsm → Option (Fsm × Status)
  conn_user (UserEvent.fd_watch recs) f = do
    g ← reset_watch f
    h ← check_unless_failed recs g
    k ← sched_if_due h
    leave_conn k
  conn_user _ f = some (f, not_handled)

  -- `plain_conn_state_handler`
  unfoldable pub plain_conn_handler : Event → Fsm → Option (Fsm × Status)
  unfolding reset_watch sched_completion set_last_error goto_plain_fail goto_plain_tcp
      goto_crypto_conn make_and_config_sock
  plain_conn_handler enter_scope f = some (record f { conn_error = no_error }, success)
  plain_conn_handler exit_scope f =
      answer success (reset_watch f >>= λ g. some (unref_ctx g.conn_args g))
  plain_conn_handler (begin a) f = begin_conn a f
  plain_conn_handler (user e) f = conn_user e f
