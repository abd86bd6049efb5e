-- ===== src/Fsm/Main.antt =====
-- The common states of src/psl_channel_fsm_main.c: ALIVE, INIT, CLOSED and FINAL.
-- `none` is a failed assertion, or a NULL pointer that is followed.
use libpalmsocket.Base.{
  Bool, true, false, not, ◌&&◌, Option, none, some, [], ◌∷◌, ℤ, is_nonneg, if◌then◌else◌, ◌>>=◌,
  ◌>>◌, psl_assert,
}
use libpalmsocket.Errors.{PslError, bad_serv_addr, not_allowed}
use libpalmsocket.Inet.{Family, af_unspec}
use libpalmsocket.Fsm.Types.{
  Status, success, error, error_catch_all, not_handled, ConnectArgs, hint_not_ready, UserEvent,
  check_io, close, finalize, connect, set_conn_fd, set_server, set_sock_bind, Event, enter_scope,
  exit_scope, begin, user, HostAddrInfo, closed_fd, shut_down, watch_destroyed, thread_ctx_unref,
  Fsm, closed_fd_value,
}
use libpalmsocket.Fsm.Transitions.{
  log, goto_closed, goto_final, goto_plain_conn, goto_plain_lookup, goto_plain_fail, set_last_error,
  simple_check_io, reset_watch,
}

abbrev pub is_unspec : Family → Bool
is_unspec af_unspec = true
is_unspec _ = false

-- The answer to an event, once its handler's work is done.
abbrev pub answer : Status → Option Fsm → Option (Fsm × Status)
answer s m = m >>= λ f. some (f, s)

-- A failure that the LOOKUP and CONN states end with.
abbrev pub failing : PslError → Fsm → Option (Fsm × Status)
failing e f = answer error (set_last_error e f >>= goto_plain_fail e)

-- `chan_fsm_alive_state_handler` on the user-defined events
abbrev alive_user : UserEvent → Fsm → Option (Fsm × Status)
alive_user close f = answer success (goto_closed f)
alive_user finalize f = answer success (goto_final f)
alive_user check_io f = some (simple_check_io hint_not_ready closed_fd_value f)
alive_user _ f = answer error_catch_all (set_last_error not_allowed f)

unfoldable pub alive_handler : Event → Fsm → Option (Fsm × Status)
unfolding goto_closed goto_final simple_check_io set_last_error
alive_handler enter_scope f = some (f, success)
alive_handler exit_scope f = some (f, success)
alive_handler (begin _) f = some (f, success)
alive_handler (user e) f = alive_user e f

-- PSL_CHAN_FSM_EVT_CONNECT in the INIT state
abbrev init_connect : ConnectArgs → Fsm → Option (Fsm × Status)
init_connect a f =
    if is_unspec f.settings.server_addr.addr_family && not (is_nonneg f.fd)
    then answer error (set_last_error bad_serv_addr f)
    else answer success (
        if is_nonneg f.fd
        then goto_plain_conn a (record { family = af_unspec; addr = [] }) f
        else goto_plain_lookup a f)

abbrev init_set_conn_fd : ℤ → Bool → Fsm → Option (Fsm × Status)
init_set_conn_fd fd keep f =
    if not (is_nonneg fd)
    then some (f, not_handled)
    else if not (is_unspec f.settings.server_addr.addr_family)
    then some (f, not_handled)
    else if not (is_unspec f.settings.bind_addr.addr_family)
    then some (f, not_handled)
    else if is_nonneg f.fd
    then some (f, not_handled)
    else some (
      record f {
        fd = fd;
        settings = record (f.settings) { fd_is_user_provided = true; fd_do_not_close = keep };
      },
      success,
    )

abbrev init_set_server : HostAddrInfo → Fsm → Option (Fsm × Status)
init_set_server a f =
    if is_nonneg f.fd
    then some (f, not_handled)
    else if not (is_unspec f.settings.server_addr.addr_family)
    then some (f, not_handled)
    else some (record f { settings = record (f.settings) { server_addr = a } }, success)

abbrev init_set_sock_bind : HostAddrInfo → Fsm → Option (Fsm × Status)
init_set_sock_bind a f =
    if is_nonneg f.fd
    then some (f, not_handled)
    else if not (is_unspec f.settings.bind_addr.addr_family)
    then some (f, not_handled)
    else some (record f { settings = record (f.settings) { bind_addr = a } }, success)

abbrev init_user : UserEvent → Fsm → Option (Fsm × Status)
init_user (connect a) f = init_connect a f
init_user (set_conn_fd fd keep) f = init_set_conn_fd fd keep f
init_user (set_server family host port) f =
    init_set_server (record { addr_family = family; host_str = some host; port = port }) f
init_user (set_sock_bind family ip port) f =
    init_set_sock_bind (record { addr_family = family; host_str = ip; port = port }) f
init_user _ f = some (f, not_handled)

-- `chan_fsm_init_state_handler`
unfoldable pub init_handler : Event → Fsm → Option (Fsm × Status)
unfolding set_last_error goto_plain_conn goto_plain_lookup
init_handler enter_scope f = some (f, success)
init_handler exit_scope f = some (f, success)
init_handler (begin _) f = some (f, success)
init_handler (user e) f = init_user e f

-- Entering CLOSED: the descriptor is shut down and closed unless the user keeps it.
abbrev enter_closed : Fsm → Fsm
enter_closed f =
    let closing = is_nonneg f.fd && not f.settings.fd_do_not_close in
    record f {
      fd = closed_fd_value;
      fsm_closed = true;
      calls = if closing then closed_fd f.fd ∷ shut_down f.fd ∷ f.calls else f.calls;
    }

-- `chan_fsm_closed_state_handler`
unfoldable pub closed_handler : Event → Fsm → Option (Fsm × Status)
unfolding reset_watch
closed_handler enter_scope f = some (enter_closed f, success)
closed_handler exit_scope f = some (f, success)
closed_handler (begin _) f = answer success (reset_watch f)
closed_handler (user _) f = some (f, not_handled)

abbrev destroy_watch : Fsm → Fsm
destroy_watch f = elim f.watch [
  | none ↦ f
  | some _ ↦ log watch_destroyed (record f { watch = none })
]

abbrev drop_thread_ctx : Fsm → Fsm
drop_thread_ctx f =
    if f.holds_thread_ctx then log thread_ctx_unref (record f { holds_thread_ctx = false }) else f

abbrev forget_hosts : Fsm → Fsm
forget_hosts f =
    let s = f.settings in
    record f {
      settings = record s {
        bind_addr = record (s.bind_addr) { host_str = none };
        server_addr = record (s.server_addr) { host_str = none };
      };
    }

-- `chan_fsm_destroy_widgets`
unfoldable pub destroy_widgets : Fsm → Fsm
destroy_widgets f = drop_thread_ctx (forget_hosts (destroy_watch f))

-- `chan_fsm_final_state_handler`; any event of the user fails the assertion there.
unfoldable pub final_handler : Event → Fsm → Option (Fsm × Status)
unfolding destroy_widgets
final_handler enter_scope f =
    psl_assert f.fsm_closed >> some (record (destroy_widgets f) { fsm_finalized = true }, success)
final_handler exit_scope f = some (f, success)
final_handler (begin _) f = some (f, success)
final_handler (user _) f = none
