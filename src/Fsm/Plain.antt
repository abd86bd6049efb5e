-- ===== src/Fsm/Plain.antt =====
-- The plaintext states of src/psl_channel_fsm_plain.c but for CONN: MODE, FAIL, LOOKUP, TCP and SHUT.
-- `none` is a failed assertion, or a NULL pointer that is followed.
use libpalmsocket.Base.{
  ℕ, Bool, true, false, not, Option, none, some, List, if◌then◌else◌, ◌>>◌, psl_assert,
}
use libpalmsocket.Errors.{bad_serv_addr, is_error}
use libpalmsocket.Inet.{Family, af_inet, af_inet6, Outcome, ok, err}
use libpalmsocket.Fsm.Types.{
  Status, success, error, error_catch_all, not_handled, ConnectArgs, is_plain_conn_kind, Hosts,
  BeginArg, plain_fail_arg, plain_lookup_arg, hint_poll, hint_hup, UserEvent, Event, enter_scope,
  exit_scope, begin, user, lookup_started, lookup_destroyed, Fsm, closed_fd_value,
}
use libpalmsocket.Fsm.Transitions.{
  log, unref_ctx, goto_plain_conn, goto_plain_fail, goto_crypto_conn, set_last_error, full_check_io,
  simple_check_io, reset_watch,
}
use libpalmsocket.Fsm.Main.{answer}
use libpalmsocket.Fsm.Io.{handle_read, handle_write, shut_sock, shut_sock_and_goto_shut}
use libpalmsocket.Fsm.System.{Sys}
use libpalmsocket.Fsm.Main.{failing}

-- `plain_mode_state_handler`
unfoldable pub plain_mode_handler : Event → Fsm → Option (Fsm × Status)
plain_mode_handler (user _) f = some (f, not_handled)
plain_mode_handler _ f = some (f, success)

abbrev begin_fail : Option BeginArg → Fsm → Option (Fsm × Status)
begin_fail (some (plain_fail_arg e)) f = do
  psl_assert (is_error e)
  answer success (reset_watch (record f { fail_error = e }))
begin_fail _ f = none

abbrev fail_user : UserEvent → Fsm → Option (Fsm × Status)
fail_user UserEvent.check_io f = some (full_check_io hint_hup hint_hup closed_fd_value f)
fail_user (UserEvent.read _) f = answer error_catch_all (set_last_error f.fail_error f)
fail_user (UserEvent.write _) f = answer error_catch_all (set_last_error f.fail_error f)
fail_user _ f = some (f, not_handled)

-- `plain_fail_state_handler`
unfoldable pub plain_fail_handler : Event → Fsm → Option (Fsm × Status)
unfolding reset_watch full_check_io set_last_error
plain_fail_handler enter_scope f = some (f, success)
plain_fail_handler exit_scope f = some (f, success)
plain_fail_handler (begin a) f = begin_fail a f
plain_fail_handler (user e) f = fail_user e f

module _ (sys : Sys) where
  open sys use {inet_ntop, lookup_new, lookup_start}

  -- LOOKUP: entry and exit
  abbrev pub exit_lookup : Fsm → Fsm
  exit_lookup f = unref_ctx f.lookup_args (if f.lookup_ses then log lookup_destroyed f else f)

  abbrev begin_lookup : Option BeginArg → Fsm → Option (Fsm × Status)
  begin_lookup (some (plain_lookup_arg a)) f = do
    psl_assert (not (is_error (lookup_new f.settings.server_addr)))
    psl_assert (not (is_error (lookup_start f.settings.server_addr)))
    some (
      log (lookup_started f.settings.server_addr) (record f { lookup_args = a; lookup_ses = true }),
      success,
    )
  begin_lookup _ f = none

  abbrev is_inet : Family → Bool
  is_inet af_inet = true
  is_inet af_inet6 = true
  is_inet _ = false

  abbrev text_found : Family → Outcome (List ℕ) → Fsm → Option (Fsm × Status)
  text_found family (err _) f = failing bad_serv_addr f
  text_found family (ok text) f =
      answer success (goto_plain_conn f.lookup_args (record { family = family; addr = text }) f)

  abbrev addr_found : Family → Option (List ℕ) → Fsm → Option (Fsm × Status)
  addr_found family none f = failing bad_serv_addr f
  addr_found family (some a) f =
      if is_inet family then text_found family (inet_ntop family a) f else failing bad_serv_addr f

  abbrev hosts_found : Option Hosts → Fsm → Option (Fsm × Status)
  hosts_found none f = failing bad_serv_addr f
  hosts_found (some h) f = addr_found h.addr_type h.first_addr f

  abbrev lookup_user : UserEvent → Fsm → Option (Fsm × Status)
  lookup_user (UserEvent.lookup_done e hosts) f =
      if is_error e then failing e f else hosts_found hosts f
  lookup_user _ f = some (f, not_handled)

  -- `plain_lookup_state_handler`
  unfoldable pub plain_lookup_handler : Event → Fsm → Option (Fsm × Status)
  unfolding set_last_error goto_plain_fail goto_plain_conn
  plain_lookup_handler enter_scope f = some (record f { lookup_ses = false }, success)
  plain_lookup_handler exit_scope f = some (exit_lookup f, success)
  plain_lookup_handler (begin a) f = begin_lookup a f
  plain_lookup_handler (user e) f = lookup_user e f

  abbrev tcp_connect_req : ConnectArgs → Fsm → Option (Fsm × Status)
  tcp_connect_req a f =
      if is_plain_conn_kind a.conn_kind
      then some (f, not_handled)
      else answer success (goto_crypto_conn a f)

  abbrev tcp_user : UserEvent → Fsm → Option (Fsm × Status)
  tcp_user UserEvent.check_io f = some (simple_check_io hint_poll f.fd f)
  tcp_user (UserEvent.connect a) f = tcp_connect_req a f
  tcp_user (UserEvent.read cnt) f = handle_read (sys.reads f.fd) cnt f
  tcp_user (UserEvent.write cnt) f = handle_write (sys.writes f.fd) cnt f
  tcp_user (UserEvent.shut_sock how) f = shut_sock_and_goto_shut sys.shutdown how f
  tcp_user _ f = some (f, not_handled)

  -- `plain_tcp_state_handler`
  unfoldable pub plain_tcp_handler : Event → Fsm → Option (Fsm × Status)
  unfolding simple_check_io goto_crypto_conn handle_read handle_write shut_sock_and_goto_shut
  plain_tcp_handler (user e) f = tcp_user e f
  plain_tcp_handler _ f = some (f, success)

  abbrev shut_again : ℕ → Fsm → Option (Fsm × Status)
  shut_again how f =
      let (g, e) = shut_sock sys.shutdown how f in
      if is_error e then answer error (set_last_error e g) else some (g, success)

  abbrev shut_user : UserEvent → Fsm → Option (Fsm × Status)
  shut_user UserEvent.check_io f = some (simple_check_io hint_poll f.fd f)
  shut_user (UserEvent.read cnt) f = handle_read (sys.reads f.fd) cnt f
  shut_user (UserEvent.write cnt) f = handle_write (sys.writes f.fd) cnt f
  shut_user (UserEvent.shut_sock how) f = shut_again how f
  shut_user _ f = some (f, not_handled)

  -- `plain_shut_state_handler`
  unfoldable pub plain_shut_handler : Event → Fsm → Option (Fsm × Status)
  unfolding simple_check_io handle_read handle_write shut_sock set_last_error
  plain_shut_handler (user e) f = shut_user e f
  plain_shut_handler _ f = some (f, success)
