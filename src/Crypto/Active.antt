-- ===== src/Crypto/Active.antt =====
-- The crypto states CONN, SSL and RENEGOTIATE of src/psl_channel_fsm_crypto.c. `none` is a failed assertion, or a NULL pointer that is followed.
use libpalmsocket.Base.{
  ℕ, Bool, true, false, not, ◌&&◌, Option, none, some, List, [], ◌∷◌, eq_ℤ, ltb, ◌==◌,
  if◌then◌else◌, ◌>>=◌, ◌>>◌, psl_assert, take,
}
use libpalmsocket.Errors.{PslError, no_error, inval, is_error}
use libpalmsocket.IoBuf.{GArray}
use libpalmsocket.FdWatch.Conditions.{Condition, nothing}
use libpalmsocket.FdWatch.Table.{PollRec}
use libpalmsocket.Fsm.Types.{
  Status, success, error, ConnectArgs, RenegotiateArgs, BeginArg, crypto_conn_arg,
  crypto_renegotiate_arg, hint_ready, hint_not_ready, UserEvent, Event, enter_scope, exit_scope,
  begin, user, ssl_ctx_unref, gio_status_again,
}
use libpalmsocket.Fsm.Transitions.{
  log, set_last_error, full_check_io, sched_completion, goto_crypto_fail, goto_crypto_ssl,
  goto_crypto_renegotiate, goto_crypto_shut,
}
use libpalmsocket.Fsm.Io.{replied}
use libpalmsocket.Crypto.Types.{io_idle, io_pending, CryptoInput}
use libpalmsocket.Crypto.Read.{total_input_bytes_ready}
use libpalmsocket.Crypto.Watching.{input_ready_hint, output_ready_hint}
use libpalmsocket.Crypto.Deferred.{fresh_none, process_deferred_ssl_io}
use libpalmsocket.Crypto.Transfer.{handle_read, handle_write}
use libpalmsocket.Crypto.Machine.{
  reneg_init, Machine, OpensslCtl, CryptoConf, on_fsm, on_io, io_of, put_io, reset_cond,
  dispatch_soon,
}
use libpalmsocket.Crypto.Handshake.{is_server, create_and_config_ssl, do_ssl_handshake}
use libpalmsocket.Crypto.Renegotiate.{do_renegotiate, is_flush_out}
use libpalmsocket.Crypto.States.{handled, passed, checked, read_session}

module _ {S : Type 0} (o : OpensslCtl S) (g : GArray) where
  -- CONN: the configuration comes with the arguments of the connection.
  abbrev begin_conn : Option BeginArg → Machine S → Option (Machine S × Status)
  begin_conn (some (crypto_conn_arg a)) m =
      handled success (reset_cond (record m { conn_args = a }) >>= dispatch_soon)
  begin_conn _ m = none

  abbrev pub start_conn : (ConnectArgs → CryptoConf) → Machine S → Option (Machine S)
  start_conn conf_of m =
      if m.conn_started
      then some m
      else (reset_cond (record m { conn_started = true }) >>= λ n.
          create_and_config_ssl o n.conn_args.conn_kind n.conn_args (conf_of n.conn_args) n >>= λ r.
          some (record (r.0) { conn_error = r.1 }))

  abbrev pub conn_failed : Machine S → Option (Machine S × Status)
  conn_failed m = do
    f ← sched_completion m.conn_args.cb m.conn_error true m.fsm
    f' ← set_last_error m.conn_error f
    f'' ← goto_crypto_fail m.conn_error f'
    some (record m { fsm = f'' }, error)

  abbrev pub conn_done : Machine S → Option (Machine S × Status)
  conn_done m = do
    f ← sched_completion m.conn_args.cb no_error true m.fsm
    f' ← goto_crypto_ssl f
    some (record m { fsm = f' }, success)

  -- what follows `crypto_do_SSL_handshake`
  abbrev pub conn_shaken : Machine S → PslError → Bool → Option (Machine S × Status)
  conn_shaken m e finished =
      let n : Machine S = record m {
        conn_error = e;
        handshake_finished = if finished then true else m.handshake_finished;
      } in
      if is_error e then conn_failed n else if finished then conn_done n else some (n, success)

  abbrev pub conn_watch : (ConnectArgs → CryptoConf) → Machine S → Option (Machine S × Status)
  conn_watch conf_of m = start_conn conf_of m >>= λ n.
      if is_error n.conn_error
      then conn_failed n
      else (do_ssl_handshake o n >>= λ r. conn_shaken r.0 r.1 r.2)

  abbrev conn_user :
      (ConnectArgs → CryptoConf) → UserEvent → Machine S → Option (Machine S × Status)
  conn_user conf_of (UserEvent.fd_watch _) m = conn_watch conf_of m
  conn_user conf_of _ m = passed m

  -- `crypto_conn_state_handler`
  unfoldable pub crypto_conn_handler :
      (ConnectArgs → CryptoConf) → Event → Machine S → Option (Machine S × Status)
  unfolding create_and_config_ssl do_ssl_handshake sched_completion set_last_error goto_crypto_fail
  crypto_conn_handler conf_of enter_scope m =
      some (record m { conn_error = no_error; conn_started = false }, success)
  crypto_conn_handler conf_of exit_scope m = handled success (
      reset_cond m >>= λ n. some (record n { fsm = log (ssl_ctx_unref n.conn_args.ssl_ctx) n.fsm }))
  crypto_conn_handler conf_of (begin a) m = begin_conn a m
  crypto_conn_handler conf_of (user e) m = conn_user conf_of e m

  -- a write of the session's data
  abbrev write_session : List ℕ → Machine S → Option (Machine S × Status)
  write_session src m =
      m.ssl >>= λ s. handle_write o.io g src (io_of s m) >>= λ r. some (put_io r.0 m, r.1)

  abbrev refresh : Condition → Machine S → Option (Machine S)
  refresh cond m = on_io (process_deferred_ssl_io o.io fresh_none cond) m

  -- the one record of the descriptor that is watched
  abbrev ssl_watch : List PollRec → Machine S → Option (Machine S × Status)
  ssl_watch (r ∷ []) m = psl_assert (eq_ℤ r.fd m.fsm.fd) >> handled success (refresh r.ind_events m)
  ssl_watch _ m = none

  abbrev ssl_renegotiate : RenegotiateArgs → Machine S → Option (Machine S × Status)
  ssl_renegotiate a m =
      if a.wait_for_client && not (is_server m.conn_kind)
      then handled error (on_fsm (set_last_error inval) m)
      else handled success (on_fsm (goto_crypto_renegotiate a) m)

  -- SSL, with the user's bytes at `arg->buf` of a write
  abbrev ssl_user : List ℕ → UserEvent → Machine S → Option (Machine S × Status)
  ssl_user src UserEvent.check_io m =
      checked (full_check_io (input_ready_hint m.input) (output_ready_hint m.output) m.fsm.fd) m
  ssl_user src (UserEvent.fd_watch recs) m = ssl_watch recs m
  ssl_user src (UserEvent.read cnt) m = read_session o cnt m
  ssl_user src (UserEvent.write cnt) m = write_session (take cnt src) m
  ssl_user src (UserEvent.renegotiate_crypto a) m = ssl_renegotiate a m
  ssl_user src (UserEvent.shut_crypto how cb) m =
      handled success (on_fsm (goto_crypto_shut how cb) m)
  ssl_user src _ m = passed m

  -- `crypto_ssl_state_handler`
  unfoldable pub crypto_ssl_handler : List ℕ → Event → Machine S → Option (Machine S × Status)
  unfolding full_check_io process_deferred_ssl_io handle_read handle_write
  crypto_ssl_handler src enter_scope m = some (m, success)
  crypto_ssl_handler src exit_scope m = handled success (reset_cond m)
  crypto_ssl_handler src (begin a) m = handled success (reset_cond m >>= refresh nothing)
  crypto_ssl_handler src (user e) m = ssl_user src e m

  -- RENEGOTIATE
  abbrev undefer : CryptoInput → CryptoInput
  undefer i = record i { io_state = if io_pending i.io_state then io_idle else i.io_state }

  abbrev begin_renegotiate : Option BeginArg → Machine S → Option (Machine S × Status)
  begin_renegotiate (some (crypto_renegotiate_arg a)) m = do
    n ← reset_cond (record m { reneg_args = a })
    k ← dispatch_soon n
    some (record k { input = undefer k.input }, success)
  begin_renegotiate _ m = none

  abbrev flush_first : List PollRec → Machine S → Option (Machine S)
  flush_first [] m = some m
  flush_first (r ∷ rs) m = if is_flush_out m.reneg_phase then refresh r.ind_events m else some m

  abbrev pub reneg_ended : Machine S → Option (Machine S)
  reneg_ended m = do
    f ← sched_completion m.reneg_args.cb m.reneg_error false m.fsm
    f' ← if is_error m.reneg_error then goto_crypto_fail m.reneg_error f else goto_crypto_ssl f
    some (record m { fsm = f' })

  abbrev reneg_watch : List PollRec → Machine S → Option (Machine S × Status)
  reneg_watch recs m = do
    n ← flush_first recs m
    r ← do_renegotiate o n
    handled success (if r.1 then reneg_ended r.0 else some r.0)

  abbrev reneg_read_some : ℕ → ℕ → Machine S → Option (Machine S × Status)
  reneg_read_some available cnt m = do
    r ← read_session o (if ltb available cnt then available else cnt) m
    psl_assert (not (io_pending r.0.input.io_state))
    q ← do_renegotiate o r.0
    handled r.1 (if q.1 then dispatch_soon q.0 else some q.0)

  -- Reads are limited to what is there already.
  abbrev reneg_read : ℕ → Machine S → Option (Machine S × Status)
  reneg_read cnt m = m.ssl >>= λ s.
      let n = total_input_bytes_ready o.io (io_of s m) in
      if (n == 0) && ltb 0 cnt
      then some (record m { fsm = replied gio_status_again 0 m.fsm; user_buf = [] }, success)
      else reneg_read_some n cnt m

  abbrev reneg_check : Machine S → Option (Machine S × Status)
  reneg_check m = m.ssl >>= λ s.
      checked
        (full_check_io
          (if ltb 0 (total_input_bytes_ready o.io (io_of s m)) then hint_ready else hint_not_ready)
          hint_not_ready m.fsm.fd)
        m

  abbrev reneg_user : UserEvent → Machine S → Option (Machine S × Status)
  reneg_user (UserEvent.fd_watch recs) m = reneg_watch recs m
  reneg_user UserEvent.check_io m = reneg_check m
  reneg_user (UserEvent.read cnt) m = reneg_read cnt m
  reneg_user (UserEvent.write _) m =
      some (record m { fsm = replied gio_status_again 0 m.fsm }, success)
  reneg_user (UserEvent.shut_crypto how cb) m = handled success (on_fsm (goto_crypto_shut how cb) m)
  reneg_user _ m = passed m

  -- `crypto_renegotiate_state_handler`
  unfoldable pub crypto_renegotiate_handler : Event → Machine S → Option (Machine S × Status)
  unfolding do_renegotiate process_deferred_ssl_io handle_read full_check_io goto_crypto_shut
  crypto_renegotiate_handler enter_scope m =
      some (record m { reneg_phase = reneg_init; reneg_error = no_error }, success)
  crypto_renegotiate_handler exit_scope m = handled success (reset_cond m)
  crypto_renegotiate_handler (begin a) m = begin_renegotiate a m
  crypto_renegotiate_handler (user e) m = reneg_user e m
