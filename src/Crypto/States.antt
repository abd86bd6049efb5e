-- ===== src/Crypto/States.antt =====
-- The crypto states MODE and FAIL of
-- src/psl_channel_fsm_crypto.c. `none` is a failed assertion, or a NULL pointer that is followed.
use libpalmsocket.Base.{
  ℕ, ◌*◌, Bool, false, Option, none, some, ◌∷◌, ℤ, if◌then◌else◌, ◌>>=◌, ◌>>◌, psl_assert,
}
use libpalmsocket.Errors.{PslError, no_error, is_error, Errno}
use libpalmsocket.IoBuf.{init}
use libpalmsocket.FdWatch.Conditions.{nothing}
use libpalmsocket.Fsm.Types.{
  Status, success, error_catch_all, not_handled, plain, BeginArg, crypto_fail_arg, hint_hup,
  UserEvent, Event, enter_scope, exit_scope, begin, user, ssl_ctx_unref, openssl_init,
  openssl_uninit, Fsm, closed_fd_value,
}
use libpalmsocket.Fsm.Transitions.{log, set_last_error, full_check_io}
use libpalmsocket.Fsm.Io.{shut_sock_and_goto_shut}
use libpalmsocket.Crypto.Types.{io_idle}
use libpalmsocket.Crypto.Transfer.{handle_read}
use libpalmsocket.Crypto.Machine.{Machine, OpensslCtl, on_fsm, io_of, put_io}

-- 16 KB
abbrev pub max_io_buf_size : ℕ
max_io_buf_size = 16 * 1024

abbrev unref_held : Option ℕ → Fsm → Fsm
unref_held none f = f
unref_held (some ctx) f = log (ssl_ctx_unref ctx) f

abbrev uninit_taken : Bool → Fsm → Fsm
uninit_taken taken f = record f { calls = if taken then openssl_uninit ∷ f.calls else f.calls }

module _ {S : Type 0} where
  abbrev pub handled : Status → Option (Machine S) → Option (Machine S × Status)
  handled st q = q >>= λ m. some (m, st)

  abbrev pub passed : Machine S → Option (Machine S × Status)
  passed m = some (m, not_handled)

  -- `psl_chan_fsm_evt_make_full_CHECK_IO_response`
  abbrev pub checked : (Fsm → Fsm × Status) → Machine S → Option (Machine S × Status)
  checked reply m = let (f, st) = reply m.fsm in some (record m { fsm = f }, st)

  -- the memory of `sslInfo` is cleared
  abbrev cleared : Machine S → Machine S
  cleared m = record m {
    ssl = none;
    input = record {
      one_byte_buf = 0;
      byte_available = false;
      io_state = io_idle;
      psl_err = no_error;
    };
    last_cond = nothing;
    conn_kind = plain;
    ssl_ctx = none;
    conf = record {
      check_hostname = false;
      fallback_to_installed_leaf = false;
      has_lifecycle_cb = false;
    };
    handshake_finished = false;
    pv = record { in_progress = false; called = false; fail_code = no_error };
  }

  -- MODE: `init_ok` says that `psl_openssl_init_conditional` returned 0.
  abbrev pub enter_mode : Bool → Machine S → Option (Machine S)
  enter_mode init_ok m = init max_io_buf_size >>= λ b. some (record (cleared m) {
    fsm = record (m.fsm) { calls = if init_ok then openssl_init ∷ m.fsm.calls else m.fsm.calls };
    openssl_init_taken = init_ok;
    output = record { buf = b; io_state = io_idle; psl_err = no_error };
  })

  abbrev pub exit_mode : Machine S → Machine S
  exit_mode m = record m {
    fsm = uninit_taken m.openssl_init_taken (unref_held m.ssl_ctx m.fsm);
    ssl = none;
    ssl_ctx = none;
  }

  -- a read of the session's data
  abbrev pub read_session : OpensslCtl S → ℕ → Machine S → Option (Machine S × Status)
  read_session o cnt m = m.ssl >>= λ s. handle_read o.io cnt (io_of s m) >>= λ a.
      some (record (put_io a.io m) { user_buf = a.bytes }, a.status)

  module _ (o : OpensslCtl S) where
    abbrev verify_err : Option S → Machine S → ℕ × PslError
    verify_err none m = (0, no_error)
    verify_err (some s) m =
        if m.handshake_finished then (o.get_verify_result s, m.pv.fail_code) else (0, no_error)

    abbrev mode_user : (ℤ → ℕ → Errno) → UserEvent → Machine S → Option (Machine S × Status)
    mode_user shutdown UserEvent.get_peer_cert_verify_err m =
        some (record m { peer_verify_err = verify_err m.ssl m }, success)
    mode_user shutdown (UserEvent.shut_sock how) m =
        shut_sock_and_goto_shut shutdown how m.fsm >>= λ r. some (record m { fsm = r.0 }, r.1)
    mode_user shutdown _ m = passed m

    -- `crypto_mode_state_handler`
    unfoldable pub crypto_mode_handler :
        (ℤ → ℕ → Errno) → Bool → Event → Machine S → Option (Machine S × Status)
    unfolding init shut_sock_and_goto_shut
    crypto_mode_handler shutdown init_ok enter_scope m = handled success (enter_mode init_ok m)
    crypto_mode_handler shutdown init_ok exit_scope m = some (exit_mode m, success)
    crypto_mode_handler shutdown init_ok (begin a) m = some (m, success)
    crypto_mode_handler shutdown init_ok (user e) m = mode_user shutdown e m

  abbrev fail_user : UserEvent → Machine S → Option (Machine S × Status)
  fail_user UserEvent.check_io m = checked (full_check_io hint_hup hint_hup closed_fd_value) m
  fail_user (UserEvent.read _) m = handled error_catch_all (on_fsm (set_last_error m.fail_error) m)
  fail_user (UserEvent.write _) m = handled error_catch_all (on_fsm (set_last_error m.fail_error) m)
  fail_user _ m = passed m

  abbrev begin_fail : Option BeginArg → Machine S → Option (Machine S × Status)
  begin_fail (some (crypto_fail_arg e)) m =
      psl_assert (is_error e) >> some (record m { fail_error = e }, success)
  begin_fail _ m = none

  -- `crypto_fail_state_handler`
  unfoldable pub crypto_fail_handler : Event → Machine S → Option (Machine S × Status)
  unfolding full_check_io set_last_error
  crypto_fail_handler enter_scope m = some (m, success)
  crypto_fail_handler exit_scope m = some (m, success)
  crypto_fail_handler (begin a) m = begin_fail a m
  crypto_fail_handler (user e) m = fail_user e m
