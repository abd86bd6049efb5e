-- ===== src/Crypto/Handshake.antt =====
-- Setting up a session, the handshake and renegotiation: crypto_create_and_config_ssl,
-- crypto_do_SSL_handshake, crypto_start_renegotiation and crypto_do_reneg_wait_handshake
-- of src/psl_channel_fsm_crypto.c. `none` is a failed assertion.
use libpalmsocket.Base.{
  ℕ, Bool, true, false, not, Option, none, some, List, is_nonneg, if◌then◌else◌, ◌>>=◌, ◌>>◌,
  psl_assert,
}
use libpalmsocket.Errors.{
  PslError, no_error, failed, ssl_config, ssl_protocol, ssl_want_read, ssl_want_write, is_error,
}
use libpalmsocket.Errors.Openssl.{ErrCodes, process_and_purge, purge_error, ssl_channel_error}
use libpalmsocket.FdWatch.Conditions.{only_out}
use libpalmsocket.Fsm.Types.{
  ConnKind, plain, crypto_client, crypto_server, ConnectArgs, ssl_ctx_ref, ssl_ctx_unref,
}
use libpalmsocket.Fsm.Transitions.{log}
use libpalmsocket.Crypto.Types.{Failure, ReadResult, read_ok, read_failed, channel_error}
use libpalmsocket.Crypto.Watching.{only_in, update_watch}
use libpalmsocket.Crypto.Machine.{
  Machine, HandshakeResult, hs_finished, hs_failed, OpensslCtl, on_io, CryptoConf,
}

abbrev pub is_server : ConnKind → Bool
is_server crypto_server = true
is_server _ = false

abbrev pub is_client : ConnKind → Bool
is_client crypto_client = true
is_client _ = false

module _ {S : Type 0} (o : OpensslCtl S) where
  abbrev pub codes : ErrCodes
  codes = o.io.codes

  -- `pslErr ? pslErr : PSL_ERR_SSL_CONFIG` after the error stack was processed
  abbrev pub config_error : List ℕ → Option PslError
  config_error stack =
      purge_error codes stack ssl_config >>= λ e. some (if is_error e then e else ssl_config)

  -- `error_cleanup`
  abbrev pub config_cleanup : PslError → Machine S → Option (Machine S × PslError)
  config_cleanup e m = psl_assert (is_error e) >> m.ssl_ctx >>= λ ctx.
      some (record m { fsm = log (ssl_ctx_unref ctx) m.fsm; ssl = none; ssl_ctx = none }, e)

  abbrev pub config_failed : List ℕ → Machine S → Option (Machine S × PslError)
  config_failed stack m = config_error stack >>= λ e. config_cleanup e m

  -- SSL_set_verify and SSL_set_connect_state or SSL_set_accept_state; the user's callback comes last.
  abbrev pub finish_config : ConnKind → S → Machine S → Option (Machine S × PslError)
  finish_config crypto_client s m = some (
    record m {
      ssl = some (
          let t = o.set_connect_state (o.set_verify true s) in
          if m.conf.has_lifecycle_cb then o.lifecycle_cb t else t);
    },
    no_error,
  )
  finish_config crypto_server s m = some (
    record m {
      ssl = some (
          let t = o.set_accept_state (o.set_verify false s) in
          if m.conf.has_lifecycle_cb then o.lifecycle_cb t else t);
    },
    no_error,
  )
  finish_config plain s m = config_cleanup failed (record m { ssl = some (o.set_verify false s) })

  abbrev pub set_app_data : ConnKind → S → Machine S → Option (Machine S × PslError)
  set_app_data kind s m = elim (o.set_app_data s) [
    | some stack ↦ config_failed stack m
    | none ↦ finish_config kind (o.with_app_data s) m
  ]

  abbrev pub set_ciphers : ConnKind → S → Machine S → Option (Machine S × PslError)
  set_ciphers kind s m = elim (o.set_cipher_list s) [
    | some stack ↦ config_failed stack m
    | none ↦ set_app_data kind (o.with_ciphers s) m
  ]

  abbrev pub set_fd : ConnKind → S → Machine S → Option (Machine S × PslError)
  set_fd kind s m = elim (o.set_fd m.fsm.fd s) [
    | some stack ↦ config_failed stack m
    | none ↦ set_ciphers kind (o.set_options (o.with_fd m.fsm.fd s)) m
  ]

  abbrev pub new_session : ConnKind → ℕ → Machine S → Option (Machine S × PslError)
  new_session kind ctx m = elim (o.ssl_new ctx) [
    | none ↦ config_failed o.new_stack m
    | some s ↦ set_fd kind (o.set_mode s) (record m { ssl = some (o.set_mode s) })
  ]

  abbrev pub has_session : Option S → Bool
  has_session none = false
  has_session (some _) = true

  -- `crypto_create_and_config_ssl`; the session of `m` is updated where a call of OpenSSL fails too.
  unfoldable pub create_and_config_ssl :
      ConnKind → ConnectArgs → CryptoConf → Machine S → Option (Machine S × PslError)
  unfolding process_and_purge
  create_and_config_ssl kind a conf m =
      psl_assert (not (has_session m.ssl))
      >> new_session kind a.ssl_ctx (record m {
        fsm = log (ssl_ctx_ref a.ssl_ctx) m.fsm;
        conn_kind = kind;
        ssl_ctx = some a.ssl_ctx;
        conf = conf;
      })

  abbrev pub put_ssl : S → Machine S → Machine S
  put_ssl s m = record m { ssl = some s }

  -- an error of a handshake: one of the WANT kind is waited for
  abbrev pub handshake_error : PslError → Machine S → Option (Machine S × PslError × Bool)
  handshake_error ssl_want_read m =
      on_io (update_watch only_in) m >>= λ n. some (n, no_error, false)
  handshake_error ssl_want_write m =
      on_io (update_watch only_out) m >>= λ n. some (n, no_error, false)
  handshake_error e m = some (m, e, true)

  -- A result of 0 is a hard error whatever it says; below that the error decides.
  abbrev pub handshake_failed : Failure → Machine S → Option (Machine S × PslError × Bool)
  handshake_failed x m = do
    e ← channel_error codes x
    psl_assert (is_error e)
    if is_nonneg x.ret then some (m, e, true) else handshake_error e m

  abbrev pub handshake_by : HandshakeResult → Machine S → Option (Machine S × PslError × Bool)
  handshake_by hs_finished m = some (m, no_error, true)
  handshake_by (hs_failed x) m = handshake_failed x m

  -- `crypto_do_SSL_handshake`: the machine, `*pPslErr`, and whether the handshake is finished
  unfoldable pub do_ssl_handshake : Machine S → Option (Machine S × PslError × Bool)
  unfolding ssl_channel_error update_watch
  do_ssl_handshake m =
      m.ssl >>= λ s. let (res, s') = o.do_handshake s in handshake_by res (put_ssl s' m)

  abbrev pub renegotiated : Option Failure → Machine S → Option (Machine S × PslError)
  renegotiated none m = some (m, no_error)
  renegotiated (some x) m = channel_error codes x >>= λ e. psl_assert (is_error e) >> some (m, e)

  -- `crypto_start_renegotiation`
  unfoldable pub start_renegotiation : Machine S → Option (Machine S × PslError)
  unfolding ssl_channel_error
  start_renegotiation m =
      m.ssl >>= λ s. let (res, s') = o.renegotiate s in renegotiated res (put_ssl s' m)

  abbrev pub peek_error : PslError → Machine S → Option (Machine S × PslError × Bool)
  peek_error ssl_want_read m = on_io (update_watch only_in) m >>= λ n. some (n, no_error, false)
  peek_error ssl_want_write m = on_io (update_watch only_out) m >>= λ n. some (n, no_error, false)
  peek_error e m = some (m, (if is_error e then e else ssl_protocol), true)

  abbrev pub peeked : ReadResult → Machine S → Option (Machine S × PslError × Bool)
  peeked (read_ok bs) m = on_io (update_watch only_in) m >>= λ n. some (n, no_error, false)
  peeked (read_failed x) m = channel_error codes x >>= λ e. peek_error e m

  -- `crypto_do_reneg_wait_handshake`
  unfoldable pub do_reneg_wait_handshake : Machine S → Option (Machine S × PslError × Bool)
  unfolding ssl_channel_error update_watch
  do_reneg_wait_handshake m = m.ssl >>= λ s.
      if not (o.renegotiate_pending s)
      then some (m, no_error, true)
      else (let (res, s') = o.peek s in
          if not (o.renegotiate_pending s')
          then some (put_ssl s' m, no_error, true)
          else peeked res (put_ssl s' m))
