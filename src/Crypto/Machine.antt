-- ===== src/Crypto/Machine.antt =====
-- The crypto part of the channel's state machine: `PslChanFsmCryptoModeState` of
-- src/psl_channel_fsm_crypto.h with the machine it is part of, and OpenSSL's calls outside reading and
-- writing, which are a parameter.
use libpalmsocket.Base.{ℕ, Bool, Option, some, List, ℤ, pos, ◌>>=◌}
use libpalmsocket.Errors.{PslError}
use libpalmsocket.FdWatch.{set_poll_timeout}
use libpalmsocket.FdWatch.Conditions.{Condition, nothing}
use libpalmsocket.Fsm.Types.{
  ConnKind, ConnectArgs, RenegotiateArgs, ShutKind, CompletionCb, Status, Fsm,
}
use libpalmsocket.Fsm.Transitions.{reset_watch}
use libpalmsocket.Crypto.Types.{Failure, ReadResult, Openssl, CryptoInput, CryptoOutput, Io}

-- `PslChanFsmCryptoRenegPhase`
pub data RenegPhase : Type 0 where
  reneg_init reneg_flush_out reneg_request_hello reneg_handshake reneg_done : RenegPhase

-- `PslChanFsmCryptoShutPhase`
pub data ShutPhase : Type 0 where
  shut_init shut_flush_out shut1 shut2 shut_success shut_failed : ShutPhase

-- `pv`, what the verification of the peer's certificate found
pub record PeerVerify : Type 0 where
  pub in_progress : Bool
  pub called : Bool
  pub fail_code : PslError

-- `PmSockCryptoConfArgsInternal`: the options that are tested, and whether there are callbacks.
pub record CryptoConf : Type 0 where
  pub check_hostname : Bool
  pub fallback_to_installed_leaf : Bool
  pub has_lifecycle_cb : Bool

-- `PslChanFsm` with its crypto states; a NULL session or context is `none`. `user_buf` is what a read
-- stored at `arg->buf`, and `peer_verify_err` what an event stored at `pRes`.
pub record Machine (S : Type 0) : Type 0 where
  pub fsm : Fsm
  pub ssl : Option S
  pub input : CryptoInput
  pub output : CryptoOutput
  pub last_cond : Condition
  pub conn_kind : ConnKind
  pub ssl_ctx : Option ℕ
  pub conf : CryptoConf
  pub handshake_finished : Bool
  pub pv : PeerVerify
  pub openssl_init_taken : Bool
  pub fail_error : PslError
  pub conn_args : ConnectArgs
  pub conn_error : PslError
  pub conn_started : Bool
  pub reneg_args : RenegotiateArgs
  pub reneg_phase : RenegPhase
  pub reneg_error : PslError
  pub shut_how : ShutKind
  pub shut_cb : CompletionCb
  pub shut_phase : ShutPhase
  pub user_buf : List ℕ
  pub peer_verify_err : ℕ × PslError

-- SSL_do_handshake: 1, or a result that is not positive
pub data HandshakeResult : Type 0 where
  hs_finished : HandshakeResult
  hs_failed : Failure → HandshakeResult

-- SSL_shutdown: 1, 0, or -1
pub data ShutdownResult : Type 0 where
  shut_both shut_sent shut_fails : ShutdownResult

-- The calls of OpenSSL that set up, renegotiate and shut down a session. Those that fail with a stack of
-- errors give it.
pub record OpensslCtl (S : Type 0) : Type 0 where
  pub io : Openssl S
  pub ssl_new : ℕ → Option S
  pub new_stack : List ℕ
  pub set_fd : ℤ → S → Option (List ℕ)
  pub with_fd : ℤ → S → S
  pub set_cipher_list : S → Option (List ℕ)
  pub with_ciphers : S → S
  pub set_app_data : S → Option (List ℕ)
  pub with_app_data : S → S
  pub set_mode : S → S
  pub set_options : S → S
  pub set_verify : Bool → S → S
  pub set_connect_state : S → S
  pub set_accept_state : S → S
  pub lifecycle_cb : S → S
  pub do_handshake : S → HandshakeResult × S
  pub renegotiate : S → Option Failure × S
  pub renegotiate_pending : S → Bool
  pub peek : S → ReadResult × S
  pub ssl_shutdown : S → ShutdownResult × S
  pub wants_nothing : S → Bool
  pub failure_at : ℤ → S → Failure
  pub get_shutdown : S → Bool × Bool
  pub get_verify_result : S → ℕ

module _ {S : Type 0} where
  abbrev pub on_fsm : (Fsm → Option Fsm) → Machine S → Option (Machine S)
  on_fsm step m = step m.fsm >>= λ f. some (record m { fsm = f })

  abbrev pub io_of : S → Machine S → Io S
  io_of s m = record {
    fsm = m.fsm;
    ssl = s;
    input = m.input;
    output = m.output;
    last_cond = m.last_cond;
  }

  abbrev pub put_io : Io S → Machine S → Machine S
  put_io c m = record m {
    fsm = c.fsm;
    ssl = some c.ssl;
    input = c.input;
    output = c.output;
    last_cond = c.last_cond;
  }

  -- A function of the session's input and output, which follows the pointer to the session.
  abbrev pub on_io : (Io S → Option (Io S)) → Machine S → Option (Machine S)
  on_io step m = m.ssl >>= λ s. step (io_of s m) >>= λ c. some (put_io c m)

  -- `crypto_reset_multi_fd_watch` where there may be no session
  abbrev pub reset_cond : Machine S → Option (Machine S)
  reset_cond m = reset_watch m.fsm >>= λ f. some (record m { fsm = f; last_cond = nothing })

  -- `psl_multi_fd_watch_set_poll_timeout(pFsm->fdWatchInfo.fdWatch, 0)`
  abbrev pub dispatch_soon : Machine S → Option (Machine S)
  dispatch_soon m = m.fsm.watch >>= λ w.
      some (record m { fsm = record (m.fsm) { watch = some (set_poll_timeout w (pos 0)).0 } })

  abbrev pub answer_with : Status → Option (Machine S) → Option (Machine S × Status)
  answer_with st q = q >>= λ m. some (m, st)
