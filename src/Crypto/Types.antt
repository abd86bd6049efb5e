-- ===== src/Crypto/Types.antt =====
-- The data of the crypto states: src/psl_channel_fsm_crypto.h, and OpenSSL's session as a parameter.
-- `S` is the type of the sessions (`SSL`). A call of OpenSSL gives its result and the session after it.
use libpalmsocket.Base.{ℕ, Bool, true, false, Option, List, ℤ}
use libpalmsocket.Errors.{PslError, ssl_want_read, ssl_want_write, ssl_protocol, Errno}
use libpalmsocket.Errors.Openssl.{ErrCodes, SslError, ssl_channel_error}
use libpalmsocket.FdWatch.Conditions.{Condition}
use libpalmsocket.IoBuf.{IoBuf}
use libpalmsocket.Fsm.Types.{Fsm}

-- What is read after a call that failed: `SSL_get_error` for its result, `errno` and the error stack.
pub record Failure : Type 0 where
  pub status : SslError
  pub ret : ℤ
  pub saved_errno : Errno
  pub stack : List ℕ

-- The bytes that `SSL_read` or `SSL_peek` stored, where its result is positive.
pub data ReadResult : Type 0 where
  read_ok : List ℕ → ReadResult
  read_failed : Failure → ReadResult

-- The count that `SSL_write` took, where its result is positive.
pub data WriteResult : Type 0 where
  write_ok : ℕ → WriteResult
  write_failed : Failure → WriteResult

-- OpenSSL as reading and writing use it. `buffered` is SSL_pending.
pub record Openssl (S : Type 0) : Type 0 where
  pub codes : ErrCodes
  pub buffered : S → ℕ
  pub ssl_read : ℕ → S → ReadResult × S
  pub ssl_write : List ℕ → S → WriteResult × S

-- `psl_err_get_and_process_SSL_channel_error` as the crypto states call it
abbrev pub channel_error : ErrCodes → Failure → Option PslError
channel_error codes x = ssl_channel_error codes x.status x.ret x.saved_errno x.stack ssl_protocol

-- `PslChanFsmSSLIOStateId`
pub data SslIoState : Type 0 where
  io_idle io_want_read io_want_write io_error : SslIoState

-- `crypto_is_deferred_io_pslerror`
abbrev pub is_deferred : PslError → Bool
is_deferred ssl_want_read = true
is_deferred ssl_want_write = true
is_deferred _ = false

-- `crypto_deferred_io_pending`
abbrev pub io_pending : SslIoState → Bool
io_pending io_want_read = true
io_pending io_want_write = true
io_pending _ = false

abbrev pub is_io_error : SslIoState → Bool
is_io_error io_error = true
is_io_error _ = false

abbrev pub is_io_want_read : SslIoState → Bool
is_io_want_read io_want_read = true
is_io_want_read _ = false

abbrev pub is_io_want_write : SslIoState → Bool
is_io_want_write io_want_write = true
is_io_want_write _ = false

-- `PslChanFsmCryptoInput`
pub record CryptoInput : Type 0 where
  pub one_byte_buf : ℕ
  pub byte_available : Bool
  pub io_state : SslIoState
  pub psl_err : PslError

-- `PslChanFsmCryptoOutput`
pub record CryptoOutput : Type 0 where
  pub buf : IoBuf
  pub io_state : SslIoState
  pub psl_err : PslError

-- The part of `PslChanFsmCryptoSharedInfo` that reading and writing use, with the machine it is part of.
-- `ssl` is the session, which exists once the handshake began.
pub record Io (S : Type 0) : Type 0 where
  pub fsm : Fsm
  pub ssl : S
  pub input : CryptoInput
  pub output : CryptoOutput
  pub last_cond : Condition
