-- ===== src/Errors.antt =====
-- include/public/palmsocket/palmsockerror.h and the error maps of src/psl_error_utils.c.
-- An `errno` value is named by its macro; on Linux EWOULDBLOCK is EAGAIN, so they are one here.
pub mod Laws
pub mod Openssl
mod Tests
use libpalmsocket.Base.{ℕ, Bool, true, false, Option, none, some, ◌>>◌, psl_assert}

-- `PslError`; `no_error` is PSL_ERR_NONE, which is 0.
pub data PslError : Type 0 where
  no_error access addrinuse addrnotavail already bad_serv_addr bad_bind_addr failed : PslError
  getaddrinfo intr inval io isconn mem not_allowed notconn openssl overflow pipe : PslError
  socket socket_config ssl_alert_unknown_ca ssl_bad_eof ssl_cert_verify ssl_config : PslError
  ssl_connect ssl_ctx ssl_clean_eof ssl_hostname_mismatch ssl_protocol ssl_shut_fail : PslError
  ssl_want_read ssl_want_write syscall tcp_connect tcp_connrefused tcp_connreset : PslError
  tcp_conn_again tcp_netunreach timedout wouldblock reserved : PslError

-- The truth value of a code in C.
abbrev pub is_error : PslError → Bool
is_error no_error = false
is_error _ = true

-- `errno`; `success` is 0, and `other` is any value that the code does not name.
pub data Errno : Type 0 where
  success eacces eaddrinuse eaddrnotavail eagain ealready econnaborted econnrefused : Errno
  econnreset einprogress eintr einval eio eisconn enetunreach enomem enotconn eoverflow : Errno
  epipe eprotonosupport etimedout : Errno
  other : ℕ → Errno

-- `psl_err_pslerror_from_errno`; the last clause is `default`.
unfoldable pub pslerror_from_errno : Errno → PslError → PslError
pslerror_from_errno success _ = no_error
pslerror_from_errno eacces _ = access
pslerror_from_errno eaddrinuse _ = addrinuse
pslerror_from_errno eaddrnotavail _ = addrnotavail
pslerror_from_errno ealready _ = already
pslerror_from_errno econnrefused _ = tcp_connrefused
pslerror_from_errno econnreset _ = tcp_connreset
pslerror_from_errno eintr _ = intr
pslerror_from_errno einval _ = inval
pslerror_from_errno eio _ = io
pslerror_from_errno eisconn _ = isconn
pslerror_from_errno enetunreach _ = tcp_netunreach
pslerror_from_errno enomem _ = mem
pslerror_from_errno enotconn _ = notconn
pslerror_from_errno eoverflow _ = overflow
pslerror_from_errno epipe _ = pipe
pslerror_from_errno etimedout _ = timedout
pslerror_from_errno eagain _ = wouldblock
pslerror_from_errno _ d = d

-- `psl_err_pslerror_from_connect_errno`
unfoldable pub pslerror_from_connect_errno : Errno → PslError
unfolding pslerror_from_errno
pslerror_from_connect_errno success = no_error
pslerror_from_connect_errno eagain = tcp_conn_again
pslerror_from_connect_errno e = pslerror_from_errno e tcp_connect

-- `GIOChannelError` of glib
pub data GioError : Type 0 where
  gio_fbig gio_inval gio_io gio_isdir gio_nospc gio_nxio gio_overflow gio_pipe gio_failed : GioError

-- The `switch` of `psl_err_giochanerror_from_pslerror`.
abbrev gio_of : PslError → GioError
gio_of inval = gio_inval
gio_of io = gio_io
gio_of overflow = gio_overflow
gio_of pipe = gio_pipe
gio_of _ = gio_failed

unfoldable pub giochanerror_from_pslerror : PslError → Option GioError
giochanerror_from_pslerror e = psl_assert (is_error e) >> some (gio_of e)

-- `psl_err_pslerror_from_giochanerror`
unfoldable pub pslerror_from_giochanerror : GioError → PslError
pslerror_from_giochanerror gio_inval = inval
pslerror_from_giochanerror gio_io = io
pslerror_from_giochanerror gio_overflow = overflow
pslerror_from_giochanerror gio_pipe = pipe
pslerror_from_giochanerror _ = failed

-- A `GError`, told apart by its domain; the message is left out.
pub data GError : Type 0 where
  psl_domain : PslError → GError
  giochannel_domain : GioError → GError
  other_domain : ℕ → ℕ → GError

-- `psl_err_pslerror_from_gerror`
unfoldable pub pslerror_from_gerror : GError → PslError
unfolding pslerror_from_giochanerror
pslerror_from_gerror (psl_domain e) = e
pslerror_from_gerror (giochannel_domain e) = pslerror_from_giochanerror e
pslerror_from_gerror (other_domain _ _) = failed

-- `psl_err_pslgerror_from_pslerror`; NULL is `none`.
unfoldable pub pslgerror_from_pslerror : PslError → Option GError
pslgerror_from_pslerror no_error = none
pslgerror_from_pslerror e = some (psl_domain e)

-- `psl_err_giochangerror_from_pslerror`; the assertion in the map it calls cannot fail here.
unfoldable pub giochangerror_from_pslerror : PslError → Option GError
giochangerror_from_pslerror no_error = none
giochangerror_from_pslerror e = some (giochannel_domain (gio_of e))
