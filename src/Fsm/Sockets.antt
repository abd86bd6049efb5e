-- ===== src/Fsm/Sockets.antt =====
-- Making a socket for a connection: src/psl_channel_fsm_plain.c.
use libpalmsocket.Base.{ℕ, Bool, true, false, ◌&&◌, ℤ, pos, if◌then◌else◌}
use libpalmsocket.Errors.{
  PslError, no_error, socket_config, socket, bad_bind_addr, addrnotavail, addrinuse, is_error,
  Errno, eaddrnotavail, eaddrinuse, einval, eprotonosupport,
}
use libpalmsocket.Inet.{Family, SockAddr, Outcome, ok, err, make_sock_addr, make_fd_non_blocking}
use libpalmsocket.Fsm.Types.{HostAddrInfo, UserSettings, closed_fd, opened, Fsm}
use libpalmsocket.Fsm.Transitions.{log}
use libpalmsocket.Fsm.Main.{is_unspec}
use libpalmsocket.Fsm.System.{Sys}

module _ (sys : Sys) where
  open sys use {inet, has_cloexec, socket_cloexec, socket_plain, set_reuse_addr, bind}

  -- `socket()`, with the fall-back for kernels without SOCK_CLOEXEC
  abbrev or_plain : Family → Outcome ℕ → Outcome ℕ
  or_plain family (ok s) = ok s
  or_plain family (err einval) = socket_plain family
  or_plain family (err eprotonosupport) = socket_plain family
  or_plain family (err e) = err e

  abbrev pub make_sock : Family → Outcome ℕ
  make_sock family =
      if has_cloexec then or_plain family (socket_cloexec family) else socket_plain family

  abbrev bind_error : Errno → PslError
  bind_error Errno.success = no_error
  bind_error eaddrnotavail = addrnotavail
  bind_error eaddrinuse = addrinuse
  bind_error _ = socket_config

  abbrev bind_to : ℤ → Outcome SockAddr → PslError
  bind_to s (err _) = bad_bind_addr
  bind_to s (ok a) = bind_error (bind s a)

  abbrev pub bind_sock : HostAddrInfo → ℤ → PslError
  bind_sock b s =
      if is_unspec b.addr_family
      then no_error
      else bind_to s (make_sock_addr inet b.addr_family b.host_str b.port)

  abbrev errno_is_error : Errno → Bool
  errno_is_error Errno.success = false
  errno_is_error _ = true

  -- the configuration of a socket that is open
  abbrev pub config_sock : UserSettings → ℤ → PslError
  config_sock u s =
      let nonblocking = make_fd_non_blocking inet s in
      if is_error nonblocking
      then nonblocking
      else if u.sock_addr_reuse && errno_is_error (set_reuse_addr s)
      then socket_config
      else bind_sock u.bind_addr s

  abbrev pub config_made : Outcome ℕ → Fsm → Fsm × PslError
  config_made (err _) f = (f, socket)
  config_made (ok s) f =
      let e = config_sock f.settings (pos s) in
      if is_error e
      then (log (closed_fd (pos s)) (log (opened (pos s)) f), e)
      else (log (opened (pos s)) (record f { fd = pos s }), no_error)

  -- `plain_make_and_config_sock(pFsm, family, &pFsm->fd)`
  unfoldable pub make_and_config_sock : Family → Fsm → Fsm × PslError
  make_and_config_sock family f = config_made (make_sock family) f
