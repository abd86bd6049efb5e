-- ===== src/Fsm/Fixtures.antt =====
-- A channel and a system to run the state machine on.
use libpalmsocket.Base.{ℕ, true, false, some, none, List, [], ◌∷◌, pos}
use libpalmsocket.Errors.{no_error, success, eintr, einprogress}
use libpalmsocket.FdWatch.{new}
use libpalmsocket.FdWatch.Conditions.{only_out}
use libpalmsocket.FdWatch.Table.{PollRec}
use libpalmsocket.Inet.{Family, af_unspec, af_inet, Pton, parsed, mismatch, ok, err}
use libpalmsocket.Fsm.Types.{
  ConnectArgs, plain, no_cb, completion_cb, no_addr, AddrText, Fsm, closed_fd_value, hint_not_ready,
  gio_status_normal, init,
}
use libpalmsocket.Fsm.System.{Sys}

abbrev pub pton4 : Family → List ℕ → Pton
pton4 af_inet s = parsed s
pton4 _ s = mismatch

-- Sockets are numbered 7, connections take a while and succeed, and one read is interrupted once.
abbrev pub sys : Sys
sys = record {
  inet = record {
    inet_pton = pton4;
    fcntl_getfl = λ fd. ok 2;
    or_nonblock = λ flags. 2050;
    fcntl_setfl = λ fd flags. success;
    connect = λ fd a. einprogress;
  };
  has_cloexec = true;
  socket_cloexec = λ f. ok 7;
  socket_plain = λ f. ok 7;
  set_reuse_addr = λ fd. success;
  bind = λ fd a. success;
  get_so_error = λ fd. ok success;
  shutdown = λ fd how. success;
  reads = λ fd n. err eintr ∷ ok 4 ∷ [];
  writes = λ fd n. ok n ∷ [];
  inet_ntop = λ f bytes. ok bytes;
  lookup_new = λ a. no_error;
  lookup_start = λ a. no_error;
}

abbrev pub plain_args : ConnectArgs
plain_args = record { cb = completion_cb 1; conn_kind = plain; ssl_ctx = 0 }

abbrev pub some_addr : AddrText
some_addr = record { family = af_inet; addr = 49 ∷ 46 ∷ 49 ∷ [] }

-- A new channel while one of its handlers is running.
abbrev pub fresh : Fsm
fresh = record {
  in_evt_dispatch = true;
  target = none;
  begin_arg = none;
  fd = closed_fd_value;
  fsm_closed = false;
  fsm_finalized = false;
  fsm_started = true;
  heartbeat_pending = false;
  watch = some new;
  in_fd_watch_cb = false;
  completion = record { cb = no_cb; psl_err = no_error; switching_to_crypto = false };
  last_error = no_error;
  settings = record {
    bind_addr = no_addr;
    fd_is_user_provided = false;
    fd_do_not_close = false;
    sock_addr_reuse = false;
    server_addr = no_addr;
  };
  holds_thread_ctx = true;
  fail_error = no_error;
  lookup_ses = false;
  lookup_args = record { cb = no_cb; conn_kind = plain; ssl_ctx = 0 };
  conn_args = record { cb = no_cb; conn_kind = plain; ssl_ctx = 0 };
  conn_addr = record { family = af_unspec; addr = [] };
  conn_error = no_error;
  reply = record {
    readable = hint_not_ready;
    writeable = hint_not_ready;
    sock = closed_fd_value;
    gio_status = gio_status_normal;
    num = 0;
  };
  calls = [];
}

-- The channel in the CONN state, waiting for the socket 7 that it has opened.
abbrev pub connecting : Fsm
connecting = record fresh {
  fd = pos 7;
  in_fd_watch_cb = true;
  conn_args = plain_args;
  conn_addr = some_addr;
  calls = libpalmsocket.Fsm.Types.opened (pos 7) ∷ [];
}

-- its socket has become writeable
abbrev pub writeable : PollRec
writeable = record { fd = pos 7; req_events = only_out; ind_events = only_out }
