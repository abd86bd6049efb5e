-- ===== src/Fsm/Types.antt =====
-- The data of the channel's state machine: src/psl_channel_fsm_main.h, psl_channel_fsm_events.h and
-- psl_sme.h. Callbacks, SSL contexts and user data are told apart by numbers.
use libpalmsocket.Base.{ℕ, Bool, true, false, Option, none, List, ℤ, negsuc, not}
use libpalmsocket.Errors.{PslError}
use libpalmsocket.Inet.{Family, af_unspec}
use libpalmsocket.FdWatch.{Watch}
use libpalmsocket.FdWatch.Table.{PollRec}

-- `PslSmeEventStatus`; `not_handled` is also kPslSmeEventStatus_passToParent.
pub data Status : Type 0 where
  success error error_catch_all not_handled : Status

-- The states, each with the name of its accessor `psl_chan_fsm_get_..._state`.
pub data StateId : Type 0 where
  final alive init closed : StateId
  plain_mode plain_fail plain_lookup plain_conn plain_tcp plain_shut : StateId
  crypto_mode crypto_fail crypto_conn crypto_ssl crypto_renegotiate crypto_shut : StateId

-- `PslChanFsmEvtConnKind`
pub data ConnKind : Type 0 where
  plain crypto_client crypto_server : ConnKind

-- `psl_chan_fsm_evt_is_plain_conn_kind`
abbrev pub is_plain_conn_kind : ConnKind → Bool
is_plain_conn_kind plain = true
is_plain_conn_kind _ = false

-- `psl_chan_fsm_evt_is_crypto_conn_kind`
abbrev pub is_crypto_conn_kind : ConnKind → Bool
is_crypto_conn_kind k = not (is_plain_conn_kind k)

-- `PslChanFsmEvtCompletionCbInfo`: the kind of callback, and which
pub data CompletionCb : Type 0 where
  no_cb : CompletionCb
  completion_cb connect_cb switch_cb : ℕ → CompletionCb

-- `PslChanFsmEvtCommonConnectArgs`; `ssl_ctx` counts for the crypto kinds alone.
pub record ConnectArgs : Type 0 where
  pub cb : CompletionCb
  pub conn_kind : ConnKind
  pub ssl_ctx : ℕ

-- `PslChanFsmEvtInetAddrText`
pub record AddrText : Type 0 where
  pub family : Family
  pub addr : List ℕ

-- `PslChanFsmEvtShutCryptoKind`
pub data ShutKind : Type 0 where
  one_way two_way : ShutKind

-- `PslChanFsmEvtRenegotiateData`: of its options, kPmSockRenegOpt_waitForClientHandshake
pub record RenegotiateArgs : Type 0 where
  pub cb : CompletionCb
  pub wait_for_client : Bool

-- `PslChanFsmEvtBeginStateArg`
pub data BeginArg : Type 0 where
  plain_conn_arg : ConnectArgs → AddrText → BeginArg
  plain_fail_arg crypto_fail_arg : PslError → BeginArg
  plain_lookup_arg crypto_conn_arg : ConnectArgs → BeginArg
  crypto_renegotiate_arg : RenegotiateArgs → BeginArg
  crypto_shut_arg : ShutKind → CompletionCb → BeginArg

-- `PslChanFsmEvtIOReadyHint`
pub data Hint : Type 0 where
  hint_not_ready hint_ready hint_poll hint_hup hint_ready_hup : Hint

-- `GIOStatus`
pub data GioStatus : Type 0 where
  gio_status_error gio_status_normal gio_status_eof gio_status_again : GioStatus

-- A `struct hostent`: its type, and its first address if it has one.
pub record Hosts : Type 0 where
  pub addr_type : Family
  pub first_addr : Option (List ℕ)

-- The user-defined events with their arguments (`PslChanFsmEvtId`, `PslChanFsmEvtArg`).
pub data UserEvent : Type 0 where
  check_io close finalize get_peer_cert_verify_err heartbeat resume_plaintext : UserEvent
  connect : ConnectArgs → UserEvent
  fd_watch : List PollRec → UserEvent
  lookup_done : PslError → Option Hosts → UserEvent
  read write : ℕ → UserEvent
  renegotiate_crypto : RenegotiateArgs → UserEvent
  set_conn_fd : ℤ → Bool → UserEvent
  set_server : Family → List ℕ → ℕ → UserEvent
  set_sock_bind : Family → Option (List ℕ) → ℕ → UserEvent
  shut_crypto : ShutKind → CompletionCb → UserEvent
  shut_sock : ℕ → UserEvent

-- The events that the engine dispatches by itself, and those of the user.
pub data Event : Type 0 where
  enter_scope exit_scope : Event
  begin : Option BeginArg → Event
  user : UserEvent → Event

-- `PslChanFsmHostAddrInfo`
pub record HostAddrInfo : Type 0 where
  pub addr_family : Family
  pub host_str : Option (List ℕ)
  pub port : ℕ

abbrev pub no_addr : HostAddrInfo
no_addr = record { addr_family = af_unspec; host_str = none; port = 0 }

-- `userSettings`; of the option flags, the ones that the state machine tests.
pub record UserSettings : Type 0 where
  pub bind_addr : HostAddrInfo
  pub fd_is_user_provided : Bool
  pub fd_do_not_close : Bool
  pub sock_addr_reuse : Bool
  pub server_addr : HostAddrInfo

-- `PslChanFsmFdWatchCompletion`
pub record Completion : Type 0 where
  pub cb : CompletionCb
  pub psl_err : PslError
  pub switching_to_crypto : Bool

-- What an event writes through the pointers of its argument.
pub record Reply : Type 0 where
  pub readable : Hint
  pub writeable : Hint
  pub sock : ℤ
  pub gio_status : GioStatus
  pub num : ℕ

-- The calls that leave a trace outside the state machine: descriptors opened and closed, lookups
-- started and destroyed, references taken and dropped, callbacks of the user.
pub data Call : Type 0 where
  opened closed_fd shut_down : ℤ → Call
  lookup_started : HostAddrInfo → Call
  lookup_destroyed : Call
  ssl_ctx_ref ssl_ctx_unref : ℕ → Call
  watch_destroyed : Call
  thread_ctx_unref openssl_init openssl_uninit : Call
  user_callback : CompletionCb → PslError → Bool → Call

-- `PslChanFsm`, with the data of its plaintext states (`lookupState`, `connState`, `failState`) and of
-- its base (`PslSmeMachineBase`): `target` is the state of the last `FsmBeginTransition`, `begin_arg`
-- what waits in the request buffer and for which state. `calls` is the trace, newest first.
pub record Fsm : Type 0 where
  pub in_evt_dispatch : Bool
  pub target : Option StateId
  pub begin_arg : Option (StateId × BeginArg)
  pub fd : ℤ
  pub fsm_closed : Bool
  pub fsm_finalized : Bool
  pub fsm_started : Bool
  pub heartbeat_pending : Bool
  pub watch : Option Watch
  pub in_fd_watch_cb : Bool
  pub completion : Completion
  pub last_error : PslError
  pub settings : UserSettings
  pub holds_thread_ctx : Bool
  pub fail_error : PslError
  pub lookup_ses : Bool
  pub lookup_args : ConnectArgs
  pub conn_args : ConnectArgs
  pub conn_addr : AddrText
  pub conn_error : PslError
  pub reply : Reply
  pub calls : List Call

-- PSL_CHAN_FSM_CLOSED_FD_VALUE
abbrev pub closed_fd_value : ℤ
closed_fd_value = negsuc 0
