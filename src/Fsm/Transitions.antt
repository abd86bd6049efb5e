-- ===== src/Fsm/Transitions.antt =====
-- src/psl_sme.c and the transition wrappers of src/psl_channel_fsm_main.h; the functions of
-- src/psl_channel_fsm_main.c and psl_channel_fsm_events.h that several state handlers call.
-- `none` is a failed assertion throughout.
use libpalmsocket.Base.{
  Bool, true, false, Option, none, some, ◌∷◌, ℤ, if◌then◌else◌, ◌>>=◌, ◌>>◌, psl_assert,
}
use libpalmsocket.Errors.{PslError, failed, is_error, Errno, pslerror_from_errno}
use libpalmsocket.FdWatch.{reset}
use libpalmsocket.Fsm.Types.{
  Status, success, StateId, final, closed, plain_fail, plain_lookup, plain_conn, plain_tcp,
  plain_shut, crypto_conn, crypto_fail, crypto_renegotiate, crypto_shut, crypto_ssl, ShutKind,
  RenegotiateArgs, crypto_fail_arg, crypto_renegotiate_arg, crypto_shut_arg, is_crypto_conn_kind,
  CompletionCb, no_cb, ConnectArgs, AddrText, BeginArg, plain_conn_arg, plain_fail_arg,
  plain_lookup_arg, crypto_conn_arg, Hint, Call, ssl_ctx_ref, ssl_ctx_unref, Fsm,
}

abbrev is_none : {A : Type 0} → Option A → Bool
is_none none = true
is_none (some _) = false

abbrev is_no_cb : CompletionCb → Bool
is_no_cb no_cb = true
is_no_cb _ = false

abbrev pub log : Call → Fsm → Fsm
log c f = record f { calls = c ∷ f.calls }

abbrev pub stored :
    StateId → Option BeginArg → Option (StateId × BeginArg) → Option (StateId × BeginArg)
stored t none waiting = waiting
stored t (some a) _ = some (t, a)

-- `psl_sme_begin_transition`. The size of an argument never exceeds the buffer: the buffer is the union
-- of all of them.
unfoldable pub begin_transition : StateId → Option BeginArg → Fsm → Option Fsm
begin_transition t arg f = do
  psl_assert f.in_evt_dispatch
  psl_assert (is_none f.begin_arg)
  some (record f { target = some t; begin_arg = stored t arg f.begin_arg })

-- PmSockSSLCtxRef and PmSockSSLCtxUnref where the kind is one of the crypto kinds
abbrev pub ref_ctx : ConnectArgs → Fsm → Fsm
ref_ctx a f = record f {
  calls = if is_crypto_conn_kind a.conn_kind then ssl_ctx_ref a.ssl_ctx ∷ f.calls else f.calls;
}

abbrev pub unref_ctx : ConnectArgs → Fsm → Fsm
unref_ctx a f = record f {
  calls = if is_crypto_conn_kind a.conn_kind then ssl_ctx_unref a.ssl_ctx ∷ f.calls else f.calls;
}

-- `psl_chan_fsm_goto_closed_state`
unfoldable pub goto_closed : Fsm → Option Fsm
unfolding begin_transition
goto_closed = begin_transition closed none

unfoldable pub goto_final : Fsm → Option Fsm
unfolding begin_transition
goto_final = begin_transition final none

unfoldable pub goto_plain_conn : ConnectArgs → AddrText → Fsm → Option Fsm
unfolding begin_transition
goto_plain_conn a text f = begin_transition plain_conn (some (plain_conn_arg a text)) (ref_ctx a f)

unfoldable pub goto_plain_fail : PslError → Fsm → Option Fsm
unfolding begin_transition
goto_plain_fail e f =
    psl_assert (is_error e) >> begin_transition plain_fail (some (plain_fail_arg e)) f

unfoldable pub goto_plain_lookup : ConnectArgs → Fsm → Option Fsm
unfolding begin_transition
goto_plain_lookup a f = begin_transition plain_lookup (some (plain_lookup_arg a)) (ref_ctx a f)

unfoldable pub goto_plain_shut : Fsm → Option Fsm
unfolding begin_transition
goto_plain_shut = begin_transition plain_shut none

unfoldable pub goto_plain_tcp : Fsm → Option Fsm
unfolding begin_transition
goto_plain_tcp = begin_transition plain_tcp none

unfoldable pub goto_crypto_conn : ConnectArgs → Fsm → Option Fsm
unfolding begin_transition
goto_crypto_conn a f =
    psl_assert (is_crypto_conn_kind a.conn_kind)
    >> begin_transition crypto_conn (some (crypto_conn_arg a)) (log (ssl_ctx_ref a.ssl_ctx) f)

unfoldable pub goto_crypto_fail : PslError → Fsm → Option Fsm
unfolding begin_transition
goto_crypto_fail e f =
    psl_assert (is_error e) >> begin_transition crypto_fail (some (crypto_fail_arg e)) f

unfoldable pub goto_crypto_renegotiate : RenegotiateArgs → Fsm → Option Fsm
unfolding begin_transition
goto_crypto_renegotiate a = begin_transition crypto_renegotiate (some (crypto_renegotiate_arg a))

unfoldable pub goto_crypto_shut : ShutKind → CompletionCb → Fsm → Option Fsm
unfolding begin_transition
goto_crypto_shut how cb = begin_transition crypto_shut (some (crypto_shut_arg how cb))

unfoldable pub goto_crypto_ssl : Fsm → Option Fsm
unfolding begin_transition
goto_crypto_ssl = begin_transition crypto_ssl none

-- `psl_chan_fsm_set_last_error` with kPslChanFsmErrorSource_psl
unfoldable pub set_last_error : PslError → Fsm → Option Fsm
set_last_error e f = psl_assert (is_error e) >> some (record f { last_error = e })

abbrev is_errno : Errno → Bool
is_errno Errno.success = false
is_errno _ = true

-- `psl_chan_fsm_set_last_error` with kPslChanFsmErrorSource_errno
unfoldable pub set_last_errno : Errno → Fsm → Option Fsm
unfolding pslerror_from_errno
set_last_errno e f =
    psl_assert (is_errno e) >> some (record f { last_error = pslerror_from_errno e failed })

-- `psl_chan_fsm_evt_make_full_CHECK_IO_response`
unfoldable pub full_check_io : Hint → Hint → ℤ → Fsm → Fsm × Status
full_check_io r w s f =
    (record f { reply = record (f.reply) { readable = r; writeable = w; sock = s } }, success)

-- `psl_chan_fsm_evt_make_simple_CHECK_IO_response`
unfoldable pub simple_check_io : Hint → ℤ → Fsm → Fsm × Status
unfolding full_check_io
simple_check_io h s f = full_check_io h h s f

-- `psl_multi_fd_watch_reset(pFsm->fdWatchInfo.fdWatch)`; the watch is a NULL pointer once destroyed.
unfoldable pub reset_watch : Fsm → Option Fsm
reset_watch f = f.watch >>= λ w. some (record f { watch = some (reset w) })

-- `psl_chan_fsm_sched_fdwatch_completion_cb`
unfoldable pub sched_completion : CompletionCb → PslError → Bool → Fsm → Option Fsm
sched_completion cb e to_crypto f = do
  psl_assert f.in_fd_watch_cb
  psl_assert (is_no_cb f.completion.cb)
  some (record f { completion = record { cb = cb; psl_err = e; switching_to_crypto = to_crypto } })
