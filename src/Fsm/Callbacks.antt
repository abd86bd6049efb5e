-- ===== src/Fsm/Callbacks.antt =====
-- Calling the user back: psl_chan_fsm_dispatch_completion_cb and chan_fsm_fd_watch_cb of
-- src/psl_channel_fsm_main.c. A call of the user's function is an entry of the trace.
use libpalmsocket.Base.{
  Bool, true, false, not, Option, some, List, ◌∷◌, ◌>>=◌, ◌>>◌, psl_assert, if◌then◌else◌,
}
use libpalmsocket.Errors.{PslError}
use libpalmsocket.FdWatch.Table.{PollRec}
use libpalmsocket.Fsm.Types.{Status, CompletionCb, no_cb, UserEvent, fd_watch, Fsm, user_callback}

abbrev call_back : CompletionCb → PslError → Bool → Fsm → Fsm
call_back no_cb e to_crypto f = f
call_back cb e to_crypto f = record f { calls = user_callback cb e to_crypto ∷ f.calls }

-- `psl_chan_fsm_dispatch_completion_cb`
unfoldable pub dispatch_completion_cb : CompletionCb → PslError → Bool → Fsm → Fsm
dispatch_completion_cb cb e to_crypto f = if f.fsm_closed then f else call_back cb e to_crypto f

abbrev watch_done : Fsm → Fsm
watch_done f = record f { in_fd_watch_cb = false }

abbrev forget_cb : Fsm → Fsm
forget_cb f = record f { completion = record (f.completion) { cb = no_cb } }

abbrev pub complete : CompletionCb → Fsm → Fsm
unfolding dispatch_completion_cb
complete no_cb f = watch_done f
complete cb f =
    watch_done (
      forget_cb (dispatch_completion_cb cb f.completion.psl_err f.completion.switching_to_crypto f))

-- `chan_fsm_fd_watch_cb`, given the dispatch of events
unfoldable pub fd_watch_cb :
    (UserEvent → Fsm → Option (Fsm × Status)) → List PollRec → Fsm → Option Fsm
unfolding dispatch_completion_cb
fd_watch_cb dispatch recs f = do
  psl_assert (not f.in_fd_watch_cb)
  (g, status) ← dispatch (fd_watch recs) (record f { in_fd_watch_cb = true })
  some (complete g.completion.cb g)
