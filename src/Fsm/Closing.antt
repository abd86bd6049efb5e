-- ===== src/Fsm/Closing.antt =====
-- Closing and finalizing a channel: the CLOSED and FINAL states of src/psl_channel_fsm_main.c.
use libpalmsocket.Base.{
  ◌≡◌, ◌⊎◌, inl, inr, refl, ◌∙◌, true, false, Option, none, some, List, ◌∷◌, arith,
}
use libpalmsocket.FdWatch.Table.{PollRec}
use libpalmsocket.Fsm.Types.{
  Status, success, enter_scope, UserEvent, fd_watch, Fsm, closed_fd_value, CompletionCb, no_cb,
  user_callback,
}
use libpalmsocket.Fsm.Main.{closed_handler, final_handler, destroy_widgets}
use libpalmsocket.Fsm.Callbacks.{complete, fd_watch_cb, dispatch_completion_cb}

-- Entering CLOSED a second time changes nothing: no descriptor is closed twice.
pub closed_handler-closed_handler :
    (f : Fsm) {g h : Fsm} {s t : Status}
    → closed_handler enter_scope f ≡ some (g, s)
    → closed_handler enter_scope g ≡ some (h, t)
    → h ≡ g
unfolding closed_handler
closed_handler-closed_handler f p q = ground arith

-- The resources of a channel are released once: doing it again changes nothing.
pub destroy_widgets-destroy_widgets :
    (f : Fsm) → destroy_widgets (destroy_widgets f) ≡ destroy_widgets f
unfolding destroy_widgets
destroy_widgets-destroy_widgets f = ground arith

destroyed :
    (f : Fsm)
    → ((destroy_widgets f).fd ≡ f.fd)
      × ((destroy_widgets f).watch ≡ none)
      × ((destroy_widgets f).holds_thread_ctx ≡ false)
unfolding destroy_widgets
destroyed f = ground arith

has_closed :
    (f : Fsm) {g : Fsm} {s : Status}
    → closed_handler enter_scope f ≡ some (g, s)
    → (g.fsm_closed ≡ true) × (g.fd ≡ closed_fd_value)
unfolding closed_handler
has_closed f p = ground arith

-- A channel that has entered CLOSED may enter FINAL, where no assertion fails; it then is finalized,
-- has no descriptor and no watch, and holds no thread context.
pub final_handler-closed_handler :
    (f : Fsm) {g : Fsm} {s : Status}
    → closed_handler enter_scope f ≡ some (g, s)
    → (h : Fsm) × (final_handler enter_scope g ≡ some (h, success))
      × (h.fsm_finalized ≡ true)
      × (h.fd ≡ closed_fd_value)
      × (h.watch ≡ none)
      × (h.holds_thread_ctx ≡ false)
unfolding final_handler
final_handler-closed_handler f {g} p =
    let (fd, watch, ctx) = destroyed g in
    let (g_closed, g_fd) = has_closed f p in
    (
      record (destroy_widgets g) { fsm_finalized = true },
      rw g_closed refl,
      refl,
      fd ∙ g_fd,
      watch,
      ctx,
    )

completed :
    (cb : CompletionCb) (g : Fsm)
    → g.completion.cb ≡ cb
    → ((complete cb g).in_fd_watch_cb ≡ false)
      × ((complete cb g).completion.cb ≡ no_cb)
      × ((((complete cb g).calls ≡ g.calls) × ((g.fsm_closed ≡ true) ⊎ (cb ≡ no_cb)))
          ⊎ ((g.fsm_closed ≡ false)
              × ((complete cb g).calls
                  ≡ user_callback cb g.completion.psl_err g.completion.switching_to_crypto
                    ∷ g.calls)))
unfolding dispatch_completion_cb
completed no_cb g e = (refl, e, inl (refl, inr refl))
completed cb g e = ground arith

-- Where the dispatch of FD_WATCH returns, so does the callback of the watch that is not running yet: it
-- has called the user back at most once, after the event and with the completion that was scheduled; not
-- at all only if none was scheduled or the channel is closed. It leaves no completion scheduled and is not
-- running then.
pub fd_watch_cb_lem :
    (dispatch : UserEvent → Fsm → Option (Fsm × Status)) (recs : List PollRec) (f : Fsm) {g : Fsm}
    {s : Status}
    → f.in_fd_watch_cb ≡ false
    → dispatch (fd_watch recs) (record f { in_fd_watch_cb = true }) ≡ some (g, s)
    → (h : Fsm) × (fd_watch_cb dispatch recs f ≡ some h)
      × (h.in_fd_watch_cb ≡ false)
      × (h.completion.cb ≡ no_cb)
      × (((h.calls ≡ g.calls) × ((g.fsm_closed ≡ true) ⊎ (g.completion.cb ≡ no_cb)))
          ⊎ ((g.fsm_closed ≡ false)
              × (h.calls
                  ≡ user_callback g.completion.cb g.completion.psl_err
                      g.completion.switching_to_crypto
                    ∷ g.calls)))
unfolding fd_watch_cb
fd_watch_cb_lem dispatch recs f {g} p q =
    let (idle, no_completion, calls) = completed g.completion.cb g refl in
    (complete g.completion.cb g, rw (p, q) refl, idle, no_completion, calls)
