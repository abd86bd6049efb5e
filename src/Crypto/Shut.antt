-- ===== src/Crypto/Shut.antt =====
-- The crypto state SHUT of src/psl_channel_fsm_crypto.c. `none` is a failed assertion, a NULL pointer
-- that is followed, or that the rounds given to crypto_do_shutdown were not enough.
use libpalmsocket.Base.{
  ℕ, Bool, true, false, not, ◌&&◌, ◌||◌, Option, none, some, List, [], ◌∷◌, if◌then◌else◌, ◌>>=◌,
  ◌>>◌, psl_assert,
}
use libpalmsocket.Errors.{PslError, no_error, is_error}
use libpalmsocket.FdWatch.Conditions.{Condition, nothing}
use libpalmsocket.FdWatch.Table.{PollRec}
use libpalmsocket.Fsm.Types.{
  Status, success, error, ShutKind, one_way, two_way, CompletionCb, switch_cb, BeginArg,
  crypto_shut_arg, Hint, hint_ready, hint_not_ready, UserEvent, Event, enter_scope, exit_scope,
  begin, user, GioStatus, gio_status_again, gio_status_eof,
}
use libpalmsocket.Fsm.Transitions.{
  full_check_io, sched_completion, goto_crypto_fail, goto_crypto_shut, goto_plain_tcp,
}
use libpalmsocket.Fsm.Io.{replied}
use libpalmsocket.Crypto.Types.{io_idle, io_pending, is_io_error, CryptoInput}
use libpalmsocket.Crypto.Watching.{input_ready_hint}
use libpalmsocket.Crypto.Deferred.{fresh_none, process_deferred_ssl_io}
use libpalmsocket.Crypto.Machine.{
  ShutPhase, shut_init, shut_flush_out, shut1, shut_success, shut_failed, Machine, OpensslCtl,
  on_fsm, on_io, reset_cond, dispatch_soon,
}
use libpalmsocket.Crypto.Shutdown.{is_shut1, is_shut2, is_two_way, do_shutdown}
use libpalmsocket.Crypto.States.{handled, passed, checked, read_session}

abbrev pub is_shut_init : ShutPhase → Bool
is_shut_init shut_init = true
is_shut_init _ = false

abbrev pub is_shut_flush : ShutPhase → Bool
is_shut_flush shut_flush_out = true
is_shut_flush _ = false

abbrev pub is_shut_success : ShutPhase → Bool
is_shut_success shut_success = true
is_shut_success _ = false

abbrev pub is_shut_failed : ShutPhase → Bool
is_shut_failed shut_failed = true
is_shut_failed _ = false

abbrev pub is_switch_cb : CompletionCb → Bool
is_switch_cb (switch_cb _) = true
is_switch_cb _ = false

-- `pollrecs[0].indEvents` where there is exactly one
abbrev pub indicated_by : List PollRec → Condition
indicated_by (r ∷ []) = r.ind_events
indicated_by _ = nothing

-- a deferred read is cancelled, with the byte
abbrev cancel_input : CryptoInput → CryptoInput
cancel_input i = record i {
  io_state = if io_pending i.io_state then io_idle else i.io_state;
  byte_available = if io_pending i.io_state then false else i.byte_available;
}

module _ {S : Type 0} (o : OpensslCtl S) where
  abbrev begin_shut : Option BeginArg → Machine S → Option (Machine S × Status)
  begin_shut (some (crypto_shut_arg how cb)) m = do
    n ← reset_cond (record m { shut_how = how; shut_cb = cb })
    k ←
        dispatch_soon
          (record n { input = if is_two_way how then cancel_input n.input else n.input })
    some (k, success)
  begin_shut _ m = none

  abbrev resume_plaintext : Machine S → Option (Machine S × Status)
  resume_plaintext m =
      if not (is_shut_success m.shut_phase)
      then passed m
      else m.ssl >>= λ s.
          (let (sent, received) = o.get_shutdown s in
            if sent && received then handled success (on_fsm goto_plain_tcp m) else passed m)

  -- a switch from one-way to two-way
  abbrev shut_crypto : ShutKind → CompletionCb → Machine S → Option (Machine S × Status)
  shut_crypto two_way cb m =
      if is_two_way m.shut_how
      then passed m
      else handled success (on_fsm (goto_crypto_shut two_way cb) m)
  shut_crypto one_way cb m = passed m

  -- the hints; the input is read by one-way shutdown alone, and in some phases
  abbrev pub shut_write_hint : ShutPhase → Hint
  shut_write_hint p = if is_shut_success p then hint_ready else hint_not_ready

  abbrev pub shut_read_hint : ShutKind → ShutPhase → CryptoInput → Hint
  shut_read_hint two_way p i = if is_shut_success p then hint_ready else hint_not_ready
  shut_read_hint one_way p i =
      if is_shut_success p || is_shut_flush p then input_ready_hint i else hint_not_ready

  abbrev shut_check : Machine S → Option (Machine S × Status)
  shut_check m =
      psl_assert (not (is_shut_failed m.shut_phase))
      >> checked
          (full_check_io (shut_read_hint m.shut_how m.shut_phase m.input)
            (shut_write_hint m.shut_phase) m.fsm.fd)
          m

  abbrev refresh : Condition → Machine S → Option (Machine S)
  refresh cond m = on_io (process_deferred_ssl_io o.io fresh_none cond) m

  abbrev pub shut_fails_with : PslError → Machine S → Option (Machine S × Status)
  shut_fails_with e m = do
    f ← sched_completion m.shut_cb e false m.fsm
    f' ← goto_crypto_fail e f
    some (record m { fsm = f' }, error)

  -- Completed. A request through the legacy interface goes on in plaintext.
  abbrev pub shut_completes : Machine S → Option (Machine S × Status)
  shut_completes m = do
    f ← sched_completion m.shut_cb no_error false m.fsm
    let n : Machine S = record m { fsm = f }
    if is_switch_cb n.shut_cb
        then psl_assert (is_two_way n.shut_how) >> handled success (on_fsm goto_plain_tcp n)
        else handled success
            (reset_cond n >>= λ k. if is_two_way k.shut_how then some k else refresh nothing k)

  abbrev pub shut_went : PslError → Machine S → Option (Machine S × Status)
  shut_went e m =
      if is_error e
      then shut_fails_with e m
      else psl_assert (not (is_shut_failed m.shut_phase))
        >> (if is_shut_success m.shut_phase then shut_completes m else some (m, success))

  -- A sticky output error ends the shutdown before it is tried.
  abbrev pub shut_try : ℕ → Machine S → Option (Machine S × Status)
  shut_try n m =
      if is_io_error m.output.io_state
      then psl_assert (is_error m.output.psl_err) >> shut_went m.output.psl_err m
      else (do_shutdown o n m.shut_how m >>= λ r. shut_went r.1 r.0)

  abbrev shut_flushed : ℕ → Machine S → Option (Machine S × Status)
  shut_flushed n m =
      if io_pending m.output.io_state
      then some (m, success)
      else (reset_cond m >>= λ k. shut_try n (record k { shut_phase = shut1 }))

  abbrev leave_init : Machine S → Option (Machine S)
  leave_init m =
      if is_shut_init m.shut_phase
      then reset_cond (record m { shut_phase = shut_flush_out })
      else some m

  abbrev shut_watch : ℕ → Condition → Machine S → Option (Machine S × Status)
  shut_watch n cond m = leave_init m >>= λ k.
      if is_shut_success k.shut_phase
      then psl_assert (not (is_two_way k.shut_how)) >> handled success (refresh cond k)
      else if is_shut_flush k.shut_phase
      then (refresh cond k >>= shut_flushed n)
      else if is_shut1 k.shut_phase || is_shut2 k.shut_phase
      then shut_try n k
      else some (k, success)

  abbrev read_answer : GioStatus → Machine S → Option (Machine S × Status)
  read_answer gio m = some (record m { fsm = replied gio 0 m.fsm; user_buf = [] }, success)

  abbrev shut_read : ℕ → Machine S → Option (Machine S × Status)
  shut_read cnt m =
      if is_two_way m.shut_how
      then read_answer (if is_shut_success m.shut_phase then gio_status_eof else gio_status_again) m
      else if is_shut_success m.shut_phase || is_shut_flush m.shut_phase
      then read_session o cnt m
      else read_answer gio_status_again m

  abbrev shut_user : ℕ → UserEvent → Machine S → Option (Machine S × Status)
  shut_user n UserEvent.resume_plaintext m = resume_plaintext m
  shut_user n (UserEvent.shut_crypto how cb) m = shut_crypto how cb m
  shut_user n UserEvent.check_io m = shut_check m
  shut_user n (UserEvent.fd_watch recs) m = shut_watch n (indicated_by recs) m
  shut_user n (UserEvent.read cnt) m = shut_read cnt m
  shut_user n _ m = passed m

  -- `crypto_shut_state_handler`, with the bound of the rounds of `crypto_do_shutdown`
  unfoldable pub crypto_shut_handler : ℕ → Event → Machine S → Option (Machine S × Status)
  unfolding do_shutdown process_deferred_ssl_io sched_completion goto_plain_tcp full_check_io
  crypto_shut_handler n enter_scope m = some (record m { shut_phase = shut_init }, success)
  crypto_shut_handler n exit_scope m = handled success (reset_cond m)
  crypto_shut_handler n (begin a) m = begin_shut a m
  crypto_shut_handler n (user e) m = shut_user n e m
