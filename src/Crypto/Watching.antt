-- ===== src/Crypto/Watching.antt =====
-- What the crypto states wait for on the channel's descriptor: the functions of
-- src/psl_channel_fsm_crypto.c that give hints of readiness and that set up the watch.
use libpalmsocket.Base.{Bool, true, false, not, ◌&&◌, ◌||◌, Option, some, if◌then◌else◌, ◌>>=◌}
use libpalmsocket.Errors.{PslError, ssl_clean_eof}
use libpalmsocket.FdWatch.{add_or_update_fd}
use libpalmsocket.FdWatch.Conditions.{Condition, nothing, only_out}
use libpalmsocket.Fsm.Types.{Hint, hint_not_ready, hint_ready, hint_ready_hup}
use libpalmsocket.Fsm.Transitions.{reset_watch}
use libpalmsocket.Crypto.Types.{
  SslIoState, io_want_read, io_want_write, io_pending, is_io_error, CryptoInput, CryptoOutput, Io,
}

-- G_IO_IN
abbrev pub only_in : Condition
only_in = record nothing { io_in = true }

abbrev pub is_clean_eof : PslError → Bool
is_clean_eof ssl_clean_eof = true
is_clean_eof _ = false

-- `crypto_get_input_ready_hint`; its assertion is on what a sticky error has.
unfoldable pub input_ready_hint : CryptoInput → Hint
input_ready_hint i =
    if io_pending i.io_state
    then hint_not_ready
    else if is_io_error i.io_state && not (is_clean_eof i.psl_err)
    then hint_ready_hup
    else hint_ready

-- `crypto_get_output_ready_hint`
unfoldable pub output_ready_hint : CryptoOutput → Hint
output_ready_hint out =
    if io_pending out.io_state
    then hint_not_ready
    else if is_io_error out.io_state
    then hint_ready_hup
    else hint_ready

-- `crypto_giocondition_from_chanssl_iostate`
unfoldable pub giocondition_from_iostate : SslIoState → Condition
giocondition_from_iostate io_want_read = only_in
giocondition_from_iostate io_want_write = only_out
giocondition_from_iostate _ = nothing

abbrev eq_flag : Bool → Bool → Bool
eq_flag true b = b
eq_flag false b = not b

abbrev pub eq_cond : Condition → Condition → Bool
eq_cond a b =
    eq_flag a.io_in b.io_in
    && eq_flag a.io_pri b.io_pri
    && eq_flag a.io_out b.io_out
    && eq_flag a.io_err b.io_err
    && eq_flag a.io_hup b.io_hup
    && eq_flag a.io_nval b.io_nval

-- the flags of either, `a | b`
abbrev pub either_cond : Condition → Condition → Condition
either_cond a b = record {
  io_in = a.io_in || b.io_in;
  io_pri = a.io_pri || b.io_pri;
  io_out = a.io_out || b.io_out;
  io_err = a.io_err || b.io_err;
  io_hup = a.io_hup || b.io_hup;
  io_nval = a.io_nval || b.io_nval;
}

module _ {S : Type 0} where
  -- `crypto_update_multi_fd_watch_giocondition`; the watch is a NULL pointer once destroyed.
  unfoldable pub update_watch : Condition → Io S → Option (Io S)
  unfolding add_or_update_fd
  update_watch cond c =
      if eq_cond cond c.last_cond
      then some c
      else (c.fsm.watch >>= λ w. some (record c {
        fsm = record (c.fsm) { watch = some (add_or_update_fd w c.fsm.fd cond) };
        last_cond = cond;
      }))

  -- `crypto_reset_multi_fd_watch`
  unfoldable pub reset_crypto_watch : Io S → Option (Io S)
  unfolding reset_watch
  reset_crypto_watch c = reset_watch c.fsm >>= λ f. some (record c { fsm = f; last_cond = nothing })

  -- `crypto_schedule_deferred_ssl_io`
  unfoldable pub schedule_deferred_ssl_io : Io S → Option (Io S)
  unfolding update_watch giocondition_from_iostate
  schedule_deferred_ssl_io c =
      update_watch
        (either_cond (giocondition_from_iostate c.input.io_state)
          (giocondition_from_iostate c.output.io_state))
        c
