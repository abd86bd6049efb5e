-- ===== src/Crypto/Shutdown.antt =====
-- Shutting down a session: crypto_do_shutdown of src/psl_channel_fsm_crypto.c.
-- `none` is a failed assertion, or that the rounds given were not enough.
use libpalmsocket.Base.{
  ℕ, zero, suc, Bool, true, false, not, ◌||◌, Option, none, some, negsuc, if◌then◌else◌, ◌>>=◌,
  ◌>>◌, psl_assert,
}
use libpalmsocket.Errors.{PslError, no_error, ssl_want_read, ssl_want_write, is_error}
use libpalmsocket.Errors.Openssl.{ssl_channel_error}
use libpalmsocket.FdWatch.Conditions.{only_out}
use libpalmsocket.Fsm.Types.{ShutKind, one_way, two_way}
use libpalmsocket.Fsm.Transitions.{reset_watch, set_last_error}
use libpalmsocket.Crypto.Types.{channel_error}
use libpalmsocket.Crypto.Watching.{only_in, update_watch}
use libpalmsocket.Crypto.Machine.{
  ShutPhase, shut1, shut2, shut_success, shut_failed, ShutdownResult, shut_both, shut_sent,
  shut_fails, Machine, OpensslCtl, on_fsm, on_io, reset_cond,
}

abbrev pub is_shut1 : ShutPhase → Bool
is_shut1 shut1 = true
is_shut1 _ = false

abbrev pub is_shut2 : ShutPhase → Bool
is_shut2 shut2 = true
is_shut2 _ = false

abbrev pub is_two_way : ShutKind → Bool
is_two_way two_way = true
is_two_way one_way = false

module _ {S : Type 0} (o : OpensslCtl S) where
  -- `good_exit` with an error of the WANT kind, and `error_exit`
  abbrev pub shut_error : PslError → Machine S → Option (Machine S × PslError)
  shut_error ssl_want_read m = on_io (update_watch only_in) m >>= λ n. some (n, no_error)
  shut_error ssl_want_write m = on_io (update_watch only_out) m >>= λ n. some (n, no_error)
  shut_error e m = do
    n ← reset_cond (record m { shut_phase = shut_failed })
    k ← on_fsm (set_last_error e) n
    some (k, e)

  abbrev pub shut_fail : S → Machine S → Option (Machine S × PslError)
  shut_fail s m = do
    e ← channel_error o.io.codes (o.failure_at (negsuc 0) s)
    psl_assert (is_error e)
    shut_error e m

  abbrev pub shut_good : Machine S → Option (Machine S × PslError)
  shut_good m = reset_cond (record m { shut_phase = shut_success }) >>= λ n. some (n, no_error)

  -- What follows a call of SSL_shutdown; `again` is the rest of the loop. A result of 0 counts as a
  -- failure while SSL_want asks for something.
  abbrev pub shut_by :
      (Machine S → Option (Machine S × PslError))
      → ShutKind
      → ShutdownResult × S
      → Machine S
      → Option (Machine S × PslError)
  shut_by again how (shut_both, s) m = shut_good (record m { ssl = some s })
  shut_by again how (shut_fails, s) m = shut_fail s (record m { ssl = some s })
  shut_by again how (shut_sent, s) m =
      if not (o.wants_nothing s)
      then shut_fail s (record m { ssl = some s })
      else if is_two_way how
      then again (record m { ssl = some s; shut_phase = shut2 })
      else shut_good (record m { ssl = some s })

  unfoldable pub shutdown_loop : ℕ → ShutKind → Machine S → Option (Machine S × PslError)
  shutdown_loop zero how m = none
  shutdown_loop (suc n) how m =
      m.ssl >>= λ s. shut_by (λ k. shutdown_loop n how k) how (o.ssl_shutdown s) m

  -- `crypto_do_shutdown`: the phase is that of `m`; at most `n` rounds
  unfoldable pub do_shutdown : ℕ → ShutKind → Machine S → Option (Machine S × PslError)
  unfolding shutdown_loop ssl_channel_error update_watch reset_watch set_last_error
  do_shutdown n how m =
      psl_assert (is_shut1 m.shut_phase || is_shut2 m.shut_phase)
      >> psl_assert (is_shut1 m.shut_phase || is_two_way how)
      >> shutdown_loop n how m
