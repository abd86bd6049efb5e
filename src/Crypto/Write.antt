-- ===== src/Crypto/Write.antt =====
-- Writing to the SSL session: crypto_write_low of src/psl_channel_fsm_crypto.c.
-- `none` is a failed assertion.
use libpalmsocket.Base.{
  ℕ, zero, suc, ◌+◌, min, not, Option, none, some, List, [], ◌∷◌, ltb, if◌then◌else◌, ◌>>=◌, ◌>>◌,
  psl_assert, length, take, drop,
}
use libpalmsocket.Errors.{PslError, no_error, ssl_want_read, ssl_want_write, is_error}
use libpalmsocket.Fsm.Transitions.{set_last_error}
use libpalmsocket.Crypto.Types.{
  Failure, WriteResult, write_ok, write_failed, Openssl, channel_error, io_want_read, io_want_write,
  io_error, is_deferred, is_io_error, CryptoOutput, Io,
}

-- The variables of the loop: `*pNumWritten`, `*pDeferredWriteCnt` and `pslErrRes`.
pub record Writing (S : Type 0) : Type 0 where
  pub io : Io S
  pub num_written : ℕ
  pub deferred_cnt : ℕ
  pub psl_err : PslError

-- the `switch` on the error
abbrev pub output_failed : PslError → CryptoOutput → CryptoOutput
output_failed ssl_want_read i = record i { io_state = io_want_read }
output_failed ssl_want_write i = record i { io_state = io_want_write }
output_failed e i = record i { io_state = io_error; psl_err = e }

module _ {S : Type 0} (o : Openssl S) where
  -- what follows a failed `SSL_write` of `req` bytes; a sticky error is set as the last error here
  -- too
  abbrev pub write_error : ℕ → Failure → Writing S → Option (Writing S)
  write_error req x l = do
    e ← channel_error o.codes x
    psl_assert (is_error e)
    some (record l {
      io = record (l.io) {
        fsm = record (l.io.fsm) { last_error = if is_deferred e then l.io.fsm.last_error else e };
        output = output_failed e l.io.output;
      };
      deferred_cnt = if is_deferred e then req else l.deferred_cnt;
      psl_err = e;
    })

  abbrev pub wrote : ℕ → S → Writing S → Writing S
  wrote n s l = record l { io = record (l.io) { ssl = s }; num_written = l.num_written + n }

  -- the rest of a round by the result of its write; `go` goes on after a count of bytes
  abbrev pub write_by :
      ℕ → (ℕ → Writing S → Option (Writing S)) → WriteResult × S → Writing S → Option (Writing S)
  write_by req go (write_ok k, s) l = go k (wrote k s l)
  write_by req go (write_failed x, s) l =
      write_error req x (record l { io = record (l.io) { ssl = s } })

  -- The loop over the bytes that are left. A round that does not end it writes a byte or more, so the
  -- first argument, which bounds the rounds, is enough if it is their count.
  unfoldable pub write_loop : ℕ → ℕ → List ℕ → Writing S → Option (Writing S)
  write_loop n max [] l = some l
  write_loop zero max (b ∷ bs) l = none
  write_loop (suc n) max (b ∷ bs) l =
      write_by (min (length (b ∷ bs)) max) (λ k l'. write_loop n max (drop k (b ∷ bs)) l')
        (o.ssl_write (take (min (length (b ∷ bs)) max) (b ∷ bs)) l.io.ssl) l

  abbrev pub write_ended : Writing S → Option (Writing S)
  write_ended l =
      if is_error l.psl_err
      then (set_last_error l.psl_err l.io.fsm >>= λ f.
          some (record l { io = record (l.io) { fsm = f } }))
      else some l

  -- `crypto_write_low`
  unfoldable pub write_low : List ℕ → ℕ → Io S → Option (Writing S)
  unfolding write_loop set_last_error
  write_low src max c = do
    psl_assert (ltb 0 max)
    psl_assert (not (is_io_error c.output.io_state))
    l ←
        write_loop (length src) max src
          (record { io = c; num_written = 0; deferred_cnt = 0; psl_err = no_error })
    write_ended l
